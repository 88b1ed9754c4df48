-- ===== src/Symbols/Dump/Tests.antt =====
-- The dump of 18 bytes.
use linux_dev_framework.Base.{chars, ◌%◌, ◌≡◌, refl, [], ◌∷◌, arith}
use linux_dev_framework.Net.Memory.{Mem}
use linux_dev_framework.Net.Text.{bytes_at}
use linux_dev_framework.Symbols.Dump.{rows, d}
use linux_dev_framework.Symbols.Dump.Bytes.{shown, shown-d}

abbrev letters : Mem
letters a = a % 256

two_rows :
    d letters 4096 18
    ≡ chars "1000            : 00 01 02 03 04 05 06 07 08 09 0a 0b 0c 0d 0e 0f : ****************\n"
      ∷ chars
          "1010            : 10 11                                           : **              \n"
      ∷ []
unfolding d rows
two_rows = refl

shown-d_example : shown (d letters 4096 18) ≡ bytes_at 18 letters 4096
shown-d_example = shown-d letters 4096 18 (λ a. omega arith)
