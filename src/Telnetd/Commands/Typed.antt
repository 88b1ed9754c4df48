-- ===== src/Telnetd/Commands/Typed.antt =====
-- What a line does that is typed at the prompt of libs/app_utils/src/telnetd4dbg.c.
use linux_dev_framework.Base.{◌==◌, ℕ, ◌≡◌, true, ◌||◌, none, List, [], ◌∷◌}
use linux_dev_framework.StringUtils.{isgraph}
use linux_dev_framework.Telnetd.{Shell}
use linux_dev_framework.Telnetd.Login.{Reader}

-- Graphic characters and blanks.
abbrev pub Typable : List ℕ → Type 0
Typable [] = Unit
Typable (c ∷ s) = ((c == 32) || isgraph c ≡ true) × Typable s

-- The reads wait for a byte.
abbrev pub waiting : Shell → Reader
waiting s = record { shell = s; two_byes = none }

-- The parts of a shell that typing leaves as they are.
pub record SameHistory (s t : Shell) : Type 0 where
  pub cmds : t.histotry_cmds ≡ s.histotry_cmds
  pub num : t.cur_histotry_cmds_num ≡ s.cur_histotry_cmds_num
  pub roll : t.cur_histotry_cmds_roll_idx ≡ s.cur_histotry_cmds_roll_idx
