-- ===== src/MiscUtils/Tests.antt =====
-- The directory of a program, libs/app_utils/src/misc_utils.c.
use linux_dev_framework.Base.{leb, chars, ◌≡◌, refl, true, some, [], ◌∷◌, ◌++◌, arith}
use linux_dev_framework.MiscUtils.{get_self_dir, wait_for_file_exists}
use linux_dev_framework.MiscUtils.Dir.{get_self_dir-dir}

-- The file comes in the third second.
third : wait_for_file_exists 5 (λ t. leb 12 t) 10 ≡ (true, 12)
unfolding wait_for_file_exists
third = refl

get_self_dir-dir_example :
    get_self_dir (some (chars "/opt/" ++ 47 ∷ chars "app")) 64 ≡ some (chars "/opt/" ++ 47 ∷ [])
get_self_dir-dir_example =
    get_self_dir-dir (chars "/opt/") (chars "app") 64 (refl, (refl, (refl, tt))) (omega arith)
      (omega arith)
