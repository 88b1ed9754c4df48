-- ===== src/MiscUtils.antt =====
-- The directory of the program, libs/app_utils/src/misc_utils.c.
mod Dir
mod Tests
use linux_dev_framework.Base.{
  ltb, leb, ◌==◌, if◌then◌else◌, ltb→lt, lt→ltb, leb→le, ==_iff, ==_refl, Bool-cases, Option-cases,
  ◌>>=◌, some_inj, tests, length, get_elem?, get_or, set, take, drop, replicate, all, length-append,
  length-set, get_elem?-set_self, get_elem?-set_ne, get_elem?-lt, take-append-drop, take-length,
  length-take, length-drop, length-replicate, get_elem?-none, get_elem?-append_left,
  get_elem?-append_right, get_elem?-replicate, chars, token, strtok, Free, token-word, token-last,
  strtok-last, strtok-word, strchr, strrchr, strchr-first, strchr-none, Free-append, strrchr-end,
  digits, decimal, digit?, digit_of, number_from, magnitude, strtol, strtoul16, signed, blank?,
  atoi, number_from-digits, digits-first, strtol-decimal, digits-append, digits-Free, ℕ, zero, suc,
  ◌+◌, ◌-◌, ◌*◌, ◌/◌, ◌%◌, ◌^◌, ◌≤◌, ◌<◌, min, max, ◌≡◌, refl, sym, ap, ap₂, ◌∙◌, subst, fun_ext,
  ◌≢◌, ◌↔◌, ◌⊎◌, inl, inr, Bool, true, false, not, ◌&&◌, ◌||◌, Option, none, some, List, [], ◌∷◌,
  ◌++◌, map, append_assoc, append-nil, arith,
}

-- By what the link /proc/self/exe holds, none for a failure. `readlink` gives at most `buf_len` bytes.
unfoldable pub get_self_path : (link : Option (List ℕ)) (buf_len : ℕ) → Option (List ℕ)
get_self_path none buf_len = none
get_self_path (some path) buf_len =
    if leb buf_len (min (length path) buf_len) then none else some path

-- `path_len` behind the loop that goes back to a slash.
unfoldable pub back_to_slash : (self_path : List ℕ) (path_len : ℕ) → ℕ
back_to_slash path zero = 0
back_to_slash path (suc n) =
    let shorter = back_to_slash path n in if get_or path n 0 == 47 then suc n else shorter

abbrev pub max_file_path_len : ℕ
max_file_path_len = 1024

abbrev pub dir_of : Option (List ℕ) → (buf_len : ℕ) → Option (List ℕ)
dir_of none buf_len = none
dir_of (some path) buf_len =
    let path_len = back_to_slash path (length path) in
    if path_len == 0 then none else if leb buf_len path_len then none else some (take path_len path)

-- What is stored in `buf`; the result is its length, or -1 for none.
unfoldable pub get_self_dir : (link : Option (List ℕ)) (buf_len : ℕ) → Option (List ℕ)
get_self_dir link buf_len = dir_of (get_self_path link max_file_path_len) buf_len

-- By whether the file is there at each second, from one second on: the result, and the second at which
-- it is given.
unfoldable pub wait_for_file_exists : (sec : ℕ) (file_exists : ℕ → Bool) (at : ℕ) → Bool × ℕ
wait_for_file_exists zero file_exists at = (file_exists at, at)
wait_for_file_exists (suc sec) file_exists at =
    let later = wait_for_file_exists sec file_exists (at + 1) in
    if file_exists at then (true, at) else later
