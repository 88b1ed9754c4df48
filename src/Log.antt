-- ===== src/Log.antt =====
-- The log, libs/app_utils/src/log.c: its files, and their change when one is large enough.
pub mod Disk
pub mod Records
pub mod Sizes
pub mod Start
mod Tests
use linux_dev_framework.Base.{
  ltb, leb, ◌==◌, if◌then◌else◌, ltb→lt, lt→ltb, leb→le, ==_iff, ==_refl, Bool-cases, Option-cases,
  ◌>>=◌, some_inj, tests, length, get_elem?, get_or, set, take, drop, replicate, all, length-append,
  length-set, get_elem?-set_self, get_elem?-set_ne, get_elem?-lt, take-append-drop, take-length,
  length-take, length-drop, length-replicate, get_elem?-none, get_elem?-append_left,
  get_elem?-append_right, get_elem?-replicate, chars, token, strtok, Free, token-word, token-last,
  strtok-last, strtok-word, digits, decimal, digit?, digit_of, number_from, strchr, strrchr,
  magnitude, strtol, strtoul16, signed, blank?, atoi, number_from-digits, digits-first,
  strtol-decimal, strchr-first, strchr-none, Free-append, strrchr-end, digits-append, digits-Free,
  ℕ, zero, suc, ◌+◌, ◌-◌, ◌*◌, ◌/◌, ◌%◌, ◌^◌, ◌≤◌, ◌<◌, min, max, ◌≡◌, refl, sym, ap, ap₂, ◌∙◌,
  subst, fun_ext, ◌≢◌, ◌↔◌, ◌⊎◌, inl, inr, Bool, true, false, not, ◌&&◌, ◌||◌, Option, none, some,
  List, [], ◌∷◌, ◌++◌, map, append_assoc, append-nil, arith,
}
use linux_dev_framework.StringUtils.{streq}

-- The files by name, in the order in which they were created.
pub record File : Type 0 where
  pub name : List ℕ
  pub content : List ℕ

-- `open` with O_CREAT and O_TRUNC.
unfoldable pub open_trunc : (name : List ℕ) → List File → List File
open_trunc n [] = record { name = n; content = [] } ∷ []
open_trunc n (f ∷ disk) =
    let rest = open_trunc n disk in
    if streq n f.name then record f { content = [] } ∷ disk else f ∷ rest

-- `write` with O_APPEND.
unfoldable pub append_to : (name bytes : List ℕ) → List File → List File
append_to n bytes [] = []
append_to n bytes (f ∷ disk) =
    let rest = append_to n bytes disk in
    if streq n f.name then record f { content = f.content ++ bytes } ∷ disk else f ∷ rest

-- `st_size` of a file.
unfoldable pub size_of : (name : List ℕ) → List File → ℕ
size_of n [] = 0
size_of n (f ∷ disk) = if streq n f.name then length f.content else size_of n disk

-- The global variables; the descriptor is that of the file `log_file_name`.
pub record Log : Type 0 where
  pub log_file_name : List ℕ
  pub old_log_file_name : List ℕ
  pub max_log_file_size : ℕ
  pub log_inited : Bool
  pub disk : List File

-- What the system calls of a call give: the time as `strftime` prints it, whether `open` succeeds,
-- and what `write` returns, none for an error.
pub record Answers : Type 0 where
  pub time : List ℕ
  pub opens : Bool
  pub written : Option ℕ

-- `new_log_file_name`
unfoldable pub new_log_file_name : (time : List ℕ) → Log → Log
new_log_file_name time l = record l { log_file_name = l.old_log_file_name ++ time }

-- Nothing when the program exits.
abbrev pub open_file : Answers → Log → Option Log
open_file a l =
    if a.opens then some (record l { disk = open_trunc l.log_file_name l.disk }) else none

unfoldable pub init_log : (file_name : List ℕ) (file_size : ℕ) → Answers → Log → Option Log
init_log file_name file_size a l =
    if l.log_inited
    then some l
    else open_file a (
        new_log_file_name a.time
          (record l { old_log_file_name = file_name; max_log_file_size = file_size }))
      >>= λ opened. some (record opened { log_inited = true })

-- The file is changed when it has reached its size.
abbrev pub rotate : Answers → Log → Option Log
rotate a l =
    if leb l.max_log_file_size (size_of l.log_file_name l.disk)
    then open_file a (new_log_file_name a.time l)
    else some l

-- `write`: nothing for an error, and at most what it is given.
abbrev pub put : Answers → (buf : List ℕ) → Log → Option Log
put a buf l =
    a.written >>= λ n. some (record l { disk = append_to l.log_file_name (take n buf) l.disk })

abbrev pub done : Log → Option (Bool × Log)
done l = some (true, l)

abbrev pub put_done : Answers → (buf : List ℕ) → Log → Option (Bool × Log)
put_done a buf l = put a buf l >>= done

-- The result is 0 when the flag holds, and -1 otherwise.
unfoldable pub write_file : Answers → (buf : List ℕ) → Log → Option (Bool × Log)
write_file a buf l = if l.log_inited then (rotate a l >>= put_done a buf) else some (false, l)

abbrev pub buf_size : ℕ
buf_size = 288

-- `write_log` with the time as `strftime` prints it for a line, and the text that the format gives.
-- Nothing also when the line and its terminator do not fit into `buf`, which the code writes beyond.
unfoldable pub write_log : Answers → (stamp text : List ℕ) → Log → Option (Bool × Log)
write_log a stamp text l =
    if leb (length stamp + length text + 2) buf_size
    then write_file a (stamp ++ text ++ 10 ∷ []) l
    else none

-- One call of `write_log`.
pub record Entry : Type 0 where
  pub answers : Answers
  pub stamp : List ℕ
  pub text : List ℕ

-- The calls one after the other.
unfoldable pub write_logs : List Entry → Log → Option Log
write_logs [] l = some l
write_logs (e ∷ es) l = write_log e.answers e.stamp e.text l >>= λ r. write_logs es r.1
