-- ===== src/Log/Records.antt =====
-- What libs/app_utils/src/log.c keeps of what it is given.
use linux_dev_framework.Base.{
  leb, if◌then◌else◌, Bool-cases, ◌>>=◌, length, take-length, ℕ, ◌+◌, ◌≤◌, ◌≡◌, refl, sym, ap, ◌∙◌,
  inl, inr, true, false, none, some, List, [], ◌∷◌, ◌++◌, append_assoc, append-nil, arith,
}
use linux_dev_framework.StringUtils.{streq}
use linux_dev_framework.Log.{
  File, Log, Entry, open_trunc, append_to, size_of, new_log_file_name, rotate, put, done, put_done,
  write_file, write_log, write_logs,
}
use linux_dev_framework.Log.Disk.{Unused, contents, Current, open_trunc-Current, append_to-Current}

abbrev pub line : Entry → List ℕ
line e = e.stamp ++ e.text ++ 10 ∷ []

abbrev pub lines : List Entry → List ℕ
lines [] = []
lines (e ∷ es) = line e ++ lines es

-- A call whose line fits, that the system lets through, and writes whole.
pub record Fine (e : Entry) : Type 0 where
  pub short : length e.stamp + length e.text + 2 ≤ 288
  pub may_open : e.answers.opens ≡ true
  pub writes_all : e.answers.written ≡ some (length (line e))

abbrev pub AllFine : List Entry → Type 0
AllFine [] = Unit
AllFine (e ∷ es) = Fine e × AllFine es

-- The name of the file that the call may open.
abbrev pub name_of : (old : List ℕ) → Entry → List ℕ
name_of old e = old ++ e.answers.time

abbrev pub Apart : (old n : List ℕ) → List Entry → Type 0
Apart old n [] = Unit
Apart old n (e ∷ es) = (streq (name_of old e) n ≡ false) × Apart old n es

-- The names that the calls may open are new and differ.
abbrev pub NewNames : (old : List ℕ) → List Entry → List File → Type 0
NewNames old [] disk = Unit
NewNames old (e ∷ es) disk =
    Unused (name_of old e) disk × Apart old (name_of old e) es × NewNames old es disk

Unused-open_trunc :
    (n m : List ℕ) (disk : List File)
    → Unused n disk
    → streq n m ≡ false
    → Unused n (open_trunc m disk)
unfolding open_trunc
Unused-open_trunc n m [] u h = (h, tt)
Unused-open_trunc n m (f ∷ disk) (a, u) h = elim (Bool-cases (streq m f.name)) [
  | inl y ↦ rw y ((a, u))
  | inr no_match ↦ rw no_match ((a, Unused-open_trunc n m disk u h))
]

Unused-append_to :
    (n m bytes : List ℕ) (disk : List File) → Unused n disk → Unused n (append_to m bytes disk)
unfolding append_to
Unused-append_to n m bytes [] u = tt
Unused-append_to n m bytes (f ∷ disk) (a, u) = elim (Bool-cases (streq m f.name)) [
  | inl y ↦ rw y ((a, u))
  | inr no_match ↦ rw no_match ((a, Unused-append_to n m bytes disk u))
]

pub NewNames-open_trunc :
    (old m : List ℕ) (es : List Entry) (disk : List File)
    → NewNames old es disk
    → Apart old m es
    → NewNames old es (open_trunc m disk)
NewNames-open_trunc old m [] disk h a = tt
NewNames-open_trunc old m (e ∷ es) disk (u, p, h) (b, a) =
    (Unused-open_trunc (name_of old e) m disk u b, p, NewNames-open_trunc old m es disk h a)

NewNames-append_to :
    (old m bytes : List ℕ) (es : List Entry) (disk : List File)
    → NewNames old es disk
    → NewNames old es (append_to m bytes disk)
NewNames-append_to old m bytes [] disk h = tt
NewNames-append_to old m bytes (e ∷ es) disk (u, p, h) =
    (Unused-append_to (name_of old e) m bytes disk u, p, NewNames-append_to old m bytes es disk h)

-- A log that writes to the last of its files, and has new names to go on with.
pub record Ready (es : List Entry) (l : Log) : Type 0 where
  pub inited : l.log_inited ≡ true
  pub current : Current l.log_file_name l.disk
  pub new_names : NewNames l.old_log_file_name es l.disk

-- What a call makes of the log, when it opens a file in front of the write, or does not.
rotate-Ready :
    (e : Entry) (es : List Entry) (l : Log)
    → Fine e
    → Ready (e ∷ es) l
    → (l' : Log) × (rotate e.answers l ≡ some l')
      × Ready es l'
      × (contents l'.disk ≡ contents l.disk)
unfolding new_log_file_name
rotate-Ready e es l fine r =
    let (u, apart, rest) = r.new_names in
    let n = name_of l.old_log_file_name e in
    let (current, same, size) = open_trunc-Current n l.disk u in
    elim (Bool-cases (leb l.max_log_file_size (size_of l.log_file_name l.disk))) [
      | inl full ↦ (
        record l { log_file_name = n; disk = open_trunc n l.disk },
        rw (full, fine.may_open) refl,
        record {
          inited = r.inited;
          current = current;
          new_names = NewNames-open_trunc l.old_log_file_name n es l.disk rest apart;
        },
        same,
      )
      | inr room ↦ (
        l,
        rw room refl,
        record { inited = r.inited; current = r.current; new_names = rest },
        refl,
      )
    ]

put-Ready :
    (e : Entry) (es : List Entry) (l : Log)
    → Fine e
    → Ready es l
    → (l' : Log) × (put e.answers (line e) l ≡ some l')
      × Ready es l'
      × (contents l'.disk ≡ contents l.disk ++ line e)
put-Ready e es l fine r =
    let (current, same, size) = append_to-Current l.log_file_name (line e) l.disk r.current in
    (
      record l { disk = append_to l.log_file_name (line e) l.disk },
      rw fine.writes_all (
          ap (λ b. some (record l { disk = append_to l.log_file_name b l.disk }))
            (take-length (line e))),
      record {
        inited = r.inited;
        current = current;
        new_names =
            NewNames-append_to l.old_log_file_name l.log_file_name (line e) es l.disk r.new_names;
      },
      same,
    )

-- The parts of a call, one after the other.
pub write_log-step :
    (e : Entry) (l l1 l2 : Log)
    → Fine e
    → l.log_inited ≡ true
    → rotate e.answers l ≡ some l1
    → put e.answers (line e) l1 ≡ some l2
    → write_log e.answers e.stamp e.text l ≡ some (true, l2)
unfolding write_log write_file
write_log-step e l l1 l2 fine inited e1 e2 =
    let short : leb (length e.stamp + length e.text + 2) 288 ≡ true = ground (arith, fine.short) in
    ap (λ b. if b then write_file e.answers (line e) l else none) short
    ∙ ap (λ b. if b then (rotate e.answers l >>= put_done e.answers (line e)) else some (false, l))
        inited
    ∙ ap (λ o. o >>= put_done e.answers (line e)) e1
    ∙ ap (λ o. o >>= done) e2

write_log-Ready :
    (e : Entry) (es : List Entry) (l : Log)
    → Fine e
    → Ready (e ∷ es) l
    → (l' : Log) × (write_log e.answers e.stamp e.text l ≡ some (true, l'))
      × Ready es l'
      × (contents l'.disk ≡ contents l.disk ++ line e)
write_log-Ready e es l fine r =
    let (l1, e1, r1, c1) = rotate-Ready e es l fine r in
    let (l2, e2, r2, c2) = put-Ready e es l1 fine r1 in
    (l2, write_log-step e l l1 l2 fine r.inited e1 e2, r2, c2 ∙ ap (λ c. c ++ line e) c1)

-- When the names of new files are new and differ, and the system calls succeed, all lines of any
-- sequence of calls are in the files, whole, in their order, and behind what was in them, however
-- often the file was changed.
pub write_logs-lines :
    (es : List Entry) (l : Log)
    → AllFine es
    → Ready es l
    → (l' : Log) × (write_logs es l ≡ some l') × (contents l'.disk ≡ contents l.disk ++ lines es)
unfolding write_logs
write_logs-lines [] l fine r = (l, refl, sym (append-nil (contents l.disk)))
write_logs-lines (e ∷ es) l (fine, all_fine) r =
    let (l1, e1, r1, c1) = write_log-Ready e es l fine r in
    let (l2, e2, c2) = write_logs-lines es l1 all_fine r1 in
    (
      l2,
      ap (λ o. o >>= λ p. write_logs es p.1) e1 ∙ e2,
      c2 ∙ ap (λ c. c ++ lines es) c1 ∙ append_assoc (contents l.disk) (line e) (lines es),
    )
