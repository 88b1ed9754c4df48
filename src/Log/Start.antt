-- ===== src/Log/Start.antt =====
-- A log from its start in libs/app_utils/src/log.c, and a file that is changed twice in a second.
use linux_dev_framework.Base.{
  leb, if◌then◌else◌, ◌>>=◌, take, take-length, ◌≤◌, ◌≡◌, ap, ◌∙◌, true, none, some, ◌++◌, arith,
}
use linux_dev_framework.Log.{
  Log, Entry, open_trunc, append_to, size_of, new_log_file_name, open_file, write_log,
}
use linux_dev_framework.Log.Disk.{contents, Current, open_trunc-again, append_to-Current}
use linux_dev_framework.Log.Records.{line, Fine, write_log-step}

-- When the file is full and the new name is the same, as within one second, all that the file held is
-- lost: only the new line is in it.
pub write_log_same_name :
    (e : Entry) (l : Log) (c : Current l.log_file_name l.disk)
    → Fine e
    → l.log_inited ≡ true
    → l.max_log_file_size ≤ size_of l.log_file_name l.disk
    → l.old_log_file_name ++ e.answers.time ≡ l.log_file_name
    → (l' : Log) × (write_log e.answers e.stamp e.text l ≡ some (true, l'))
      × (contents l'.disk ≡ contents c.before ++ line e)
unfolding new_log_file_name
write_log_same_name e l c fine inited full same =
    let n = l.log_file_name in
    let (again, kept) = open_trunc-again n l.disk c in
    let (written, behind, size) = append_to-Current n (line e) (open_trunc n l.disk) again in
    let is_full : leb l.max_log_file_size (size_of n l.disk) ≡ true = ground (arith, full) in
    let l1 : Log = record l { disk = open_trunc n l.disk } in
    let l2 : Log = record l { disk = append_to n (line e) (open_trunc n l.disk) } in
    (
      l2,
      write_log-step e l l1 l2 fine inited
          (ap (λ b. if b then open_file e.answers (new_log_file_name e.answers.time l) else some l)
              is_full
            ∙ ap (λ m. open_file e.answers (record l { log_file_name = m })) same
            ∙ ap (λ b. if b then some l1 else none) fine.may_open)
          (ap
              (λ o. o >>= λ k.
                some (record l1 { disk = append_to n (take k (line e)) (open_trunc n l.disk) }))
              fine.writes_all
            ∙ ap (λ b. some (record l1 { disk = append_to n b (open_trunc n l.disk) }))
                (take-length (line e))),
      behind ∙ ap (λ x. x ++ line e) kept,
    )
