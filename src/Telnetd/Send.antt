-- ===== src/Telnetd/Send.antt =====
-- `trans_data_pty2sock` of libs/app_utils/src/telnetd4dbg.c.
use linux_dev_framework.Base.{
  take-length, ◌==◌, if◌then◌else◌, lt→ltb, length, take, ℕ, zero, suc, ◌+◌, ◌-◌, ◌<◌, ◌≡◌, refl,
  ap, ap₂, ◌∙◌, true, false, Option, some, List, [], ◌∷◌, arith,
}
use linux_dev_framework.StringUtils.{c_str}
use linux_dev_framework.StringUtils.Replace.{replace_char, str_replace_substr-char}
use linux_dev_framework.Telnetd.{Sender, Sent, do_send_data, trans_data_pty2sock}

-- What is sent, by the length that is left and the offset.
abbrev sent : (taken cache : List ℕ) (len ptr : ℕ) → Sent
sent taken cache len ptr = record {
  failed = false;
  taken = taken;
  sender = record { pty2sock_cache = cache; pty2sock_cache_len = len; cur_snd_ptr = ptr };
}

do_send_data-some :
    (cache : List ℕ) (len ptr n : ℕ)
    → 0 < n
    → do_send_data true
        (some n)
        (record { pty2sock_cache = cache; pty2sock_cache_len = len; cur_snd_ptr = ptr })
      ≡ sent (take n cache) cache (len - n) (ptr + n)
do_send_data-some cache len ptr zero h = absurd (omega (arith, h))
do_send_data-some cache len ptr (suc n) h = refl

-- The text of a read, up to its first zero, with a carriage return before every line feed.
abbrev pub crlf : List ℕ → List ℕ
crlf buf = replace_char 10 (13 ∷ 10 ∷ []) (c_str buf)

-- With nothing left to send and a socket that takes all it is offered, one call sends the text that
-- it reads with a carriage return before every line feed, and leaves nothing to send.
pub trans_data_pty2sock-whole :
    (buf : List ℕ) (s : Sender)
    → s.pty2sock_cache_len ≡ 0
    → 0 < length (crlf buf)
    → trans_data_pty2sock (some buf) true (some (length (crlf buf))) s
      ≡ some (record {
        failed = false;
        taken = crlf buf;
        sender = record {
          pty2sock_cache = crlf buf;
          pty2sock_cache_len = 0;
          cur_snd_ptr = length (crlf buf);
        };
      })
unfolding trans_data_pty2sock
trans_data_pty2sock-whole buf s idle text =
    rw (idle, str_replace_substr-char (c_str buf) (13 ∷ 10 ∷ []) 10) (all_sent (crlf buf) text)
  where
    all_sent :
        (out : List ℕ)
        → 0 < length out
        → some (
            if length out == 0
            then record {
              failed = false;
              taken = [];
              sender = record {
                pty2sock_cache = out;
                pty2sock_cache_len = length out;
                cur_snd_ptr = 0;
              };
            }
            else do_send_data true
                (some (length out))
                (record { pty2sock_cache = out; pty2sock_cache_len = length out; cur_snd_ptr = 0 }))
          ≡ some (record {
            failed = false;
            taken = out;
            sender = record {
              pty2sock_cache = out;
              pty2sock_cache_len = 0;
              cur_snd_ptr = length out;
            };
          })
    all_sent [] h = absurd (omega (arith, h))
    all_sent (c ∷ out) h =
        let z : (length (c ∷ out) == 0) ≡ false = ground arith in
        rw z (
          ap some (
            do_send_data-some (c ∷ out) (length (c ∷ out)) 0 (length (c ∷ out)) h
            ∙ rw (take-length out)
                (ap₂ (λ l p. sent (c ∷ out) (c ∷ out) l p) (omega arith) (omega arith))))

-- After the socket has taken the first `n` of the bytes to send, and not all, the next call offers
-- the bytes from the first on again: it repeats the first and never sends the last `n`.
pub partial_write_repeats :
    (got : Option (List ℕ)) (cache : List ℕ) (n : ℕ)
    → 0 < n
    → n < length cache
    → let left = length cache - n in
      trans_data_pty2sock got true
        (some left)
        (do_send_data true (some n) (record {
          pty2sock_cache = cache;
          pty2sock_cache_len = length cache;
          cur_snd_ptr = 0;
        })).sender
      ≡ some (record {
        failed = false;
        taken = take left cache;
        sender = record {
          pty2sock_cache = cache;
          pty2sock_cache_len = 0;
          cur_snd_ptr = length cache;
        };
      })
unfolding trans_data_pty2sock
partial_write_repeats got cache zero pos part = absurd (omega (arith, pos))
partial_write_repeats got cache (suc n) pos part =
    let left : ℕ = length cache - suc n in
    rw (lt→ltb 0 left (omega (arith, part))) (
      ap some (
        do_send_data-some cache left (0 + suc n) left (omega (arith, part))
        ∙ ap₂ (λ l p. sent (take left cache) cache l p) (omega arith) (omega (arith, part))))
