-- ===== src/Audio/Files.antt =====
-- A file sent and received by apps/data_in_audio/main.c.
use linux_dev_framework.Base.{
  ◌==◌, length, take, replicate, ℕ, zero, suc, ◌+◌, ◌*◌, ◌%◌, ◌^◌, ◌≤◌, ◌<◌, ◌≡◌, refl, ap, ◌∙◌,
  false, Option, some, List, [], ◌∷◌, ◌++◌, append_assoc, arith,
}
use linux_dev_framework.Audio.{
  size_bytes, sync_high, sync_low, server_mode, sync, Reception, written, receive_data,
  receive_size, after_sync, client_mode,
}

-- Results of `demodulate_byte` with no error.
abbrev pub heard : List ℕ → List (Option ℕ)
heard [] = []
heard (b ∷ bytes) = some b ∷ heard bytes

-- No byte could begin a synchronisation word.
abbrev pub Quiet : List ℕ → Type 0
Quiet [] = Unit
Quiet (b ∷ bytes) = ((b == sync_high) ≡ false) × Quiet bytes

heard-append : (a b : List ℕ) → heard (a ++ b) ≡ heard a ++ heard b
heard-append [] b = refl
heard-append (x ∷ a) b = ap (λ l. some x ∷ l) (heard-append a b)

sync-Quiet :
    (noise : List ℕ) (rest : List (Option ℕ))
    → Quiet noise
    → sync false (heard noise ++ some sync_high ∷ some sync_low ∷ rest) ≡ some rest
unfolding sync
sync-Quiet [] rest q = refl
sync-Quiet (b ∷ noise) rest (n, q) = rw n (sync-Quiet noise rest q)

receive_data-heard :
    (n : ℕ) (file : List ℕ) (rest : List (Option ℕ))
    → n ≤ length file
    → receive_data n (heard file ++ rest) ≡ Reception.complete (take n file)
unfolding receive_data
receive_data-heard zero file rest h = refl
receive_data-heard (suc n) [] rest h = absurd (omega arith)
receive_data-heard (suc n) (b ∷ file) rest h =
    ap (written b) (receive_data-heard n file rest (omega arith))

receive_size-bytes :
    (n : ℕ) (rest : List (Option ℕ))
    → n < 2 ^ 32
    → receive_size 4 0 (heard (size_bytes n) ++ rest) ≡ receive_data n rest
unfolding receive_size
receive_size-bytes n rest small = ap (λ k. receive_data k rest) (omega (arith, small))

-- What `server_mode` sends for a file, behind bytes that do not begin a synchronisation word and in
-- front of anything, is received as the file; of a file of 4 GB or more only as many bytes as the low
-- 32 bits of its size say.
pub client_mode-server :
    (noise file : List ℕ) (rest : List (Option ℕ))
    → Quiet noise
    → client_mode (heard (noise ++ server_mode file) ++ rest)
      ≡ Reception.complete (take (length file % 2 ^ 32) file)
unfolding client_mode server_mode
client_mode-server noise file rest q =
    let n = length file % 2 ^ 32 in
    let frame = heard (size_bytes n ++ file) ++ rest in
    let shape : heard (noise ++ server_mode file) ++ rest
        ≡ heard noise ++ some sync_high ∷ some sync_low ∷ frame =
      ap (λ l. l ++ rest) (heard-append noise (server_mode file))
      ∙ append_assoc (heard noise) (heard (server_mode file)) rest in
    let split : frame ≡ heard (size_bytes n) ++ (heard file ++ rest) =
      ap (λ l. l ++ rest) (heard-append (size_bytes n) file)
      ∙ append_assoc (heard (size_bytes n)) (heard file) rest in
    let below : n < 2 ^ 32 = omega arith in
    let enough : n ≤ length file = omega arith in
    ap (λ l. after_sync (sync false l)) shape
    ∙ ap after_sync (sync-Quiet noise frame q)
    ∙ ap (receive_size 4 0) split
    ∙ receive_size-bytes n (heard file ++ rest) below
    ∙ receive_data-heard n file rest enough

-- A run of the first synchronisation byte in front of the word hides it exactly when its length is
-- odd: then the search goes on behind the word, and otherwise it ends there.
pub sync-run :
    (pairs : ℕ) (rest : List (Option ℕ))
    → (sync false (heard (replicate (2 * pairs) sync_high) ++ some sync_high ∷ some sync_low ∷ rest)
        ≡ some rest)
      × (sync false
            (heard (replicate (2 * pairs + 1) sync_high) ++ some sync_high ∷ some sync_low ∷ rest)
          ≡ sync false rest)
unfolding sync
sync-run zero rest = (refl, refl)
sync-run (suc pairs) rest =
    let e : 2 * suc pairs ≡ suc (suc (2 * pairs)) = omega arith in
    let f : 2 * suc pairs + 1 ≡ suc (suc (2 * pairs + 1)) = omega arith in
    let tail = some sync_high ∷ some sync_low ∷ rest in
    let (even, odd) = sync-run pairs rest in
    (
      ap (λ k. sync false (heard (replicate k sync_high) ++ tail)) e ∙ even,
      ap (λ k. sync false (heard (replicate k sync_high) ++ tail)) f ∙ odd,
    )
