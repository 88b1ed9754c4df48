-- ===== src/Audio.antt =====
-- A file sent as sound, apps/data_in_audio: the bits of a byte, the bytes of a file, and the buffers of
-- samples. What a window of samples sounds like is left to the tones.
pub mod Bits
pub mod Files
pub mod Buffers
mod Tests
use linux_dev_framework.Base.{
  ltb, leb, ◌==◌, if◌then◌else◌, ltb→lt, lt→ltb, leb→le, ==_iff, ==_refl, Bool-cases, Option-cases,
  ◌>>=◌, some_inj, tests, length, get_elem?, get_or, set, take, drop, replicate, all, length-append,
  length-set, get_elem?-set_self, get_elem?-set_ne, get_elem?-lt, take-append-drop, take-length,
  length-take, length-drop, length-replicate, get_elem?-none, get_elem?-append_left,
  get_elem?-append_right, get_elem?-replicate, chars, token, strtok, Free, token-word, token-last,
  strtok-last, strtok-word, digits, decimal, digit?, digit_of, number_from, strchr, strrchr,
  magnitude, strtol, strtoul16, signed, blank?, atoi, number_from-digits, digits-first,
  strtol-decimal, strchr-first, strchr-none, Free-append, strrchr-end, digits-append, digits-Free,
  ℕ, zero, suc, ◌+◌, ◌-◌, ◌*◌, ◌/◌, ◌%◌, ◌^◌, ◌≤◌, ◌<◌, min, max, ◌≡◌, refl, sym, ap, ap₂, ◌∙◌,
  subst, fun_ext, ◌≢◌, ◌↔◌, ◌⊎◌, inl, inr, Bool, true, false, not, ◌&&◌, ◌||◌, Option, none, some,
  List, [], ◌∷◌, ◌++◌, map, append_assoc, append-nil, arith,
}

-- The two frequencies that a bit is sent with.
pub data Tone : Type 0 where
  mark : Tone
  space : Tone

abbrev pub bit_tone : (byte i : ℕ) → Tone
bit_tone byte i = if byte / 2 ^ i % 2 == 1 then mark else space

-- `n` data bits from the bit `i` on, the lowest first.
abbrev pub bit_tones : (byte n i : ℕ) → List Tone
bit_tones byte zero i = []
bit_tones byte (suc n) i = bit_tone byte i ∷ bit_tones byte n (i + 1)

-- The tones of `modulate_byte`, of the length of a bit each.
unfoldable pub modulate_byte : (byte : ℕ) → List Tone
modulate_byte byte = space ∷ (bit_tones byte 8 0 ++ replicate 10 mark)

abbrev pub bit_of : Tone → ℕ
bit_of mark = 1
bit_of space = 0

-- The loop of `demodulate_byte` over the windows of bits behind the start bit; a mark is heard when it
-- is the louder of the two. Nothing when the recording ends.
unfoldable pub data_bits : (n i : ℕ) → List Tone → Option (ℕ × List Tone)
data_bits zero i windows = some (0, windows)
data_bits (suc n) i [] = none
data_bits (suc n) i (t ∷ windows) =
    data_bits n (i + 1) windows >>= λ r. some (bit_of t * 2 ^ i + r.0, r.1)

abbrev pub sync_high : ℕ
sync_high = 0xaa

abbrev pub sync_low : ℕ
sync_low = 0x55

abbrev pub size_bytes : (fsize : ℕ) → List ℕ
size_bytes n = n / 2 ^ 24 % 256 ∷ n / 2 ^ 16 % 256 ∷ n / 2 ^ 8 % 256 ∷ n % 256 ∷ []

-- The bytes that `server_mode` sends for a file while the playing succeeds.
unfoldable pub server_mode : (file : List ℕ) → List ℕ
server_mode file = sync_high ∷ sync_low ∷ (size_bytes (length file % 2 ^ 32) ++ file)

-- The search of `client_mode` for the synchronisation word, over the results of `demodulate_byte`,
-- none for an error; `second` tells whether a first byte stands in front. It gives the results to come.
unfoldable pub sync : (second : Bool) → List (Option ℕ) → Option (List (Option ℕ))
sync second [] = none
sync second (none ∷ results) = some results
sync second (some b ∷ results) =
    let rest = sync (not second && (b == sync_high)) results in
    if second && (b == sync_low) then some results else rest

-- How the reception stands: it waits for a byte, has no size, or is complete with what was written.
pub data Reception : Type 0 where
  waiting : Reception
  size_failed : Reception
  complete : List ℕ → Reception

abbrev pub written : ℕ → Reception → Reception
written b (complete bytes) = complete (b ∷ bytes)
written b r = r

-- The loop over `n` bytes of the file; an error ends it.
unfoldable pub receive_data : (n : ℕ) → List (Option ℕ) → Reception
receive_data zero results = complete []
receive_data (suc n) [] = waiting
receive_data (suc n) (none ∷ results) = complete []
receive_data (suc n) (some b ∷ results) = written b (receive_data n results)

-- The loop over the bytes of the size.
unfoldable pub receive_size : (n fsize : ℕ) → List (Option ℕ) → Reception
receive_size zero fsize results = receive_data fsize results
receive_size (suc n) fsize [] = waiting
receive_size (suc n) fsize (none ∷ results) = size_failed
receive_size (suc n) fsize (some b ∷ results) = receive_size n ((fsize * 256 + b) % 2 ^ 32) results

abbrev pub after_sync : Option (List (Option ℕ)) → Reception
after_sync none = waiting
after_sync (some results) = receive_size 4 0 results

-- `client_mode` behind the preamble.
unfoldable pub client_mode : List (Option ℕ) → Reception
client_mode results = after_sync (sync false results)

-- What `snd_pcm_writei` and `snd_pcm_readi` give: an underrun or overrun, another error, or a number of
-- frames.
pub data Pcm : Type 0 where
  epipe : Pcm
  fails : Pcm
  moves : ℕ → Pcm

-- `audio_play` and `audio_record` over the results of the calls: whether they succeed, and the frames
-- that have gone through. Nothing while the calls do not suffice.
unfoldable pub transfer : {Sample : Type 0} → List Pcm → List Sample → Option (Bool × List Sample)
transfer calls [] = some (true, [])
transfer [] (s ∷ frames) = none
transfer (epipe ∷ calls) (s ∷ frames) = transfer calls (s ∷ frames)
transfer (fails ∷ calls) (s ∷ frames) = some (false, [])
transfer (moves n ∷ calls) (s ∷ frames) =
    transfer calls (drop n (s ∷ frames)) >>= λ r. some (r.0, take n (s ∷ frames) ++ r.1)
