-- ===== src/Audio/Bits.antt =====
-- The bits of a byte, sent and heard by apps/data_in_audio.
use linux_dev_framework.Base.{
  ◌==◌, Bool-cases, drop, replicate, ℕ, zero, suc, ◌+◌, ◌*◌, ◌/◌, ◌%◌, ◌^◌, ◌<◌, ◌≡◌, refl, ap, ◌∙◌,
  inl, inr, some, List, ◌++◌, append_assoc, arith,
}
use linux_dev_framework.Audio.{Tone, bit_tone, bit_tones, modulate_byte, bit_of, data_bits}

-- The bits of a byte from the bit `i` on, in place.
abbrev sum_bits : (byte n i : ℕ) → ℕ
sum_bits byte zero i = 0
sum_bits byte (suc n) i = byte / 2 ^ i % 2 * 2 ^ i + sum_bits byte n (i + 1)

bit_of-tone : (byte i : ℕ) → bit_of (bit_tone byte i) ≡ byte / 2 ^ i % 2
bit_of-tone byte i = elim (Bool-cases (byte / 2 ^ i % 2 == 1)) [
  | inl y ↦ rw y (ground (arith, y))
  | inr other ↦ let b : byte / 2 ^ i % 2 < 2 = omega arith in rw other (ground (arith, other, b))
]

data_bits-tones :
    (byte n i : ℕ) (rest : List Tone)
    → data_bits n i (bit_tones byte n i ++ rest) ≡ some (sum_bits byte n i, rest)
unfolding data_bits
data_bits-tones byte zero i rest = refl
data_bits-tones byte (suc n) i rest =
    rw (data_bits-tones byte n (i + 1) rest)
      (ap (λ b. some (b * 2 ^ i + sum_bits byte n (i + 1), rest)) (bit_of-tone byte i))

-- Behind the start bit of a byte the eight windows are heard as the byte, and the stop bits are left.
pub data_bits-modulate :
    (byte : ℕ) (rest : List Tone)
    → byte < 256
    → data_bits 8 0 (drop 1 (modulate_byte byte) ++ rest)
      ≡ some (byte, replicate 10 Tone.mark ++ rest)
unfolding modulate_byte
data_bits-modulate byte rest small =
    let whole : sum_bits byte 8 0 ≡ byte = omega (arith, small) in
    ap (data_bits 8 0) (append_assoc (bit_tones byte 8 0) (replicate 10 Tone.mark) rest)
    ∙ data_bits-tones byte 8 0 (replicate 10 Tone.mark ++ rest)
    ∙ ap (λ b. some (b, replicate 10 Tone.mark ++ rest)) whole
