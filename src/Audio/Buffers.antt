-- ===== src/Audio/Buffers.antt =====
-- Whole buffers played and recorded by apps/data_in_audio/audio_io.c.
use linux_dev_framework.Base.{
  length, drop, take-append-drop, length-drop, ℕ, zero, suc, ◌-◌, ◌≡◌, refl, sym, ap, subst, true,
  some, List, [], ◌∷◌,
}
use linux_dev_framework.Audio.{Pcm, transfer}

-- No call fails, and together they move so many frames.
abbrev pub Enough : List Pcm → (frames : ℕ) → Type 0
Enough calls zero = Unit
Enough [] (suc n) = ⊥
Enough (Pcm.epipe ∷ calls) (suc n) = Enough calls (suc n)
Enough (Pcm.fails ∷ calls) (suc n) = ⊥
Enough (Pcm.moves k ∷ calls) (suc n) = Enough calls (suc n - k)

-- As long as no call fails but for underruns, and the calls move enough, the whole buffer goes
-- through in its order, in whatever parts the calls take it.
pub transfer_whole :
    {Sample : Type 0} (calls : List Pcm) (frames : List Sample)
    → Enough calls (length frames)
    → transfer calls frames ≡ some (true, frames)
unfolding transfer
transfer_whole calls [] h = refl
transfer_whole [] (s ∷ frames) h = absurd h
transfer_whole (Pcm.epipe ∷ calls) (s ∷ frames) h = transfer_whole calls (s ∷ frames) h
transfer_whole (Pcm.fails ∷ calls) (s ∷ frames) h = absurd h
transfer_whole (Pcm.moves k ∷ calls) (s ∷ frames) h =
    rw
      (transfer_whole calls (drop k (s ∷ frames))
        (subst (Enough calls) (sym (length-drop k (s ∷ frames))) h))
      (ap (λ l. some (true, l)) (take-append-drop k (s ∷ frames)))
