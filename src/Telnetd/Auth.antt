-- ===== src/Telnetd/Auth.antt =====
-- Who gets in at `login_auth` of libs/app_utils/src/telnetd4dbg.c.
use linux_dev_framework.Base.{
  length, take, ℕ, zero, suc, ◌+◌, ◌≤◌, ◌≡◌, refl, ap, ◌∙◌, Bool, true, none, List, [], ◌∷◌, ◌++◌,
  arith,
}
use linux_dev_framework.StringUtils.{isgraph}
use linux_dev_framework.Telnetd.{Shell}
use linux_dev_framework.Telnetd.Login.{Event, got, Login, Progress, waits, returns, login_auth}

-- A line of graphic characters, as it is typed.
abbrev pub typed : List ℕ → List Event
typed [] = got 13 ∷ []
typed (c ∷ s) = got c ∷ typed s

abbrev pub Graphic : List ℕ → Type 0
Graphic [] = Unit
Graphic (c ∷ s) = (isgraph c ≡ true) × Graphic s

-- `login_auth` waiting for a byte with a shell.
abbrev pub at : Bool → (user password : List ℕ) → Shell → Login
at is_password user password s = record {
  is_password = is_password;
  user_name = user;
  password = password;
  reader = record { shell = s; two_byes = none };
}

pub take_put :
    (n : ℕ) (b rest : List ℕ) (c : ℕ)
    → n ≤ length b
    → take (n + 1) (take n b ++ c ∷ rest) ≡ take n b ++ c ∷ []
take_put zero b rest c h = refl
take_put (suc n) [] rest c h = absurd (omega (arith, h))
take_put (suc n) (d ∷ b) rest c h =
    ap (λ k. take k (d ∷ (take n b ++ c ∷ rest))) {y = suc (n + 1)} (omega arith)
    ∙ ap (λ l. d ∷ l) (take_put n b rest c (omega (arith, h)))

abbrev resume : List Event → Progress → Progress
resume later (waits l) = login_auth later l
resume later (returns b) = returns b
