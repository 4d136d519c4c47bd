-- ===== src/Prelude/Predicates.antt =====
-- Predicates on lists by recursion, which the tactics read part by part.
use Prim.Native.Nat.{ℕ, zero, suc, ◌<◌}
use mathlib.Core.List.{List, [], ◌∷◌, ◌++◌}
use mathlib.Core.Logic.{◌≢◌}
use onion.Prelude.Lists.{take, drop}
use onion.Prelude.Text.{Bytes}

module _ {ℓ κ} {A : Type ℓ} (P : A → Type κ) where
  abbrev pub All : List A → Type κ
  All [] = Unit
  All (x ∷ xs) = P x × All xs

  pub All-append : (xs ys : List A) → All xs → All ys → All (xs ++ ys)
  All-append [] ys _ hy = hy
  All-append (x ∷ xs) ys (px, hx) hy = (px, All-append xs ys hx hy)

  pub All-append_parts : (xs ys : List A) → All (xs ++ ys) → All xs × All ys
  All-append_parts [] ys h = (tt, h)
  All-append_parts (x ∷ xs) ys (p, h) = let (hx, hy) = All-append_parts xs ys h in ((p, hx), hy)

module _ {ℓ κ} {A : Type ℓ} (P : A → Type κ) where
  pub All-take : (n : ℕ) (xs : List A) → All P xs → All P (take n xs)
  All-take zero xs h = tt
  All-take (suc n) [] h = tt
  All-take (suc n) (x ∷ xs) (p, h) = (p, All-take n xs h)

  pub All-drop : (n : ℕ) (xs : List A) → All P xs → All P (drop n xs)
  All-drop zero xs h = h
  All-drop (suc n) [] h = tt
  All-drop (suc n) (x ∷ xs) (p, h) = All-drop n xs h

pub All-imp {ℓ κ μ} :
    {A : Type ℓ} (P : A → Type κ) (Q : A → Type μ)
    → ((x : A) → P x → Q x)
    → (xs : List A) → All P xs
    → All Q xs
All-imp P Q f [] h = tt
All-imp P Q f (x ∷ xs) (p, h) = (f x p, All-imp P Q f xs h)

abbrev pub IsByte : ℕ → Type 0
IsByte c = c < 256

-- A byte that can stand in a C string.
abbrev pub IsCharacter : ℕ → Type 0
IsCharacter c = (c ≢ 0) × (c < 256)

abbrev pub IsBuffer : Bytes → Type 0
IsBuffer = All IsByte

abbrev pub IsText : Bytes → Type 0
IsText = All IsCharacter
