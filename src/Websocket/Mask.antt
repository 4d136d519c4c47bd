-- ===== src/Websocket/Mask.antt =====
-- The mask of the frames of a client.
use Prim.Native.Nat.{digits, differ, bit_xor, bit_xor-bitwise}
use onion.Prelude.{
  ℕ, zero, suc, ◌+◌, ◌*◌, ◌/◌, ◌%◌, ◌≤◌, ◌<◌, [], ◌∷◌, ◌≡◌, refl, ap, ◌∙◌, Bytes, length, take,
  drop, get_or, arith,
}
use onion.Websocket.Read.{unmask}

abbrev xor_digits : ℕ → ℕ → ℕ → ℕ
xor_digits n a b = digits (λ b. b) differ n a b

xor_digits_fuel : (n m a b : ℕ) → a ≤ n → a ≤ m → xor_digits n a b ≡ xor_digits m a b
xor_digits_fuel zero zero a b p q = refl
xor_digits_fuel zero (suc m) zero b p q = refl
xor_digits_fuel zero (suc m) (suc a) b p q = absurd (omega arith)
xor_digits_fuel (suc n) zero zero b p q = refl
xor_digits_fuel (suc n) zero (suc a) b p q = absurd (omega arith)
xor_digits_fuel (suc n) (suc m) zero b p q = refl
xor_digits_fuel (suc n) (suc m) (suc a) b p q =
    omega (arith, xor_digits_fuel n m (suc a / 2) (b / 2) (omega arith) (omega arith))

zero-bit_xor : (b : ℕ) → bit_xor 0 b ≡ b
zero-bit_xor b = bit_xor-bitwise 0 b

-- Exclusive or, from its lowest digit.
bit_xor_step : (a b : ℕ) → bit_xor a b ≡ bit_xor (a / 2) (b / 2) * 2 + differ (a % 2) (b % 2)
bit_xor_step zero b = omega (arith, zero-bit_xor b, zero-bit_xor (b / 2))
bit_xor_step (suc a) b = omega (
  arith,
  bit_xor-bitwise (suc a) b,
  bit_xor-bitwise (suc a / 2) (b / 2),
  xor_digits_fuel a (suc a / 2) (suc a / 2) (b / 2) (omega arith) (omega arith),
)

-- A digit changed twice is the digit.
differ_twice : (p q : ℕ) → p < 2 → q < 2 → (differ (differ p q) q ≡ p) × (differ p q < 2)
differ_twice zero zero h k = (refl, omega arith)
differ_twice zero (suc zero) h k = (refl, omega arith)
differ_twice (suc zero) zero h k = (refl, omega arith)
differ_twice (suc zero) (suc zero) h k = (refl, omega arith)
differ_twice (suc (suc p)) q h k = absurd (omega arith)
differ_twice p (suc (suc q)) h k = absurd (omega arith)

bit_xor_twice_fuel : (n a b : ℕ) → a ≤ n → b ≤ n → bit_xor (bit_xor a b) b ≡ a
bit_xor_twice_fuel zero zero zero h k = refl
bit_xor_twice_fuel zero (suc a) b h k = absurd (omega arith)
bit_xor_twice_fuel zero zero (suc b) h k = absurd (omega arith)
bit_xor_twice_fuel (suc n) a b h k =
    let (same, small) = differ_twice (a % 2) (b % 2) (omega arith) (omega arith) in
    let halves : bit_xor a b / 2 ≡ bit_xor (a / 2) (b / 2) = omega (arith, bit_xor_step a b) in
    let digit : bit_xor a b % 2 ≡ differ (a % 2) (b % 2) = omega (arith, bit_xor_step a b) in
    let rest = bit_xor_twice_fuel n (a / 2) (b / 2) (omega arith) (omega arith) in
    bit_xor_step (bit_xor a b) b ∙ rw (halves, digit, rest, same) (omega arith)

pub bit_xor_twice : (a b : ℕ) → bit_xor (bit_xor a b) b ≡ a
bit_xor_twice a b = bit_xor_twice_fuel (a + b) a b (omega arith) (omega arith)

pub unmask_twice : (mask : Bytes) (p : ℕ) (xs : Bytes) → unmask mask p (unmask mask p xs) ≡ xs
unfolding unmask
unmask_twice mask p [] = refl
unmask_twice mask p (x ∷ xs) =
    rw (bit_xor_twice x (get_or mask (p % 4) 0), unmask_twice mask (p + 1) xs) refl

pub length-unmask : (mask : Bytes) (p : ℕ) (xs : Bytes) → length (unmask mask p xs) ≡ length xs
unfolding unmask
length-unmask mask p [] = refl
length-unmask mask p (x ∷ xs) = ap suc (length-unmask mask (p + 1) xs)

-- Only the two lowest bits of the position matter.
pub unmask_mod :
    (mask : Bytes) (p q : ℕ) (xs : Bytes) → p % 4 ≡ q % 4 → unmask mask p xs ≡ unmask mask q xs
unfolding unmask
unmask_mod mask p q [] h = refl
unmask_mod mask p q (x ∷ xs) h = rw (h, unmask_mod mask (p + 1) (q + 1) xs (omega arith)) refl

pub take-unmask :
    (k p : ℕ) (mask xs : Bytes) → take k (unmask mask p xs) ≡ unmask mask p (take k xs)
unfolding unmask
take-unmask zero p mask xs = refl
take-unmask (suc k) p mask [] = refl
take-unmask (suc k) p mask (x ∷ xs) = rw (take-unmask k (p + 1) mask xs) refl

pub drop-unmask :
    (k p : ℕ) (mask xs : Bytes) → drop k (unmask mask p xs) ≡ unmask mask (p + k) (drop k xs)
unfolding unmask
drop-unmask zero p mask xs = ap (λ q. unmask mask q xs) (omega arith)
drop-unmask (suc k) p mask [] = refl
drop-unmask (suc k) p mask (x ∷ xs) =
    let same : p + 1 + k ≡ p + suc k = omega arith in
    drop-unmask k (p + 1) mask xs ∙ ap (λ q. unmask mask q (drop k xs)) same
