-- ===== src/Strings.antt =====
-- What the library uses of string.h and stdlib.h: the comparisons `strcmp` and `strcasecmp`, by which
-- dictionaries order their keys (`onion_dict_new`, OD_ICASE), `strstr` and `atol`.
use Prim.Native.Nat.{Ordering, compare}
use Prim.Native.Nat.Ordering.{lt, eq, gt}
use onion.Prelude.{
  ℕ, zero, suc, ltb, ◌/◌, [], ◌∷◌, ◌+◌, ◌&&◌, leb, ◌||◌, Option, none, some, ◌*◌, ◌-◌, ◌^◌, ◌%◌,
  Bool, true, false, ◌==◌, ◌≡◌, refl, if◌then◌else◌, arith, map, Bytes,
}
use onion.Dict.Order.{KeyOrder, opposite}

unfoldable pub compare_texts : Bytes → Bytes → Ordering
compare_texts [] [] = eq
compare_texts [] (d ∷ t) = lt
compare_texts (c ∷ s) [] = gt
compare_texts (c ∷ s) (d ∷ t) = elim (compare c d) [ lt ↦ lt | gt ↦ gt | eq ↦ compare_texts s t ]

pub compare_texts_refl : (a : Bytes) → compare_texts a a ≡ eq
unfolding compare_texts
compare_texts_refl [] = refl
compare_texts_refl (c ∷ s) = ground (arith, compare_texts_refl s)

pub compare_texts_flip : (a b : Bytes) → compare_texts b a ≡ opposite (compare_texts a b)
unfolding compare_texts
compare_texts_flip [] [] = refl
compare_texts_flip [] (d ∷ t) = refl
compare_texts_flip (c ∷ s) [] = refl
compare_texts_flip (c ∷ s) (d ∷ t) = ground (arith, compare_texts_flip s t)

pub compare_texts_trans :
    (a b c : Bytes) → compare_texts a b ≡ lt → compare_texts b c ≡ lt → compare_texts a c ≡ lt
unfolding compare_texts
compare_texts_trans [] [] c h k = ground arith
compare_texts_trans [] (y ∷ b) [] h k = ground arith
compare_texts_trans [] (y ∷ b) (z ∷ c) h k = refl
compare_texts_trans (x ∷ a) [] c h k = ground arith
compare_texts_trans (x ∷ a) (y ∷ b) [] h k = ground arith
compare_texts_trans (x ∷ a) (y ∷ b) (z ∷ c) h k = ground (arith, compare_texts_trans a b c)

pub compare_texts-eq :
    (a b c : Bytes) → compare_texts a b ≡ eq → compare_texts b c ≡ compare_texts a c
unfolding compare_texts
compare_texts-eq [] [] c h = refl
compare_texts-eq [] (y ∷ b) c h = ground arith
compare_texts-eq (x ∷ a) [] c h = ground arith
compare_texts-eq (x ∷ a) (y ∷ b) [] h = refl
compare_texts-eq (x ∷ a) (y ∷ b) (z ∷ c) h = ground (arith, compare_texts-eq a b c)

instance abbrev pub exact : KeyOrder Bytes
exact = record {
  cmp = compare_texts;
  cmp_refl = compare_texts_refl;
  cmp_flip = compare_texts_flip;
  lt_trans = compare_texts_trans;
  eq_trans = compare_texts-eq;
}

abbrev pub lower_case : ℕ → ℕ
lower_case c = if leb b'A' c && leb c b'Z' then c + 32 else c

abbrev pub without_case : KeyOrder Bytes
without_case = record {
  cmp = λ a b. compare_texts (map lower_case a) (map lower_case b);
  cmp_refl = λ a. compare_texts_refl (map lower_case a);
  cmp_flip = λ a b. compare_texts_flip (map lower_case a) (map lower_case b);
  lt_trans = λ a b c. compare_texts_trans (map lower_case a) (map lower_case b) (map lower_case c);
  eq_trans = λ a b c. compare_texts-eq (map lower_case a) (map lower_case b) (map lower_case c);
}

-- The C string in a buffer: the bytes before the first terminator.
unfoldable pub c_string : Bytes → Bytes
c_string [] = []
c_string (c ∷ s) = let rest = c ∷ c_string s in if c == 0 then [] else rest

unfoldable pub is_prefix : Bytes → Bytes → Bool
is_prefix [] s = true
is_prefix (d ∷ t) [] = false
is_prefix (d ∷ t) (c ∷ s) = (d == c) && is_prefix t s

-- `strstr`: the text from the first occurrence on.
unfoldable pub strstr : Bytes → Bytes → Option Bytes
strstr [] needle = if is_prefix needle [] then some [] else none
strstr (c ∷ s) needle =
    let later = strstr s needle in if is_prefix needle (c ∷ s) then some (c ∷ s) else later

abbrev pub is_digit : ℕ → Bool
is_digit c = leb b'0' c && leb c b'9'

unfoldable pub digits_from : ℕ → Bytes → ℕ
digits_from n [] = n
digits_from n (c ∷ s) =
    let more = digits_from (n * 10 + (c - b'0')) s in if is_digit c then more else n

-- A `long`: whether it is negative, and how much it is. Numbers beyond 63 bits are not modelled.
unfoldable pub atol : Bytes → Bool × ℕ
atol [] = (false, 0)
atol (c ∷ s) =
    let skipped = atol s in
    if (leb 9 c && leb c 13) || (c == b' ')
    then skipped
    else (c == b'-', digits_from 0 (if (c == b'+') || (c == b'-') then s else c ∷ s))

-- The `long` as a `size_t`.
unfoldable pub to_size : Bool × ℕ → ℕ
to_size (negative, n) = if negative then (2 ^ 64 - n) % 2 ^ 64 else n

-- `%lu` and `%d` of a number that is not negative, in front of the text `s`; the fuel is the number of
-- digits that a 64-bit number has at most.
unfoldable pub decimal_from : ℕ → ℕ → Bytes → Bytes
decimal_from zero n s = s
decimal_from (suc f) n s =
    let digit = (b'0' + n % 10) ∷ s in
    let more = decimal_from f (n / 10) digit in if ltb n 10 then digit else more

unfoldable pub decimal : ℕ → Bytes
unfolding decimal_from
decimal n = decimal_from 20 n []

-- `%X` of an `unsigned int`.
abbrev pub hex_digit : ℕ → ℕ
hex_digit d = if ltb d 10 then b'0' + d else b'A' + (d - 10)

unfoldable pub hexadecimal_from : ℕ → ℕ → Bytes → Bytes
hexadecimal_from zero n s = s
hexadecimal_from (suc f) n s =
    let digit = hex_digit (n % 16) ∷ s in
    let more = hexadecimal_from f (n / 16) digit in if ltb n 16 then digit else more

unfoldable pub hexadecimal : ℕ → Bytes
unfolding hexadecimal_from
hexadecimal n = hexadecimal_from 8 n []
