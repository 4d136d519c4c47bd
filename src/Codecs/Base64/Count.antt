-- ===== src/Codecs/Base64/Count.antt =====
-- How many letters the encoder writes.
use onion.Prelude.{
  ℕ, zero, suc, ◌+◌, ◌*◌, ◌/◌, ◌%◌, ◌<◌, ◌≤◌, [], ◌∷◌, ◌++◌, ◌≡◌, refl, ltb, ltb→lt, Bool-cases,
  inl, inr, Bytes, length, take, drop, arith, length-drop,
}
use onion.Codecs.Base64.{
  code64, encode_group, encode_line, encode_last, encode_lines, count_letters,
}
use onion.Codecs.Base64.Letters.{code64_facts}

pub count-letter :
    (i : ℕ) (m : Bytes) → i < 64 → count_letters (code64 i ∷ m) ≡ suc (count_letters m)
unfolding count_letters
count-letter i m h = rw (code64_facts i h).2

pub count-encode_group :
    (a b c : ℕ) (m : Bytes) → count_letters (encode_group a b c ++ m) ≡ count_letters m + 4
count-encode_group a b c m = omega (
  arith,
  count-letter (a / 4 % 64)
      (code64 (a % 4 * 16 + b / 16 % 16) ∷ code64 (b % 16 * 4 + c / 64 % 4) ∷ code64 (c % 64) ∷ m)
      (omega arith),
  count-letter (a % 4 * 16 + b / 16 % 16) (code64 (b % 16 * 4 + c / 64 % 4) ∷ code64 (c % 64) ∷ m)
      (omega arith),
  count-letter (b % 16 * 4 + c / 64 % 4) (code64 (c % 64) ∷ m) (omega arith),
  count-letter (c % 64) m (omega arith),
)

pub count_crlf : count_letters (b'\r' ∷ b'\n' ∷ []) ≡ 0
unfolding count_letters
count_crlf = refl

pub count-encode_line :
    (o m : Bytes)
    → (count_letters (encode_line o ++ m) % 4 ≡ count_letters m % 4)
      × (count_letters m ≤ count_letters (encode_line o ++ m))
unfolding encode_line
count-encode_line [] m = omega arith
count-encode_line (a ∷ []) m = omega arith
count-encode_line (a ∷ b ∷ []) m = omega arith
count-encode_line (a ∷ b ∷ c ∷ o) m =
    omega (arith, count-encode_group a b c (encode_line o ++ m), count-encode_line o m)

-- The number of letters that a text of base64 should have.
abbrev pub IsWhole : ℕ → Type 0
IsWhole n = (n % 4 ≡ 0) × (0 < n)

pub count_end : count_letters (b'\n' ∷ []) ≡ 0
unfolding count_letters
count_end = refl

pub count_padding : (m : Bytes) → count_letters (b'=' ∷ m) ≡ suc (count_letters m)
unfolding count_letters
count_padding m = refl

pub count-encode_last : (o : Bytes) → 0 < length o → IsWhole (count_letters (encode_last o))
unfolding encode_last
count-encode_last [] h = absurd (omega arith)
count-encode_last (a ∷ []) h =
    rw
      (
        count-letter (a / 4 % 64) _ (omega arith),
        count-letter (a % 4 * 16 + 0 / 16 % 16) _ (omega arith),
        count_padding,
        count_padding,
        count_end,
      )
      (omega arith)
count-encode_last (a ∷ b ∷ []) h =
    rw
      (
        count-letter (a / 4 % 64) _ (omega arith),
        count-letter (a % 4 * 16 + b / 16 % 16) _ (omega arith),
        count-letter (b % 16 * 4 + 0 / 64 % 4) _ (omega arith),
        count_padding,
        count_end,
      )
      (omega arith)
count-encode_last (a ∷ b ∷ c ∷ []) h =
    omega (arith, count-encode_group a b c (b'\n' ∷ []), count_end)
count-encode_last (a ∷ b ∷ c ∷ d ∷ o) h =
    omega (
      arith,
      count-encode_group a b c (encode_last (d ∷ o)),
      count-encode_last (d ∷ o) (omega arith),
    )

pub count_newline : (m : Bytes) → count_letters (b'\n' ∷ m) ≡ count_letters m
unfolding count_letters
count_newline m = refl

pub count-encode_lines :
    (f : ℕ) (o : Bytes) → 0 < length o → IsWhole (count_letters (encode_lines f o))
unfolding encode_lines
count-encode_lines zero o h = count-encode_last o h
count-encode_lines (suc f) o h = elim (Bool-cases (ltb 57 (length o))) [
  | inr e ↦ rw e (count-encode_last o h)
  | inl e ↦ rw e (
      omega (
        arith,
        ltb→lt 57 (length o) e,
        length-drop 57 o,
        count-encode_lines f (drop 57 o),
        count_newline (encode_lines f (drop 57 o)),
        count-encode_line (take 57 o) (b'\n' ∷ encode_lines f (drop 57 o)),
      ))
]
