-- ===== src/Sessions/Ids.antt =====
-- The identifiers of sessions: letters and digits.
use onion.Prelude.{
  ℕ, ◌+◌, ◌-◌, ◌%◌, ◌^◌, [], ◌∷◌, true, ◌≡◌, refl, ltb, if◌then◌else◌, Bytes, length, get_or, arith,
}
use onion.Prelude.Predicates.{All}
use onion.Prelude.Table.{all_below, all_below_sound}
use onion.Utils.{is_alnum}
use onion.Sessions.{allowed_chars, id_char, generate_id}

allowed_table : all_below 62 (λ i. is_alnum (get_or allowed_chars i 0)) ≡ true
unfolding all_below is_alnum
allowed_table = refl

id_char-alnum : (c : ℕ) → is_alnum (id_char c) ≡ true
id_char-alnum c =
    all_below_sound 62 (λ i. is_alnum (get_or allowed_chars i 0))
      ((if ltb c 128 then c else 2 ^ 64 - 256 + c) % 62) allowed_table (omega arith)

-- An identifier has as many characters as there are random bytes, and each is a letter or a digit.
pub generate_id-alnum :
    (ret : Bytes)
    → (length (generate_id ret) ≡ length ret) × All (λ c. is_alnum c ≡ true) (generate_id ret)
unfolding generate_id
generate_id-alnum [] = (refl, tt)
generate_id-alnum (c ∷ ret) =
    let (len, chars) = generate_id-alnum ret in (ground arith, (id_char-alnum c, chars))
