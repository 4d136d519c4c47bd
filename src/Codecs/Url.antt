-- ===== src/Codecs/Url.antt =====
-- src/onion/codecs.c: URL quoting, `onion_quote`, `onion_quote_new` and `onion_unquote_inplace`.
pub mod RoundTrip
pub mod Limits
use onion.Prelude.{
  ℕ, zero, suc, ◌+◌, ◌-◌, ◌*◌, ◌/◌, ◌%◌, List, [], ◌∷◌, ◌++◌, Bool, ◌&&◌, ◌||◌, Option, none, some,
  ◌==◌, ltb, leb, if◌then◌else◌, Bytes, codes, length, get_or,
}
use onion.Utils.{is_alnum}

-- `static char hex[]`
abbrev pub hex_digits : Bytes
hex_digits = codes "0123456789ABCDEF"

-- `hex[(c >> 4) & 0x0F]` and `hex[c & 0x0F]` of a byte.
abbrev pub hex_high : ℕ → ℕ
hex_high c = get_or hex_digits (c / 16 % 16) 0

abbrev pub hex_low : ℕ → ℕ
hex_low c = get_or hex_digits (c % 16) 0

-- The loop of `onion_quote`: `i` is the index in `str`, `res` what is written so far.
unfoldable pub quote_from : ℕ → ℕ → Bytes → Bytes → Bytes
quote_from i maxlength res [] = res
quote_from i maxlength res (c ∷ str) =
    let plain = quote_from (i + 1) maxlength (res ++ c ∷ []) str in
    let quoted = quote_from (i + 1) maxlength (res ++ b'%' ∷ hex_high c ∷ hex_low c ∷ []) str in
    if leb maxlength i
    then res
    else if is_alnum c
    then plain
    else if leb maxlength (i + 2)
    then res
    else quoted

-- `onion_quote`: the bytes written before the terminator; the result is their number.
unfoldable pub quote : Bytes → ℕ → Bytes
unfolding quote_from
quote str maxlength = quote_from 0 maxlength [] str

-- The size that `onion_quote_new` counts before it allocates, from the count so far.
unfoldable pub quote_size : ℕ → Bytes → ℕ
quote_size nl [] = nl
quote_size nl (c ∷ str) = quote_size (if is_alnum c then nl + 1 else nl + 3) str

-- `onion_quote_new`
unfoldable pub quote_new : Bytes → Bytes
unfolding quote quote_size
quote_new str = quote str (quote_size 1 str)

-- `isspace` of the C locale, which `strtol` skips.
abbrev is_c_space : ℕ → Bool
is_c_space c = (leb 9 c && leb c 13) || (c == b' ')

-- The value of a hexadecimal digit, or 16.
abbrev pub digit_value : ℕ → ℕ
digit_value c =
    if leb b'0' c && leb c b'9'
    then c - b'0'
    else if leb b'A' c && leb c b'F'
    then c - b'A' + 10
    else if leb b'a' c && leb c b'f'
    then c - b'a' + 10
    else 16

-- One digit, or nothing converted.
abbrev one_digit : ℕ → ℕ
one_digit c = if ltb (digit_value c) 16 then digit_value c else 0

-- `strtol(tmp, NULL, 16)` of a text of two bytes, stored in a `char`.
unfoldable pub strtol_two : ℕ → ℕ → ℕ
strtol_two c d =
    if ltb (digit_value c) 16
    then if ltb (digit_value d) 16 then digit_value c * 16 + digit_value d else digit_value c
    else if (c == b'+') || is_c_space c
    then one_digit d
    else if c == b'-'
    then (256 - one_digit d) % 256
    else 0

-- A byte written at `w`, before what the rest of the loop writes.
abbrev pub written : ℕ → Option Bytes → Option Bytes
written c none = none
written c (some out) = some (c ∷ out)

abbrev plus_to_space : ℕ → ℕ
plus_to_space c = if c == b'+' then b' ' else c

-- The loop of `onion_unquote_inplace` over the text from `r` on: what is written at `w`, which is
-- never behind `r`. A percent sign with fewer than two bytes behind it moves `r` past the
-- terminator, where the loop goes on reading: `none`.
unfoldable pub unquote_inplace : Bytes → Option Bytes
unfolding strtol_two
unquote_inplace [] = some []
unquote_inplace (c ∷ []) = if c == b'%' then none else some (plus_to_space c ∷ [])
unquote_inplace (c ∷ h ∷ []) =
    if c == b'%' then none else written (plus_to_space c) (unquote_inplace (h ∷ []))
unquote_inplace (c ∷ h ∷ l ∷ r) =
    let plain = written (plus_to_space c) (unquote_inplace (h ∷ l ∷ r)) in
    let quoted = written (strtol_two h l) (unquote_inplace r) in if c == b'%' then quoted else plain
