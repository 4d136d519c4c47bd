-- ===== src/Codecs/CQuote.antt =====
-- src/onion/codecs.c: C quoting, `onion_c_quote` and `onion_c_quote_new`.
pub mod Whole
use onion.Prelude.{
  ℕ, ◌+◌, ◌-◌, ◌*◌, ◌/◌, ◌%◌, List, [], ◌∷◌, ◌++◌, Bool, ◌&&◌, ◌||◌, ◌==◌, ltb, leb, if◌then◌else◌,
  Bytes,
}

-- What `onion_c_quote` writes for a byte. A carriage return becomes `\n`, as a line feed does, less
-- the new literal.
unfoldable pub c_escape : ℕ → Bytes
c_escape p =
    if p == b'\n'
    then b'\\' ∷ b'n' ∷ b'"' ∷ b'\n' ∷ b'"' ∷ []
    else if p == b'\r'
    then b'\\' ∷ b'n' ∷ []
    else if p == b'"'
    then b'\\' ∷ b'"' ∷ []
    else if p == b'\\'
    then b'\\' ∷ b'\\' ∷ []
    else if p == b'\t'
    then b'\\' ∷ b't' ∷ []
    else if ltb 127 p
    then b'\\' ∷ (b'0' + p / 64 % 4) ∷ (b'0' + p / 8 % 8) ∷ (b'0' + p % 8) ∷ []
    else p ∷ []

-- The loop of `onion_c_quote` and the quotation mark behind it. `l` is what is left of the length,
-- or 0 where that is negative; a byte that needs four and finds less ends the text without a mark.
unfoldable pub c_quote_from : ℕ → Bytes → Bytes
c_quote_from l [] = b'"' ∷ []
c_quote_from l (p ∷ str) =
    let more = c_quote_from (l - 1) str in
    if ltb 127 p && ltb l 4
    then []
    else if leb l 1
    then c_escape p ++ b'"' ∷ []
    else c_escape p ++ more

-- `onion_c_quote`: what is written before the terminator.
unfoldable pub c_quote : Bytes → ℕ → Bytes
c_quote str l = b'"' ∷ c_quote_from (l - 3) str

-- The size that `onion_c_quote_new` counts, from the count so far.
unfoldable pub c_quote_size : ℕ → Bytes → ℕ
c_quote_size l [] = l
c_quote_size l (p ∷ str) =
    c_quote_size
      ((if (p == b'\r') || (p == b'"') || (p == b'\\') || (p == b'\t')
          then l + 1
          else if p == b'\n'
          then l + 4
          else if ltb 127 p
          then l + 4
          else l)
        + 1)
      str

-- `onion_c_quote_new`
unfoldable pub c_quote_new : Bytes → Bytes
c_quote_new str = c_quote str (c_quote_size 3 str)
