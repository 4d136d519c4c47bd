-- ===== src/Codecs/Json.antt =====
-- src/onion/codecs.c: JSON texts, `onion_json_quote_add` and `onion_json_unquote_add`. What they add
-- to a block, whose operations Block has, is a list of bytes here.
pub mod RoundTrip
use onion.Prelude.{
  ℕ, zero, suc, ◌+◌, ◌-◌, ◌*◌, ◌/◌, ◌%◌, List, [], ◌∷◌, ◌++◌, Bool, ◌&&◌, ◌||◌, not, ◌==◌, ltb, leb,
  if◌then◌else◌, Bytes, codes, length, drop, get_or,
}
use onion.Codecs.Url.{hex_high, hex_low, digit_value}

-- What `onion_json_quote_add` adds for a byte.
unfoldable pub json_quoted : ℕ → Bytes
json_quoted c =
    if c == 8
    then codes "\\b"
    else if c == 12
    then codes "\\f"
    else if c == b'\n'
    then codes "\\n"
    else if c == b'\r'
    then codes "\\r"
    else if c == b'\t'
    then codes "\\t"
    else if c == b'"'
    then b'\\' ∷ b'"' ∷ []
    else if c == b'\\'
    then b'\\' ∷ b'\\' ∷ []
    else if ltb c 32 || (c == 127)
    then b'\\' ∷ b'u' ∷ b'0' ∷ b'0' ∷ hex_high c ∷ hex_low c ∷ []
    else c ∷ []

-- `onion_json_quote_add`
unfoldable pub json_quote : Bytes → Bytes
json_quote [] = []
json_quote (c ∷ str) = json_quoted c ++ json_quote str

-- `hex4` at a text, whose terminator is no digit.
unfoldable pub hex4 : Bytes → ℕ
hex4 text =
    let digit = λ (i : ℕ). digit_value (get_or text i 0) in
    if ltb (digit 0) 16 && ltb (digit 1) 16 && ltb (digit 2) 16 && ltb (digit 3) 16
    then digit 0 * 4096 + digit 1 * 256 + digit 2 * 16 + digit 3
    else 0

-- The bytes of a code point, by the loop over `n`, `mark` and `mask`.
unfoldable pub utf8 : ℕ → Bytes
utf8 uc =
    if ltb uc 128
    then uc ∷ []
    else if ltb uc 2048
    then (192 + uc / 64) ∷ (128 + uc % 64) ∷ []
    else if ltb uc 65536
    then (224 + uc / 4096) ∷ (128 + uc / 64 % 64) ∷ (128 + uc % 64) ∷ []
    else (240 + uc / 262144) ∷ (128 + uc / 4096 % 64) ∷ (128 + uc / 64 % 64) ∷ (128 + uc % 64) ∷ []

-- The character that an escape stands for; any other one is left as it is.
unfoldable pub escaped : ℕ → ℕ
escaped c =
    if c == b'b'
    then 8
    else if c == b'f'
    then 12
    else if c == b'n'
    then b'\n'
    else if c == b'r'
    then b'\r'
    else if c == b't'
    then b'\t'
    else c

-- What `onion_json_unquote_add` does: the bytes that it adds and the text behind what it read; the
-- bytes, where it read the terminator too, and returns a place behind it; -1; or a read behind the
-- terminator.
pub data Unquoted : Type 0 where
  unquoted : Bytes → Bytes → Unquoted
  past : Bytes → Unquoted
  failed : Unquoted
  behind : Unquoted

unfoldable pub adds : Bytes → Unquoted → Unquoted
adds bytes (unquoted out rest) = unquoted (bytes ++ out) rest
adds bytes (past out) = past (bytes ++ out)
adds bytes failed = failed
adds bytes behind = behind

-- Where the terminator is found in place of a character: the test for it asks `!eos`, so that it
-- is passed over where a quotation mark is expected.
abbrev pub at_terminator : ℕ → Unquoted
at_terminator eos = if eos == 0 then failed else behind

-- The loop of `onion_json_unquote_add` up to `eos`. The fuel counts the rounds, each of which reads a
-- byte at least.
unfoldable pub json_unquote_from : ℕ → ℕ → Bytes → Unquoted
json_unquote_from zero eos text = failed
json_unquote_from (suc n) eos [] = if eos == 0 then past [] else behind
json_unquote_from (suc n) eos (c ∷ []) =
    if c == eos
    then unquoted [] []
    else if c == b'\\'
    then at_terminator eos
    else adds (c ∷ []) (json_unquote_from n eos [])
json_unquote_from (suc n) eos (c ∷ (d ∷ data_)) =
    let plain = json_unquote_from n eos (d ∷ data_) in
    let escape = json_unquote_from n eos data_ in
    let one = json_unquote_from n eos (drop 4 data_) in
    let two = json_unquote_from n eos (drop 10 data_) in
    let uc = hex4 data_ in
    let uc2 = hex4 (drop 6 data_) in
    if c == eos
    then unquoted [] (d ∷ data_)
    else if not (c == b'\\')
    then adds (c ∷ []) plain
    else if not (d == b'u')
    then adds (escaped d ∷ []) escape
    else if (uc == 0) || (leb 56320 uc && leb uc 57343)
    then failed
    else if leb 55296 uc && leb uc 56319
    then (if not ((get_or data_ 4 0 == b'\\') && (get_or data_ 5 0 == b'u'))
          || (ltb uc2 56320 || ltb 57343 uc2)
        then failed
        else adds (utf8 ((uc - 55232) * 1024 + uc2 % 1024)) two)
    else adds (utf8 uc) one

-- `onion_json_unquote_add` of a text: up to the next quotation mark where it starts with one, and
-- else up to its terminator.
unfoldable pub json_unquote : Bytes → Unquoted
json_unquote [] = json_unquote_from 1 0 []
json_unquote (c ∷ text) =
    if c == b'"'
    then json_unquote_from (suc (length text)) b'"' text
    else json_unquote_from (suc (length (c ∷ text))) 0 (c ∷ text)
