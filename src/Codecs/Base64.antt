-- ===== src/Codecs/Base64.antt =====
-- src/onion/codecs.c: base64, `onion_base64_encode` and `onion_base64_decode`.
pub mod Letters
pub mod Last
pub mod Lines
pub mod Count
pub mod RoundTrip
use mathlib.Core.Option
use onion.Prelude.{
  ◌>>=◌, ℕ, zero, suc, ◌+◌, ◌-◌, ◌*◌, ◌/◌, ◌%◌, ◌^◌, ◌<◌, List, [], ◌∷◌, ◌++◌, Bool, ◌&&◌, ◌||◌,
  Option, none, some, ◌==◌, ltb, leb, if◌then◌else◌, Bytes, codes, length, get_or, get_elem?, take,
  drop,
}

-- `cb64`, the coding table.
abbrev pub cb64 : Bytes
cb64 = codes "ABCDEFGHIJKLMNOPQRSTUVWXYZabcdefghijklmnopqrstuvwxyz0123456789+/"

-- `cb64[(int)r[i]]`; every index that the encoder makes is below 64.
abbrev pub code64 : ℕ → ℕ
code64 i = get_or cb64 i 0

-- The four letters for three bytes.
abbrev pub encode_group : ℕ → ℕ → ℕ → Bytes
encode_group a b c =
    code64 (a / 4 % 64)
    ∷ code64 (a % 4 * 16 + b / 16 % 16)
    ∷ code64 (b % 16 * 4 + c / 64 % 4)
    ∷ code64 (c % 64)
    ∷ []

-- The inner loop of a full line: as many groups of three as there are.
unfoldable pub encode_line : Bytes → Bytes
encode_line (a ∷ b ∷ c ∷ o) = encode_group a b c ++ encode_line o
encode_line o = []

-- The last line, of at least one byte: while more than three bytes are left a group, and then the
-- last one to three bytes, padded.
unfoldable pub encode_last : Bytes → Bytes
encode_last [] = []
encode_last (a ∷ []) =
    code64 (a / 4 % 64) ∷ code64 (a % 4 * 16 + 0 / 16 % 16) ∷ b'=' ∷ b'=' ∷ b'\n' ∷ []
encode_last (a ∷ b ∷ []) =
    code64 (a / 4 % 64)
    ∷ code64 (a % 4 * 16 + b / 16 % 16)
    ∷ code64 (b % 16 * 4 + 0 / 64 % 4)
    ∷ b'='
    ∷ b'\n'
    ∷ []
encode_last (a ∷ b ∷ c ∷ []) = encode_group a b c ++ b'\n' ∷ []
encode_last (a ∷ b ∷ c ∷ d ∷ o) = encode_group a b c ++ encode_last (d ∷ o)

-- The outer loop: a line of 57 bytes while `I < length - 57`. The fuel counts the lines.
unfoldable pub encode_lines : ℕ → Bytes → Bytes
unfolding encode_line encode_last
encode_lines zero o = encode_last o
encode_lines (suc n) o =
    let more = encode_line (take 57 o) ++ b'\n' ∷ encode_lines n (drop 57 o) in
    if ltb 57 (length o) then more else encode_last o

-- The size of the text that `onion_base64_encode` allocates, of an `int` length.
unfoldable pub encode_size : ℕ → ℕ
encode_size length = length * 4 / 3 + length / 57 + 2 + 3

-- What is stored in that text, before the terminator. The length is fuel enough, since each line takes
-- 57 bytes of it.
unfoldable pub encode_text : Bytes → Bytes
encode_text [] = []
encode_text (a ∷ o) = encode_lines (length (a ∷ o)) (a ∷ o)

-- `onion_base64_encode` of a buffer that is not NULL, where none is that `length * 4` is more than an
-- `int` holds, which C leaves undefined, or that the text and its terminator do not fit in what is
-- allocated.
unfoldable pub base64_encode : Bytes → Option Bytes
unfolding encode_size encode_text
base64_encode orig =
    let text = encode_text orig in
    if ltb (length orig * 4) (2 ^ 31) && ltb (length text) (encode_size (length orig))
    then some text
    else none

-- A row of the table `db64` in which nothing is in the alphabet.
abbrev none16 : Bytes
none16 =
    255 ∷ 255 ∷ 255 ∷ 255 ∷ 255 ∷ 255 ∷ 255 ∷ 255 ∷ 255 ∷ 255 ∷ 255 ∷ 255 ∷ 255 ∷ 255 ∷ 255 ∷ 255
    ∷ []

-- `db64`, the decoding table of 128 entries, read back as bytes.
abbrev pub db64 : Bytes
db64 =
    none16
    ++ none16
    ++ 255 ∷ 255 ∷ 255 ∷ 255 ∷ 255 ∷ 255 ∷ 255 ∷ 255 ∷ 255 ∷ 255 ∷ 255 ∷ 62 ∷ 255 ∷ 255 ∷ 255 ∷ 63
      ∷ 52 ∷ 53 ∷ 54 ∷ 55 ∷ 56 ∷ 57 ∷ 58 ∷ 59 ∷ 60 ∷ 61 ∷ 255 ∷ 255 ∷ 255 ∷ 255 ∷ 255 ∷ 255 ∷ 255
      ∷ 0 ∷ 1 ∷ 2 ∷ 3 ∷ 4 ∷ 5 ∷ 6 ∷ 7 ∷ 8 ∷ 9 ∷ 10 ∷ 11 ∷ 12 ∷ 13 ∷ 14 ∷ 15 ∷ 16 ∷ 17 ∷ 18 ∷ 19 ∷ 20
      ∷ 21 ∷ 22 ∷ 23 ∷ 24 ∷ 25 ∷ 255 ∷ 255 ∷ 255 ∷ 255 ∷ 255 ∷ 255 ∷ 26 ∷ 27 ∷ 28 ∷ 29 ∷ 30 ∷ 31
      ∷ 32 ∷ 33 ∷ 34 ∷ 35 ∷ 36 ∷ 37 ∷ 38 ∷ 39 ∷ 40 ∷ 41 ∷ 42 ∷ 43 ∷ 44 ∷ 45 ∷ 46 ∷ 47 ∷ 48 ∷ 49 ∷ 50
      ∷ 51 ∷ 255 ∷ 255 ∷ 255 ∷ 255 ∷ 255 ∷ []

-- A place in the memory of the text: the bytes `*(I - 2)` and `*(I - 1)`, and those from `I` on,
-- the terminator with them.
pub record Cursor : Type 0 where
  pub second_last : ℕ
  pub last : ℕ
  pub rest : Bytes

-- `c == '\n' || c == '\r' || c == ' '`
abbrev pub is_skipped : ℕ → Bool
is_skipped c = (c == b'\n') || (c == b'\r') || (c == b' ')

-- `onion_base64_decode_get_next` at `rest`, behind the bytes `p` and `q`. `none` is a read past the
-- terminator, or past the end of the table.
unfoldable pub get_next : Bytes → ℕ → ℕ → Option (ℕ × Cursor)
get_next [] p q = none
get_next (c ∷ m) p q =
    let skip = get_next m q c in
    let found =
      Option.map (λ v. (v, record { second_last = q; last = c; rest = m })) (get_elem? db64 c) in
    if is_skipped c then skip else found

-- One round of the loop of `onion_base64_decode`: the three bytes that are stored at `J`.
unfoldable pub decode_group : Cursor → Option (Bytes × Cursor)
decode_group k = do
  (c1, k1) ← get_next k.rest k.second_last k.last
  (c2, k2) ← get_next k1.rest k1.second_last k1.last
  (c3, k3) ← get_next k2.rest k2.second_last k2.last
  (c4, k4) ← get_next k3.rest k3.second_last k3.last
  some (
    (c1 % 64 * 4 + c2 / 16 % 4) % 256
        ∷ (c2 % 16 * 16 + c3 / 4 % 16) % 256
        ∷ (c3 % 4 * 64 + c4) % 256
        ∷ [],
    k4,
  )

-- The loop: while `I < endI`, which is so while two bytes and the terminator are left.
unfoldable pub decode_loop : ℕ → Cursor → Bytes → Option (Bytes × Cursor)
unfolding decode_group
decode_loop zero k ret = none
decode_loop (suc n) k ret =
    let more = (do (bytes, k') ← decode_group k; decode_loop n k' (ret ++ bytes)) in
    if ltb 2 (length k.rest) then more else some (ret, k)

-- `ll`, the length without what the padding stands for, and the buffer up to it.
unfoldable pub cut_padding : Bytes → Cursor → Bytes
cut_padding ret k =
    let n = length ret in
    take (if k.second_last == b'=' then n - 2 else if k.last == b'=' then n - 1 else n) ret

-- `ol`, the number of bytes that are not skipped.
unfoldable pub count_letters : Bytes → ℕ
count_letters [] = 0
count_letters (c ∷ s) = if is_skipped c then count_letters s else suc (count_letters s)

pub data Decoded : Type 0 where
  null : Decoded
  decoded : Bytes → Decoded
  out_of_bounds : Decoded

abbrev pub finish : Option (Bytes × Cursor) → Decoded
finish none = out_of_bounds
finish (some (ret, k)) = decoded (cut_padding ret k)

-- `onion_base64_decode` of a text that is not NULL. The text has as many bytes as rounds suffice.
unfoldable pub base64_decode : Bytes → Decoded
base64_decode orig =
    let ol = count_letters orig in
    if leb (length orig) 1
    then null
    else if (ol % 4) == 0
    then if ol == 0
      then decoded []
      else finish (
          decode_loop (suc (length orig))
            (record { second_last = 0; last = 0; rest = orig ++ 0 ∷ [] }) [])
    else null
