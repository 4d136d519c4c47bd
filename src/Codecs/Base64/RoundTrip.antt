-- ===== src/Codecs/Base64/RoundTrip.antt =====
-- Decoding what the encoder writes gives the buffer back.
use onion.Prelude.{
  ℕ, suc, ◌<◌, [], ◌∷◌, ◌++◌, false, none, ◌≡◌, refl, ap, ◌==◌, lt→leb, Bytes, length, arith,
}
use onion.Codecs.Base64.{
  encode_group, get_next, decode_group, decode_loop, finish, count_letters, out_of_bounds,
  base64_decode,
}
use onion.Codecs.Base64.Letters.{decode_loop-encode_group}
use onion.Codecs.Base64.Count.{count-encode_group, count_crlf, IsWhole}

base64_decode_whole :
    (t : Bytes)
    → 4 < length t
    → IsWhole (count_letters t)
    → base64_decode t
      ≡ finish (
          decode_loop
            (suc (length t))
            (record { second_last = 0; last = 0; rest = t ++ 0 ∷ [] })
            [])
unfolding base64_decode
base64_decode_whole t size (whole, some_letter) =
    let nonzero : (count_letters t == 0) ≡ false = ground arith in
    rw (lt→leb (length t) 1 (omega arith), whole, nonzero)

decode_loop_crlf :
    (n p q : ℕ) (ret : Bytes)
    → decode_loop (suc n) (record { second_last = p; last = q; rest = b'\r' ∷ b'\n' ∷ 0 ∷ [] }) ret
      ≡ none
unfolding decode_loop decode_group get_next
decode_loop_crlf n p q ret = refl

-- A text with a carriage return and a line feed behind its last group is read past its terminator.
pub base64_decode_crlf :
    (a b c : ℕ)
    → a < 256
    → b < 256
    → c < 256
    → base64_decode (encode_group a b c ++ b'\r' ∷ b'\n' ∷ []) ≡ out_of_bounds
base64_decode_crlf a b c ha hb hc =
    let t = encode_group a b c ++ b'\r' ∷ b'\n' ∷ [] in
    rw
      (
        base64_decode_whole t (omega arith)
            (omega (arith, count-encode_group a b c (b'\r' ∷ b'\n' ∷ []), count_crlf)),
        decode_loop-encode_group 6 a b c 0 0 (b'\r' ∷ b'\n' ∷ 0 ∷ []) [] ha hb hc,
      )
      (ap finish (decode_loop_crlf 5 _ _ (a ∷ b ∷ c ∷ [])))
