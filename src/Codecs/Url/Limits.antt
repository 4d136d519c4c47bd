-- ===== src/Codecs/Url/Limits.antt =====
-- What `onion_quote` does with the length of the buffer that it is given.
use onion.Prelude.{
  ℕ, zero, suc, ◌+◌, ◌*◌, ◌≤◌, ◌<◌, [], ◌∷◌, ◌++◌, false, ◌≡◌, Bytes, length, replicate,
  length-append, arith, lt→leb,
}
use onion.Utils.{is_alnum}
use onion.Codecs.Url.{hex_high, hex_low, quote_from, quote}

length-quote_from :
    (c i n k : ℕ) (res : Bytes)
    → is_alnum c ≡ false
    → i + k + 2 ≤ n
    → length (quote_from i n res (replicate k c)) ≡ length res + 3 * k
unfolding quote_from
length-quote_from c i n zero res e h = omega arith
length-quote_from c i n (suc k) res e h =
    let out = res ++ b'%' ∷ hex_high c ∷ hex_low c ∷ [] in
    rw (lt→leb n i (omega arith), e, lt→leb n (i + 2) (omega arith))
      (omega (
        arith,
        length-quote_from c (i + 1) n k out e (omega arith),
        length-append res (b'%' ∷ hex_high c ∷ hex_low c ∷ []),
      ))

-- `onion_quote` bounds its index in the source by `maxlength`, and not what it writes: for a text
-- of `k` bytes that need quoting, with `k` at least 2, and room for `k + 2` bytes, it writes three
-- bytes for each and then the terminator, which is more than the room.
quote_overruns :
    (c k : ℕ)
    → is_alnum c ≡ false
    → 2 ≤ k
    → (length (quote (replicate k c) (k + 2)) ≡ 3 * k)
      × (k + 2 < length (quote (replicate k c) (k + 2)) + 1)
unfolding quote
quote_overruns c k e h =
    let l = length-quote_from c 0 (k + 2) k [] e (omega arith) in
    (omega (arith, l), omega (arith, l))
