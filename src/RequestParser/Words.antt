-- ===== src/RequestParser/Words.antt =====
-- Which text a token has: the bytes up to the one that ends it.
use onion.Prelude.{
  ℕ, zero, suc, ◌+◌, ◌-◌, ◌≤◌, ◌<◌, [], ◌∷◌, ◌++◌, true, false, ◌||◌, ◌≡◌, ◌≢◌, sym, ap, ◌∙◌, ◌==◌,
  leb, if◌then◌else◌, Bytes, length, take, arith, append_assoc, append-nil, length-append,
  Bool-cases, inl, inr, lt→ltb, lt→leb, le→leb,
}
use onion.Prelude.Predicates.{All}
use onion.Utils.{is_space}
use onion.RequestParser.{
  Token, string, string_new_line, Reading, found, outside, str_size, terminate, after_byte,
  read_string, read_until, until_token, read_line, line_end, line_str,
}

terminate_lem :
    (token : Token) (text rest : Bytes)
    → length text < str_size
    → terminate token text rest ≡ found token text rest
unfolding terminate
terminate_lem token text rest h = rw (lt→ltb (length text) str_size h)

after_byte-more :
    (text s : Bytes) (c : ℕ) (rest : Bytes) (more : Reading)
    → length text < str_size - 1
    → after_byte text (s ++ c ∷ rest) more ≡ more
unfolding after_byte
after_byte-more text [] c rest more h = rw (lt→leb (str_size - 1) (length text) h)
after_byte-more text (d ∷ s) c rest more h = rw (lt→leb (str_size - 1) (length text) h)

-- A string is what stands before the first space, where it fits.
pub read_string-found :
    (text s : Bytes) (c : ℕ) (rest : Bytes)
    → All (λ d. is_space d ≡ false) s
    → is_space c ≡ true
    → length text + length s < str_size - 1
    → read_string text (s ++ c ∷ rest)
      ≡ found (if c == b'\n' then string_new_line else string) (text ++ s) rest
unfolding read_string
read_string-found text [] c rest hs hc h =
    rw (hc, append-nil text)
      (terminate_lem (if c == b'\n' then string_new_line else string) text rest (omega arith))
read_string-found text (d ∷ s) c rest (hd, hs) hc h =
    let longer : length (text ++ d ∷ []) ≡ length text + 1 = length-append text (d ∷ []) in
    rw
      (
        hd,
        lt→ltb (length text) str_size (omega arith),
        after_byte-more (text ++ d ∷ []) s c rest (read_string (text ++ d ∷ []) (s ++ c ∷ rest))
            (omega arith),
      )
      (read_string-found (text ++ d ∷ []) s c rest hs hc (omega arith)
        ∙ ap (λ t. found (if c == b'\n' then string_new_line else string) t rest)
            (append_assoc text (d ∷ []) s))

-- A line is what stands before the first line feed, cut where `str` is full: `n` is the number of
-- bytes that still fit behind the text so far.
pub read_line-line_end :
    (text s rest : Bytes) (n : ℕ)
    → All (λ d. (d == b'\n') ≡ false) s
    → length text + n ≡ str_size - 1
    → read_line text (s ++ b'\n' ∷ rest) ≡ line_end (text ++ take n s) rest
unfolding read_line
read_line-line_end text [] rest zero hs h = ap (λ t. line_end t rest) (sym (append-nil text))
read_line-line_end text [] rest (suc n) hs h = ap (λ t. line_end t rest) (sym (append-nil text))
read_line-line_end text (d ∷ s) rest zero (hd, hs) h =
    rw (hd, le→leb (str_size - 1) (length text) (omega arith))
      (read_line-line_end text s rest zero hs h)
read_line-line_end text (d ∷ s) rest (suc n) (hd, hs) h =
    let longer : length (text ++ d ∷ []) ≡ length text + 1 = length-append text (d ∷ []) in
    rw (hd, lt→leb (str_size - 1) (length text) (omega arith))
      (read_line-line_end (text ++ d ∷ []) s rest n hs (omega arith)
        ∙ ap (λ t. line_end t rest) (append_assoc text (d ∷ []) (take n s)))

length-line_str : (text : Bytes) → length (line_str text) ≤ length text
unfolding line_str
length-line_str [] = omega arith
length-line_str (c ∷ []) = ground arith
length-line_str (c ∷ (d ∷ text)) = omega (arith, length-line_str (d ∷ text))

line_end-inside :
    (text rest : Bytes) → 1 ≤ length text → length text < str_size → line_end text rest ≢ outside
unfolding line_end terminate
line_end-inside [] rest n h = absurd (omega arith)
line_end-inside (c ∷ text) rest n h =
    let shorter = length-line_str (c ∷ text) in
    rw (lt→ltb (length (line_str (c ∷ text))) str_size (omega arith)) (λ e. ground arith)

-- Once a line has a byte, and its text lies in `str`, no data makes the reader read or write
-- outside of it.
pub read_line-inside :
    (text s : Bytes) → 1 ≤ length text → length text < str_size → read_line text s ≢ outside
unfolding read_line
read_line-inside text [] n h = λ e. ground arith
read_line-inside text (c ∷ s) n h =
    let longer : length (text ++ c ∷ []) ≡ length text + 1 = length-append text (c ∷ []) in
    elim (Bool-cases (c == b'\n')) [
      | inl e ↦ rw e (line_end-inside text s n h)
      | inr e ↦ elim (Bool-cases (leb (str_size - 1) (length text))) [
        | inl e' ↦ rw (e, e') (read_line-inside text s n h)
        | inr e' ↦
            let room : length text < str_size - 1 =
              ground (arith, le→leb (str_size - 1) (length text)) in
            rw (e, e') (read_line-inside (text ++ c ∷ []) s (omega arith) (omega arith))
      ]
    ]

-- The bytes of a text that are kept: all but the carriage returns.
unfoldable pub without_returns : Bytes → Bytes
without_returns [] = []
without_returns (c ∷ s) = if c == b'\r' then without_returns s else c ∷ without_returns s

-- A text up to a delimiter is what stands before it, or before a line feed, without the carriage
-- returns, where it fits.
pub read_until-found :
    (delimiter : ℕ) (text s : Bytes) (c : ℕ) (rest : Bytes)
    → All (λ d. ((d == delimiter) || (d == b'\n')) ≡ false) s
    → ((c == delimiter) || (c == b'\n')) ≡ true
    → length text + length s < str_size - 1
    → read_until delimiter text (s ++ c ∷ rest)
      ≡ found (until_token delimiter c (text ++ without_returns s)) (text ++ without_returns s) rest
unfolding read_until without_returns
read_until-found delimiter text [] c rest hs hc h =
    rw (hc, append-nil text) (terminate_lem (until_token delimiter c text) text rest (omega arith))
read_until-found delimiter text (d ∷ s) c rest (hd, hs) hc h =
    let longer : length (text ++ d ∷ []) ≡ length text + 1 = length-append text (d ∷ []) in
    let read = read_until delimiter in
    elim (Bool-cases (d == b'\r')) [
      | inl e ↦
          rw (hd, e, after_byte-more text s c rest (read text (s ++ c ∷ rest)) (omega arith))
            (read_until-found delimiter text s c rest hs hc (omega arith))
      | inr e ↦
          rw
            (
              hd,
              e,
              lt→ltb (length text) str_size (omega arith),
              after_byte-more (text ++ d ∷ []) s c rest (read (text ++ d ∷ []) (s ++ c ∷ rest))
                  (omega arith),
            )
            (read_until-found delimiter (text ++ d ∷ []) s c rest hs hc (omega arith)
              ∙ ap (λ t. found (until_token delimiter c t) t rest)
                  (append_assoc text (d ∷ []) (without_returns s)))
    ]
