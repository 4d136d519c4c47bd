-- ===== src/RequestParser/Write/Consumes.antt =====
-- The token readers take a byte at least where they find a token.
use onion.Prelude.{
  ℕ, suc, ◌-◌, ◌<◌, [], ◌∷◌, ◌++◌, ◌||◌, ◌≢◌, ◌==◌, if◌then◌else◌, Bytes, length, arith, Bool-cases,
  inl, inr, ltb, leb,
}
use onion.Prelude.Predicates.{All}
use onion.Utils.{is_space}
use onion.RequestParser.{
  Token, Reading, found, need_more_data, internal_error, outside, terminate, after_byte,
  read_string, read_until, key_of, read_key, line_end, read_line, str_size, line_str, until_token,
  string, string_new_line, line,
}

-- Data without a 0 byte.
abbrev pub NoNull : Bytes → Type 0
NoNull = All (λ c. c ≢ 0)

-- What is left has no 0 byte either, and is shorter than `n`.
abbrev pub IsLeft : ℕ → Bytes → Type 0
IsLeft n rest = NoNull rest × (length rest < n)

-- A token that was found took a byte.
unfoldable pub Consumes : ℕ → Reading → Type 0
Consumes n (found token text rest) = IsLeft n rest
Consumes n (need_more_data text) = Unit
Consumes n internal_error = Unit
Consumes n outside = Unit

pub Consumes-weaken : (n : ℕ) (r : Reading) → Consumes n r → Consumes (suc n) r
unfolding Consumes
Consumes-weaken n (found token text rest) (h, l) = (h, omega arith)
Consumes-weaken n (need_more_data text) h = tt
Consumes-weaken n internal_error h = tt
Consumes-weaken n outside h = tt

terminate-Consumes :
    (token : Token) (text rest : Bytes)
    → NoNull rest
    → Consumes (suc (length rest)) (terminate token text rest)
unfolding Consumes terminate
terminate-Consumes token text rest h = ground arith

after_byte-Consumes :
    (n : ℕ) (text rest : Bytes) (more : Reading)
    → Consumes n more
    → Consumes n (after_byte text rest more)
unfolding Consumes after_byte
after_byte-Consumes n text [] more h = tt
after_byte-Consumes n text (d ∷ rest) more h =
    elim (Bool-cases (leb (str_size - 1) (length text))) [ inl e ↦ rw e tt | inr e ↦ rw e h ]

need_more_data-Consumes : (n : ℕ) (text : Bytes) → Consumes n (need_more_data text)
unfolding Consumes
need_more_data-Consumes n text = tt

outside-Consumes : (n : ℕ) → Consumes n outside
unfolding Consumes
outside-Consumes n = tt

byte-Consumes :
    (text rest : Bytes) (more : Reading)
    → Consumes (length rest) more
    → Consumes (suc (length rest)) (after_byte text rest more)
byte-Consumes text rest more h =
    after_byte-Consumes (suc (length rest)) text rest more (Consumes-weaken (length rest) more h)

pub read_string-Consumes : (text s : Bytes) → NoNull s → Consumes (length s) (read_string text s)
unfolding read_string
read_string-Consumes text [] h = need_more_data-Consumes 0 text
read_string-Consumes text (c ∷ rest) (h, hs) = elim (Bool-cases (is_space c)) [
  | inl e ↦ rw e (terminate-Consumes (if c == b'\n' then string_new_line else string) text rest hs)
  | inr e ↦ elim (Bool-cases (ltb (length text) str_size)) [
    | inl f ↦
        rw (e, f)
          (byte-Consumes (text ++ c ∷ []) rest (read_string (text ++ c ∷ []) rest)
            (read_string-Consumes (text ++ c ∷ []) rest hs))
    | inr f ↦ rw (e, f) (outside-Consumes (suc (length rest)))
  ]
]

pub read_until-Consumes :
    (delimiter : ℕ) (text s : Bytes) → NoNull s → Consumes (length s) (read_until delimiter text s)
unfolding read_until
read_until-Consumes delimiter text [] h = need_more_data-Consumes 0 text
read_until-Consumes delimiter text (c ∷ rest) (h, hs) =
    elim (Bool-cases ((c == delimiter) || (c == b'\n'))) [
      | inl e ↦ rw e (terminate-Consumes (until_token delimiter c text) text rest hs)
      | inr e ↦ elim (Bool-cases (c == b'\r')) [
        | inl f ↦
            rw (e, f)
              (byte-Consumes text rest (read_until delimiter text rest)
                (read_until-Consumes delimiter text rest hs))
        | inr f ↦ elim (Bool-cases (ltb (length text) str_size)) [
          | inl g ↦
              rw (e, f, g)
                (byte-Consumes (text ++ c ∷ []) rest (read_until delimiter (text ++ c ∷ []) rest)
                  (read_until-Consumes delimiter (text ++ c ∷ []) rest hs))
          | inr g ↦ rw (e, f, g) (outside-Consumes (suc (length rest)))
        ]
      ]
    ]

key_of-Consumes : (n : ℕ) (r : Reading) → Consumes n r → Consumes n (key_of r)
unfolding key_of Consumes
key_of-Consumes n (found string text rest) h = h
key_of-Consumes n (found string_new_line text rest) h = tt
key_of-Consumes n (found _ text rest) h = h
key_of-Consumes n (need_more_data text) h = tt
key_of-Consumes n internal_error h = tt
key_of-Consumes n outside h = tt

pub read_key-Consumes : (text s : Bytes) → NoNull s → Consumes (length s) (read_key text s)
unfolding read_key
read_key-Consumes text s h =
    key_of-Consumes (length s) (read_until b':' text s) (read_until-Consumes b':' text s h)

line_end-Consumes :
    (text rest : Bytes) → NoNull rest → Consumes (suc (length rest)) (line_end text rest)
unfolding line_end
line_end-Consumes [] rest h = outside-Consumes (suc (length rest))
line_end-Consumes (c ∷ text) rest h = terminate-Consumes line (line_str (c ∷ text)) rest h

pub read_line-Consumes : (text s : Bytes) → NoNull s → Consumes (length s) (read_line text s)
unfolding read_line
read_line-Consumes text [] h = need_more_data-Consumes 0 text
read_line-Consumes text (c ∷ rest) (h, hs) = elim (Bool-cases (c == b'\n')) [
  | inl e ↦ rw e (line_end-Consumes text rest hs)
  | inr e ↦ elim (Bool-cases (leb (str_size - 1) (length text))) [
    | inl f ↦
        rw (e, f)
          (Consumes-weaken (length rest) (read_line text rest) (read_line-Consumes text rest hs))
    | inr f ↦
        rw (e, f)
          (Consumes-weaken (length rest) (read_line (text ++ c ∷ []) rest)
            (read_line-Consumes (text ++ c ∷ []) rest hs))
  ]
]
