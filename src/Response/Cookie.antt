-- ===== src/Response/Cookie.antt =====
-- src/onion/response.c: `onion_response_add_cookie`, which prints a cookie in a buffer of 4096 bytes.
use onion.Prelude.{
  ℕ, ◌+◌, ◌-◌, ◌<◌, List, [], ◌∷◌, ◌++◌, Bool, true, false, Option, none, some, ◌≡◌, ◌≢◌, refl, sym,
  ap, ap₂, ◌∙◌, arith, Bytes, codes, length, take, take_all, ◌>>=◌, if◌then◌else◌, ltb, leb,
  append_assoc, length-append, lt→ltb, append-nil,
}
use onion.Strings.{exact}
use onion.Response.State.{Response, set_header}

-- `sizeof(data)`
abbrev pub cookie_size : ℕ
cookie_size = 4096

-- The text in `data`, and `pos`.
abbrev pub Printed : Type 0
Printed = Bytes × ℕ

-- `pos += snprintf(data + pos, sizeof(data) - pos, ...)` with the text `s`: behind the end of `data`
-- the size is a `size_t` that has wrapped around, and the text is written outside.
unfoldable pub print_at : Bytes → Printed → Option Printed
print_at s (text, pos) =
    if ltb cookie_size pos
    then none
    else some (text ++ take ((cookie_size - pos) - 1) s, pos + length s)

-- `strftime` returns 0 for a text that does not fit, and is taken to leave `data` as it was.
unfoldable pub print_date : Bytes → Printed → Option Printed
print_date s (text, pos) =
    if ltb cookie_size pos
    then none
    else if ltb (length s) (cookie_size - pos)
    then some (text ++ s, pos + length s)
    else some (text, pos)

-- What is printed, in its order.
pub data Part : Type 0 where
  printf : Bytes → Part
  date : Bytes → Part

unfoldable pub print_parts : List Part → Printed → Option Printed
unfolding print_at print_date
print_parts [] p = some p
print_parts (printf s ∷ parts) p = print_at s p >>= print_parts parts
print_parts (date s ∷ parts) p = print_date s p >>= print_parts parts

-- `validity_t`: 0, -1 or less, or more, with the date that it ends on.
pub data Validity : Type 0 where
  expired : Validity
  forever : Validity
  until_date : Bytes → Validity

-- OC_SAMESITE_NONE, OC_SAMESITE_LAX, OC_SAMESITE_STRICT, or else.
pub data SameSite : Type 0 where
  same_site_none : SameSite
  same_site_lax : SameSite
  same_site_strict : SameSite
  same_site_unset : SameSite

pub record Cookie : Type 0 where
  pub name : Bytes
  pub value : Bytes
  pub validity : Validity
  pub path : Option Bytes
  pub domain : Option Bytes
  pub http_only : Bool
  pub secure : Bool
  pub same_site : SameSite

abbrev pub validity_parts : Validity → List Part
validity_parts expired = printf (codes "; expires=Thu, 01 Jan 1970 00:00:00 GMT") ∷ []
validity_parts forever = []
validity_parts (until_date day) = date (codes "; expires=" ++ day) ∷ []

abbrev pub given : Bytes → Option Bytes → List Part
given key none = []
given key (some text) = printf (key ++ text) ∷ []

abbrev pub flagged : Bytes → Bool → List Part
flagged key b = if b then printf key ∷ [] else []

abbrev pub same_site_parts : SameSite → List Part
same_site_parts same_site_none = printf (codes "; SameSite=None") ∷ []
same_site_parts same_site_lax = printf (codes "; SameSite=Lax") ∷ []
same_site_parts same_site_strict = printf (codes "; SameSite=Strict") ∷ []
same_site_parts same_site_unset = []

-- What follows the name and the value.
unfoldable pub attributes : Cookie → List Part
attributes c =
    validity_parts c.validity
    ++ (given (codes "; path=") c.path
        ++ (given (codes "; domain=") c.domain
            ++ (flagged (codes "; HttpOnly") c.http_only
                ++ (flagged (codes "; Secure") c.secure ++ same_site_parts c.same_site))))

-- `onion_response_add_cookie`, and none where it writes outside its buffer.
unfoldable pub add_cookie : Cookie → Response → Option (Bool × Response)
unfolding print_parts attributes set_header
add_cookie c res = do
  (text, pos) ← print_parts (printf (c.name ++ b'=' ∷ c.value) ∷ attributes c) ([], 0)
  some (
      if leb cookie_size pos
      then (false, res)
      else (true, set_header (codes "Set-Cookie") text res))

-- The text of the parts.
unfoldable pub text_of : List Part → Bytes
text_of [] = []
text_of (printf s ∷ parts) = s ++ text_of parts
text_of (date s ∷ parts) = s ++ text_of parts

abbrev Prints : List Part → Type 0
Prints parts =
    (text : Bytes) (pos : ℕ)
    → pos + length (text_of parts) < cookie_size
    → print_parts parts (text, pos) ≡ some (text ++ text_of parts, pos + length (text_of parts))

-- One part, where the others follow it.
print_parts-after :
    (parts : List Part) (s text : Bytes) (pos : ℕ)
    → Prints parts
    → pos + (length s + length (text_of parts)) < cookie_size
    → print_parts parts (text ++ s, pos + length s)
      ≡ some (text ++ (s ++ text_of parts), pos + length (s ++ text_of parts))
print_parts-after parts s text pos prints l =
    let count : length (s ++ text_of parts) ≡ length s + length (text_of parts) =
      length-append s (text_of parts) in
    prints (text ++ s) (pos + length s) (omega arith)
    ∙ ap₂ (λ t n. some (t, n)) (append_assoc text s (text_of parts)) (omega arith)

print_parts-Prints : (parts : List Part) → Prints parts
unfolding print_parts text_of print_at print_date
print_parts-Prints [] text pos l = ap₂ (λ t n. some (t, n)) (sym (append-nil text)) (omega arith)
print_parts-Prints (printf s ∷ parts) text pos l =
    let count = length-append s (text_of parts) in
    let inside : ltb cookie_size pos ≡ false = ground arith in
    let whole : take ((cookie_size - pos) - 1) s ≡ s =
      take_all ((cookie_size - pos) - 1) s (omega arith) in
    rw (inside, print_at)
      (ap (λ t. print_parts parts (text ++ t, pos + length s)) whole
        ∙ print_parts-after parts s text pos (print_parts-Prints parts) (omega arith))
print_parts-Prints (date s ∷ parts) text pos l =
    let count = length-append s (text_of parts) in
    let inside : ltb cookie_size pos ≡ false = ground arith in
    let fits : ltb (length s) (cookie_size - pos) ≡ true = lt→ltb _ _ (omega arith) in
    rw (inside, fits, print_date)
      (print_parts-after parts s text pos (print_parts-Prints parts) (omega arith))

-- The header that a cookie is.
abbrev pub cookie_text : Cookie → Bytes
cookie_text c = (c.name ++ b'=' ∷ c.value) ++ text_of (attributes c)

-- A cookie whose whole text has less than 4096 bytes: a `Set-Cookie` header with that text is added,
-- and the function returns true.
add_cookie-adds :
    (c : Cookie) (res : Response)
    → length (cookie_text c) < cookie_size
    → add_cookie c res ≡ some (true, set_header (codes "Set-Cookie") (cookie_text c) res)
unfolding add_cookie text_of
add_cookie-adds c res l =
    let short : leb cookie_size (0 + length (cookie_text c)) ≡ false = ground arith in
    let printed =
      print_parts-Prints (printf (c.name ++ b'=' ∷ c.value) ∷ attributes c) [] 0 (omega arith) in
    ap
      (λ (p : Option Printed). p >>= λ (text, pos). some (
        if leb cookie_size pos
        then (false, res)
        else (true, set_header (codes "Set-Cookie") text res)))
      printed
    ∙ rw (short) refl

outside-print_parts :
    (parts : List Part) (p : Printed) → parts ≢ [] → cookie_size < p.1 → print_parts parts p ≡ none
unfolding print_parts print_at print_date
outside-print_parts [] p h l = absurd (h refl)
outside-print_parts (printf s ∷ parts) (text, pos) h l =
    let outside : ltb cookie_size pos ≡ true = lt→ltb _ _ l in rw (outside, print_at) refl
outside-print_parts (date s ∷ parts) (text, pos) h l =
    let outside : ltb cookie_size pos ≡ true = lt→ltb _ _ l in rw (outside, print_date) refl

-- A cookie whose name and value, with the equals sign, have more than 4096 bytes, and which has any
-- attribute: the attribute is written outside the buffer, in place of the refusal of a long cookie.
add_cookie-leaves :
    (c : Cookie) (res : Response)
    → attributes c ≢ []
    → cookie_size < length (c.name ++ b'=' ∷ c.value)
    → add_cookie c res ≡ none
unfolding add_cookie print_parts print_at
add_cookie-leaves c res h l =
    ap
      (λ (p : Option Printed). p >>= λ (text, pos). some (
        if leb cookie_size pos
        then (false, res)
        else (true, set_header (codes "Set-Cookie") text res)))
      (outside-print_parts (attributes c) _ h (omega arith))
