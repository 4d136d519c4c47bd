-- ===== src/Utils.antt =====
-- src/onion/utils.h: the character classes that HTTP needs, and `onion_basename`.
use onion.Prelude.{ℕ, [], ◌∷◌, Bool, ◌&&◌, ◌||◌, ◌==◌, leb, if◌then◌else◌, Bytes}

-- `is_space`: a tab, a line feed, a carriage return or a space.
unfoldable pub is_space : ℕ → Bool
is_space c = (c == b'\t') || (c == b'\n') || (c == b'\r') || (c == b' ')

-- `is_alnum`: an ASCII digit or letter, whatever the locale.
unfoldable pub is_alnum : ℕ → Bool
is_alnum c = (leb b'0' c && leb c b'9') || (leb b'A' c && leb c b'Z') || (leb b'a' c && leb c b'z')

-- The loop of `onion_basename`: `base` is the text at the pointer `basename`.
unfoldable pub basename_from : Bytes → Bytes → Bytes
basename_from base [] = base
basename_from base (c ∷ path) = basename_from (if c == b'/' then path else base) path

-- `onion_basename` of a path that is not NULL.
unfoldable pub basename : Bytes → Bytes
unfolding basename_from
basename path = basename_from path path
