-- ===== src/Tests/RequestParserTests.antt =====
-- Pieces of a request through the token readers.
use onion.Prelude.{ℕ, zero, suc, [], false, ◌≡◌, refl, arith, codes, replicate, length-replicate}
use onion.Prelude.Predicates.{All}
use onion.Utils.{is_space}
use onion.RequestParser.{
  string, line, key, found, need_more_data, outside, line_end, terminate, read_string, read_until,
  read_line, read_multipart_next, line_str,
}
use onion.RequestParser.Chunks.{resume}
use onion.RequestParser.Overrun.{bytewise}
use onion.RequestParser

read_until-append_example :
    resume (read_until b':') (read_until b':' [] (codes "Ho")) (codes "st: a")
    ≡ read_until b':' [] (codes "Host: a")
read_until-append_example =
    RequestParser.Chunks.read_until-append b':' [] (codes "Ho") (codes "st: a") (omega arith)

replicate-letter : (n : ℕ) → All (λ c. is_space c ≡ false) (replicate n b'a')
unfolding is_space
replicate-letter zero = tt
replicate-letter (suc n) = (refl, replicate-letter n)

read_string-outside_example : bytewise read_string [] (replicate 8193 b'a') ≡ outside
read_string-outside_example =
    RequestParser.Overrun.read_string-outside [] (replicate 8193 b'a') (replicate-letter 8193)
      (omega arith) (omega (arith, length-replicate {A = ℕ} 8193 b'a'))
