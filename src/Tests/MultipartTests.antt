-- ===== src/Tests/MultipartTests.antt =====
-- Parts of a form.
use onion.Prelude.{[], ◌++◌, none, some, ◌≡◌, ◌+◌, ◌*◌, refl, arith, codes, length}
use onion.Strings.{exact}
use onion.RequestParser
use onion.RequestParser.Multipart.State.{Multipart, field_data, needs_more}
use onion.RequestParser.Multipart.Fields.{parse_data}
use onion.RequestParser.Multipart.Files.{parse_file}
use onion.RequestParser.Multipart.Kept.{IsParted, pending}
use onion.RequestParser.Multipart.Plain.{at_field, stored_field}

-- A part of a form with the boundary `xy`, behind two bytes that start no boundary.
abbrev part : Multipart
part = record {
  stage = field_data;
  text = [];
  boundary = codes "\r\n--xy";
  pos = 2;
  startpos = 0;
  used = 3;
  room = 20;
  name = some (codes "ab");
  filename = none;
  field = [];
  file = codes "a";
  file_total_size = 3;
  post_total_size = 20;
  post = none;
  files = none;
}

parse_file-IsParted_example :
    IsParted 1000
      (3 + 2 + 3 * length (codes "b\r\n--xy--"))
      (codes "--xy")
      ((codes "a" ++ pending part) ++ codes "b\r\n--xy--")
      (parse_file 1000 part (codes "b\r\n--xy--"))
parse_file-IsParted_example =
    RequestParser.Multipart.Kept.parse_file-IsParted 1000 part (codes "--xy") (codes "b\r\n--xy--")
      (refl, omega arith, omega arith, omega arith) (omega arith)

parse_data-field_example :
    parse_data
      (at_field part (codes "xy") [] (length (codes "value") + 2))
      (codes "value" ++ codes "\r\n--xy--")
    ≡ needs_more (stored_field part (codes "xy") (codes "value") 2) (codes "--")
parse_data-field_example =
    RequestParser.Multipart.Plain.parse_data-field part (codes "xy") (codes "value") (codes "--") 2
      (ground arith) (omega arith)
