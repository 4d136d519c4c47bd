-- ===== src/RequestParser/Multipart/State.antt =====
-- src/onion/request_parser.c: `onion_multipart_buffer`, and what the parsers of a multipart form read
-- and change.
use onion.Prelude.{ℕ, ◌-◌, [], ◌++◌, Option, none, some, ltb, if◌then◌else◌, Bytes, codes}
use onion.Strings.{exact}
use onion.Dict.{Tree, no_flags, node_add}
use onion.RequestParser.{Token, Reading, found, need_more_data, internal_error, outside}
use onion.RequestParser.Machine.{Request}

-- The functions that `req->parser` points to while a form is read.
pub data Stage : Type 0 where
  start : Stage
  next : Stage
  headers_key : Stage
  content_type : Stage
  ignore_header : Stage
  field_data : Stage
  file_data : Stage

-- `text` is `token->str` up to `pos`, and `field` what `multipart->data` holds up to there while a
-- field is read. `used` is the distance of `multipart->data` from its first place, and `room` the
-- size of the allocation from that place on. `file` is what was written to `fd`.
pub record Multipart : Type 0 where
  pub stage : Stage
  pub text : Bytes
  pub boundary : Bytes
  pub pos : ℕ
  pub startpos : ℕ
  pub used : ℕ
  pub room : ℕ
  pub name : Option Bytes
  pub filename : Option Bytes
  pub field : Bytes
  pub file : Bytes
  pub file_total_size : ℕ
  pub post_total_size : ℕ
  pub post : Option (Tree Bytes Bytes)
  pub files : Option (Tree Bytes Bytes)

-- The rest of `prepare_POST`, from `extra_size` and the text behind `boundary=`: the allocation has
-- two bytes more than `extra_size` and the text take, and the boundary starts at its second byte
-- with four bytes before the text. `none` is that the terminator of the boundary leaves it.
unfoldable pub new_multipart : Request → ℕ → Bytes → Option Multipart
new_multipart req extra_size mp_token =
    if ltb extra_size 4
    then none
    else some (record {
      stage = start;
      text = [];
      boundary = codes "\r\n--" ++ mp_token;
      pos = 2;
      startpos = 0;
      used = 0;
      room = extra_size - 3;
      name = none;
      filename = none;
      field = [];
      file = [];
      file_total_size = 0;
      post_total_size = extra_size;
      post = req.post;
      files = req.files;
    })

-- What a parser does, as in the machine of the headers.
pub data Progress : Type 0 where
  calls : Multipart → Bytes → Progress
  needs_more : Multipart → Bytes → Progress
  ready : Multipart → Bytes → Progress
  fails : Progress
  leaves : Progress

abbrev pub with_token : Multipart → Reading → (Token → Bytes → Bytes → Progress) → Progress
with_token m (found token text rest) go_on = go_on token text rest
with_token m (need_more_data text) go_on = needs_more (record m { text = text }) []
with_token m internal_error go_on = fails
with_token m outside go_on = leaves

abbrev pub to_stage : Multipart → Stage → Multipart
to_stage m s = record m { stage = s; text = [] }

-- `onion_dict_add` of two texts, which adds nothing where the key is NULL.
abbrev pub put : Tree Bytes Bytes → Option Bytes → Bytes → Tree Bytes Bytes
put dict none value = dict
put dict (some key) value = node_add dict (record { key = key; value = value; flags = no_flags })
