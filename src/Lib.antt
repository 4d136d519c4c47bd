-- ===== src/Lib.antt =====
-- The onion HTTP server library, in C: a model of its core data structures and parsers.
--
-- The parts and their files
--   Utils.antt            src/onion/utils.h: character classes, `onion_basename`.
--   Codecs/Url.antt       src/onion/codecs.c: `onion_quote`, `onion_quote_new`,
--                         `onion_unquote_inplace`.
--   Codecs/Html.antt      src/onion/codecs.c: `onion_html_add_enc` and the quoting over it, and
--                         `onion_response_write_html_safe` of src/onion/response.c.
--   Codecs/Base64.antt    src/onion/codecs.c: `onion_base64_encode`, `onion_base64_decode`.
--   Codecs/Json.antt      src/onion/codecs.c: `onion_json_quote_add`, `onion_json_unquote_add`.
--   Codecs/CQuote.antt    src/onion/codecs.c: `onion_c_quote`, `onion_c_quote_new`.
--   Dict.antt             src/onion/dict.c: the dictionary, an AA tree. Requests keep their headers,
--                         queries, posts and sessions in dictionaries, responses their headers. Dict/Json is
--                         JSON texts of dictionaries, Dict/Json/Order the order in which a dictionary
--                         that is read has its keys.
--   Block.antt            src/onion/block.c: byte buffers that grow, which collect bodies of requests
--                         and JSON texts.
--   RequestParser.antt    src/onion/request_parser.c: the token readers, which are called with each
--                         piece of data that a connection receives; RequestParser/Machine the state
--                         machine over them with RequestParser/Write, its loop; RequestParser/Query
--                         queries; RequestParser/Multipart forms with files, and the
--                         loop as a whole.
--   Request.antt          src/onion/request.c: what a handler asks of a request that the parser made:
--                         queries, the path, the language, cookies, whether the connection is kept.
--   Response.antt         src/onion/response.c: the buffer of a response, its headers and its end, over
--                         a writer that takes a part of what it is given; it asks the request whether
--                         the connection is kept.
--   Handler.antt          src/onion/handler.c: chains of handlers, over `onion_websocket_call` as a
--                         parameter; the response of the handler that answers is flushed.
--   Url.antt              src/onion/url.c: the handler that asks patterns in their order, over `regcomp`
--                         and `regexec` as parameters.
--   Poller.antt           src/onion/poller.c: the slots of file descriptors, their timeouts, and the loop
--                         over the events of epoll with the callbacks of slots as a parameter.
--   Sessions.antt         src/onion/sessions.c: identifiers and the store that a request asks for its
--                         session, an interface; Request/Session the request's side of it.
--   SessionsMem.antt      src/onion/sessions_mem.c: the sessions in memory, a dictionary of dictionaries,
--                         which keeps what the interface promises.
--   Mime.antt             src/onion/mime.c: the reader of /etc/mime.types into a dictionary, and the type
--                         of a file name.
--   Websocket.antt        src/onion/websocket.c: the frames that are written; Websocket/Socket the
--                         headers that are read, Websocket/Read content, pings and closes,
--                         Websocket/Call the loop that calls back, over the reader of the listen point
--                         as a parameter; Websocket/Open the answer that opens a websocket, over
--                         `onion_sha1` as a parameter. The handlers call it for a connection that was upgraded.
--   PtrList.antt          src/onion/ptr_list.c: lists of pointers, which hold what a request frees.
--   Prelude, Prelude/*    shared names, lists over the native numbers, texts as bytes.
--   Tests, Tests/*        the theorems at concrete inputs.
-- The files below a part are named for what they prove: Dict/Order is the interface of the
-- comparison, Dict/Sorted the list that a dictionary stands for, Dict/Entries, Dict/Add, Dict/Remove,
-- Dict/Removal, Dict/Find, Dict/Copy what the operations do to it, Dict/Balance the AA invariant.
--
-- Correspondence
--   Functions keep the names of the source without the prefix `onion_` and, in a module of its own,
--   without the name of the part: `onion_dict_node_add` is `node_add` of Dict, `onion_block_add_str` is
--   `add_str` of Block, `token_read_LINE` is `read_line` of RequestParser. A C string is the list of
--   its bytes before the terminator. A structure that is changed in place is an argument and a result.
--   NULL is `none` or the constructor `null`. A read or write outside of a buffer is a result of its
--   own: `none`, `out_of_bounds`, `behind` or `outside`.
--   A dictionary has keys and values of any type; what `dict->cmp` must satisfy is the interface
--   KeyOrder, and Strings gives it for texts, with regard to case and without. Who frees a key or
--   a value is in the flags of its entry and nowhere else.
--   A block takes its memory from an Allocator, with what `malloc` and `realloc` promise; an operation
--   whose size is no `int` has no result, nor has `base64_encode` there.
--
-- Fuel
--   `node_remove` has the number of entries as fuel: each call goes to a tree with one node less at
--   least. `encode_lines` has the length of the buffer, `decode_loop` one more than the length of the
--   text, `write_payload` the length of the buffer, `json_unquote_from` one more than the length of
--   the text: each round takes a byte at least. The fuel of `remove` in PtrList is any number of
--   calls. `request_write` has twice as many calls of a parser as there are bytes, and two more, and
--   `run_request` as many again for a form; `file_step` has two, as a byte that ends a false boundary is read again. The loop of
--   `onion_response_write` has one round for each full buffer and one more. The fuel of `read` and
--   `call` in Websocket counts calls inside of each other and rounds: a client that sends nothing but
--   pings keeps them going. `read_members` and `guess` have the length of the text and one more.
--   Everything else is recursion on the data.
--
-- Not modelled
--   Sockets, threads, TLS, logs, the session stores in databases, the bindings and the tools: input
--   and output, and calls of other libraries. Of the parts above: the dictionary's reference
--   counts, the launch of a request on its connection, a response without a request, texts of 2^31
--   bytes and more in a response, and what a poller does once a slot was added to it twice.
pub mod Prelude
pub mod Utils
pub mod Strings
pub mod Codecs
pub mod Dict
pub mod Block
pub mod PtrList
pub mod RequestParser
pub mod Sessions
pub mod Request
pub mod Response
pub mod Handler
pub mod Url
pub mod Poller
pub mod SessionsMem
pub mod Mime
pub mod Websocket
pub mod Tests
