-- ===== src/Tests/DictTests.antt =====
-- Dictionaries of headers: a balanced tree of three keys, and what the operations make of it.
use onion.Dict.Json.{Members, member, end, text, dict, to_json, from_json, parsed}
use onion.Dict.Json.RoundTrip.{AreTexts}
use onion.Dict.Json.Order.{IsOrdered}
use onion.Codecs.Json.{json_quoted, json_quote}
use onion.Prelude.{[], ◌∷◌, true, none, some, ◌≡◌, refl, inr, arith, Bytes, codes}
use onion.Dict.{
  Entry, Flags, no_flags, Tree, null, node, entries, count, find_node, node_add, cleared,
  hard_dup_entry, hard_dup, remove,
}
use onion.Dict.Sorted.{IsSorted, IsStrict, put, find_first}
use onion.Dict.Balance.{IsBalanced, depth}
use onion.Dict.Remove.{remove_first}
use onion.Dict
use onion.Strings.{exact, compare_texts}

abbrev replacing : Flags
replacing = record no_flags { replace = true }

abbrev header : Bytes → Bytes → Entry Bytes Bytes
header k v = record { key = k; value = v; flags = no_flags }

abbrev accept : Entry Bytes Bytes
accept = header (codes "Accept") (codes "text/html")

abbrev host : Entry Bytes Bytes
host = header (codes "Host") (codes "example.org")

abbrev via : Entry Bytes Bytes
via = header (codes "Via") (codes "1.1 cache")

abbrev new_host : Entry Bytes Bytes
new_host = record { key = codes "Host"; value = codes "example.com"; flags = replacing }

abbrev headers : Tree Bytes Bytes
headers = node host 2 (node accept 1 null null) (node via 1 null null)

headers-IsStrict : IsStrict (entries headers)
unfolding entries compare_texts
headers-IsStrict = ((refl, (refl, tt)), ((refl, tt), (tt, tt)))

headers-IsSorted : IsSorted (entries headers)
unfolding entries compare_texts
headers-IsSorted =
    (((λ e. ground arith), ((λ e. ground arith), tt)), (((λ e. ground arith), tt), (tt, tt)))

leaf-IsBalanced : (x : Entry Bytes Bytes) → IsBalanced (node x 1 null null)
leaf-IsBalanced x = (refl, omega arith, omega arith, omega arith, tt, tt)

headers-IsBalanced : IsBalanced headers
headers-IsBalanced =
    (refl, omega arith, omega arith, omega arith, leaf-IsBalanced accept, leaf-IsBalanced via)

find_node-node_add_example : find_node (node_add headers new_host) (codes "Host") ≡ some new_host
unfolding compare_texts
find_node-node_add_example =
    Dict.Find.find_node-node_add headers new_host (codes "Host") refl headers-IsStrict

find_node-remove_example : find_node (remove headers (codes "Host")) (codes "Host") ≡ none
unfolding compare_texts
find_node-remove_example =
    Dict.Removal.find_node-remove headers (codes "Host") (codes "Host") headers-IsStrict

entries-node_add_example : entries (node_add headers new_host) ≡ accept ∷ new_host ∷ via ∷ []
unfolding compare_texts entries put
entries-node_add_example = Dict.Add.entries-node_add headers new_host (inr (refl, headers-IsStrict))

entries-remove_example : entries (remove headers (codes "Host")) ≡ accept ∷ via ∷ []
unfolding compare_texts entries remove_first
entries-remove_example = Dict.Removal.entries-remove headers (codes "Host") headers-IsStrict

node_add-IsBalanced_example : IsBalanced (node_add headers new_host)
node_add-IsBalanced_example = Dict.Balance.node_add-IsBalanced headers new_host headers-IsBalanced

find_node-find_first_example : find_node headers (codes "Via") ≡ some via
unfolding compare_texts entries find_first
find_node-find_first_example = Dict.Find.find_node-find_first headers (codes "Via") headers-IsStrict

-- {"a": {"b": "x"}, "c": "y"}
abbrev nested : Members
nested =
    member (codes "a") (dict (member (codes "b") (text (codes "x")) end))
      (member (codes "c") (text (codes "y")) end)

nested_printed : to_json nested ≡ codes "{\"a\":{\"b\":\"x\"}, \"c\":\"y\"}"
unfolding to_json json_quoted json_quote
nested_printed = refl

from_json-to_json_example : from_json (to_json nested) ≡ parsed nested []
unfolding AreTexts IsOrdered compare_texts
from_json-to_json_example =
    Dict.Json.RoundTrip.from_json-to_json nested
      (
        (omega arith, tt),
        ((omega arith, tt), (omega arith, tt), tt),
        ((omega arith, tt), (omega arith, tt), tt),
      )
      (((λ e. ground arith), tt), (tt, tt, tt), (tt, tt, tt))
