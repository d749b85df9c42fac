-- ===== src/HttpRequest.antt =====
-- core/network/https_server/request/http_request.cpp: the parser of a request. A text is the list
-- of its bytes. `none` is an uncaught `std::out_of_range` of `substr`, or a loop out of fuel.
-- `std::unordered_map` is a function from keys to optional values.
pub mod Line
pub mod Lookups
pub mod Creation
pub mod Errors
pub mod Post
pub mod Query
pub mod QueryJson
use order_book_server_cpp.Prelude.{
  ℕ, zero, suc, ◌+◌, ◌-◌, ◌≡◌, Option, none, some, ◌>>=◌, Bool, true, false, List, [], ◌∷◌, length,
  ltb, leb, ◌==◌, if◌then◌else◌, text_eq, codes, drop,
}
use order_book_server_cpp.SplitString.{find_from, substr, split_string}

abbrev pub Params : Type 0
Params = List ℕ → Option (List ℕ)

pub record HttpRequest : Type 0 where
  pub url : List ℕ
  pub query_string : List ℕ
  pub query_params : Params
  pub header_params : Params

-- `insert` keeps the value of a key that is there.
abbrev pub insert_param : List ℕ → List ℕ → Params → Params
insert_param k v m l = elim (m l) [ some w ↦ some w | none ↦ if text_eq k l then some v else none ]

unfoldable pub deserialize_url : List ℕ → List ℕ
deserialize_url content = elim (find_from content (b' ' ∷ []) 0) [
  | none ↦ []
  | some end_of_method ↦ elim (find_from content (b' ' ∷ []) (end_of_method + 1)) [
    | none ↦ []
    | some end_of_url ↦ substr content (end_of_method + 1) (end_of_url - end_of_method - 1)
  ]
]

-- The URL and the query string, from what `deserialize_url` left.
unfoldable pub deserialize_query_string : List ℕ → List ℕ × List ℕ
deserialize_query_string url = elim (find_from url (b'?' ∷ []) 0) [
  | none ↦ (url, [])
  | some p ↦ (substr url 0 p, substr url (p + 1) (length url - 1))
]

-- `key=value`; `none` when there is no `=`.
unfoldable pub split_param : List ℕ → Option (List ℕ × List ℕ)
split_param param = elim (find_from param (b'=' ∷ []) 0) [
  | none ↦ none
  | some p ↦ some (substr param 0 p, substr param (p + 1) (length param - 1))
]

-- Where the inner loop stops: the next `&`, or the end.
unfoldable pub end_of_param : List ℕ → ℕ → ℕ
end_of_param q start = elim (find_from q (b'&' ∷ []) start) [ none ↦ length q | some p ↦ p ]

-- A parameter without `=` ends the loop.
unfoldable pub store_param :
    Option (List ℕ × List ℕ) → (Params → Option Params) → Params → Option Params
store_param none rest m = some m
store_param (some (k, v)) rest m = rest (insert_param k v m)

unfoldable pub params_loop : ℕ → List ℕ → ℕ → Params → Option Params
params_loop zero q start m = none
params_loop (suc fuel) q start m =
    let end = end_of_param q start in
    let rest = params_loop fuel q (end + 1) in
    let param = split_param (substr q start (end - start)) in
    if leb (length q) start then some m else store_param param rest m

unfoldable pub deserialize_query_params : List ℕ → Option Params
unfolding params_loop
deserialize_query_params q = params_loop (length q + 1) q 0 (λ k. none)

-- A header line that splits in two at ": " is stored.
unfoldable pub store_header : Option (List (List ℕ)) → Params → Option Params
store_header (some (k ∷ v ∷ [])) m = some (insert_param k v m)
store_header (some []) m = some m
store_header (some (k ∷ [])) m = some m
store_header (some (k ∷ v ∷ w ∷ ws)) m = some m
store_header none m = none

unfoldable pub headers_loop : List (List ℕ) → Params → Option Params
unfolding store_header
headers_loop [] m = some m
headers_loop (h ∷ hs) m =
    store_header (split_string (length h + 1) h (codes ": ")) m >>= headers_loop hs

-- `content.find_first_of("\r\n", 0)`
unfoldable pub first_line_end : List ℕ → ℕ → Option ℕ
first_line_end [] i = none
first_line_end (c ∷ s) i =
    let rest = first_line_end s (i + 1) in
    if c == 13 then some i else if c == 10 then some i else rest

-- `npos + 2` is 1, and `npos - start` bytes are all that there are.
unfoldable pub deserialize_header_params : List ℕ → Option Params
unfolding first_line_end headers_loop
deserialize_header_params content =
    let start : ℕ = elim (first_line_end content 0) [ none ↦ 1 | some p ↦ p + 2 ] in
    let size : ℕ = elim (find_from content (13 ∷ 10 ∷ 13 ∷ 10 ∷ []) 0) [
      | none ↦ length content
      | some p ↦ if ltb p start then length content else p - start
    ] in
    if ltb (length content) start then none else do
      lines ← split_string (length content + 1) (substr content start size) (13 ∷ 10 ∷ [])
      headers_loop lines (λ k. none)

unfoldable pub deserialize : List ℕ → Option HttpRequest
unfolding deserialize_url deserialize_query_string deserialize_query_params
    deserialize_header_params
deserialize content = do
  let parts = deserialize_query_string (deserialize_url content)
  params ← deserialize_query_params parts.1
  headers ← deserialize_header_params content
  some (record {
    url = parts.0;
    query_string = parts.1;
    query_params = params;
    header_params = headers;
  })
