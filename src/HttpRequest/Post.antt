-- ===== src/HttpRequest/Post.antt =====
-- core/network/https_server/request/http_request_post.cpp: class HttpRequestPost. A position is -1, which
-- is `none` here, where `find` finds nothing. Bodies are shorter than 2 ^ 31 bytes, so that positions
-- fit the `int` variables. `std::stoi` is a parameter, which fails where it throws.
pub mod Bodies
use order_book_server_cpp.Prelude.{
  ℕ, zero, suc, ◌+◌, ◌-◌, ◌*◌, Option, none, some, Bool, true, false, not, ◌||◌, List, [], ◌∷◌,
  ◌++◌, length, drop, take, ltb, ◌==◌, if◌then◌else◌, text_eq, codes,
}
use order_book_server_cpp.Prelude.Int.{ℤ, pos, negsuc}
use order_book_server_cpp.SplitString.{find_in, find_from, split_string}
use order_book_server_cpp.Json.{Json, value, null, string, set_key, has_field, get_key}
use order_book_server_cpp.Json.Writer.{quote}
use order_book_server_cpp.Json.Parser.{
  Outcome, returns, throws, fault, out_of_fuel, ◌>>=◌, c_string, parse,
}
use order_book_server_cpp.HttpRequest.{HttpRequest, deserialize}
use order_book_server_cpp.HttpRequest.Lookups.{get_header_param, param_not_found, param_no_missing}
use order_book_server_cpp.HttpResponse.{is_null}

pub record HttpRequestPost : Type 0 where
  pub request : HttpRequest
  pub body : List ℕ
  pub body_json : Json

abbrev pub blank_line : List ℕ
blank_line = 13 ∷ 10 ∷ 13 ∷ 10 ∷ []

-- `content.substr(end_of_request_header + 4, …)`: `npos + 4` is 3.
unfoldable pub body_start : List ℕ → ℕ
body_start content = elim (find_from content blank_line 0) [ none ↦ 3 | some p ↦ p + 4 ]

abbrev pub key_format : List ℕ
key_format = codes "Content-Disposition: form-data; name="

-- `find` from a position that `find` returned.
abbrev pub find_after : List ℕ → List ℕ → Option ℕ → Option ℕ
find_after s part none = none
find_after s part (some i) = find_from s part i

-- `s.substr(i, j - i)`, all that is left when there is no `j`.
unfoldable pub between : List ℕ → ℕ → Option ℕ → Outcome (List ℕ)
between s i none = if ltb (length s) i then throws else returns (drop i s)
between s i (some j) = if ltb (length s) i then throws else returns (take (j - i) (drop i s))

abbrev pub json_string : List ℕ → Json
json_string s = value (string s) true

-- The loop over the parts of a form, from the position of the last one.
unfoldable pub form_loop : ℕ → List ℕ → List ℕ → Option ℕ → Json → Outcome Json
form_loop zero body frame start j = out_of_fuel
form_loop (suc fuel) body frame start j =
    let rest = λ (k : ℕ) (j' : Json).
      form_loop fuel body frame (find_after body frame (some (k + length frame))) j' in
    elim start [
      | none ↦ returns j
      | some k ↦ elim (find_from body key_format k) [
        | none ↦ returns j
        | some i ↦
            let key_start = i + (length key_format + 1) in
            let key_end = find_from body (quote ∷ []) key_start in
            let value_start : ℕ = elim (find_after body blank_line key_end) [
              | none ↦ 3
              | some p ↦ p + 4
            ] in
            let value_end = find_from body (13 ∷ 10 ∷ []) value_start in
            (do
              key ← between body key_start key_end
              v ← between body value_start value_end
              rest k (set_key (c_string key) (json_string v) j))
      ]
    ]

unfoldable pub deserialize_body_form_data : ℕ → List ℕ → Json → Outcome Json
unfolding form_loop
deserialize_body_form_data fuel body j = elim (find_in key_format body) [
  | none ↦ returns j
  | some p ↦ form_loop fuel body (take p body) (some 0) j
]

-- A pair that `split_string` split at `=`.
abbrev pub store_pair : Option (List (List ℕ)) → Json → Outcome Json
store_pair none j = out_of_fuel
store_pair (some (k ∷ v ∷ more)) j = returns (set_key (c_string k) (json_string v) j)
store_pair (some _) j = returns j

unfoldable pub pairs_loop : List (List ℕ) → Json → Outcome Json
pairs_loop [] j = returns j
pairs_loop (s ∷ pairs) j = do
  j' ← store_pair (split_string (length s + 1) s (codes "=")) j
  pairs_loop pairs j'

unfoldable pub deserialize_body_raw_data : List ℕ → Json → Outcome Json
unfolding pairs_loop
deserialize_body_raw_data body j =
    if is_null j
    then elim (split_string (length body + 1) body (codes "&")) [
      | none ↦ out_of_fuel
      | some pairs ↦ pairs_loop pairs j
    ]
    else returns j

module _ (read_double : List ℕ → Option ℕ) where
  unfoldable pub deserialize_body : ℕ → List ℕ → Outcome (List ℕ × Json)
  unfolding body_start
  deserialize_body fuel content =
      let start = body_start content in
      let body = drop start content in
      if ltb (length content) start
      then throws
      else (do j ← parse read_double fuel body; returns (body, j))

  -- The body, with what the three functions make of it.
  unfoldable pub body_of_request : ℕ → List ℕ → Outcome (List ℕ × Json)
  unfolding deserialize_body deserialize_body_form_data deserialize_body_raw_data
  body_of_request fuel content = do
    (body, j) ← deserialize_body fuel content
    j' ← deserialize_body_form_data fuel body j
    j'' ← deserialize_body_raw_data body j'
    returns (body, j'')

  -- The constructor.
  unfoldable pub new_request_post : ℕ → List ℕ → Outcome HttpRequestPost
  unfolding body_of_request
  new_request_post fuel content = elim (deserialize content) [
    | none ↦ throws
    | some r ↦ (do
      (body, j) ← body_of_request fuel content
      returns (record { request = r; body = body; body_json = j }))
  ]

-- `content_length == m_body.size()`; a negative length is a large one there.
unfoldable pub length_agrees : ℤ → ℕ → Bool
length_agrees (pos n) size = (n == 0) || (n == size)
length_agrees (negsuc n) size = false

module _ (stoi : List ℕ → Option ℤ) where
  -- `none` is an exception of `stoi`.
  unfoldable pub is_valid_format : HttpRequestPost → Option Bool
  unfolding length_agrees get_header_param
  is_valid_format r =
      let upper = get_header_param (codes "Content-Length") r.request in
      let lower = get_header_param (codes "content-length") r.request in
      let agrees : List ℕ → Option Bool =
        λ s. elim (stoi s) [ none ↦ none | some n ↦ some (length_agrees n (length r.body)) ] in
      if not (text_eq upper param_not_found)
      then agrees upper
      else if not (text_eq lower param_not_found)
      then agrees lower
      else some true

-- `none` is the call of `has_field` through a null `m_value`, here and below.
unfoldable pub get_body_param_json : List ℕ → HttpRequestPost → Option Json
get_body_param_json k r = elim (has_field k r.body_json) [
  | none ↦ none
  | some true ↦ get_key k r.body_json
  | some false ↦ some (value null true)
]

unfoldable pub check_missing_body_params : List (List ℕ) → HttpRequestPost → Option (List ℕ)
check_missing_body_params [] r = some param_no_missing
check_missing_body_params (k ∷ ks) r =
    let rest = check_missing_body_params ks r in
    elim (has_field k r.body_json) [
      | none ↦ none
      | some true ↦ rest
      | some false ↦ some (codes "Missing body param: [" ++ (k ++ codes "]"))
    ]
