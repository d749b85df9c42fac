-- ===== src/HttpRequest/QueryJson/RoundTrip.antt =====
-- core/network/https_server/request/http_request.cpp: a query string written and read.
use mathlib.Core.List.{append_assoc}
use order_book_server_cpp.Prelude.{
  ℕ, ◌+◌, ◌<◌, ◌≤◌, ◌≡◌, ◌∙◌, refl, ap, none, some, true, false, List, [], ◌∷◌, ◌++◌, length, All,
  lt→ltb, le→leb, arith,
}
use order_book_server_cpp.Json.{Json, value, string, object, Fields, end, field, Items}
use order_book_server_cpp.Json.Writer.{get_string_value, write, write_scalar}
use order_book_server_cpp.Json.Containers.{for_each_with_key}
use order_book_server_cpp.Json.Conversions.{is_string, set_is_string_format}
use order_book_server_cpp.HttpRequest.{deserialize_query_params}
use order_book_server_cpp.HttpRequest.Query.{
  encode, insert_params, IsPlain, deserialize_query_params-encode,
}
use order_book_server_cpp.HttpRequest.QueryJson.{
  unquoted, query_loop, get_query_string_from_query_json,
}

-- Members that are strings, in the order of the iteration.
abbrev pub string_fields : List (List ℕ × List ℕ) → Fields
string_fields [] = end
string_fields ((k, v) ∷ ps) = field k (value (string v) true) (string_fields ps)

-- A value that fits into the writer's buffer.
abbrev pub IsShort : List ℕ × List ℕ → Type 0
IsShort (k, v) = length v ≤ 100000

module _ (double_text : ℕ → List ℕ) where
  string_value :
      (v : List ℕ)
      → length v ≤ 100000
      → get_string_value double_text (unquoted (value (string v) true)) ≡ some v
  unfolding get_string_value unquoted is_string set_is_string_format write write_scalar
  string_value v h = rw (le→leb (length v) 100000 h) refl

  -- Members behind the first.
  query_loop-encode :
      (l w : List ℕ) (ps : List (List ℕ × List ℕ)) (n : ℕ) (res : List ℕ)
      → 0 < n
      → All IsShort ((l, w) ∷ ps)
      → query_loop double_text (string_fields ((l, w) ∷ ps)) n res
        ≡ some (res ++ b'&' ∷ encode l w ps)
  unfolding query_loop encode
  query_loop-encode l w [] n res h short = rw (string_value w short.0, lt→ltb 0 n h) refl
  query_loop-encode l w ((k, v) ∷ ps) n res h short =
      let next =
        query_loop-encode k v ps (n + 1) (res ++ b'&' ∷ (l ++ b'=' ∷ w)) (omega arith) short.1 in
      rw (string_value w short.0, lt→ltb 0 n h)
        (next ∙ ap some (append_assoc res (b'&' ∷ (l ++ b'=' ∷ w)) (b'&' ∷ encode k v ps)))

  query_loop_lem :
      (k v : List ℕ) (ps : List (List ℕ × List ℕ))
      → All IsShort ((k, v) ∷ ps)
      → query_loop double_text (string_fields ((k, v) ∷ ps)) 0 [] ≡ some (encode k v ps)
  unfolding query_loop encode
  query_loop_lem k v [] short = rw (string_value v short.0) refl
  query_loop_lem k v ((l, w) ∷ ps) short =
      rw (string_value v short.0) (query_loop-encode l w ps 1 (k ++ b'=' ∷ v) (omega arith) short.1)

  -- The query string that is written from an object of strings, each within the writer's buffer, with no
  -- `=` in a name and no `&` in a name or value, is read as these parameters: the writing and the reading
  -- end, and a name has the value of its first member.
  pub deserialize_query_params-get_query_string_from_query_json :
      (k v : List ℕ) (ps : List (List ℕ × List ℕ)) (is : Items)
      → All IsPlain ((k, v) ∷ ps)
      → All IsShort ((k, v) ∷ ps)
      → (j : Json) × (query : List ℕ) × (get_query_string_from_query_json double_text
            (object false (string_fields ((k, v) ∷ ps)) is)
          ≡ some (j, query))
        × (deserialize_query_params query ≡ some (insert_params ((k, v) ∷ ps) (λ l. none)))
  unfolding get_query_string_from_query_json
  deserialize_query_params-get_query_string_from_query_json k v ps is plain short = (
    for_each_with_key (λ l. unquoted) (object false (string_fields ((k, v) ∷ ps)) is),
    encode k v ps,
    rw (query_loop_lem k v ps short) refl,
    deserialize_query_params-encode k v ps plain,
  )
