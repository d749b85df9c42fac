-- ===== src/HttpRequest/QueryJson.antt =====
-- core/network/https_server/request/http_request.cpp: a query string written from the members of a `Json`.
pub mod RoundTrip
use order_book_server_cpp.Prelude.{
  ℕ, suc, ◌+◌, ◌≡◌, Option, none, some, ◌>>=◌, Bool, true, false, List, [], ◌∷◌, ◌++◌, ltb,
  if◌then◌else◌,
}
use order_book_server_cpp.Json.{Json, empty, value, object, Fields, end, field}
use order_book_server_cpp.Json.Writer.{get_string_value}
use order_book_server_cpp.Json.Containers.{for_each_with_key}
use order_book_server_cpp.Json.Conversions.{is_string, set_is_string_format}

-- What the loop does to a member: a string is written without quotes from then on.
unfoldable pub unquoted : Json → Json
unquoted j =
    if is_string j then elim (set_is_string_format false j) [ none ↦ j | some k ↦ k ] else j

module _ (double_text : ℕ → List ℕ) where
  -- The loop, with `counter` and `res`; `none` is a value longer than the writer's buffer.
  unfoldable pub query_loop : Fields → ℕ → List ℕ → Option (List ℕ)
  query_loop end counter res = some res
  query_loop (field k v fs) counter res = do
    param ← get_string_value double_text (unquoted v)
    query_loop fs (counter + 1)
        (res ++ ((if ltb 0 counter then b'&' ∷ [] else []) ++ (k ++ b'=' ∷ param)))

  -- The members as the loop leaves them, and the text.
  unfoldable pub get_query_string_from_query_json : Json → Option (Json × List ℕ)
  unfolding query_loop
  get_query_string_from_query_json (object false fs is) = do
    res ← query_loop fs 0 []
    some (for_each_with_key (λ k. unquoted) (object false fs is), res)
  get_query_string_from_query_json j = some (j, [])
