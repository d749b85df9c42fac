-- ===== src/Tests/Queries.antt =====
-- core/network/https_server/request/http_request.cpp: a query string written from an object and read.
use order_book_server_cpp.Prelude.{ℕ, ◌≡◌, refl, none, some, false, List, [], ◌∷◌, codes, arith}
use order_book_server_cpp.Json.{Json, object, nil}
use order_book_server_cpp.HttpRequest.{deserialize_query_params}
use order_book_server_cpp.HttpRequest.Query.{insert_params}
use order_book_server_cpp.HttpRequest.QueryJson.{get_query_string_from_query_json}
use order_book_server_cpp.HttpRequest.QueryJson.RoundTrip.{
  string_fields, deserialize_query_params-get_query_string_from_query_json,
}
use order_book_server_cpp.SplitString.{find_in}

abbrev no_doubles : ℕ → List ℕ
no_doubles d = []

deserialize_query_params-get_query_string_from_query_json_example :
    (j : Json) × (query : List ℕ) × (get_query_string_from_query_json no_doubles
        (object false (string_fields ((codes "a", codes "1") ∷ (codes "b", codes "2") ∷ [])) nil)
      ≡ some (j, query))
    × (deserialize_query_params query
        ≡ some (insert_params ((codes "a", codes "1") ∷ (codes "b", codes "2") ∷ []) (λ l. none)))
deserialize_query_params-get_query_string_from_query_json_example =
    unfold find_in in
    deserialize_query_params-get_query_string_from_query_json no_doubles (codes "a") (codes "1")
      ((codes "b", codes "2") ∷ []) nil ((refl, refl), ((refl, refl), tt))
      (omega arith, (omega arith, tt))
