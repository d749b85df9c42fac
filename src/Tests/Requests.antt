-- ===== src/Tests/Requests.antt =====
-- core/utils/utils.cpp and core/network/https_server/request/http_request.cpp at small inputs.
use order_book_server_cpp.Prelude.{
  ℕ, ◌≡◌, refl, some, ◌>>=◌, List, [], ◌∷◌, ◌++◌, All, arith, codes,
}
use order_book_server_cpp.SplitString.{find_in, find_from, split_loop, split_string}
use order_book_server_cpp.SplitString.Pieces.{join, Free, split_string-join}
use order_book_server_cpp.HttpRequest.{
  deserialize, deserialize_url, deserialize_query_string, deserialize_query_params,
  deserialize_header_params, first_line_end, headers_loop, store_header, params_loop, store_param,
  split_param, end_of_param,
}

split_string-join_example :
    (p : List ℕ) × (ps : List (List ℕ)) × (split_string 9 (codes "Host: x") (codes ": ")
      ≡ some (p ∷ ps))
    × (join (codes ": ") p ps ≡ codes "Host: x")
    × All (Free (codes ": ")) (p ∷ ps)
split_string-join_example = split_string-join (codes "Host: x") 58 (codes " ") 9 (omega arith)

abbrev content : List ℕ
content =
    codes "GET /a?x=1&y=2 HTTP/1.1"
    ++ 13 ∷ 10 ∷ (codes "Host: h" ++ 13 ∷ 10 ∷ (codes "Bad" ++ 13 ∷ 10 ∷ 13 ∷ 10 ∷ []))

request_is : (deserialize content >>= λ r. r.query_params (codes "y")) ≡ some (codes "2")
unfolding deserialize deserialize_url deserialize_query_string deserialize_query_params
    deserialize_header_params first_line_end headers_loop store_header params_loop store_param
    split_param end_of_param split_string split_loop find_from find_in
request_is = refl

header_is : (deserialize content >>= λ r. r.header_params (codes "Host")) ≡ some (codes "h")
unfolding deserialize deserialize_url deserialize_query_string deserialize_query_params
    deserialize_header_params first_line_end headers_loop store_header params_loop store_param
    split_param end_of_param split_string split_loop find_from find_in
header_is = refl
