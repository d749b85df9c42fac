-- ===== src/Tests/Bodies.antt =====
-- core/network/https_server/request/http_request_post.cpp and src/main.cpp: a body without members.
use order_book_server_cpp.Prelude.{ℕ, ◌≡◌, refl, none, List, ◌∷◌, ◌++◌, codes}
use order_book_server_cpp.Json.{empty}
use order_book_server_cpp.Json.Parser.{returns, parse, parse_from, parse_object}
use order_book_server_cpp.SplitString.{find_from, split_string}
use order_book_server_cpp.HttpRequest.Post.{body_of_request}

abbrev request_text : List ℕ
request_text = codes "POST / HTTP/1.1" ++ 13 ∷ 10 ∷ 13 ∷ 10 ∷ codes "{}"

-- The value has a null `m_value`, through which the handler of `/start_streaming_orderbook` calls
-- `has_field`.
no_members : body_of_request (λ s. none) 30 request_text ≡ returns (codes "{}", empty)
unfolding body_of_request find_from parse parse_from parse_object split_string
no_members = refl
