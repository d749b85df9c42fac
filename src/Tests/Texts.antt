-- ===== src/Tests/Texts.antt =====
-- core/json/json_parse.cpp: texts that are parsed.
use order_book_server_cpp.Prelude.{◌≡◌, refl, none, true, false, [], arith, codes, List, ℕ, ◌++◌}
use order_book_server_cpp.Prelude.Int.{negsuc}
use order_book_server_cpp.Json.{
  bool, int64, string, value, object, Fields, end, field, Items, nil, cons, find_field,
  assign_field,
}
use order_book_server_cpp.Json.Writer.{write, write_scalar, int64_text, uint64_text, digits_before}
use order_book_server_cpp.Json.Parser.{returns, parse}
use order_book_server_cpp.Json.Parser.RoundTrip.{IsPlain}
use order_book_server_cpp.Json.Parser.RoundTrip.Whole.{parse-write}
use order_book_server_cpp.SplitString.{find_in, find_from}
use order_book_server_cpp.HttpRequest.Post.{blank_line, body_of_request}
use order_book_server_cpp.HttpRequest.Post.Bodies.{body_of_request-write}

-- `{"a":[-5,true],"b":"x"}`
abbrev sample_items : Items
sample_items = cons (value (int64 (negsuc 4)) true) (cons (value (bool true) true) nil)

abbrev sample_fields : Fields
sample_fields =
    field (codes "a") (object true end sample_items)
      (field (codes "b") (value (string (codes "x")) true) end)

sample-IsPlain : IsPlain (object false sample_fields nil)
unfolding IsPlain find_field assign_field
sample-IsPlain = ((refl, tt), refl, (omega arith, (tt, tt)), ((refl, tt), refl, (refl, tt), tt))

sample_text :
    write (λ d. []) (object false sample_fields nil) ≡ codes "{\"a\":[-5,true],\"b\":\"x\"}"
unfolding write write_scalar int64_text uint64_text digits_before
sample_text = refl

parse-write_example :
    parse (λ s. none) 100 (write (λ d. []) (object false sample_fields nil))
    ≡ returns (object false sample_fields nil)
parse-write_example =
    parse-write (λ d. []) (λ s. none) false sample_fields nil 100 sample-IsPlain
      (unfold write write_scalar int64_text uint64_text digits_before in omega arith)

abbrev request_head : List ℕ
request_head = codes "POST /start_streaming_orderbook HTTP/1.1"

body_of_request-write_example :
    body_of_request
      (λ s. none)
      100
      (request_head ++ (blank_line ++ write (λ d. []) (object false sample_fields nil)))
    ≡ returns (write (λ d. []) (object false sample_fields nil), object false sample_fields nil)
body_of_request-write_example =
    body_of_request-write (λ d. []) (λ s. none) request_head false sample_fields nil 100
      sample-IsPlain
      (unfold find_from find_in write write_scalar int64_text uint64_text digits_before in refl)
      (unfold find_in write write_scalar int64_text uint64_text digits_before in refl)
      (unfold write write_scalar int64_text uint64_text digits_before in omega arith)
