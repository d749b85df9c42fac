-- ===== src/HttpRequest/Post/Bodies.antt =====
-- core/network/https_server/request/http_request_post.cpp: a request whose body is Json.
use order_book_server_cpp.Prelude.{
  ℕ, suc, ◌+◌, ◌*◌, ◌≤◌, ◌≡◌, refl, Option, none, some, Bool, false, List, [], ◌∷◌, ◌++◌, length,
  length-append, drop, ltb, arith,
}
use order_book_server_cpp.SplitString.{find_in, find_from}
use order_book_server_cpp.Json.{Json, object, Fields, Items}
use order_book_server_cpp.Json.Writer.{write}
use order_book_server_cpp.Json.Parser.{returns, parse}
use order_book_server_cpp.Json.Parser.RoundTrip.{IsPlain}
use order_book_server_cpp.Json.Parser.RoundTrip.Whole.{parse-write}
use order_book_server_cpp.HttpRequest.Post.{
  blank_line, body_start, key_format, deserialize_body, deserialize_body_form_data,
  deserialize_body_raw_data, body_of_request,
}

drop-length : (xs ys : List ℕ) → drop (length xs) (xs ++ ys) ≡ ys
drop-length [] ys = refl
drop-length (x ∷ xs) ys = drop-length xs ys

drop-behind_head :
    (head body : List ℕ) → drop (length head + 4) (head ++ (blank_line ++ body)) ≡ body
drop-behind_head [] body = refl
drop-behind_head (c ∷ head) body =
    let e : suc (length head) + 4 ≡ suc (length head + 4) = omega arith in
    rw e (drop-behind_head head body)

body_start-some :
    (content : List ℕ) (p : ℕ)
    → find_from content blank_line 0 ≡ some p
    → body_start content ≡ p + 4
unfolding body_start
body_start-some content p h = rw (body_start, h) refl

module _ (double_text : ℕ → List ℕ) (read_double : List ℕ → Option ℕ) where
  deserialize_body-write :
      (head text : List ℕ) (j : Json) (fuel : ℕ)
      → find_from (head ++ (blank_line ++ text)) blank_line 0 ≡ some (length head)
      → parse read_double fuel text ≡ returns j
      → deserialize_body read_double fuel (head ++ (blank_line ++ text)) ≡ returns (text, j)
  unfolding deserialize_body
  deserialize_body-write head text j fuel blank read =
      let start : body_start (head ++ (blank_line ++ text)) ≡ length head + 4 =
        body_start-some _ _ blank in
      let inside : ltb (length (head ++ (blank_line ++ text))) (length head + 4) ≡ false =
        ground (arith, length-append head (blank_line ++ text)) in
      rw (start, inside, drop-behind_head head text, read) refl

  deserialize_body_form_data-none :
      (fuel : ℕ) (text : List ℕ) (j : Json)
      → find_in key_format text ≡ none
      → deserialize_body_form_data fuel text j ≡ returns j
  unfolding deserialize_body_form_data
  deserialize_body_form_data-none fuel text j h = rw (deserialize_body_form_data, h) refl

  -- The body of a request that is the text of a plain object or array is read as that value, when the
  -- first blank line is the one behind the head and the text has no key of a form in it, on fuel of four times
  -- the text's length or more.
  pub body_of_request-write :
      (head : List ℕ) (a : Bool) (fs : Fields) (is : Items) (fuel : ℕ)
      → IsPlain (object a fs is)
      → find_from (head ++ (blank_line ++ write double_text (object a fs is))) blank_line 0
        ≡ some (length head)
      → find_in key_format (write double_text (object a fs is)) ≡ none
      → 4 * length (write double_text (object a fs is)) ≤ fuel
      → body_of_request read_double fuel
          (head ++ (blank_line ++ write double_text (object a fs is)))
        ≡ returns (write double_text (object a fs is), object a fs is)
  unfolding body_of_request deserialize_body_raw_data
  body_of_request-write head a fs is fuel p blank no_form enough =
      let text = write double_text (object a fs is) in
      let read = parse-write double_text read_double a fs is fuel p enough in
      let body = deserialize_body-write head text (object a fs is) fuel blank read in
      rw (body, deserialize_body_form_data-none fuel text (object a fs is) no_form) refl
