-- ===== src/HttpRequest/Errors.antt =====
-- core/network/https_server/request/http_request.cpp: the body of an error response.
use order_book_server_cpp.Prelude.{
  ℕ, ◌*◌, ◌≤◌, ◌<◌, ◌^◌, ◌≡◌, refl, Option, some, Bool, true, false, ◌&&◌, List, [], ◌∷◌, length,
  le→leb, arith, All, codes,
}
use order_book_server_cpp.Prelude.Int.{pos}
use order_book_server_cpp.Json.{
  null, value, bool, int64, string, object, Fields, end, field, nil, set_key, find_field,
  assign_field, check_create_json_object,
}
use order_book_server_cpp.Json.Writer.{write, get_string_value}
use order_book_server_cpp.Json.Parser.{returns, parse}
use order_book_server_cpp.Json.Parser.Numbers.{Is}
use order_book_server_cpp.Json.Parser.Scans.{no_quote, in_key}
use order_book_server_cpp.Json.Parser.RoundTrip.{IsPlain}
use order_book_server_cpp.Json.Parser.RoundTrip.Whole.{parse-write}
use order_book_server_cpp.HttpResponse.{HttpResponse, json_response, bad_request_400, no_file}
use order_book_server_cpp.HttpRequest.Lookups.{error_json, response_bad_request_400}

all_in_key : List ℕ → Bool
all_in_key [] = true
all_in_key (c ∷ s) = in_key c && all_in_key s

All-in_key : (s : List ℕ) → all_in_key s ≡ true → All (Is in_key) s
unfolding all_in_key
All-in_key [] h = tt
All-in_key (c ∷ s) h = (ground arith, All-in_key s (ground arith))

-- The members of an error.
error_fields : List ℕ → ℕ → Fields
error_fields msg code = field (codes "data") (value (string []) true) (
    field (codes "msg") (value (string msg) true) (
      field (codes "status_code") (value (int64 (pos code)) true)
        (field (codes "error") (value (bool true) true) end)))

error_json-error_fields :
    (msg : List ℕ) (code : ℕ) → error_json msg code ≡ object false (error_fields msg code) nil
unfolding error_json error_fields set_key assign_field check_create_json_object
error_json-error_fields msg code = refl

error_json-IsPlain :
    (msg : List ℕ) (code : ℕ)
    → All (Is no_quote) msg
    → code < 2 ^ 63
    → IsPlain (object false (error_fields msg code) nil)
unfolding IsPlain error_fields find_field assign_field all_in_key
error_json-IsPlain msg code h k = (
  All-in_key (codes "data") refl,
  refl,
  tt,
  (
    All-in_key (codes "msg") refl,
    refl,
    h,
    (
      All-in_key (codes "status_code") refl,
      refl,
      k,
      (All-in_key (codes "error") refl, refl, tt, tt),
    ),
  ),
)

module _ (double_text : ℕ → List ℕ) (read_double : List ℕ → Option ℕ) where
  -- A client that parses the body of the response for a bad request gets the error back in its field
  -- `msg`, when the error has no quote in it and the body fits the buffer, on fuel
  -- of four times the buffer's size or more.
  parse-response_bad_request_400 :
      (msg : List ℕ) (fuel : ℕ)
      → All (Is no_quote) msg
      → length (write double_text (error_json msg 400)) ≤ 100000
      → 400000 ≤ fuel
      → (r : HttpResponse) × (body : List ℕ) × (response_bad_request_400 double_text msg ≡ some r)
        × (r.content ≡ some body)
        × (parse read_double fuel body ≡ returns (error_json msg 400))
  unfolding response_bad_request_400 json_response get_string_value
  parse-response_bad_request_400 msg fuel h fits enough =
      let fields = error_fields msg 400 in
      let same = error_json-error_fields msg 400 in
      let plain = error_json-IsPlain msg 400 h (omega arith) in
      let short : 4 * length (write double_text (object false fields nil)) ≤ fuel =
        omega (arith, rw same at fits) in
      (
        record {
          response_code = bad_request_400;
          custom_header = value null true;
          content = some (write double_text (error_json msg 400));
          is_json_format = true;
          file_info = no_file;
        },
        write double_text (error_json msg 400),
        rw (le→leb _ _ fits) refl,
        refl,
        rw same (parse-write double_text read_double false fields nil fuel plain short),
      )
