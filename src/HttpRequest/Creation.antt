-- ===== src/HttpRequest/Creation.antt =====
-- core/network/https_server/request/http_request.cpp: the request object that is made from a message, of
-- class HttpRequest, HttpRequestGet, HttpRequestPost, HttpRequestPut or HttpRequestDelete.
pub mod Methods
use order_book_server_cpp.Prelude.{ℕ, Option, none, some, Bool, true, List, [], ◌∷◌, take}
use order_book_server_cpp.Prelude.Int.{ℤ}
use order_book_server_cpp.SplitString.{find_from}
use order_book_server_cpp.Json.Parser.{Outcome, returns, throws, ◌>>=◌}
use order_book_server_cpp.HttpRequest.{HttpRequest, deserialize}
use order_book_server_cpp.HttpRequest.Lookups.{
  RequestMethod, get, post, options, head, put, delete, patch, unknown, request_method_map,
  bad_request_default,
}
use order_book_server_cpp.HttpRequest.Post.{HttpRequestPost, new_request_post, is_valid_format}
use order_book_server_cpp.HttpResponse.{HttpResponse}

-- The classes; Put and Delete have a body as Post has.
pub data AnyRequest : Type 0 where
  of_base of_get : HttpRequest → AnyRequest
  of_post of_put of_delete : HttpRequestPost → AnyRequest

-- The virtual `get_request_method`.
unfoldable pub get_request_method : AnyRequest → RequestMethod
get_request_method (of_base r) = unknown
get_request_method (of_get r) = get
get_request_method (of_post r) = post
get_request_method (of_put r) = put
get_request_method (of_delete r) = delete

-- The virtual `is_valid_format`; `none` is an exception of `stoi`.
unfoldable pub any_is_valid_format : (List ℕ → Option ℤ) → AnyRequest → Option Bool
any_is_valid_format stoi (of_base r) = some true
any_is_valid_format stoi (of_get r) = some true
any_is_valid_format stoi (of_post r) = is_valid_format stoi r
any_is_valid_format stoi (of_put r) = is_valid_format stoi r
any_is_valid_format stoi (of_delete r) = is_valid_format stoi r

-- The constructor, from what `deserialize` made of the message.
unfoldable pub new_request : (HttpRequest → AnyRequest) → Option HttpRequest → Outcome AnyRequest
new_request make none = throws
new_request make (some r) = returns (make r)

-- `none` is a null request, `this` in the call on no object.
unfoldable pub response_not_found_404 :
    (HttpRequest → HttpResponse) → Option HttpRequest → HttpResponse
response_not_found_404 getter (some r) = getter r
response_not_found_404 getter none = bad_request_default

module _ (read_double : List ℕ → Option ℕ) where
  abbrev new_with_body : (HttpRequestPost → AnyRequest) → ℕ → List ℕ → Outcome AnyRequest
  new_with_body make fuel content = do
    r ← new_request_post read_double fuel content
    returns (make r)

  -- `find(method)->second` of a method that is not there is undefined; `request_method_map` has none.
  unfoldable pub request_generator_by_method : RequestMethod → ℕ → List ℕ → Outcome AnyRequest
  request_generator_by_method get fuel content = new_request of_get (deserialize content)
  request_generator_by_method post fuel content = new_with_body of_post fuel content
  request_generator_by_method delete fuel content = new_with_body of_delete fuel content
  request_generator_by_method options fuel content = new_request of_base (deserialize content)
  request_generator_by_method head fuel content = new_request of_base (deserialize content)
  request_generator_by_method put fuel content = new_with_body of_put fuel content
  request_generator_by_method patch fuel content = new_request of_base (deserialize content)
  request_generator_by_method unknown fuel content = Outcome.fault

  -- A null pointer is `none`.
  unfoldable pub create_new_http_request : ℕ → List ℕ → Outcome (Option AnyRequest)
  unfolding request_generator_by_method
  create_new_http_request fuel content = elim (find_from content (b' ' ∷ []) 0) [
    | none ↦ returns none
    | some p ↦ elim (request_method_map (take p content)) [
      | none ↦ returns none
      | some m ↦ (do r ← request_generator_by_method m fuel content; returns (some r))
    ]
  ]
