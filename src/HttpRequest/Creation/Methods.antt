-- ===== src/HttpRequest/Creation/Methods.antt =====
-- core/network/https_server/request/http_request.cpp: the method of a request that is made.
use order_book_server_cpp.Prelude.{ℕ, ◌≡◌, refl, Option, none, some, List, [], ◌∷◌, take}
use order_book_server_cpp.SplitString.{find_from}
use order_book_server_cpp.Json.Parser.{Outcome, returns, throws, fault, out_of_fuel, ◌>>=◌}
use order_book_server_cpp.HttpRequest.{HttpRequest, deserialize}
use order_book_server_cpp.HttpRequest.Lookups.{
  RequestMethod, get, post, options, head, put, delete, patch, unknown, request_method_map,
}
use order_book_server_cpp.HttpRequest.Post.{HttpRequestPost, new_request_post}
use order_book_server_cpp.HttpRequest.Creation.{
  AnyRequest, get_request_method, new_request, request_generator_by_method, create_new_http_request,
}

-- The method under which routes are looked up for a request of a method.
abbrev pub looked_up : RequestMethod → RequestMethod
looked_up get = get
looked_up post = post
looked_up put = put
looked_up delete = delete
looked_up _ = unknown

-- What holds of the result, when there is one.
abbrev pub IfReturns {ℓ κ} : {A : Type ℓ} → (A → Type κ) → Outcome A → Type κ
IfReturns P (returns a) = P a
IfReturns P _ = Unit

abbrev HasMethod : RequestMethod → AnyRequest → Type 0
HasMethod m r = get_request_method r ≡ m

new_request-method :
    (make : HttpRequest → AnyRequest) (m : RequestMethod) (o : Option HttpRequest)
    → ((r : HttpRequest) → HasMethod m (make r))
    → IfReturns (HasMethod m) (new_request make o)
unfolding new_request
new_request-method make m none h = tt
new_request-method make m (some r) h = h r

IfReturns-bind :
    (o : Outcome HttpRequestPost) (make : HttpRequestPost → AnyRequest) (m : RequestMethod)
    → ((r : HttpRequestPost) → HasMethod m (make r))
    → IfReturns (HasMethod m) (o >>= λ r. returns (make r))
IfReturns-bind (returns r) make m h = h r
IfReturns-bind throws make m h = tt
IfReturns-bind fault make m h = tt
IfReturns-bind out_of_fuel make m h = tt

returned :
    (o : Outcome AnyRequest) (m : RequestMethod) (r : AnyRequest)
    → IfReturns (HasMethod m) o
    → (o >>= λ r. returns (some r)) ≡ returns (some r)
    → HasMethod m r
returned (returns s) m r h e = cc
returned throws m r h e = cc
returned fault m r h e = cc
returned out_of_fuel m r h e = cc

module _ (read_double : List ℕ → Option ℕ) where
  generated :
      (m : RequestMethod) (fuel : ℕ) (content : List ℕ)
      → IfReturns (HasMethod (looked_up m)) (request_generator_by_method read_double m fuel content)
  unfolding request_generator_by_method get_request_method
  generated get fuel content = new_request-method _ get (deserialize content) (λ r. refl)
  generated post fuel content =
      IfReturns-bind (new_request_post read_double fuel content) _ post (λ r. refl)
  generated options fuel content = new_request-method _ unknown (deserialize content) (λ r. refl)
  generated head fuel content = new_request-method _ unknown (deserialize content) (λ r. refl)
  generated put fuel content =
      IfReturns-bind (new_request_post read_double fuel content) _ put (λ r. refl)
  generated delete fuel content =
      IfReturns-bind (new_request_post read_double fuel content) _ delete (λ r. refl)
  generated patch fuel content = new_request-method _ unknown (deserialize content) (λ r. refl)
  generated unknown fuel content = tt

  from_method :
      (content : List ℕ) (fuel : ℕ) (p : ℕ) (r : AnyRequest) (o : Option RequestMethod)
      → request_method_map (take p content) ≡ o
      → find_from content (b' ' ∷ []) 0 ≡ some p
      → create_new_http_request read_double fuel content ≡ returns (some r)
      → (m : RequestMethod) × (request_method_map (take p content) ≡ some m)
        × (get_request_method r ≡ looked_up m)
  unfolding create_new_http_request
  from_method content fuel p r none e f h =
      let made : create_new_http_request read_double fuel content ≡ returns none =
        rw (create_new_http_request, f, e) refl in
      cc
  from_method content fuel p r (some m) e f h = (
    m,
    e,
    returned (request_generator_by_method read_double m fuel content) (looked_up m) r
        (generated m fuel content) (rw (create_new_http_request, f, e) at h),
  )

  from_space :
      (content : List ℕ) (fuel : ℕ) (r : AnyRequest) (o : Option ℕ)
      → find_from content (b' ' ∷ []) 0 ≡ o
      → create_new_http_request read_double fuel content ≡ returns (some r)
      → (p : ℕ) × (m : RequestMethod) × (find_from content (b' ' ∷ []) 0 ≡ some p)
        × (request_method_map (take p content) ≡ some m)
        × (get_request_method r ≡ looked_up m)
  unfolding create_new_http_request
  from_space content fuel r none e h =
      let made : create_new_http_request read_double fuel content ≡ returns none =
        rw (create_new_http_request, e) refl in
      cc
  from_space content fuel r (some p) e h =
      let (m, known, method) = from_method content fuel p r _ refl e h in (p, m, e, known, method)

  -- A request that is made has a space behind the name of a known method, and it is looked up under
  -- that method if it is GET, POST, PUT or DELETE; a request of OPTIONS, HEAD or PATCH is looked up
  -- under UNKNOWN.
  pub create_new_http_request-method :
      (content : List ℕ) (fuel : ℕ) (r : AnyRequest)
      → create_new_http_request read_double fuel content ≡ returns (some r)
      → (p : ℕ) × (m : RequestMethod) × (find_from content (b' ' ∷ []) 0 ≡ some p)
        × (request_method_map (take p content) ≡ some m)
        × (get_request_method r ≡ looked_up m)
  create_new_http_request-method content fuel r h = from_space content fuel r _ refl h
