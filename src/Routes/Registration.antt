-- ===== src/Routes/Registration.antt =====
-- core/network/https_server/route/route_controller.cpp: what a registration changes.
use order_book_server_cpp.Prelude.{
  ℕ, ◌≡◌, refl, sym, ap, ◌∙◌, Option, none, some, ◌>>=◌, Bool, true, false, ◌&&◌, List, [], ◌∷◌,
  ◌==◌, if◌then◌else◌, text_eq, text_eq→eq, text_eq_refl, Bool-cases, inl, inr,
}
use order_book_server_cpp.HttpRequest.Lookups.{RequestMethod, method_number}
use order_book_server_cpp.Routes.{
  Handler, Route, RouteMap, RouteController, set_method, set_route, add_route, set_handler,
  find_route,
}
use order_book_server_cpp.Routes.Dispatch.{group_route, exact_route, route_of}

text_eq_other :
    (p path url : List ℕ) → text_eq p path ≡ false → text_eq p url ≡ true → text_eq path url ≡ false
text_eq_other p path url e f = elim (Bool-cases (text_eq path url)) [
  | inl g ↦
      let same : p ≡ path = text_eq→eq p url f ∙ sym (text_eq→eq path url g) in
      cc (e, ap (text_eq p) same, text_eq_refl p)
  | inr g ↦ g
]

find_route-set_route :
    (m : RequestMethod) (path url : List ℕ) (route : Route) (routes : RouteMap) (k : RequestMethod)
    → (find_route url (set_route m path route routes) >>= λ set. set k) ≡ (
        if text_eq path url && (method_number k == method_number m)
        then some route
        else (find_route url routes >>= λ set. set k))
unfolding find_route set_route set_method
find_route-set_route m path url route [] k = elim (Bool-cases (text_eq path url)) [
  | inl e ↦ rw e refl
  | inr e ↦ rw e refl
]
find_route-set_route m path url route ((p, set) ∷ routes) k = elim (Bool-cases (text_eq p path)) [
  | inl e ↦ elim (Bool-cases (text_eq p url)) [
    | inl f ↦ rw (e, sym (text_eq→eq p path e), f) refl
    | inr f ↦ rw (e, sym (text_eq→eq p path e), f) refl
  ]
  | inr e ↦ elim (Bool-cases (text_eq p url)) [
    | inl f ↦ rw (e, f, text_eq_other p path url e f) refl
    | inr f ↦ rw (e, f) (find_route-set_route m path url route routes k)
  ]
]

if_twice :
    {A : Type 0}
    → (b : Bool) (x y z : A) → (if b then x else (if b then y else z)) ≡ (if b then x else z)
if_twice true x y z = refl
if_twice false x y z = refl

-- The route without a function, and the function put into it.
exact_route-twice :
    (m : RequestMethod) (path url : List ℕ) (h : Handler) (routes : RouteMap) (k : RequestMethod)
    → exact_route (set_route m path (some h) (set_route m path none routes)) k url ≡ (
        if text_eq path url && (method_number k == method_number m)
        then some (some h)
        else exact_route routes k url)
unfolding exact_route
exact_route-twice m path url h routes k =
    let b = text_eq path url && (method_number k == method_number m) in
    let old : Option Route = find_route url routes >>= λ set. set k in
    let first = find_route-set_route m path url none routes k in
    find_route-set_route m path url (some h) (set_route m path none routes) k
    ∙ ap (λ o. if b then some (some h) else o) first
    ∙ if_twice b (some (some h)) (some none) old

-- A registered handler answers the requests for its URL and method that no group takes, and every
-- other request has the route that it had.
pub route_of-set_handler :
    (c : RouteController) (m k : RequestMethod) (path url : List ℕ) (h : Handler)
    → route_of (set_handler m path h (add_route m path c)) k url
      ≡ (elim (group_route c.route_group_map k url) [
        | some route ↦ some route
        | none ↦
            if text_eq path url && (method_number k == method_number m)
            then some (some h)
            else exact_route c.route_map k url
      ])
unfolding route_of exact_route set_handler add_route
route_of-set_handler c m k path url h =
    ap (λ o. elim (group_route c.route_group_map k url) [ some route ↦ some route | none ↦ o ])
      (exact_route-twice m path url h c.route_map k)
