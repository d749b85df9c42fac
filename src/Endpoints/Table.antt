-- ===== src/Endpoints/Table.antt =====
-- src/main.cpp: which handler answers which request, and what the handlers that stream leave.
use order_book_server_cpp.Prelude.{
  ℕ, ◌≡◌, refl, ap, ◌∙◌, Option, none, some, Bool, ◌&&◌, List, [], ◌==◌, if◌then◌else◌, text_eq,
  codes,
}
use order_book_server_cpp.HttpRequest.{HttpRequest}
use order_book_server_cpp.HttpRequest.Lookups.{RequestMethod, get, post, method_number}
use order_book_server_cpp.Routes.{
  Handler, Route, RouteController, add_route, set_handler, Site, find_route,
  handle_request_base_on_route,
}
use order_book_server_cpp.Routes.Dispatch.{
  exact_route, group_route, route_of, dispatch, handle_request_base_on_route-dispatch,
}
use order_book_server_cpp.Routes.Registration.{route_of-set_handler}
use order_book_server_cpp.Endpoints.{Handlers, add_endpoint, init_api_endpoints}

-- Whether a request is for an endpoint.
abbrev pub is_for : RequestMethod → List ℕ → RequestMethod → List ℕ → Bool
is_for m path k url = text_eq path url && (method_number k == method_number m)

abbrev pub endpoint_of : Handlers → RequestMethod → List ℕ → Option Route
endpoint_of h k url =
    if is_for get (codes "/stop_streaming_orderbook") k url
    then some (some h.on_stop_streaming)
    else if is_for post (codes "/start_streaming_orderbook") k url
    then some (some h.on_start_streaming)
    else if is_for get (codes "/get_snapshot") k url
    then some (some h.on_get_snapshot)
    else if is_for get (codes "/") k url
    then some (some h.on_index)
    else none

abbrev pub fresh_routes : List ℕ → RouteController
fresh_routes folder = record { route_group_map = []; route_map = []; dashboard_folder = folder }

route_of-add_endpoint :
    (c : RouteController) (m k : RequestMethod) (path url : List ℕ) (h : Handler)
    → c.route_group_map ≡ []
    → (route_of (add_endpoint m path h c) k url
        ≡ (if is_for m path k url then some (some h) else route_of c k url))
      × ((add_endpoint m path h c).route_group_map ≡ [])
unfolding add_endpoint add_route set_handler route_of group_route
route_of-add_endpoint c m k path url h none_yet =
    (route_of-set_handler c m k path url h ∙ rw none_yet refl, none_yet)

init_api_endpoints-endpoint_of :
    (h : Handlers) (folder : List ℕ) (k : RequestMethod) (url : List ℕ)
    → route_of (init_api_endpoints h (fresh_routes folder)) k url ≡ endpoint_of h k url
unfolding init_api_endpoints route_of group_route exact_route find_route
init_api_endpoints-endpoint_of h folder k url =
    let c0 = fresh_routes folder in
    let c1 = add_endpoint get (codes "/") h.on_index c0 in
    let c2 = add_endpoint get (codes "/get_snapshot") h.on_get_snapshot c1 in
    let c3 = add_endpoint post (codes "/start_streaming_orderbook") h.on_start_streaming c2 in
    let first = route_of-add_endpoint c0 get k (codes "/") url h.on_index refl in
    let second =
      route_of-add_endpoint c1 get k (codes "/get_snapshot") url h.on_get_snapshot first.1 in
    let third =
      route_of-add_endpoint c2 post k (codes "/start_streaming_orderbook") url h.on_start_streaming
        second.1 in
    let fourth =
      route_of-add_endpoint c3 get k (codes "/stop_streaming_orderbook") url h.on_stop_streaming
        third.1 in
    rw (fourth.0, third.0, second.0, first.0) refl

-- After `init_api_endpoints` on a new controller every request is answered from one table: the handler of
-- the endpoint for its method and exact URL runs, and its response is sent, or the program ends if it
-- throws; a request for none of the four gets a file of the dashboard folder or the page for 404.
pub handle_request_base_on_route-init_api_endpoints :
    (double_text : ℕ → List ℕ) (site : Site) (h : Handlers) (folder : List ℕ) (k : RequestMethod)
    (r : HttpRequest)
    → handle_request_base_on_route double_text site (init_api_endpoints h (fresh_routes folder)) k r
      ≡ dispatch double_text site
          (endpoint_of h k r.url)
          (init_api_endpoints h (fresh_routes folder))
          k
          r
handle_request_base_on_route-init_api_endpoints double_text site h folder k r =
    let c = init_api_endpoints h (fresh_routes folder) in
    handle_request_base_on_route-dispatch double_text site c k r
    ∙ ap (λ o. dispatch double_text site o c k r) (init_api_endpoints-endpoint_of h folder k r.url)
