-- ===== src/Routes.antt =====
-- core/network/https_server/route: class RouteController and its Route objects. A handler is what the
-- server's start registers; a coroutine runs here from its start to its end. An exception that leaves the
-- body of a coroutine ends the program: `unhandled_exception` of core/coroutine/base_task.h calls
-- `std::terminate`, so it does not reach the coroutine that awaits. A map from paths is a list in the order
-- of its iteration.
pub mod Dispatch
pub mod Registration
use order_book_server_cpp.Prelude.{
  ℕ, ◌≡◌, Option, none, some, ◌>>=◌, Bool, true, false, List, [], ◌∷◌, ◌++◌, ◌==◌, if◌then◌else◌,
  text_eq,
}
use order_book_server_cpp.HttpRequest.{HttpRequest}
use order_book_server_cpp.HttpRequest.Lookups.{
  RequestMethod, method_number, contains, FileSystem, check_is_file_path_exist,
  send_file_from_directory,
}
use order_book_server_cpp.HttpResponse.{HttpResponse, get_response_in_string}

-- What a handler's coroutine comes to: an `ApiException` or another exception is `throws`.
pub data Handled : Type 0 where
  responds : HttpResponse → Handled
  throws : Handled

abbrev pub Handler : Type 0
Handler = RequestMethod → HttpRequest → Handled

-- `none` is an empty `std::function`.
abbrev pub Route : Type 0
Route = Option Handler

abbrev pub RouteSet : Type 0
RouteSet = RequestMethod → Option Route

abbrev pub RouteMap : Type 0
RouteMap = List (List ℕ × RouteSet)

pub record RouteController : Type 0 where
  pub route_group_map : RouteMap
  pub route_map : RouteMap
  pub dashboard_folder : List ℕ

-- `route_set[method] = route`
unfoldable pub set_method : RequestMethod → Route → RouteSet → RouteSet
set_method m route set k = if method_number k == method_number m then some route else set k

-- `map[route_path][method] = route`
unfoldable pub set_route : RequestMethod → List ℕ → Route → RouteMap → RouteMap
set_route m path route [] = (path, set_method m route (λ k. none)) ∷ []
set_route m path route ((p, set) ∷ routes) =
    let rest = set_route m path route routes in
    if text_eq p path then (p, set_method m route set) ∷ routes else (p, set) ∷ rest

unfoldable pub add_route_group : RequestMethod → List ℕ → RouteController → RouteController
add_route_group m path c = record c { route_group_map = set_route m path none c.route_group_map }

unfoldable pub add_route : RequestMethod → List ℕ → RouteController → RouteController
add_route m path c = record c { route_map = set_route m path none c.route_map }

-- `Route::operator+` on the route that `add_route` returned.
unfoldable pub set_handler : RequestMethod → List ℕ → Handler → RouteController → RouteController
set_handler m path h c = record c { route_map = set_route m path (some h) c.route_map }

unfoldable pub set_group_handler :
    RequestMethod → List ℕ → Handler → RouteController → RouteController
set_group_handler m path h c = record c {
  route_group_map = set_route m path (some h) c.route_group_map;
}

unfoldable pub add_dashboard_folder : List ℕ → RouteController → RouteController
add_dashboard_folder folder c = record c { dashboard_folder = folder }

-- What a coroutine that answers a request comes to; `terminates` is `std::terminate`, and `broken` is a
-- null pointer gone through.
pub data Answer : Type 0 where
  answers : List ℕ → Answer
  terminates broken : Answer

unfoldable pub find_route : List ℕ → RouteMap → Option RouteSet
find_route url [] = none
find_route url ((p, set) ∷ routes) =
    let rest = find_route url routes in if text_eq p url then some set else rest

-- Where files are looked up, and `s_bad_request_getter`.
pub record Site : Type 0 where
  pub files : FileSystem
  pub dir_path : List ℕ
  pub bad_request_getter : HttpRequest → HttpResponse

module _ (double_text : ℕ → List ℕ) where
  unfoldable pub answer_text : Option (List ℕ) → Answer
  answer_text none = broken
  answer_text (some s) = answers s

  unfoldable pub handled_answer : Handled → Answer
  unfolding answer_text
  handled_answer (responds response) = answer_text (get_response_in_string double_text response)
  handled_answer throws = terminates

  -- An empty `std::function` throws in the coroutine that calls it.
  unfoldable pub run_handler : Route → RequestMethod → HttpRequest → Answer
  unfolding handled_answer
  run_handler none m r = terminates
  run_handler (some h) m r = handled_answer (h m r)

  unfoldable pub groups_loop : RouteMap → RequestMethod → HttpRequest → Answer
  groups_loop [] m r = answers []
  groups_loop ((path, set) ∷ groups) m r =
      let rest = groups_loop groups m r in
      if contains r.url path
      then elim (set m) [ none ↦ rest | some route ↦ run_handler route m r ]
      else rest

  unfoldable pub check_handle_by_route_group :
      RouteController → RequestMethod → HttpRequest → Answer
  check_handle_by_route_group c m r = groups_loop c.route_group_map m r

  unfoldable pub check_handle_by_route : RouteController → RequestMethod → HttpRequest → Answer
  check_handle_by_route c m r = elim (find_route r.url c.route_map) [
    | none ↦ answers []
    | some set ↦ elim (set m) [ none ↦ answers [] | some route ↦ run_handler route m r ]
  ]

  -- The two steps under `try`.
  unfoldable pub check_handle : RouteController → RequestMethod → HttpRequest → Answer
  check_handle c m r = elim (check_handle_by_route_group c m r) [
    | answers [] ↦ check_handle_by_route c m r
    | answers (x ∷ s) ↦ answers (x ∷ s)
    | terminates ↦ terminates
    | broken ↦ broken
  ]

  module _ (site : Site) where
    unfoldable pub check_send_file_from_dashboard_folder :
        RouteController → HttpRequest → Option (List ℕ)
    check_send_file_from_dashboard_folder c r =
        let path = c.dashboard_folder ++ r.url in
        if text_eq c.dashboard_folder []
        then some []
        else if check_is_file_path_exist site.files site.dir_path path
        then get_response_in_string double_text
            (send_file_from_directory site.files site.dir_path path [])
        else some []

    -- No route: a file of the dashboard folder, or the page for 404.
    unfoldable pub file_or_not_found : RouteController → HttpRequest → Option (List ℕ)
    file_or_not_found c r = do
      s ← check_send_file_from_dashboard_folder c r
      if text_eq s []
          then get_response_in_string double_text (site.bad_request_getter r)
          else some s

    -- The two `catch` blocks stand around awaits only, which pass no exception on.
    unfoldable pub handle_request_base_on_route :
        RouteController → RequestMethod → HttpRequest → Answer
    handle_request_base_on_route c m r = elim (check_handle c m r) [
      | answers [] ↦ answer_text (file_or_not_found c r)
      | answers (x ∷ s) ↦ answers (x ∷ s)
      | terminates ↦ terminates
      | broken ↦ broken
    ]
