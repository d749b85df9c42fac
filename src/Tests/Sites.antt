-- ===== src/Tests/Sites.antt =====
-- core/network/https_server: a controller with one route, and the responses to some requests.
use order_book_server_cpp.Prelude.{ℕ, ◌≡◌, refl, none, some, true, false, List, [], codes}
use order_book_server_cpp.Json.{value, null}
use order_book_server_cpp.HttpRequest.{HttpRequest}
use order_book_server_cpp.HttpRequest.Lookups.{get, bad_request_default}
use order_book_server_cpp.HttpResponse.{
  HttpResponse, ok_200, no_file, get_response_in_string, response_status_code_map, custom_lines,
}
use order_book_server_cpp.HttpResponse.Body.{body_of, no_return, body_of-get_response_in_string}
use order_book_server_cpp.Routes.{
  Handler, responds, RouteController, add_route, set_handler, Site, handle_request_base_on_route,
}
use order_book_server_cpp.Routes.Dispatch.{
  route_of, dispatch, handle_request_base_on_route-dispatch,
}

abbrev pub no_doubles : ℕ → List ℕ
no_doubles d = []

abbrev hello : HttpResponse
hello = record {
  response_code = ok_200;
  custom_header = value null true;
  content = some (codes "hello");
  is_json_format = false;
  file_info = no_file;
}

abbrev pub say_hello : Handler
say_hello m r = responds hello

abbrev no_routes : RouteController
no_routes = record { route_group_map = []; route_map = []; dashboard_folder = [] }

abbrev one_route : RouteController
one_route = set_handler get (codes "/hello") say_hello (add_route get (codes "/hello") no_routes)

abbrev pub site : Site
site = record {
  files = record {
    good = λ p. false;
    is_directory = λ p. false;
    exists = λ p. false;
    contents = λ p. [];
  };
  dir_path = [];
  bad_request_getter = λ r. bad_request_default;
}

abbrev pub request : HttpRequest
request = record {
  url = codes "/hello";
  query_string = [];
  query_params = λ k. none;
  header_params = λ k. none;
}

handle_request_base_on_route-dispatch_example :
    handle_request_base_on_route no_doubles site one_route get request
    ≡ dispatch no_doubles site (route_of one_route get (codes "/hello")) one_route get request
handle_request_base_on_route-dispatch_example =
    handle_request_base_on_route-dispatch no_doubles site one_route get request

body_of-get_response_in_string_example :
    (text : List ℕ) × (get_response_in_string no_doubles hello ≡ some text)
    × (body_of text ≡ some (codes "hello"))
body_of-get_response_in_string_example =
    body_of-get_response_in_string no_doubles hello (codes "OK") (codes "hello") []
      (unfold response_status_code_map in refl) (unfold custom_lines in refl) tt
      (unfold no_return in refl) refl
