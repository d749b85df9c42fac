-- ===== src/Endpoints.antt =====
-- src/main.cpp: the four endpoints that `init_api_endpoints` registers. A handler's coroutine awaits the
-- controller; here it runs from its start to its end, and the loop that `start_streaming` starts is
-- taken to begin at once. `std::to_string` of a double is a parameter.
pub mod Table
use order_book_server_cpp.Prelude.{
  ℕ, Option, none, some, ◌>>=◌, Bool, true, false, ◌&&◌, List, [], ◌∷◌, ◌++◌, ◌==◌, if◌then◌else◌,
  text_eq, codes,
}
use order_book_server_cpp.Json.{Json, empty, value, string, set_key, get_key, has_field}
use order_book_server_cpp.Json.Conversions.{Doubles, to_double}
use order_book_server_cpp.HttpRequest.{HttpRequest}
use order_book_server_cpp.HttpRequest.Lookups.{
  RequestMethod, get, post, method_number, FileSystem, send_file_from_directory,
}
use order_book_server_cpp.HttpResponse.{HttpResponse, ok_200, json_response}
use order_book_server_cpp.LatencyTracker.{Measures}
use order_book_server_cpp.OrderBookController.{
  OrderBookController, initialize_controller, start_loop, stop_streaming,
  get_orderbook_snapshot_async,
}
use order_book_server_cpp.Routes.{Handler, Route, RouteController, add_route, set_handler}

pub record Handlers : Type 0 where
  pub on_index : Handler
  pub on_get_snapshot : Handler
  pub on_start_streaming : Handler
  pub on_stop_streaming : Handler

-- `ADD_ROUTE(method, path) { ... }`
unfoldable pub add_endpoint : RequestMethod → List ℕ → Handler → RouteController → RouteController
add_endpoint m path h c = set_handler m path h (add_route m path c)

unfoldable pub init_api_endpoints : Handlers → RouteController → RouteController
unfolding add_endpoint
init_api_endpoints h c = add_endpoint get (codes "/stop_streaming_orderbook") h.on_stop_streaming (
    add_endpoint post (codes "/start_streaming_orderbook") h.on_start_streaming (
      add_endpoint get (codes "/get_snapshot") h.on_get_snapshot
        (add_endpoint get (codes "/") h.on_index c)))

-- What the handlers do.
unfoldable pub answer_index : FileSystem → List ℕ → HttpResponse
answer_index files dir_path = send_file_from_directory files dir_path (codes "/index.html") []

abbrev pub status_ok : Json
status_ok = set_key (codes "status") (value (string (codes "OK")) true) empty

-- `none` is the call of `has_field` through a null `m_value`.
unfoldable pub speed_of : Doubles → ℕ → Json → Option ℕ
speed_of d one body = do
  given ← has_field (codes "speed") body
  elim (if given then get_key (codes "speed") body else none) [
    | none ↦ some one
    | some speed ↦ some (to_double d speed)
  ]

module _ (double_text : ℕ → List ℕ) where
  unfoldable pub answer_get_snapshot :
      Measures ℕ → (ℕ → ℕ) → ℕ → OrderBookController → Option (OrderBookController × HttpResponse)
  answer_get_snapshot m per_second ms c = do
    (d, snapshot) ← get_orderbook_snapshot_async m per_second ms c
    response ← json_response double_text ok_200 (set_key (codes "snapshot") snapshot status_ok)
    some (d, response)

  unfoldable pub message_response : List ℕ → Option HttpResponse
  message_response message =
      json_response double_text ok_200
        (set_key (codes "message") (value (string message) true) status_ok)

  unfoldable pub answer_start_streaming :
      Doubles
      → ℕ
      → (ℕ → List ℕ)
      → Json
      → OrderBookController
      → Option (OrderBookController × HttpResponse)
  unfolding speed_of message_response
  answer_start_streaming d one to_string body c = do
    speed ← speed_of d one body
    initialized ← initialize_controller (stop_streaming c).1
    started ← start_loop initialized
    response ←
        message_response
          (codes "Started streaming orderbook data, with [speed] = " ++ to_string speed)
    some (started, response)

  unfoldable pub answer_stop_streaming :
      OrderBookController → Option (OrderBookController × HttpResponse)
  unfolding message_response
  answer_stop_streaming c = do
    response ← message_response (codes "Stopped streaming orderbook data")
    some ((stop_streaming c).1, response)
