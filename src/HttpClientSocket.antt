-- ===== src/HttpClientSocket.antt =====
-- core/system_io/https_server_io/http_client_socket.cpp: class HttpClientSocket, what it does with the bytes
-- of its socket. The socket itself is a parameter: a read gives bytes, or is lost.
pub mod Pieces
use order_book_server_cpp.Prelude.{
  ℕ, Option, none, some, Bool, true, false, List, [], ◌++◌, length, ltb, if◌then◌else◌,
}
use order_book_server_cpp.Prelude.Int.{ℤ}
use order_book_server_cpp.Json.Parser.{Outcome, returns, throws, fault, ◌>>=◌, c_string}
use order_book_server_cpp.HttpRequest.{HttpRequest}
use order_book_server_cpp.HttpResponse.{HttpResponse, get_response_in_string}
use order_book_server_cpp.HttpRequest.Creation.{
  AnyRequest, response_not_found_404, create_new_http_request, any_is_valid_format,
}

abbrev pub buffer_size : ℕ
buffer_size = 2048

-- What `handle_read` does: it returns -1, it starts a task, or it waits for the rest of a request.
pub data Reaction : Type 0 where
  closes sends_404 waits : Reaction
  executes : AnyRequest → Reaction

-- `save_buffer` behind the call.
pub record Handling : Type 0 where
  pub save_buffer : List ℕ
  pub reaction : Reaction

-- The text that is written, and `save_buffer` behind the task; the request is a null pointer.
unfoldable pub send_404_response :
    (ℕ → List ℕ) → (HttpRequest → HttpResponse) → List ℕ → Option (List ℕ × List ℕ)
send_404_response double_text bad_request_getter save =
    elim (get_response_in_string double_text (response_not_found_404 bad_request_getter none)) [
      | none ↦ none
      | some text ↦ some (text, [])
    ]

module _ (read_double : List ℕ → Option ℕ) (stoi : List ℕ → Option ℤ) (fuel : ℕ) where
  -- A request that is not null, with what `is_valid_format` says of it.
  unfoldable pub check_format : List ℕ → List ℕ → AnyRequest → Option Bool → Outcome Handling
  check_format save bytes request none = throws
  check_format save bytes request (some false) =
      returns (record { save_buffer = save ++ c_string bytes; reaction = waits })
  check_format save bytes request (some true) =
      returns (record { save_buffer = []; reaction = executes request })

  unfoldable pub check_request : List ℕ → List ℕ → Option AnyRequest → Outcome Handling
  check_request save bytes none = returns (record { save_buffer = save; reaction = sends_404 })
  check_request save bytes (some request) =
      check_format save bytes request (any_is_valid_format stoi request)

  unfoldable pub handle_message : List ℕ → List ℕ → Outcome Handling
  handle_message save bytes =
      create_new_http_request read_double fuel (c_string (save ++ c_string bytes))
      >>= check_request save bytes

  -- From `save_buffer` and all that is read until there is no more; `none` is a lost connection. `fault` is a
  -- write behind the end of `buffer`.
  unfoldable pub handle_read : List ℕ → Option (List ℕ) → Outcome Handling
  handle_read save none = returns (record { save_buffer = []; reaction = closes })
  handle_read save (some bytes) =
      if ltb (length bytes) buffer_size then handle_message save bytes else fault
