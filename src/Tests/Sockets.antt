-- ===== src/Tests/Sockets.antt =====
-- core/system_io/https_server_io/http_client_socket.cpp: a POST request that is read in two pieces.
use order_book_server_cpp.Prelude.{
  ℕ, ◌≡◌, refl, none, some, Bool, true, ◌&&◌, ltb, Option, List, [], ◌∷◌, ◌++◌, codes, take, arith,
}
use order_book_server_cpp.Prelude.Int.{ℤ, pos}
use order_book_server_cpp.SplitString.{find_from, split_string}
use order_book_server_cpp.Json.Parser.{returns, parse}
use order_book_server_cpp.HttpRequest.Creation.{
  AnyRequest, of_base, get_request_method, create_new_http_request, any_is_valid_format,
}
use order_book_server_cpp.HttpRequest.{deserialize}
use order_book_server_cpp.HttpRequest.Lookups.{RequestMethod, request_method_map}
use order_book_server_cpp.HttpRequest.Post.{new_request_post, is_valid_format}
use order_book_server_cpp.HttpRequest.Creation.Methods.{looked_up, create_new_http_request-method}
use order_book_server_cpp.HttpClientSocket.{handle_read}
use order_book_server_cpp.HttpClientSocket.Pieces.{
  IsText, reaction_of, handle_reads, IsPending, handle_reads-received,
}

abbrev head_text : List ℕ
head_text = codes "POST / HTTP/1.1" ++ 13 ∷ 10 ∷ codes "Content-Length: 2" ++ 13 ∷ 10 ∷ 13 ∷ 10 ∷ []

abbrev no_doubles : List ℕ → Option ℕ
no_doubles s = none

abbrev two : List ℕ → Option ℤ
two s = some (pos 2)

no_zero : List ℕ → Bool
no_zero [] = true
no_zero (c ∷ s) = ltb 0 c && no_zero s

IsText-no_zero : (s : List ℕ) → no_zero s ≡ true → IsText s
unfolding no_zero
IsText-no_zero [] h = tt
IsText-no_zero (c ∷ s) h = (ground arith, IsText-no_zero s (ground arith))

-- The request that is made while the body is not there.
pending_request : AnyRequest
unfolding create_new_http_request
pending_request = elim (create_new_http_request no_doubles 30 head_text) [
  | returns (some r) ↦ r
  | _ ↦
      of_base (record {
        url = [];
        query_string = [];
        query_params = λ k. none;
        header_params = λ k. none;
      })
]

head-made : create_new_http_request no_doubles 30 head_text ≡ returns (some pending_request)
unfolding pending_request create_new_http_request find_from request_method_map new_request_post
    deserialize split_string parse any_is_valid_format is_valid_format
head-made = refl

head-IsPending : IsPending no_doubles two 30 head_text
unfolding pending_request create_new_http_request find_from request_method_map new_request_post
    deserialize split_string parse any_is_valid_format is_valid_format
head-IsPending = (pending_request, head-made, refl)

handle_reads-received_example :
    reaction_of (handle_reads no_doubles two 30 [] (head_text ∷ []) (codes "{}"))
    ≡ reaction_of (handle_read no_doubles two 30 [] (some (head_text ++ codes "{}")))
handle_reads-received_example =
    handle_reads-received no_doubles two 30 [] (head_text ∷ []) (codes "{}") tt
      (IsText-no_zero (codes "{}") (unfold no_zero in refl))
      (IsText-no_zero head_text (unfold no_zero in refl), head-IsPending, tt) (omega arith)

create_new_http_request-method_example :
    (p : ℕ) × (m : RequestMethod) × (find_from head_text (b' ' ∷ []) 0 ≡ some p)
    × (request_method_map (take p head_text) ≡ some m)
    × (get_request_method pending_request ≡ looked_up m)
create_new_http_request-method_example =
    create_new_http_request-method no_doubles head_text 30 pending_request head-made
