-- ===== src/HttpRequest/Lookups.antt =====
-- core/network/https_server/request/http_request.cpp: the lookups in a request, its method, and the
-- files that are sent. The file system is a parameter.
use order_book_server_cpp.Prelude.{
  ℕ, Option, none, some, Bool, true, false, ◌&&◌, not, List, [], ◌∷◌, ◌++◌, if◌then◌else◌, text_eq,
  codes,
}
use order_book_server_cpp.Json.{Json, empty, value, string, bool, set_key, of_int64}
use order_book_server_cpp.Prelude.Int.{pos}
use order_book_server_cpp.HttpRequest.{HttpRequest}
use order_book_server_cpp.HttpResponse.{
  HttpResponse, ResponseFileType, js, css, woff2, none_type, FileInfo, no_file, new_response,
  file_response, ok_200, not_found_404, bad_request_400, unauthorized_request_401,
  internal_server_error_500, json_response,
}
use order_book_server_cpp.SplitString.{find_from}

abbrev pub param_not_found : List ℕ
param_not_found = codes "PARAM_NOT_FOUND"

abbrev pub param_no_missing : List ℕ
param_no_missing = codes "PARAM_NO_MISSING"

unfoldable pub get_query_param : List ℕ → HttpRequest → List ℕ
get_query_param param r = elim (r.query_params param) [ some v ↦ v | none ↦ param_not_found ]

unfoldable pub get_header_param : List ℕ → HttpRequest → List ℕ
get_header_param param r = elim (r.header_params param) [ some v ↦ v | none ↦ param_not_found ]

unfoldable pub check_missing_params : List (List ℕ) → HttpRequest → List ℕ
unfolding get_query_param
check_missing_params [] r = param_no_missing
check_missing_params (p ∷ ps) r =
    let rest = check_missing_params ps r in
    if text_eq (get_query_param p r) param_not_found
    then codes "Missing query param: [" ++ (p ++ codes "]")
    else rest

abbrev pub contains : List ℕ → List ℕ → Bool
contains s part = elim (find_from s part 0) [ some i ↦ true | none ↦ false ]

unfoldable pub check_file_type : List ℕ → ResponseFileType
check_file_type name =
    if contains name (codes ".js")
    then js
    else if contains name (codes ".css")
    then css
    else if contains name (codes ".woff2")
    then woff2
    else none_type

pub data RequestMethod : Type 0 where
  get post options head put delete patch unknown : RequestMethod

abbrev pub method_number : RequestMethod → ℕ
method_number get = 0
method_number post = 1
method_number options = 2
method_number head = 3
method_number put = 4
method_number delete = 5
method_number patch = 6
method_number unknown = 7

unfoldable pub request_method_map : List ℕ → Option RequestMethod
request_method_map s =
    if text_eq s (codes "OPTIONS")
    then some options
    else if text_eq s (codes "GET")
    then some get
    else if text_eq s (codes "HEAD")
    then some head
    else if text_eq s (codes "POST")
    then some post
    else if text_eq s (codes "PUT")
    then some put
    else if text_eq s (codes "DELETE")
    then some delete
    else if text_eq s (codes "PATCH")
    then some patch
    else none

-- What the program asks of the file system about a path.
pub record FileSystem : Type 0 where
  pub good : List ℕ → Bool
  pub is_directory : List ℕ → Bool
  pub exists : List ℕ → Bool
  pub contents : List ℕ → List ℕ

unfoldable pub bad_request_default : HttpResponse
unfolding file_response
bad_request_default =
    file_response not_found_404 (codes "The given document couldn't be found") no_file

unfoldable pub check_is_file_path_exist : FileSystem → List ℕ → List ℕ → Bool
check_is_file_path_exist files dir_path file_path =
    let path = dir_path ++ b'/' ∷ file_path in files.good path && not (files.is_directory path)

unfoldable pub send_file : FileSystem → List ℕ → List ℕ → FileInfo → HttpResponse
unfolding new_response file_response bad_request_default
send_file files dir_path url info =
    let path = dir_path ++ b'/' ∷ url in
    if files.good path && not (files.is_directory path)
    then file_response ok_200 (files.contents path) info
    else if files.exists path
    then new_response
    else bad_request_default

unfoldable pub send_file_from_directory : FileSystem → List ℕ → List ℕ → List ℕ → HttpResponse
unfolding send_file
send_file_from_directory files dir_path url [] =
    send_file files dir_path url (record { file_type = check_file_type url; file_name = [] })
send_file_from_directory files dir_path url (c ∷ s) =
    send_file files dir_path url (record { file_type = check_file_type (c ∷ s); file_name = c ∷ s })

unfoldable pub error_json : List ℕ → ℕ → Json
error_json msg code = set_key (codes "error") (value (bool true) true) (
    set_key (codes "status_code") (of_int64 (pos code)) (
      set_key (codes "msg") (value (string msg) true)
        (set_key (codes "data") (value (string []) true) empty)))

module _ (double_text : ℕ → List ℕ) where
  unfoldable pub response_bad_request_400 : List ℕ → Option HttpResponse
  unfolding json_response
  response_bad_request_400 error = json_response double_text bad_request_400 (error_json error 400)

  unfoldable pub response_unauthorized_request_401 : List ℕ → Option HttpResponse
  unfolding json_response
  response_unauthorized_request_401 error =
      json_response double_text unauthorized_request_401 (error_json error 401)

  unfoldable pub response_internal_error_500 : Option HttpResponse
  unfolding json_response
  response_internal_error_500 =
      json_response double_text internal_server_error_500
        (error_json (codes "Internal Server Error") 500)
