-- ===== src/HttpResponse.antt =====
-- core/network/https_server/response: class HttpResponse and the text that is sent. `m_content` owns a
-- string or is null, which is `none`; the value of a function is `none` where the source goes through
-- a null pointer or the end of a map. A custom header's members stand in the order of the iteration.
pub mod Body
use order_book_server_cpp.Prelude.{
  ℕ, ◌+◌, ◌≡◌, Option, none, some, ◌>>=◌, Bool, true, false, List, [], ◌∷◌, ◌++◌, length,
  if◌then◌else◌, text_eq, codes,
}
use order_book_server_cpp.Json.{Scalar, null, Json, empty, value, object, Fields, end, field}
use order_book_server_cpp.Json.Writer.{quote, uint64_text, get_string_value}

pub data ResponseStatusCode : Type 0 where
  ok_200 created_201 bad_request_400 unauthorized_request_401 not_found_404 risk_error_410
        internal_server_error_500 :
      ResponseStatusCode

unfoldable pub status_number : ResponseStatusCode → ℕ
status_number ok_200 = 200
status_number created_201 = 201
status_number bad_request_400 = 400
status_number unauthorized_request_401 = 401
status_number not_found_404 = 404
status_number risk_error_410 = 410
status_number internal_server_error_500 = 500

unfoldable pub response_status_code_map : ResponseStatusCode → Option (List ℕ)
response_status_code_map ok_200 = some (codes "OK")
response_status_code_map created_201 = some (codes "Created")
response_status_code_map bad_request_400 = some (codes "Bad Request")
response_status_code_map unauthorized_request_401 = some (codes "Unauthorized Request")
response_status_code_map not_found_404 = some (codes "Not Found")
response_status_code_map risk_error_410 = none
response_status_code_map internal_server_error_500 = some (codes "Internal Server Error")

pub data ResponseFileType : Type 0 where
  js css woff2 none_type : ResponseFileType

pub record FileInfo : Type 0 where
  pub file_type : ResponseFileType
  pub file_name : List ℕ

pub record HttpResponse : Type 0 where
  pub response_code : ResponseStatusCode
  pub custom_header : Json
  pub content : Option (List ℕ)
  pub is_json_format : Bool
  pub file_info : FileInfo

abbrev pub no_file : FileInfo
no_file = record { file_type = none_type; file_name = [] }

unfoldable pub new_response : HttpResponse
new_response = record {
  response_code = ok_200;
  custom_header = value null true;
  content = some [];
  is_json_format = false;
  file_info = no_file;
}

unfoldable pub file_response : ResponseStatusCode → List ℕ → FileInfo → HttpResponse
file_response code s info = record {
  response_code = code;
  custom_header = value null true;
  content = some s;
  is_json_format = false;
  file_info = info;
}

-- The copy from a response that is not const, and the two assignments: the content moves.
unfoldable pub take_response : HttpResponse → HttpResponse × HttpResponse
take_response r = (r, record r { content = none })

-- The copy from a const response.
unfoldable pub copy_response : HttpResponse → Option HttpResponse
copy_response r = do s ← r.content; some (record r { content = some s })

unfoldable pub add_custom_header : Json → HttpResponse → HttpResponse
add_custom_header header r = record r { custom_header = header }

abbrev pub is_null : Json → Bool
is_null empty = true
is_null (value null f) = true
is_null _ = false

-- Every line is followed by `LINE_ENDING`.
unfoldable pub append_lines : List (List ℕ) → List ℕ → List ℕ
append_lines [] rest = rest
append_lines (l ∷ ls) rest = l ++ 13 ∷ 10 ∷ append_lines ls rest

unfoldable pub cors_lines : List (List ℕ)
cors_lines =
    codes "Access-Control-Allow-Origin: *"
    ∷ codes
        "Access-Control-Allow-Headers: Origin, X-Api-Key, X-Requested-With, Content-Type, Accept, Authorization"
    ∷ codes "Access-Control-Allow-Credentials: true"
    ∷ codes "Access-Control-Allow-Methods: GET, POST, OPTIONS, PUT, PATCH, DELETE"
    ∷ []

unfoldable pub file_type_lines : ResponseFileType → List (List ℕ)
file_type_lines js = codes "Content-Type: application/javascript; charset=utf-8" ∷ []
file_type_lines css = codes "Content-Type: text/css; charset=utf-8" ∷ []
file_type_lines woff2 = codes "Content-Type: font/woff2" ∷ []
file_type_lines none_type = []

unfoldable pub content_type_lines : HttpResponse → List (List ℕ)
content_type_lines r =
    if r.is_json_format
    then codes "Content-Type: application/json" ∷ []
    else file_type_lines r.file_info.file_type

unfoldable pub disposition_lines : List ℕ → List (List ℕ)
disposition_lines [] = []
disposition_lines (c ∷ s) =
    (codes "Content-Disposition: attachment; filename=" ++ quote ∷ ((c ∷ s) ++ quote ∷ [])) ∷ []

unfoldable pub status_line : ResponseStatusCode → List ℕ → List ℕ
status_line code reason =
    codes "HTTP/1.1 " ++ (uint64_text (status_number code) ++ (codes " " ++ reason))

unfoldable pub length_line : List ℕ → List ℕ
length_line s = codes "Content-Length: " ++ uint64_text (length s)

-- The lines behind the first: the custom header, CORS, the content's type, name and length.
unfoldable pub header_lines : HttpResponse → List (List ℕ) → List ℕ → List (List ℕ)
header_lines r custom s =
    custom
    ++ (cors_lines
        ++ (content_type_lines r
            ++ (disposition_lines r.file_info.file_name ++ length_line s ∷ [])))

module _ (double_text : ℕ → List ℕ) where
  unfoldable pub json_response : ResponseStatusCode → Json → Option HttpResponse
  json_response code j = do
    s ← get_string_value double_text j
    some (record {
      response_code = code;
      custom_header = value null true;
      content = some s;
      is_json_format = true;
      file_info = no_file;
    })

  unfoldable pub field_lines : Fields → Option (List (List ℕ))
  field_lines end = some []
  field_lines (field k v fs) = do
    s ← get_string_value double_text v
    ls ← field_lines fs
    some ((k ++ (codes ": " ++ s)) ∷ ls)

  unfoldable pub custom_lines : Json → Option (List (List ℕ))
  custom_lines (object false fs is) = field_lines fs
  custom_lines _ = some []

  unfoldable pub get_response_in_string : HttpResponse → Option (List ℕ)
  get_response_in_string r = do
    reason ← response_status_code_map r.response_code
    custom ← custom_lines r.custom_header
    s ← r.content
    some (append_lines (status_line r.response_code reason ∷ header_lines r custom s) (13 ∷ 10 ∷ s))
