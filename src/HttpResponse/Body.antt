-- ===== src/HttpResponse/Body.antt =====
-- core/network/https_server/response/http_response.cpp: what a client reads from a response.
use order_book_server_cpp.Prelude.{
  ℕ, ◌≡◌, refl, sym, ◌∙◌, Option, none, some, Bool, true, false, ◌&&◌, not, List, [], ◌∷◌, ◌++◌,
  length, drop, ◌==◌, Bool-cases, inl, inr, if◌then◌else◌, arith, All, codes,
}
use order_book_server_cpp.Prelude.Int.{pos}
use order_book_server_cpp.Json.Writer.{quote, uint64_text, int64_text}
use order_book_server_cpp.Json.Parser.{is_number}
use order_book_server_cpp.Json.Parser.Numbers.{Is, int64_text-All}
use order_book_server_cpp.HttpResponse.{
  ResponseStatusCode, ok_200, created_201, bad_request_400, unauthorized_request_401, not_found_404,
  risk_error_410, internal_server_error_500, HttpResponse, ResponseFileType, js, css, woff2,
  none_type, status_line, length_line, cors_lines, header_lines, content_type_lines,
  disposition_lines, file_type_lines, response_status_code_map, append_lines, custom_lines,
  get_response_in_string, status_number,
}
use order_book_server_cpp.SplitString.{starts_with}

-- The text behind the first blank line.
unfoldable pub body_of : List ℕ → Option (List ℕ)
body_of [] = none
body_of (c ∷ s) =
    let later = body_of s in
    if starts_with (13 ∷ 10 ∷ 13 ∷ 10 ∷ []) (c ∷ s) then some (drop 3 s) else later

-- Without a carriage return.
unfoldable pub no_return : List ℕ → Bool
no_return [] = true
no_return (c ∷ s) = not (c == 13) && no_return s

-- A line of a header: not empty and without a carriage return.
unfoldable pub is_line : List ℕ → Bool
unfolding no_return
is_line [] = false
is_line (c ∷ s) = no_return (c ∷ s)

abbrev pub AreLines : List (List ℕ) → Type 0
AreLines = All (λ l. is_line l ≡ true)

body_of-skip : (s t : List ℕ) → no_return s ≡ true → body_of (s ++ t) ≡ body_of t
unfolding body_of no_return
body_of-skip [] t h = refl
body_of-skip (c ∷ s) t h =
    let e : (13 == c) ≡ false = ground arith in
    let later = body_of-skip s t (ground arith) in rw (e, later) refl

no_return-line : (l : List ℕ) → is_line l ≡ true → no_return l ≡ true
unfolding is_line
no_return-line [] h = cc
no_return-line (c ∷ l) h = h

-- A line ending with a line behind it is not a blank line.
body_of-line : (l t : List ℕ) → is_line l ≡ true → body_of (13 ∷ 10 ∷ (l ++ t)) ≡ body_of (l ++ t)
unfolding body_of is_line no_return
body_of-line [] t h = cc
body_of-line (c ∷ l) t h = let e : (13 == c) ≡ false = ground arith in rw e refl

body_of-append_lines :
    (l : List ℕ) (ls : List (List ℕ)) (s : List ℕ)
    → is_line l ≡ true
    → AreLines ls
    → body_of (append_lines (l ∷ ls) (13 ∷ 10 ∷ s)) ≡ some s
unfolding append_lines
body_of-append_lines l [] s h hs = body_of-skip l _ (no_return-line l h) ∙ unfold body_of in refl
body_of-append_lines l (m ∷ ls) s h hs =
    body_of-skip l _ (no_return-line l h)
    ∙ body_of-line m _ hs.0
    ∙ body_of-append_lines m ls s hs.0 hs.1

no_return-append :
    (s t : List ℕ) → no_return s ≡ true → no_return t ≡ true → no_return (s ++ t) ≡ true
unfolding no_return
no_return-append [] t h k = k
no_return-append (c ∷ s) t h k = ground (arith, no_return-append s t (ground arith) k)

-- A line that starts with a line.
is_line-append : (s t : List ℕ) → is_line s ≡ true → no_return t ≡ true → is_line (s ++ t) ≡ true
unfolding is_line
is_line-append [] t h k = cc
is_line-append (c ∷ s) t h k = no_return-append (c ∷ s) t h k

number-no_return : (s : List ℕ) → All (Is is_number) s → no_return s ≡ true
unfolding no_return
number-no_return [] h = refl
number-no_return (c ∷ s) h = ground (arith, h.0, number-no_return s h.1)

uint64_text-no_return : (n : ℕ) → no_return (uint64_text n) ≡ true
unfolding int64_text
uint64_text-no_return n = number-no_return (uint64_text n) (int64_text-All (pos n))

known : (s reason : List ℕ) → some s ≡ some reason → no_return s ≡ true → no_return reason ≡ true
known s reason h k = let e : s ≡ reason = cc in rw (sym e) k

reason-no_return :
    (code : ResponseStatusCode) (reason : List ℕ)
    → response_status_code_map code ≡ some reason
    → no_return reason ≡ true
unfolding response_status_code_map
reason-no_return ok_200 reason h = known _ reason h (unfold no_return in refl)
reason-no_return created_201 reason h = known _ reason h (unfold no_return in refl)
reason-no_return bad_request_400 reason h = known _ reason h (unfold no_return in refl)
reason-no_return unauthorized_request_401 reason h = known _ reason h (unfold no_return in refl)
reason-no_return not_found_404 reason h = known _ reason h (unfold no_return in refl)
reason-no_return risk_error_410 reason h = cc
reason-no_return internal_server_error_500 reason h = known _ reason h (unfold no_return in refl)

status_line-is_line :
    (code : ResponseStatusCode) (reason : List ℕ)
    → response_status_code_map code ≡ some reason
    → is_line (status_line code reason) ≡ true
unfolding status_line
status_line-is_line code reason h =
    let digits = uint64_text-no_return (status_number code) in
    let rest = reason-no_return code reason h in
    is_line-append (codes "HTTP/1.1 ") _ (unfold is_line no_return in refl)
      (no_return-append _ _ digits (no_return-append (codes " ") _ (unfold no_return in refl) rest))

length_line-is_line : (s : List ℕ) → is_line (length_line s) ≡ true
unfolding length_line
length_line-is_line s =
    is_line-append (codes "Content-Length: ") _ (unfold is_line no_return in refl)
      (uint64_text-no_return (length s))

AreLines-append : (ls ms : List (List ℕ)) → AreLines ls → AreLines ms → AreLines (ls ++ ms)
AreLines-append [] ms h k = k
AreLines-append (l ∷ ls) ms h k = (h.0, AreLines-append ls ms h.1 k)

AreLines-cors : AreLines cors_lines
unfolding cors_lines is_line no_return
AreLines-cors = (refl, (refl, (refl, (refl, tt))))

AreLines-file_type : (t : ResponseFileType) → AreLines (file_type_lines t)
unfolding file_type_lines is_line no_return
AreLines-file_type js = (refl, tt)
AreLines-file_type css = (refl, tt)
AreLines-file_type woff2 = (refl, tt)
AreLines-file_type none_type = tt

AreLines-content_type : (r : HttpResponse) → AreLines (content_type_lines r)
unfolding content_type_lines
AreLines-content_type r = elim (Bool-cases r.is_json_format) [
  | inl e ↦ rw e (unfold is_line no_return in refl, tt)
  | inr e ↦ rw e (AreLines-file_type r.file_info.file_type)
]

AreLines-disposition : (s : List ℕ) → no_return s ≡ true → AreLines (disposition_lines s)
unfolding disposition_lines
AreLines-disposition [] h = tt
AreLines-disposition (c ∷ s) h =
    let name = no_return-append (c ∷ s) (quote ∷ []) h (unfold no_return in refl) in
    let start = codes "Content-Disposition: attachment; filename=" in
    let named = no_return-append (quote ∷ []) _ (unfold no_return in refl) name in
    (is_line-append start _ (unfold is_line no_return in refl) named, tt)

AreLines-header :
    (r : HttpResponse) (custom : List (List ℕ)) (s : List ℕ)
    → AreLines custom
    → no_return r.file_info.file_name ≡ true
    → AreLines (header_lines r custom s)
unfolding header_lines
AreLines-header r custom s lines name = AreLines-append custom _ lines (
    AreLines-append cors_lines _ AreLines-cors (
      AreLines-append (content_type_lines r) _ (AreLines-content_type r) (
        AreLines-append _ _ (AreLines-disposition r.file_info.file_name name)
          (length_line-is_line s, tt))))

module _ (double_text : ℕ → List ℕ) where
  -- A client that takes what stands behind the first blank line of a response gets its content: when
  -- the status has a reason, no custom header line is empty, and no custom header line and no file
  -- name has a carriage return in it. The content can be any text.
  pub body_of-get_response_in_string :
      (r : HttpResponse) (reason s : List ℕ) (custom : List (List ℕ))
      → response_status_code_map r.response_code ≡ some reason
      → custom_lines double_text r.custom_header ≡ some custom
      → AreLines custom
      → no_return r.file_info.file_name ≡ true
      → r.content ≡ some s
      → (text : List ℕ) × (get_response_in_string double_text r ≡ some text)
        × (body_of text ≡ some s)
  unfolding get_response_in_string
  body_of-get_response_in_string r reason s custom hr hc lines name hs = (
    append_lines (status_line r.response_code reason ∷ header_lines r custom s) (13 ∷ 10 ∷ s),
    rw (hr, hc, hs) refl,
    body_of-append_lines _ _ s (status_line-is_line r.response_code reason hr)
        (AreLines-header r custom s lines name),
  )
