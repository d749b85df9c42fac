-- ===== src/HttpRequest/Line.antt =====
-- core/network/https_server/request/http_request.cpp: the request line.
use order_book_server_cpp.Prelude.{
  ℕ, suc, ◌+◌, ◌-◌, ◌≡◌, ◌∙◌, refl, ap, Option, none, some, arith, Bool-cases, List, [], ◌∷◌, ◌++◌,
  length, take, drop, length-append, take-length_le, drop-append, take-append, drop-drop, ◌==◌, inl,
  inr,
}
use order_book_server_cpp.SplitString.{shift, find_in, find_from, substr}
use order_book_server_cpp.HttpRequest.{deserialize_url, deserialize_query_string}

-- The byte is nowhere in the text.
abbrev pub Without : ℕ → List ℕ → Type 0
Without c s = find_in (c ∷ []) s ≡ none

shift-none : (n : ℕ) (r : Option ℕ) → shift n r ≡ none → r ≡ none
shift-none n none h = refl
shift-none n (some k) h = cc

pub find_in-append :
    (c : ℕ) (xs ys : List ℕ) → Without c xs → find_in (c ∷ []) (xs ++ c ∷ ys) ≡ some (length xs)
unfolding find_in
find_in-append c [] ys h = ground arith
find_in-append c (x ∷ xs) ys h = elim (Bool-cases (c == x)) [
  | inl e ↦ absurd (ground arith)
  | inr e ↦ rw (e, find_in-append c xs ys (shift-none 1 _ (rw e at h))) (ap some (omega arith))
]

-- The position of the first `c` at or after `start`, where `xs` without `c` stands in front of it.
pub find_from-append :
    (s : List ℕ) (c start : ℕ) (xs ys : List ℕ)
    → drop start s ≡ xs ++ c ∷ ys
    → Without c xs
    → find_from s (c ∷ []) start ≡ some (start + length xs)
unfolding find_from
find_from-append s c start xs ys e h = rw (e, find_in-append c xs ys h) refl

-- The piece of `s` between `start` and the first `c` after it, and what is behind that.
pub substr-append :
    (s xs ys : List ℕ) (start : ℕ) → drop start s ≡ xs ++ ys → substr s start (length xs) ≡ xs
substr-append s xs ys start e = rw e (take-append xs ys)

pub drop-behind :
    (s xs ys : List ℕ) (c start : ℕ)
    → drop start s ≡ xs ++ c ∷ ys
    → drop (start + length xs + 1) s ≡ ys
drop-behind s xs ys c start e =
    drop-drop (start + length xs) 1 s
    ∙ ap (drop 1) (drop-drop start (length xs) s)
    ∙ ap (λ r. drop 1 (drop (length xs) r)) e
    ∙ ap (drop 1) (drop-append xs (c ∷ ys))

deserialize_url-append :
    (method url rest : List ℕ)
    → Without b' ' method
    → Without b' ' url
    → deserialize_url (method ++ b' ' ∷ (url ++ b' ' ∷ rest)) ≡ url
unfolding deserialize_url
deserialize_url-append method url rest hm hu =
    let s = method ++ b' ' ∷ (url ++ b' ' ∷ rest) in
    let n = length method in
    let behind : drop (n + 1) s ≡ url ++ b' ' ∷ rest =
      ap (λ i. drop i s) (omega arith) ∙ drop-behind s method (url ++ b' ' ∷ rest) b' ' 0 refl in
    let first : find_from s (b' ' ∷ []) 0 ≡ some n =
      find_from-append s b' ' 0 method (url ++ b' ' ∷ rest) refl hm ∙ ap some (omega arith) in
    let second : find_from s (b' ' ∷ []) (n + 1) ≡ some (n + 1 + length url) =
      find_from-append s b' ' (n + 1) url rest behind hu in
    let width : n + 1 + length url - n - 1 ≡ length url = omega arith in
    rw (deserialize_url, first, second, width) (substr-append s url (b' ' ∷ rest) (n + 1) behind)

deserialize_query_string-append :
    (path query : List ℕ)
    → Without b'?' path
    → deserialize_query_string (path ++ b'?' ∷ query) ≡ (path, query)
unfolding deserialize_query_string
deserialize_query_string-append path query h =
    let s = path ++ b'?' ∷ query in
    let n = length path in
    let first : find_from s (b'?' ∷ []) 0 ≡ some n =
      find_from-append s b'?' 0 path query refl h ∙ ap some (omega arith) in
    let behind : drop (n + 1) s ≡ query =
      ap (λ i. drop i s) (omega arith) ∙ drop-behind s path query b'?' 0 refl in
    let size : length s ≡ n + suc (length query) = length-append path (b'?' ∷ query) in
    let query_is : substr s (n + 1) (length s - 1) ≡ query =
      ap (take (length s - 1)) behind ∙ take-length_le (length s - 1) query (omega arith) in
    rw (deserialize_query_string, first)
      (ap (λ p. (p, substr s (n + 1) (length s - 1))) (take-append path (b'?' ∷ query))
        ∙ ap (λ q. (path, q)) query_is)

-- A request line of a method, a path and a query, where no space is in the method, the path or the
-- query and no question mark is in the path, is read as that path and that query, whatever follows.
deserialize_query_string-deserialize_url :
    (method path query rest : List ℕ)
    → Without b' ' method
    → Without b' ' (path ++ b'?' ∷ query)
    → Without b'?' path
    → deserialize_query_string
        (deserialize_url (method ++ b' ' ∷ ((path ++ b'?' ∷ query) ++ b' ' ∷ rest)))
      ≡ (path, query)
deserialize_query_string-deserialize_url method path query rest hm hu hp =
    ap deserialize_query_string (deserialize_url-append method (path ++ b'?' ∷ query) rest hm hu)
    ∙ deserialize_query_string-append path query hp
