-- ===== src/HttpRequest/Query.antt =====
-- core/network/https_server/request/http_request.cpp: the query parameters.
use mathlib.Core.Path.{subst}
use order_book_server_cpp.Prelude.{
  ℕ, zero, suc, ◌+◌, ◌-◌, ◌≤◌, ◌<◌, ◌≡◌, ◌∙◌, refl, sym, ap, none, some, true, false, arith, List,
  [], ◌∷◌, ◌++◌, length, take, drop, All, length-append, length-drop, take-length_le, take-append,
  leb,
}
use order_book_server_cpp.SplitString.{find_from, substr}
use order_book_server_cpp.HttpRequest.{
  Params, insert_param, split_param, end_of_param, params_loop, store_param,
  deserialize_query_params,
}
use order_book_server_cpp.HttpRequest.Line.{Without, find_from-append, substr-append, drop-behind}

-- A list of parameters as the text `k=v&k=v`.
unfoldable pub encode : List ℕ → List ℕ → List (List ℕ × List ℕ) → List ℕ
encode k v [] = k ++ b'=' ∷ v
encode k v ((l, w) ∷ ps) = (k ++ b'=' ∷ v) ++ b'&' ∷ encode l w ps

unfoldable pub insert_params : List (List ℕ × List ℕ) → Params → Params
insert_params [] m = m
insert_params ((k, v) ∷ ps) m = insert_params ps (insert_param k v m)

-- Parameters that their text shows: no `=` in a name, no `&` in a name or a value.
abbrev pub IsPlain : List ℕ × List ℕ → Type 0
IsPlain (k, v) = Without b'=' k × Without b'&' (k ++ b'=' ∷ v)

split_param-append : (k v : List ℕ) → Without b'=' k → split_param (k ++ b'=' ∷ v) ≡ some (k, v)
unfolding split_param
split_param-append k v h =
    let s = k ++ b'=' ∷ v in
    let n = length k in
    let first : find_from s (b'=' ∷ []) 0 ≡ some n =
      find_from-append s b'=' 0 k v refl h ∙ ap some (omega arith) in
    let behind : drop (n + 1) s ≡ v =
      ap (λ i. drop i s) (omega arith) ∙ drop-behind s k v b'=' 0 refl in
    let size : length s ≡ n + suc (length v) = length-append k (b'=' ∷ v) in
    let value_is : substr s (n + 1) (length s - 1) ≡ v =
      ap (take (length s - 1)) behind ∙ take-length_le (length s - 1) v (omega arith) in
    rw (split_param, first)
      (ap (λ p. some (p, substr s (n + 1) (length s - 1))) (take-append k (b'=' ∷ v))
        ∙ ap (λ q. some (k, q)) value_is)

-- One round of the loop over the parameter `k=v`.
module _ (q : List ℕ) (start : ℕ) (k v : List ℕ) where
  params_round :
      (fuel end : ℕ) (m : Params)
      → start < length q
      → end_of_param q start ≡ end
      → substr q start (end - start) ≡ k ++ b'=' ∷ v
      → Without b'=' k
      → params_loop (suc fuel) q start m ≡ params_loop fuel q (end + 1) (insert_param k v m)
  unfolding params_loop store_param
  params_round fuel end m h stop piece plain =
      let more : leb (length q) start ≡ false = ground arith in
      rw (more, stop, piece, split_param-append k v plain) refl

params_loop_end :
    (q : List ℕ) (fuel start : ℕ) (m : Params)
    → length q ≤ start
    → params_loop (suc fuel) q start m ≡ some m
unfolding params_loop
params_loop_end q fuel start m h =
    let done : leb (length q) start ≡ true = ground arith in rw done refl

encode_positive : (k v : List ℕ) (ps : List (List ℕ × List ℕ)) → 0 < length (encode k v ps)
unfolding encode
encode_positive k v [] = omega (arith, length-append k (b'=' ∷ v))
encode_positive k v ((l, w) ∷ ps) =
    omega (arith, length-append (k ++ b'=' ∷ v) (b'&' ∷ encode l w ps))

end_of_param-some :
    (q : List ℕ) (start end : ℕ)
    → find_from q (b'&' ∷ []) start ≡ some end
    → end_of_param q start ≡ end
unfolding end_of_param
end_of_param-some q start end e = rw (end_of_param, e) refl

end_of_param-none :
    (q : List ℕ) (start : ℕ) → Without b'&' (drop start q) → end_of_param q start ≡ length q
unfolding end_of_param find_from
end_of_param-none q start e = rw (end_of_param, e) refl

params_loop-encode :
    (q : List ℕ) (fuel start : ℕ) (k v : List ℕ) (ps : List (List ℕ × List ℕ)) (m : Params)
    → drop start q ≡ encode k v ps
    → length q < start + suc fuel
    → start ≤ length q
    → All IsPlain ((k, v) ∷ ps)
    → params_loop (suc fuel) q start m ≡ some (insert_params ((k, v) ∷ ps) m)
unfolding encode insert_params
params_loop-encode q zero start k v ps m e f h plain =
    let size : length (drop start q) ≡ length q - start = length-drop start q in
    let size' : length (drop start q) ≡ length (encode k v ps) = ap length e in
    absurd (omega (arith, encode_positive k v ps))
params_loop-encode q (suc fuel) start k v [] m e f h plain =
    let p = k ++ b'=' ∷ v in
    let size : length (drop start q) ≡ length q - start = length-drop start q in
    let size' : length (drop start q) ≡ length k + suc (length v) =
      ap length e ∙ length-append k (b'=' ∷ v) in
    let none_left : Without b'&' (drop start q) = subst (Without b'&') (sym e) plain.0.1 in
    let piece : substr q start (length q - start) ≡ p =
      take-length_le (length q - start) (drop start q) (omega arith) ∙ e in
    params_round q start k v (suc fuel) (length q) m (omega arith)
      (end_of_param-none q start none_left) piece plain.0.0
    ∙ params_loop_end q fuel (length q + 1) (insert_param k v m) (omega arith)
params_loop-encode q (suc fuel) start k v ((l, w) ∷ ps) m e f h plain =
    let p = k ++ b'=' ∷ v in
    let rest = encode l w ps in
    let size : length (drop start q) ≡ length q - start = length-drop start q in
    let size' : length (drop start q) ≡ length p + suc (length rest) =
      ap length e ∙ length-append p (b'&' ∷ rest) in
    let stop : end_of_param q start ≡ start + length p =
      end_of_param-some q start (start + length p)
        (find_from-append q b'&' start p rest e plain.0.1) in
    let width : start + length p - start ≡ length p = omega arith in
    let piece : substr q start (start + length p - start) ≡ p =
      ap (substr q start) width ∙ substr-append q p (b'&' ∷ rest) start e in
    params_round q start k v (suc fuel) (start + length p) m (omega arith) stop piece plain.0.0
    ∙ params_loop-encode q fuel (start + length p + 1) l w ps (insert_param k v m)
        (drop-behind q p rest b'&' start e) (omega arith) (omega arith) plain.1

-- A query string that is written from a list of parameters, each with no `=` in its name and no `&`
-- in its name or value, is read as those parameters: the loop ends, and a name has the first value
-- that the list gives it.
pub deserialize_query_params-encode :
    (k v : List ℕ) (ps : List (List ℕ × List ℕ))
    → All IsPlain ((k, v) ∷ ps)
    → deserialize_query_params (encode k v ps) ≡ some (insert_params ((k, v) ∷ ps) (λ l. none))
unfolding deserialize_query_params
deserialize_query_params-encode k v ps plain =
    let q = encode k v ps in
    let one : length q + 1 ≡ suc (length q) = omega arith in
    ap (λ fuel. params_loop fuel q 0 (λ l. none)) one
    ∙ params_loop-encode q (length q) 0 k v ps _ refl (omega arith) (omega arith) plain
