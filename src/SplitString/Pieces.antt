-- ===== src/SplitString/Pieces.antt =====
-- core/utils/utils.cpp: what `Utils::split_string` returns.
use order_book_server_cpp.Prelude.{
  append-snoc, length-drop, drop-drop, take-length_le, ◌⊎◌, ℕ, zero, suc, ◌+◌, ◌-◌, ◌<◌, ◌≤◌, ◌≡◌,
  ◌∙◌, refl, ap, Option, none, some, true, false, arith, Bool-cases, List, [], ◌∷◌, ◌++◌, length,
  take, drop, All, inl, inr,
}
use order_book_server_cpp.SplitString.{
  starts_with, shift, find_in, find_from, split_loop, split_string,
}

-- The pieces with the delimiter between them.
unfoldable pub join : List ℕ → List ℕ → List (List ℕ) → List ℕ
join del p [] = p
join del p (q ∷ qs) = p ++ del ++ join del q qs

-- The delimiter does not occur in a piece.
abbrev pub Free : List ℕ → List ℕ → Type 0
Free del p = find_in del p ≡ none

starts_with-split : (del s : List ℕ) → starts_with del s ≡ true → del ++ drop (length del) s ≡ s
starts_with-split [] s h = refl
starts_with-split (d ∷ ds) [] h = cc
starts_with-split (d ∷ ds) (c ∷ s) h = ground (arith, starts_with-split ds s)

starts_with-length : (del s : List ℕ) → starts_with del s ≡ true → length del ≤ length s
starts_with-length [] s h = omega arith
starts_with-length (d ∷ ds) [] h = cc
starts_with-length (d ∷ ds) (c ∷ s) h = ground (arith, starts_with-length ds s)

starts_with-take :
    (del s : List ℕ) (k : ℕ) → starts_with del (take k s) ≡ true → starts_with del s ≡ true
starts_with-take [] s k h = refl
starts_with-take (d ∷ ds) s zero h = cc
starts_with-take (d ∷ ds) [] (suc k) h = cc
starts_with-take (d ∷ ds) (c ∷ s) (suc k) h = ground (arith, starts_with-take ds s k)

-- A position that `find_in` returns splits the text in a piece without the delimiter, the delimiter
-- and the rest.
record Splits (del s : List ℕ) (k : ℕ) : Type 0 where
  fits : k + length del ≤ length s
  parts : take k s ++ del ++ drop (k + length del) s ≡ s
  front : Free del (take k s)

shift-some : (n k : ℕ) (r : Option ℕ) → shift n r ≡ some k → (j : ℕ) × (r ≡ some j) × (k ≡ n + j)
shift-some n k none h = cc
shift-some n k (some j) h = (j, refl, ground arith)

module _ (d : ℕ) (ds : List ℕ) (c : ℕ) (s : List ℕ) where
  Splits-front : starts_with (d ∷ ds) (c ∷ s) ≡ true → Splits (d ∷ ds) (c ∷ s) 0
  unfolding find_in
  Splits-front here =
      let e : 0 + suc (length ds) ≡ suc (length ds) = omega arith in
      record {
        fits = omega (arith, starts_with-length (d ∷ ds) (c ∷ s) here);
        parts = ap (λ i. (d ∷ ds) ++ drop i (c ∷ s)) e ∙ starts_with-split (d ∷ ds) (c ∷ s) here;
        front = refl;
      }

  Splits-later :
      (j : ℕ)
      → starts_with (d ∷ ds) (c ∷ s) ≡ false
      → Splits (d ∷ ds) s j
      → Splits (d ∷ ds) (c ∷ s) (suc j)
  unfolding find_in
  Splits-later j later ih =
      let e : suc j + suc (length ds) ≡ suc (j + suc (length ds)) = omega arith in
      record {
        fits = omega (arith, ih.fits);
        parts = ap (λ i. c ∷ take j s ++ (d ∷ ds) ++ drop i (c ∷ s)) e ∙ ap (◌∷◌ c) ih.parts;
        front = elim (Bool-cases (starts_with (d ∷ ds) (c ∷ take j s))) [
          | inl early ↦ absurd (ground (arith, starts_with-take (d ∷ ds) (c ∷ s) (suc j) early))
          | inr f ↦ rw (f, ih.front) refl
        ];
      }

find_in-Splits : (d : ℕ) (ds s : List ℕ) (k : ℕ) → find_in (d ∷ ds) s ≡ some k → Splits (d ∷ ds) s k
unfolding find_in
find_in-Splits d ds [] k h = cc
find_in-Splits d ds (c ∷ s) k h = elim (Bool-cases (starts_with (d ∷ ds) (c ∷ s))) [
  | inl here ↦ let e : k ≡ 0 = ground arith in rw e (Splits-front d ds c s here)
  | inr later ↦
      let (j, found, e) = shift-some 1 k (find_in (d ∷ ds) s) (rw later at h) in
      let e' : k ≡ suc j = omega arith in
      rw e' (Splits-later d ds c s j later (find_in-Splits d ds s j found))
]

seen : (o : Option ℕ) → (o ≡ none) ⊎ ((k : ℕ) × (o ≡ some k))
seen none = inl refl
seen (some k) = inr (k, refl)

-- The pieces that the loop adds from `start` on.
abbrev Adds : List ℕ → List ℕ → ℕ → List (List ℕ) → Option (List (List ℕ)) → Type 0
Adds str del start res out =
    (p : List ℕ) × (ps : List (List ℕ)) × (out ≡ some (res ++ p ∷ ps))
    × (join del p ps ≡ drop start str)
    × All (Free del) (p ∷ ps)

module _ (str : List ℕ) (d : ℕ) (ds : List ℕ) where
  -- One round that finds a delimiter, and the rounds after it.
  Adds-round :
      (start k : ℕ) (res : List (List ℕ)) (out : Option (List (List ℕ)))
      → Splits (d ∷ ds) (drop start str) k
      → Adds str (d ∷ ds) (start + k + suc (length ds)) (res ++ take k (drop start str) ∷ []) out
      → Adds str (d ∷ ds) start res out
  unfolding join
  Adds-round start k res out split (p, ps, e, joined, free) =
      let at : start + k + suc (length ds) ≡ start + (k + suc (length ds)) = omega arith in
      let rest = joined ∙ ap (λ i. drop i str) at ∙ drop-drop start (k + suc (length ds)) str in
      (
        take k (drop start str),
        p ∷ ps,
        e ∙ ap some (append-snoc res (p ∷ ps) _),
        ap (λ s. take k (drop start str) ++ (d ∷ ds) ++ s) rest ∙ split.parts,
        (split.front, free),
      )

  split_loop-Adds :
      (fuel start : ℕ) (res : List (List ℕ))
      → start ≤ length str
      → length str < start + fuel
      → Adds str (d ∷ ds) start res (split_loop fuel str (d ∷ ds) start res)
  unfolding split_loop find_from join
  split_loop-Adds zero start res h f = absurd (omega arith)
  split_loop-Adds (suc fuel) start res h f =
      let size : length (drop start str) ≡ length str - start = length-drop start str in
      elim (seen (find_in (d ∷ ds) (drop start str))) [
        | inl e ↦
            rw (split_loop, e)
              (
                drop start str,
                [],
                ap (λ p. some (res ++ p ∷ [])) (take-length_le _ (drop start str) (omega arith)),
                refl,
                (e, tt),
              )
        | inr (k, e) ↦
            let split = find_in-Splits d ds (drop start str) k e in
            let fits : k + suc (length ds) ≤ length (drop start str) = split.fits in
            let width : start + k - start ≡ k = omega arith in
            rw (split_loop, e, width)
              (Adds-round start k res _ split
                (split_loop-Adds fuel (start + k + suc (length ds)) _ (omega arith) (omega arith)))
      ]

-- With a delimiter that is not empty and one more round than the text has bytes, `split_string`
-- returns at least one piece; the pieces with the delimiter between them are the text, and no piece
-- has the delimiter in it.
pub split_string-join :
    (str : List ℕ) (d : ℕ) (ds : List ℕ) (fuel : ℕ)
    → length str < fuel
    → (p : List ℕ) × (ps : List (List ℕ)) × (split_string fuel str (d ∷ ds) ≡ some (p ∷ ps))
      × (join (d ∷ ds) p ps ≡ str)
      × All (Free (d ∷ ds)) (p ∷ ps)
unfolding split_string
split_string-join str d ds fuel h = split_loop-Adds str d ds fuel 0 [] (omega arith) (omega arith)

find_in_empty : (s : List ℕ) → find_in [] s ≡ some 0
unfolding find_in
find_in_empty [] = refl
find_in_empty (c ∷ s) = refl

split_loop_empty :
    (str : List ℕ) (fuel start : ℕ) (res : List (List ℕ)) → split_loop fuel str [] start res ≡ none
unfolding split_loop find_from
split_loop_empty str zero start res = refl
split_loop_empty str (suc fuel) start res =
    rw (split_loop, find_in_empty (drop start str)) (split_loop_empty str fuel _ _)

-- An empty delimiter is found at once in every round, so no number of rounds is enough.
split_string-empty : (str : List ℕ) (fuel : ℕ) → split_string fuel str [] ≡ none
unfolding split_string
split_string-empty str fuel = split_loop_empty str fuel 0 []
