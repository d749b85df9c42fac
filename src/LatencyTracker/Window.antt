-- ===== src/LatencyTracker/Window.antt =====
-- core/utils/latency_tracker.h: the kept samples are the last ones, and not more than the maximum.
use mathlib.Core.List.{append_assoc, append-nil}
use order_book_server_cpp.Prelude.{
  ℕ, zero, suc, ◌+◌, ◌-◌, ◌/◌, ◌≤◌, ◌<◌, ◌≡◌, ◌∙◌, refl, sym, ap, List, [], ◌∷◌, ◌++◌, length, drop,
  take, ltb, Bool-cases, inl, inr, arith, length-append, length-drop,
}
use order_book_server_cpp.LatencyTracker.{add_sample, add_samples}

module _ {ℓ} {T : Type ℓ} (max_samples : ℕ) (large : 3 ≤ max_samples) where
  take-drop : (n : ℕ) (xs : List T) → take n xs ++ drop n xs ≡ xs
  take-drop zero xs = refl
  take-drop (suc n) [] = refl
  take-drop (suc n) (x ∷ xs) = ap (◌∷◌ x) (take-drop n xs)

  -- One sample more: some of the oldest go, the rest stays with the new one behind it.
  pub add_sample-suffix :
      (v : T) (xs : List T)
      → length xs ≤ max_samples
      → (old : List T) × (old ++ add_sample max_samples v xs ≡ xs ++ v ∷ [])
        × (length (add_sample max_samples v xs) ≤ max_samples)
  unfolding add_sample
  add_sample-suffix v xs h =
      let pushed = xs ++ v ∷ [] in
      let size : length pushed ≡ length xs + 1 = length-append xs (v ∷ []) in
      let left : length (drop (length pushed / 4) pushed) ≡ length pushed - length pushed / 4 =
        length-drop (length pushed / 4) pushed in
      elim (Bool-cases (ltb max_samples (length pushed))) [
        | inl full ↦
            let over : max_samples < length pushed = ground arith in
            rw full (take (length pushed / 4) pushed, take-drop _ pushed, omega arith)
        | inr room ↦ rw room ([], refl, ground arith)
      ]

  -- With room for three samples at least, any number of calls keeps the last of all the samples, in
  -- their order, and never more than the maximum.
  add_samples-suffix :
      (vs xs : List T)
      → length xs ≤ max_samples
      → (old : List T) × (old ++ add_samples max_samples vs xs ≡ xs ++ vs)
        × (length (add_samples max_samples vs xs) ≤ max_samples)
  unfolding add_samples
  add_samples-suffix [] xs h = ([], sym (append-nil xs), h)
  add_samples-suffix (v ∷ vs) xs h =
      let (one, joined, fits) = add_sample-suffix v xs h in
      let kept = add_sample max_samples v xs in
      let (old, rest, bound) = add_samples-suffix vs kept fits in
      (
        one ++ old,
        append_assoc one old _
            ∙ ap (λ l. one ++ l) rest
            ∙ sym (append_assoc one kept vs)
            ∙ ap (λ l. l ++ vs) joined
            ∙ append_assoc xs (v ∷ []) vs,
        bound,
      )
