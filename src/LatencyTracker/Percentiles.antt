-- ===== src/LatencyTracker/Percentiles.antt =====
-- core/utils/latency_tracker.h: the percentiles.
use order_book_server_cpp.Prelude.{
  ℕ, ◌-◌, ◌≤◌, ◌≡◌, refl, some, Bool, true, List, [], ◌∷◌, length, get_elem?, get_elem?-inside,
  arith,
}
use order_book_server_cpp.LatencyTracker.{Measures, percentile}

-- What `percentile` relies on: sorting keeps the number of samples and puts
-- them in the order `le`, and the position for at most 100 percent is not behind the last one and grows with the percentage.
pub record AreMeasures {ℓ} {T : Type ℓ} (m : Measures T) (le : T → T → Bool) : Type ℓ where
  pub long : (xs : List T) → length (m.sort xs) ≡ length xs
  pub sorted :
      (xs : List T) (i j : ℕ) (a b : T)
      → i ≤ j
      → get_elem? (m.sort xs) i ≡ some a
      → get_elem? (m.sort xs) j ≡ some b
      → le a b ≡ true
  pub inside : (p last : ℕ) → p ≤ 100 → m.position p last ≤ last
  pub grows : (p q last : ℕ) → p ≤ q → m.position p last ≤ m.position q last
  pub zero_le : le m.zero_sample m.zero_sample ≡ true

module _ {ℓ} {T : Type ℓ} (m : Measures T) (le : T → T → Bool) (laws : AreMeasures m le) where
  pub percentile_defined : (p : ℕ) (xs : List T) → p ≤ 100 → (x : T) × (percentile m p xs ≡ some x)
  unfolding percentile
  percentile_defined p [] h = (m.zero_sample, refl)
  percentile_defined p (v ∷ vs) h =
      get_elem?-inside (m.sort (v ∷ vs)) _
        (omega (arith, laws.long (v ∷ vs), laws.inside p (length (v ∷ vs) - 1) h))

  -- A lower percentile is not above a higher one, also when there are no samples.
  pub percentile_ordered :
      (p q : ℕ) (xs : List T)
      → p ≤ q
      → q ≤ 100
      → (x : T) × (y : T) × (percentile m p xs ≡ some x)
        × (percentile m q xs ≡ some y)
        × (le x y ≡ true)
  unfolding percentile
  percentile_ordered p q [] h i = (m.zero_sample, m.zero_sample, refl, refl, laws.zero_le)
  percentile_ordered p q (v ∷ vs) h i =
      let (x, is_x) = percentile_defined p (v ∷ vs) (omega arith) in
      let (y, is_y) = percentile_defined q (v ∷ vs) i in
      (
        x,
        y,
        is_x,
        is_y,
        laws.sorted (v ∷ vs) _ _ x y (laws.grows p q (length (v ∷ vs) - 1) h) is_x is_y,
      )
