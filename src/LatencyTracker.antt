-- ===== src/LatencyTracker.antt =====
-- core/utils/latency_tracker.h: the samples that are kept, and their percentiles. A sample is of any
-- type: `add_sample` and `clear` do not look at it, and `percentile` only sorts.
pub mod Window
pub mod Percentiles
use order_book_server_cpp.Prelude.{
  ℕ, ◌+◌, ◌-◌, ◌/◌, Option, none, some, get_elem?, List, [], ◌∷◌, ◌++◌, length, drop, ltb,
  if◌then◌else◌,
}

module _ {ℓ} {T : Type ℓ} where
  -- A quarter of the samples, the oldest, goes when there are more than `max_samples`.
  unfoldable pub add_sample : ℕ → T → List T → List T
  add_sample max_samples value samples =
      let pushed = samples ++ value ∷ [] in
      if ltb max_samples (length pushed) then drop (length pushed / 4) pushed else pushed

  unfoldable pub clear_samples : List T → List T
  clear_samples samples = []

  -- The samples after a sequence of calls.
  unfoldable pub add_samples : ℕ → List T → List T → List T
  add_samples max_samples [] samples = samples
  add_samples max_samples (v ∷ vs) samples =
      add_samples max_samples vs (add_sample max_samples v samples)

abbrev pub max_samples : ℕ
max_samples = 200000

-- The double arithmetic of `percentile`: 0.0, `std::sort`, and the cast of `(p / 100.0) * last` to
-- `size_t`.
pub record Measures {ℓ} (T : Type ℓ) : Type ℓ where
  pub zero_sample : T
  pub sort : List T → List T
  pub position : ℕ → ℕ → ℕ

-- `none` is a read behind the end.
unfoldable pub percentile {ℓ} : {T : Type ℓ} → Measures T → ℕ → List T → Option T
percentile m p [] = some m.zero_sample
percentile m p (v ∷ vs) = get_elem? (m.sort (v ∷ vs)) (m.position p (length (v ∷ vs) - 1))
