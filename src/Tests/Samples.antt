-- ===== src/Tests/Samples.antt =====
-- core/utils/latency_tracker.h with room for four samples.
use order_book_server_cpp.Prelude.{ℕ, ◌≡◌, refl, List, [], ◌∷◌}
use order_book_server_cpp.LatencyTracker.{add_sample, add_samples}

abbrev five : List ℕ
five = 1 ∷ 2 ∷ 3 ∷ 4 ∷ 5 ∷ []

-- The fifth sample pushes the first one out.
window : add_samples 4 five [] ≡ 2 ∷ 3 ∷ 4 ∷ 5 ∷ []
unfolding add_samples add_sample
window = refl
