-- ===== src/OrderBookController.antt =====
-- src/orderbook/orderbook_controller.cpp: class OrderBookController. The loop that `start_streaming`
-- starts is that of Streaming.antt; here are the members, the callback of the loop, and the snapshot
-- that is sent. A duration is what the clock gave, a parameter.
pub mod Snapshots
use order_book_server_cpp.Prelude.{
  ℕ, suc, ◌+◌, ◌≡◌, Option, none, some, ◌>>=◌, Bool, true, false, List, [], ◌∷◌, codes,
}
use order_book_server_cpp.Json.{Scalar, double, Json, empty, value, set_key, from_pairs}
use order_book_server_cpp.Book.{Book, MboMsg, apply}
use order_book_server_cpp.Book.Snapshot.{build_snapshot}
use order_book_server_cpp.LatencyTracker.{
  Measures, percentile, add_sample, clear_samples, max_samples,
}
use order_book_server_cpp.Streaming.{initialize}

-- `m_order_book` and `m_dbn_wrapper` are null before `initialize`; of the second this is its
-- `m_is_streaming`. The last field is the static tracker of `get_orderbook_snapshot_async`. A sample is
-- the bit pattern of a double.
pub record OrderBookController : Type 0 where
  pub order_book : Option Book
  pub is_streaming : Option Bool
  pub apply_stats : List ℕ
  pub count_mbo_msgs : ℕ
  pub latency : List ℕ

abbrev pub new_controller : OrderBookController
new_controller = record {
  order_book = none;
  is_streaming = none;
  apply_stats = [];
  count_mbo_msgs = 0;
  latency = [];
}

unfoldable pub initialize_controller : OrderBookController → Option OrderBookController
initialize_controller c = do
  b ← initialize
  some (record c { order_book = some b; is_streaming = some false })

-- `start_streaming` up to the start of the loop, and the loop's first assignment. `none` is the call
-- through a null `m_dbn_wrapper`.
unfoldable pub start_loop : OrderBookController → Option OrderBookController
start_loop c = elim c.is_streaming [
  | none ↦ none
  | some on ↦ some (record c {
    is_streaming = some true;
    apply_stats = clear_samples c.apply_stats;
    count_mbo_msgs = 0;
  })
]

-- The callback, with the microseconds that `apply` took.
unfoldable pub on_mbo_msg : MboMsg → ℕ → OrderBookController → Option OrderBookController
on_mbo_msg m us c = elim c.order_book [
  | none ↦ none
  | some b ↦ (do
    d ← apply b m
    some (record c {
      order_book = some d;
      apply_stats = add_sample max_samples us c.apply_stats;
      count_mbo_msgs = c.count_mbo_msgs + 1;
    }))
]

unfoldable pub on_mbo_msgs : List (MboMsg × ℕ) → OrderBookController → Option OrderBookController
unfolding on_mbo_msg
on_mbo_msgs [] c = some c
on_mbo_msgs ((m, us) ∷ ms) c = do d ← on_mbo_msg m us c; on_mbo_msgs ms d

-- `stop_streaming`: whether it asks the loop to stop, and the flag after that.
unfoldable pub stop_streaming : OrderBookController → Bool × OrderBookController
stop_streaming c = elim c.is_streaming [
  | some true ↦ (true, record c { is_streaming = some false })
  | _ ↦ (false, c)
]

abbrev pub of_double : ℕ → Json
of_double x = value (double x) true

-- `1000000.0 / x` is a parameter, too.
module _ (m : Measures ℕ) (per_second : ℕ → ℕ) where
  unfoldable pub latency_get_snapshot : List ℕ → Option Json
  latency_get_snapshot samples = do
    p50 ← percentile m 50 samples
    p90 ← percentile m 90 samples
    p99 ← percentile m 99 samples
    some (
        from_pairs (
          (codes "p50", of_double p50)
          ∷ (codes "p90", of_double p90)
          ∷ (codes "p99", of_double p99)
          ∷ []))

  unfoldable pub latency_apply_mbo_msg : List ℕ → Option Json
  latency_apply_mbo_msg samples = do
    p50 ← percentile m 50 samples
    p90 ← percentile m 90 samples
    p99 ← percentile m 99 samples
    some (
        from_pairs (
          (codes "p50", of_double p50)
          ∷ (codes "p90", of_double p90)
          ∷ (codes "p99", of_double p99)
          ∷ (codes "throughput_p50", of_double (per_second p50))
          ∷ (codes "throughput_p90", of_double (per_second p90))
          ∷ (codes "throughput_p99", of_double (per_second p99))
          ∷ []))

  -- With the milliseconds that the snapshot took; what `set_value` is given.
  unfoldable pub get_orderbook_snapshot_async :
      ℕ → OrderBookController → Option (OrderBookController × Json)
  unfolding latency_get_snapshot latency_apply_mbo_msg
  get_orderbook_snapshot_async ms c = elim c.order_book [
    | none ↦ some (c, empty)
    | some b ↦
        let samples = add_sample max_samples ms c.latency in
        (do
          snapshot_stats ← latency_get_snapshot samples
          msg_stats ← latency_apply_mbo_msg c.apply_stats
          some (
            record c { latency = samples },
            set_key (codes "latency_apply_mbo_msg") msg_stats
                (set_key (codes "latency_get_snapshot") snapshot_stats (build_snapshot b)),
          ))
  ]
