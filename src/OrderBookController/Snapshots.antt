-- ===== src/OrderBookController/Snapshots.antt =====
-- src/orderbook/orderbook_controller.cpp: what is sent after messages were applied.
use order_book_server_cpp.Prelude.{
  ℕ, ◌+◌, ◌≡◌, ◌≤◌, ◌<◌, ◌^◌, refl, sym, ap, ◌∙◌, Option, none, some, ◌>>=◌, Bool, true, List, [],
  ◌∷◌, length, codes, All, arith, Option-cases, inl, inr,
}
use order_book_server_cpp.Prelude.Int.{pos, sub_i64, div_i64, add_i64}
use order_book_server_cpp.Json.{
  Json, set_key, check_create_json_object, assign_field, get_key, find_field,
}
use order_book_server_cpp.Book.{Book, MboMsg, apply, apply_all, new_book}
use order_book_server_cpp.Book.Prices.{new_grid, count_levels}
use order_book_server_cpp.Book.Depth.{DepthSnapshot, get_depth}
use order_book_server_cpp.Book.Invariant.{IsValid}
use order_book_server_cpp.Book.Ledger.{ledger}
use order_book_server_cpp.Book.Refinement.{IsPriced, next_ledgers}
use order_book_server_cpp.Book.Snapshot.Contents.{side_json, depth_json, build_snapshot-get_depth}
use order_book_server_cpp.LatencyTracker.{Measures, add_sample, clear_samples, max_samples}
use order_book_server_cpp.LatencyTracker.Percentiles.{AreMeasures, percentile_defined}
use order_book_server_cpp.Streaming.{initialize}
use order_book_server_cpp.Streaming.Runs.{initialize-next_ledgers}
use order_book_server_cpp.OrderBookController.{
  OrderBookController, initialize_controller, start_loop, on_mbo_msg, on_mbo_msgs,
  latency_get_snapshot, latency_apply_mbo_msg, get_orderbook_snapshot_async,
}

-- The messages, without the time that each took.
abbrev pub untimed : List (MboMsg × ℕ) → List MboMsg
untimed [] = []
untimed ((m, us) ∷ ms) = m ∷ untimed ms

on_mbo_msgs-apply_all :
    (ms : List (MboMsg × ℕ)) (c : OrderBookController) (b d : Book)
    → c.order_book ≡ some b
    → apply_all b (untimed ms) ≡ some d
    → (e : OrderBookController) × (on_mbo_msgs ms c ≡ some e)
      × (e.order_book ≡ some d)
      × (e.count_mbo_msgs ≡ c.count_mbo_msgs + length ms)
unfolding on_mbo_msgs on_mbo_msg apply_all
on_mbo_msgs-apply_all [] c b d has run = (c, refl, has ∙ run, omega arith)
on_mbo_msgs-apply_all ((m, us) ∷ ms) c b d has run = elim (Option-cases (apply b m)) [
  | inl e ↦ cc (rw e at run)
  | inr (x, e) ↦
      let next : OrderBookController = record c {
        order_book = some x;
        apply_stats = add_sample max_samples us c.apply_stats;
        count_mbo_msgs = c.count_mbo_msgs + 1;
      } in
      let (f, runs, last, count) = on_mbo_msgs-apply_all ms next x d refl (rw e at run) in
      (f, rw (has, e) runs, last, omega (arith, count))
]

defined : (o : Option Json) → ¬ (o ≡ none) → (j : Json) × (o ≡ some j)
defined none h = absurd (h refl)
defined (some j) h = (j, refl)

levels_of : Option Book → ℕ
levels_of none = 0
levels_of (some b) = b.num_levels

initialize-num_levels : (b : Book) → initialize ≡ some b → b.num_levels ≡ 11999
unfolding initialize new_book new_grid count_levels levels_of sub_i64 div_i64 add_i64
initialize-num_levels b made = sym (ap levels_of made)

module _ (m : Measures ℕ) (per_second : ℕ → ℕ) where
  -- The two sides of what is sent for a book of fewer than 2 ^ 31 levels.
  abbrev pub Sends : OrderBookController → Book → ℕ → ℕ → Type 0
  Sends c b ms n =
      (d : DepthSnapshot) × (e : OrderBookController) × (j : Json) × (get_depth b (pos n) ≡ some d)
      × (get_orderbook_snapshot_async m per_second ms c ≡ some (e, j))
      × (e.order_book ≡ some b)
      × (get_key (codes "bids") j ≡ some (side_json d.bids))
      × (get_key (codes "asks") j ≡ some (side_json d.asks))

module _ (m : Measures ℕ) (le : ℕ → ℕ → Bool) (laws : AreMeasures m le) (per_second : ℕ → ℕ) where
  latency_defined :
      (samples : List ℕ)
      → (j : Json) × (k : Json) × (latency_get_snapshot m per_second samples ≡ some j)
        × (latency_apply_mbo_msg m per_second samples ≡ some k)
  unfolding latency_get_snapshot latency_apply_mbo_msg
  latency_defined samples =
      let (x, e) = percentile_defined m le laws 50 samples (omega arith) in
      let (y, f) = percentile_defined m le laws 90 samples (omega arith) in
      let (z, g) = percentile_defined m le laws 99 samples (omega arith) in
      let (j, is_j) =
        defined (latency_get_snapshot m per_second samples)
          (λ n. cc (rw (latency_get_snapshot, e, f, g) at n)) in
      let (k, is_k) =
        defined (latency_apply_mbo_msg m per_second samples)
          (λ n. cc (rw (latency_apply_mbo_msg, e, f, g) at n)) in
      (j, k, is_j, is_k)

  book-Sends :
      (c : OrderBookController) (b : Book) (ms n : ℕ)
      → c.order_book ≡ some b
      → b.num_levels < 2 ^ 31
      → b.num_levels ≤ n
      → Sends m per_second c b ms n
  unfolding get_orderbook_snapshot_async set_key assign_field get_key find_field
      check_create_json_object
  book-Sends c b ms n has small enough =
      let (d, depth, same) = build_snapshot-get_depth b n small enough in
      let samples = add_sample max_samples ms c.latency in
      let (j, j', e, e') = latency_defined samples in
      let (k, k', f, f') = latency_defined c.apply_stats in
      (
        d,
        record c { latency = samples },
        set_key (codes "latency_apply_mbo_msg") k'
            (set_key (codes "latency_get_snapshot") j (depth_json d)),
        depth,
        rw (has, e, f', same) refl,
        has,
        refl,
        refl,
      )

  -- From any controller, `initialize`, the start of the loop and the callback on messages with prices
  -- between the bounds of the book run to their end. The controller then has a valid book, whose ledger is
  -- that of these messages alone, and their number; and the snapshot that is sent has, under its two keys,
  -- the sides of the depth of that book, whole, as `get_depth` gives it when 11999 entries or more are
  -- asked for.
  pub get_orderbook_snapshot_async-on_mbo_msgs :
      (c : OrderBookController) (b : Book) (msgs : List (MboMsg × ℕ)) (ms n : ℕ)
      → initialize ≡ some b
      → All (IsPriced b.grid) (untimed msgs)
      → 11999 ≤ n
      → (e : OrderBookController) × (last : Book) × ((initialize_controller c
            >>= start_loop
            >>= on_mbo_msgs msgs)
          ≡ some e)
        × (e.count_mbo_msgs ≡ length msgs)
        × IsValid last
        × ((id : ℕ) → ledger last id ≡ next_ledgers (λ j. none) (untimed msgs) id)
        × Sends m per_second e last ms n
  unfolding initialize_controller start_loop clear_samples
  get_orderbook_snapshot_async-on_mbo_msgs c b msgs ms n made priced enough =
      let (last, run, valid, led, grid) = initialize-next_ledgers b (untimed msgs) made priced in
      let started : OrderBookController = record c {
        order_book = some b;
        is_streaming = some true;
        apply_stats = [];
        count_mbo_msgs = 0;
      } in
      let (e, runs, has, count) = on_mbo_msgs-apply_all msgs started b last refl run in
      let levels : last.num_levels ≡ 11999 =
        ap (λ g. g.num_levels) grid ∙ initialize-num_levels b made in
      (
        e,
        last,
        rw made runs,
        omega (arith, count),
        valid,
        led,
        book-Sends e last ms n has (omega (arith, levels)) (omega (arith, levels)),
      )
