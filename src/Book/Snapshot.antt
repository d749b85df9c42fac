-- ===== src/Book/Snapshot.antt =====
-- src/orderbook/orderbook.h: `build_snapshot`, the book as a `Json`. The loops run as those of
-- `get_depth` do; the last argument is the array built so far.
pub mod Contents
use order_book_server_cpp.Prelude.{
  ℕ, zero, suc, ◌≡◌, Bool, true, false, List, [], ◌∷◌, if◌then◌else◌, codes,
}
use order_book_server_cpp.Prelude.Int.{ℤ, int_rounds}
use order_book_server_cpp.Json.{Json, empty, from_pairs, push_back, set_key, of_int64, of_uint64}
use order_book_server_cpp.Book.{Book}
use order_book_server_cpp.Book.Levels.{level_at}
use order_book_server_cpp.Book.Prices.{index_to_price}
use order_book_server_cpp.Book.Depth.{is_empty}

-- `{{"price", price}, {"size", lvl.total_size}}`
unfoldable pub price_and_size : ℤ → ℕ → Json
price_and_size price size =
    from_pairs ((codes "price", of_int64 price) ∷ (codes "size", of_uint64 size) ∷ [])

unfoldable pub push_level : Book → Bool → ℕ → Json → Json
push_level b s i acc =
    push_back (price_and_size (index_to_price b.grid i) (level_at b s i).total_size) acc

unfoldable pub snapshot_bids : Book → ℕ → Json → Json
snapshot_bids b zero acc = acc
snapshot_bids b (suc i) acc =
    snapshot_bids b i (if is_empty (level_at b true i) then acc else push_level b true i acc)

unfoldable pub snapshot_asks : Book → ℕ → ℕ → Json → Json
snapshot_asks b zero i acc = acc
snapshot_asks b (suc n) i acc =
    snapshot_asks b n (suc i)
      (if is_empty (level_at b false i) then acc else push_level b false i acc)

unfoldable pub build_snapshot : Book → Json
unfolding snapshot_bids snapshot_asks
build_snapshot b =
    let bids = snapshot_bids b (int_rounds b.num_levels) empty in
    let asks = snapshot_asks b b.num_levels 0 empty in
    set_key (codes "asks") asks (set_key (codes "bids") bids empty)
