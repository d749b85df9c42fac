-- ===== src/Book/Mbp.antt =====
-- src/orderbook/orderbook.h: `build_bid_ask_pairs` and `build_mbp_msg10_from_mbo_msg`. The two
-- arrays of a call hold 2000 levels each; a write past the end is `none`.
pub mod Rows
pub mod Message
use order_book_server_cpp.Prelude.{
  ℕ, zero, suc, ◌-◌, ◌≡◌, Option, none, some, ◌>>=◌, Bool, true, false, not, ◌&&◌, List, [], ◌∷◌,
  ◌++◌, length, ltb, get_elem?, if◌then◌else◌, codes,
}
use order_book_server_cpp.Prelude.Int.{ℤ, pos, int_rounds}
use order_book_server_cpp.Json.{
  Json, empty, from_pairs, push_back, set_key, get_key, of_int64, of_uint64,
}
use order_book_server_cpp.Book.{Book, Level, MboMsg}
use order_book_server_cpp.Book.Levels.{level_at}
use order_book_server_cpp.Book.Prices.{index_to_price}
use order_book_server_cpp.Book.Depth.{is_empty}

pub record LevelByPrice : Type 0 where
  pub price : ℤ
  pub level : Level

abbrev pub capacity : ℕ
capacity = 2000

-- `!lvl.empty() && lvl.total_size > 0`
abbrev pub is_visible : Level → Bool
is_visible l = not (is_empty l) && ltb 0 l.total_size

abbrev pub by_price : Book → Bool → ℕ → LevelByPrice
by_price b s i = record { price = index_to_price b.grid i; level = level_at b s i }

-- `levels[count++] = level`
unfoldable pub store : LevelByPrice → List LevelByPrice → Option (List LevelByPrice)
store x xs = if ltb (length xs) capacity then some (xs ++ x ∷ []) else none

unfoldable pub collect_bids : Book → ℕ → List LevelByPrice → Option (List LevelByPrice)
collect_bids b zero xs = some xs
collect_bids b (suc i) xs =
    let rest = collect_bids b i in
    if is_visible (level_at b true i) then store (by_price b true i) xs >>= rest else rest xs

unfoldable pub collect_asks : Book → ℕ → ℕ → List LevelByPrice → Option (List LevelByPrice)
collect_asks b zero i xs = some xs
collect_asks b (suc n) i xs =
    let rest = collect_asks b n (suc i) in
    if is_visible (level_at b false i) then store (by_price b false i) xs >>= rest else rest xs

-- `pair["bid_px"] = ...` and so on for one side of a row; `none` is a row beyond the side's count.
unfoldable pub set_side_of_pair : List ℕ → List ℕ → List ℕ → Option LevelByPrice → Json → Json
set_side_of_pair px sz ct none j =
    set_key ct (of_int64 (pos 0)) (set_key sz (of_int64 (pos 0)) (set_key px (of_int64 (pos 0)) j))
set_side_of_pair px sz ct (some l) j =
    set_key ct (of_uint64 (length l.level.queue))
      (set_key sz (of_uint64 l.level.total_size) (set_key px (of_int64 l.price) j))

unfoldable pub build_pair : Option LevelByPrice → Option LevelByPrice → Json
unfolding set_side_of_pair
build_pair bid ask =
    set_side_of_pair (codes "ask_px") (codes "ask_sz") (codes "ask_ct") ask
      (set_side_of_pair (codes "bid_px") (codes "bid_sz") (codes "bid_ct") bid empty)

-- The first argument is `max_count - i`.
unfoldable pub push_pairs : ℕ → ℕ → List LevelByPrice → List LevelByPrice → Json → Json
push_pairs zero i bids asks acc = acc
push_pairs (suc n) i bids asks acc =
    push_pairs n (suc i) bids asks
      (push_back (build_pair (get_elem? bids i) (get_elem? asks i)) acc)

-- `std::max`
abbrev pub max_size : ℕ → ℕ → ℕ
max_size a b = if ltb a b then b else a

unfoldable pub build_bid_ask_pairs : Book → Option Json
unfolding collect_bids collect_asks push_pairs
build_bid_ask_pairs b = do
  bids ← collect_bids b (int_rounds b.num_levels) []
  asks ← collect_asks b b.num_levels 0 []
  let max_count = max_size (length bids) (length asks)
  some (
      from_pairs (
        (codes "bid_ask_pairs", push_pairs max_count 0 bids asks empty)
        ∷ (codes "num_levels", of_uint64 max_count)
        ∷ []))

-- The other members of `databento::MboMsg` that the message is built from, as the integers that
-- they convert to.
pub record MboHeader : Type 0 where
  pub rtype : ℤ
  pub ts_event : ℤ
  pub instrument_id : ℤ
  pub publisher_id : ℤ
  pub length_units : ℤ
  pub flags : ℤ
  pub ts_recv : ℤ
  pub ts_in_delta : ℤ
  pub sequence : ℤ

-- The message with a given depth and given rows.
unfoldable pub mbp_message : MboHeader → MboMsg → Json → Json → Json
mbp_message h m depth levels =
    let hd = from_pairs (
      (codes "rtype", of_int64 h.rtype)
      ∷ (codes "ts_event", of_int64 h.ts_event)
      ∷ (codes "instrument_id", of_int64 h.instrument_id)
      ∷ (codes "publisher_id", of_int64 h.publisher_id)
      ∷ (codes "length", of_int64 h.length_units)
      ∷ []) in
    from_pairs (
      (codes "hd", hd)
      ∷ (codes "price", of_int64 m.price)
      ∷ (codes "size", of_int64 (pos m.size))
      ∷ (codes "action", of_int64 (pos m.action))
      ∷ (codes "side", of_int64 (pos m.side))
      ∷ (codes "flags", of_int64 h.flags)
      ∷ (codes "depth", depth)
      ∷ (codes "ts_recv", of_int64 h.ts_recv)
      ∷ (codes "ts_in_delta", of_int64 h.ts_in_delta)
      ∷ (codes "sequence", of_int64 h.sequence)
      ∷ (codes "levels", levels)
      ∷ [])

unfoldable pub build_mbp_msg10_from_mbo_msg : Book → MboHeader → MboMsg → Option Json
unfolding build_bid_ask_pairs mbp_message
build_mbp_msg10_from_mbo_msg b h m = do
  pairs ← build_bid_ask_pairs b
  depth ← get_key (codes "num_levels") pairs
  levels ← get_key (codes "bid_ask_pairs") pairs
  some (mbp_message h m depth levels)
