-- ===== src/Book/Depth.antt =====
-- src/orderbook/orderbook.h: `best_bid`, `best_ask` and `get_depth`. The loops read the levels at
-- indices below `m_num_levels`. A loop over bids runs on the rounds left, and looks at the level
-- below them; a loop over asks runs on the rounds left and the index.
pub mod Best
pub mod Entries
use order_book_server_cpp.Prelude.{
  ℕ, zero, suc, ◌≡◌, Option, none, some, Bool, true, false, List, [], ◌∷◌, if◌then◌else◌,
}
use order_book_server_cpp.Prelude.Int.{ℤ, pos, negsuc, int_rounds}
use order_book_server_cpp.Book.{Book, Level}
use order_book_server_cpp.Book.Levels.{level_at}
use order_book_server_cpp.Book.Prices.{index_to_price}

-- `Level::empty`
abbrev pub is_empty : Level → Bool
is_empty l = elim l.queue [ [] ↦ true | o ∷ q ↦ false ]

pub record DepthEntry : Type 0 where
  pub price : ℤ
  pub size : ℕ

pub record DepthSnapshot : Type 0 where
  pub bids : List DepthEntry
  pub asks : List DepthEntry

abbrev pub entry_at : Book → Bool → ℕ → DepthEntry
entry_at b s i = record { price = index_to_price b.grid i; size = (level_at b s i).total_size }

unfoldable pub best_bid_below : Book → ℕ → Option DepthEntry
best_bid_below b zero = none
best_bid_below b (suc i) =
    let rest = best_bid_below b i in
    if is_empty (level_at b true i) then rest else some (entry_at b true i)

unfoldable pub best_bid : Book → Option DepthEntry
unfolding best_bid_below
best_bid b = best_bid_below b (int_rounds b.num_levels)

unfoldable pub best_ask_from : Book → ℕ → ℕ → Option DepthEntry
best_ask_from b zero i = none
best_ask_from b (suc n) i =
    let rest = best_ask_from b n (suc i) in
    if is_empty (level_at b false i) then rest else some (entry_at b false i)

unfoldable pub best_ask : Book → Option DepthEntry
unfolding best_ask_from
best_ask b = best_ask_from b b.num_levels 0

-- The last argument is `levels - count`.
unfoldable pub depth_bids : Book → ℕ → ℕ → List DepthEntry
depth_bids b zero left = []
depth_bids b (suc i) zero = []
depth_bids b (suc i) (suc left) =
    let rest = depth_bids b i (suc left) in
    let more = entry_at b true i ∷ depth_bids b i left in
    if is_empty (level_at b true i) then rest else more

unfoldable pub depth_asks : Book → ℕ → ℕ → ℕ → List DepthEntry
depth_asks b zero i left = []
depth_asks b (suc n) i zero = []
depth_asks b (suc n) i (suc left) =
    let rest = depth_asks b n (suc i) (suc left) in
    let more = entry_at b false i ∷ depth_asks b n (suc i) left in
    if is_empty (level_at b false i) then rest else more

-- A negative `levels` becomes a `size_t` that `reserve` refuses with `std::length_error`.
unfoldable pub get_depth : Book → ℤ → Option DepthSnapshot
unfolding depth_bids depth_asks
get_depth b (negsuc n) = none
get_depth b (pos n) = some (record {
  bids = depth_bids b (int_rounds b.num_levels) n;
  asks = depth_asks b b.num_levels 0 n;
})
