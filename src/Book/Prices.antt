-- ===== src/Book/Prices.antt =====
-- src/orderbook/orderbook.h: the price grid, `m_price_min`, `m_price_max`, `m_tick_size` and
-- `m_num_levels`, and the two directions between prices and level indices.
pub mod Laws
use order_book_server_cpp.Prelude.{ℕ, ◌>>=◌, ◌≡◌, ◌<◌, ◌^◌, Option, none, some, if◌then◌else◌, leb}
use order_book_server_cpp.Prelude.Int.{
  ℤ, pos, negsuc, neg_part, ◌+ℤ◌, ◌*ℤ◌, add_i64, sub_i64, div_i64, to_size,
}

pub record Grid : Type 0 where
  pub price_min : ℤ
  pub price_max : ℤ
  pub tick_size : ℤ
  pub num_levels : ℕ

-- The count of levels of the constructor. `none` is an overflow, a zero tick, or a negative count,
-- which `resize` refuses with `std::length_error`.
unfoldable pub count_levels : ℤ → ℤ → ℤ → Option ℕ
count_levels price_min price_max tick = do
  span ← sub_i64 price_max price_min
  ticks ← div_i64 span tick
  levels ← add_i64 ticks (pos 1)
  elim levels [ pos n ↦ some n | negsuc n ↦ none ]

unfoldable pub new_grid : ℤ → ℤ → ℤ → Option Grid
unfolding count_levels
new_grid price_min price_max tick = do
  n ← count_levels price_min price_max tick
  some (record { price_min = price_min; price_max = price_max; tick_size = tick; num_levels = n })

-- `none` is an overflow or a zero tick.
unfoldable pub price_to_index : Grid → ℤ → Option ℕ
price_to_index g px = do
  offset ← sub_i64 px g.price_min
  ticks ← div_i64 offset g.tick_size
  some (to_size ticks)

-- `m_price_min + i * m_tick_size`, which the queries read at indices below `m_num_levels`.
unfoldable pub index_to_price : Grid → ℕ → ℤ
index_to_price g i = g.price_min +ℤ pos i *ℤ g.tick_size
