-- ===== src/Book/Prices/Laws.antt =====
-- Prices of the grid and level indices of src/orderbook/orderbook.h.
use order_book_server_cpp.Prelude.{
  ℕ, suc, ◌+◌, ◌*◌, ◌/◌, ◌≤◌, ◌<◌, ◌^◌, ◌≡◌, refl, ap, ◌∙◌, ◌>>=◌, some, arith,
}
use order_book_server_cpp.Prelude.Int.{
  ℤ, pos, pos_part, neg_part, ◌+ℤ◌, ◌≤ℤ◌, sub_i64, div_i64, add_i64, to_size, int_laws, distance,
  *ℤ_pos, +ℤ_parts,
}
use order_book_server_cpp.Book.Prices.{Grid, new_grid, price_to_index, index_to_price}

-- The grid that the constructor builds from `int64_t` bounds in order and a positive tick.
pub record IsGrid (g : Grid) : Type 0 where
  pub tick : ℕ
  pub tick_is : g.tick_size ≡ pos (suc tick)
  pub span : ℕ
  pub max_is : g.price_max ≡ g.price_min +ℤ pos span
  pub span_fits : span < 2 ^ 63
  pub levels : g.num_levels ≡ span / suc tick + 1

-- A price `d` above the lowest one.
offset_lem : (a : ℤ) (d : ℕ) → d < 2 ^ 63 → sub_i64 (a +ℤ pos d) a ≡ some (pos d)
unfolding sub_i64 ◌+ℤ◌
offset_lem a d h = ground arith

div_bounds : (d k : ℕ) → (d / suc k * suc k ≤ d) × (d < d / suc k * suc k + suc k)
div_bounds d k = omega arith

div_le : (d k : ℕ) → d / suc k ≤ d
div_le d k = grind arith

index_offset : (i span k : ℕ) → i < span / suc k + 1 → i * suc k ≤ span
index_offset i span k h = grind (arith, div_bounds span k)

index_of_multiple : (i k : ℕ) → i * suc k / suc k ≡ i
index_of_multiple i k = grind arith

div_i64_pos : (d k : ℕ) → d < 2 ^ 63 → div_i64 (pos d) (pos (suc k)) ≡ some (pos (d / suc k))
unfolding div_i64
div_i64_pos d k h = ground (arith, div_le d k)

index_of_offset :
    (g : Grid) (v : IsGrid g) (d : ℕ)
    → d < 2 ^ 63
    → price_to_index g (g.price_min +ℤ pos d) ≡ some (d / suc v.tick)
unfolding price_to_index to_size
index_of_offset g v d h =
    rw (offset_lem g.price_min d h, v.tick_is, div_i64_pos d v.tick h)
      (ap some (omega (arith, div_le d v.tick)))

pub price_of_index :
    (g : Grid) (v : IsGrid g) (i : ℕ) → index_to_price g i ≡ g.price_min +ℤ pos (i * suc v.tick)
unfolding index_to_price
price_of_index g v i = rw (v.tick_is, *ℤ_pos)

-- Bounds in order and a positive tick make a grid, if the count of levels fits.
-- The grid of the bounds `lo` and `lo + span`.
abbrev pub grid_of : ℤ → ℕ → ℕ → Grid
grid_of lo span tick = record {
  price_min = lo;
  price_max = lo +ℤ pos span;
  tick_size = pos (suc tick);
  num_levels = span / suc tick + 1;
}

pub new_grid-grid_of :
    (lo : ℤ) (span tick : ℕ)
    → span + 1 < 2 ^ 63
    → new_grid lo (lo +ℤ pos span) (pos (suc tick)) ≡ some (grid_of lo span tick)
unfolding new_grid add_i64
new_grid-grid_of lo span tick h =
    rw (offset_lem lo span (omega arith), div_i64_pos span tick (omega arith), ◌>>=◌)
      (ground (arith, div_le span tick))

pub grid_of-IsGrid : (lo : ℤ) (span tick : ℕ) → span + 1 < 2 ^ 63 → IsGrid (grid_of lo span tick)
grid_of-IsGrid lo span tick h = record {
  tick = tick;
  tick_is = refl;
  span = span;
  max_is = refl;
  span_fits = omega arith;
  levels = refl;
}

pub parts_of_max :
    (g : Grid) (v : IsGrid g)
    → pos_part g.price_max + neg_part g.price_min
      ≡ neg_part g.price_max + pos_part g.price_min + v.span
parts_of_max g v = rw (v.max_is) (omega (arith, +ℤ_parts g.price_min (pos v.span)))

-- Every price between the bounds has a level of the book, and lies at the level's price or less
-- than one tick above it.
pub price_to_index_range :
    (g : Grid) (px : ℤ)
    → IsGrid g
    → g.price_min ≤ℤ px
    → px ≤ℤ g.price_max
    → (i : ℕ) × (price_to_index g px ≡ some i)
      × (i < g.num_levels)
      × (index_to_price g i ≤ℤ px)
      × (px +ℤ pos 1 ≤ℤ index_to_price g i +ℤ g.tick_size)
price_to_index_range g px v lo hi =
    let (d, e) = distance g.price_min px lo in
    let e' : pos_part px + neg_part g.price_min ≡ neg_part px + pos_part g.price_min + d =
      rw e (omega (arith, +ℤ_parts g.price_min (pos d))) in
    let small : d ≤ v.span = omega (arith, parts_of_max g v) in
    (
      d / suc v.tick,
      rw e (index_of_offset g v d (omega (arith, v.span_fits))),
      grind (arith, v.levels, div_bounds d v.tick, div_bounds v.span v.tick),
      rw (price_of_index g v (d / suc v.tick)) (omega (int_laws, div_bounds d v.tick)),
      rw (price_of_index g v (d / suc v.tick), v.tick_is) (omega (int_laws, div_bounds d v.tick)),
    )

-- The price of a level has that level's index.
pub price_to_index-index_to_price :
    (g : Grid) (i : ℕ)
    → IsGrid g
    → i < g.num_levels
    → price_to_index g (index_to_price g i) ≡ some i
price_to_index-index_to_price g i v h =
    let inside = index_offset i v.span v.tick (omega (arith, v.levels)) in
    rw (price_of_index g v i) (
      index_of_offset g v (i * suc v.tick) (omega (arith, v.span_fits))
      ∙ ap some (index_of_multiple i v.tick))

-- The price of a level lies between the bounds, so no query overflows.
index_to_price_bounds :
    (g : Grid) (i : ℕ)
    → IsGrid g
    → i < g.num_levels
    → (g.price_min ≤ℤ index_to_price g i) × (index_to_price g i ≤ℤ g.price_max)
index_to_price_bounds g i v h =
    let inside = index_offset i v.span v.tick (omega (arith, v.levels)) in
    rw (price_of_index g v i) (omega (int_laws, parts_of_max g v))
