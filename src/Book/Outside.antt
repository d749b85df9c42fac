-- ===== src/Book/Outside.antt =====
-- src/orderbook/orderbook.h: prices off the grid. The operations have no test of the index.
use order_book_server_cpp.Prelude.{
  ℕ, suc, ◌+◌, ◌/◌, ◌<◌, ◌≤◌, ◌^◌, ◌≡◌, ◌⊎◌, some, none, true, ◌==◌, arith, inl, inr, ◌>>=◌, Option,
  Bool-cases, Option-cases,
}
use order_book_server_cpp.Prelude.Int.{
  ℤ, pos, negsuc, pos_part, neg_part, ◌+ℤ◌, ◌-ℤ◌, ◌≤ℤ◌, is_int64, sub_i64, div_i64, to_size,
  int_laws,
}
use order_book_server_cpp.Book.{Book, MboMsg, dispatch, apply}
use order_book_server_cpp.Book.Prices.{Grid, price_to_index}
use order_book_server_cpp.Book.Prices.Laws.{IsGrid, parts_of_max}
use order_book_server_cpp.Book.Invariant.{IsValid}
use order_book_server_cpp.Book.Ledger.{is_side}
use order_book_server_cpp.Book.Steps.Add.{add_outside}

-- A price at least one tick above the highest or below the lowest one.
abbrev pub IsOutside : Grid → ℤ → Type 0
IsOutside g px = (g.price_max +ℤ g.tick_size ≤ℤ px) ⊎ (px +ℤ g.tick_size ≤ℤ g.price_min)

abbrev MissesOr : ℕ → Option ℕ → Type 0
MissesOr n none = Unit
MissesOr n (some i) = n ≤ i

quotient_far : (span k d : ℕ) → span + suc k ≤ d → span / suc k + 1 ≤ d / suc k
quotient_far span k d h = grind arith

quotient_some : (k d : ℕ) → suc k ≤ d → 1 ≤ d / suc k
quotient_some k d h = grind arith

div_le : (d k : ℕ) → d / suc k ≤ d
div_le d k = grind arith

offset_outside :
    (x : ℤ) (span k : ℕ)
    → span < 2 ^ 63
    → (span + suc k ≤ pos_part x) ⊎ (suc k ≤ neg_part x)
    → is_int64 x ≡ true
    → MissesOr (span / suc k + 1) (div_i64 x (pos (suc k)) >>= λ t. some (to_size t))
unfolding div_i64 to_size
offset_outside (pos d) span k s h f = ground (arith, quotient_far span k d, div_le d k)
offset_outside (negsuc d) span k s h f =
    ground (arith, quotient_some k (suc d), div_le (suc d) k, div_le span k)

module _ (g : Grid) (px : ℤ) (v : IsGrid g) where
  far_above : g.price_max +ℤ g.tick_size ≤ℤ px → v.span + suc v.tick ≤ pos_part (px -ℤ g.price_min)
  far_above h =
      let h' : g.price_max +ℤ pos (suc v.tick) ≤ℤ px = rw v.tick_is at h in
      omega (int_laws, parts_of_max g v)

  far_below : px +ℤ g.tick_size ≤ℤ g.price_min → suc v.tick ≤ neg_part (px -ℤ g.price_min)
  far_below h = let h' : px +ℤ pos (suc v.tick) ≤ℤ g.price_min = rw v.tick_is at h in omega int_laws

  far :
      IsOutside g px
      → (v.span + suc v.tick ≤ pos_part (px -ℤ g.price_min))
        ⊎ (suc v.tick ≤ neg_part (px -ℤ g.price_min))
  far (inl h) = inl (far_above h)
  far (inr h) = inr (far_below h)

  price_to_index_outside : IsOutside g px → MissesOr g.num_levels (price_to_index g px)
  unfolding price_to_index sub_i64
  price_to_index_outside out = elim (Bool-cases (is_int64 (px -ℤ g.price_min))) [
    | inr over ↦ rw (over, ◌>>=◌) tt
    | inl fits ↦
        rw (fits, v.tick_is, v.levels)
          (offset_outside (px -ℤ g.price_min) v.span v.tick v.span_fits (far out) fits)
  ]

-- An order to add whose price is a tick or more off the grid is written past the end of the levels:
-- the code has no guard, and the run is a fault.
pub apply-add_outside :
    (b : Book) (m : MboMsg)
    → IsValid b
    → m.action ≡ b'A'
    → is_side m.side ≡ true
    → IsOutside b.grid m.price
    → apply b m ≡ none
unfolding apply dispatch
apply-add_outside b m v act side out =
    let misses = price_to_index_outside b.grid m.price v.gridded out in
    elim (Option-cases (price_to_index b.grid m.price)) [
      | inl e ↦ ground arith
      | inr (i, e) ↦
          let far_off : b.num_levels ≤ i = rw e at misses in
          ground (arith, add_outside b m (m.side == b'B') i v.wide far_off)
    ]
