-- ===== src/Book/Construction.antt =====
-- src/orderbook/orderbook.h: the constructor.
use order_book_server_cpp.Prelude.{
  ℕ, suc, ◌+◌, ◌<◌, ◌^◌, ◌≡◌, refl, some, none, Bool, true, false, length-replicate,
  get_or-replicate, replicate, ◌>>=◌, sym, ap, ◌∙◌,
}
use order_book_server_cpp.Prelude.Int.{ℤ, pos, ◌+ℤ◌}
use order_book_server_cpp.Book.{Book, new_book, empty_level}
use order_book_server_cpp.Book.Levels.{level_at}
use order_book_server_cpp.Book.Prices.{Grid, new_grid, count_levels}
use order_book_server_cpp.Book.Prices.Laws.{IsGrid, grid_of, new_grid-grid_of, grid_of-IsGrid}
use order_book_server_cpp.Book.Queue.{Distinct, shares}
use order_book_server_cpp.Book.Invariant.{IsValid}
use order_book_server_cpp.Book.Ledger.{ledger}
use order_book_server_cpp.Book.Steps.{ledger-none}

abbrev pub blank : Grid → Book
blank g = record {
  grid = g;
  bids = replicate g.num_levels empty_level;
  asks = replicate g.num_levels empty_level;
  orders_ref = λ _. none;
  next_it = 0;
}

level_at-blank : (g : Grid) (s : Bool) (i : ℕ) → level_at (blank g) s i ≡ empty_level
unfolding level_at
level_at-blank g true i = get_or-replicate g.num_levels i empty_level
level_at-blank g false i = get_or-replicate g.num_levels i empty_level

pub blank-IsValid : (g : Grid) → IsGrid g → IsValid (blank g)
blank-IsValid g v = record {
  gridded = v;
  wide = record {
    bids_wide = length-replicate g.num_levels empty_level;
    asks_wide = length-replicate g.num_levels empty_level;
  };
  linked = λ id r e. cc;
  sound = λ s i.
      rw (level_at-blank g s i)
        (unfold Distinct shares in record { below = tt; distinct = tt; total = refl });
}

grid_inj : (g h : Grid) → some g ≡ some h → g ≡ h
grid_inj g h e = cc

book_inj : (b c : Book) → some b ≡ some c → b ≡ c
book_inj b c e = cc

new_grid-bounds :
    (lo hi tick : ℤ) (g : Grid)
    → new_grid lo hi tick ≡ some g
    → (g.price_min ≡ lo) × (g.price_max ≡ hi)
unfolding new_grid
new_grid-bounds lo hi tick g =
    elim (count_levels lo hi tick)
      as (λ r.
        (r >>= λ n.
        some (record { price_min = lo; price_max = hi; tick_size = tick; num_levels = n }))
          ≡ some g
        → (g.price_min ≡ lo) × (g.price_max ≡ hi)) [
          | none ↦ λ e. cc
          | some n ↦ λ e.
              let same = grid_inj _ g e in
              (ap (λ x. x.price_min) (sym same), ap (λ x. x.price_max) (sym same))
        ]

pub new_book-bounds :
    (lo hi tick : ℤ) (b : Book)
    → new_book lo hi tick ≡ some b
    → (b.price_min ≡ lo) × (b.price_max ≡ hi)
unfolding new_book
new_book-bounds lo hi tick b made =
    let found = new_grid-bounds lo hi tick in
    (elim (new_grid lo hi tick)
        as (λ r.
          ((g : Grid) → r ≡ some g → (g.price_min ≡ lo) × (g.price_max ≡ hi))
          → (r >>= λ g. some (blank g)) ≡ some b
          → (b.price_min ≡ lo) × (b.price_max ≡ hi)) [
            | none ↦ λ f e. cc
            | some g ↦ λ f e.
                let same = book_inj (blank g) b e in
                (
                  ap (λ x. x.price_min) (sym same) ∙ (f g refl).0,
                  ap (λ x. x.price_max) (sym same) ∙ (f g refl).1,
                )
          ])
      found made

-- Bounds in order within `int64_t`, at most 2 ^ 63 - 2 apart, and a positive tick make a valid book
-- with those bounds and that tick, with one level on each side for every tick from the lower bound to
-- the upper one, each of them empty, and no order in its ledger.
pub new_book-IsValid :
    (lo : ℤ) (span tick : ℕ)
    → span + 1 < 2 ^ 63
    → (b : Book) × (new_book lo (lo +ℤ pos span) (pos (suc tick)) ≡ some b)
      × IsValid b
      × (b.grid ≡ grid_of lo span tick)
      × ((s : Bool) (i : ℕ) → level_at b s i ≡ empty_level)
      × ((id : ℕ) → ledger b id ≡ none)
unfolding new_book
new_book-IsValid lo span tick h =
    let g = grid_of lo span tick in
    (
      blank g,
      rw (new_grid-grid_of lo span tick h) refl,
      blank-IsValid g (grid_of-IsGrid lo span tick h),
      refl,
      level_at-blank g,
      λ id. ledger-none (blank g) id refl,
    )
