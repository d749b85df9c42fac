-- ===== src/Book/Depth/Best.antt =====
-- src/orderbook/orderbook.h: what `best_bid` and `best_ask` find.
use order_book_server_cpp.Prelude.{
  ℕ, zero, suc, ◌+◌, ◌<◌, ◌≤◌, ◌≡◌, ◌^◌, ◌⊎◌, inl, inr, refl, Option, none, some, Bool, true, false,
  arith, Bool-cases,
}
use order_book_server_cpp.Prelude.Int.{int_rounds_small}
use native.Mathlib.Decide.{ℕ_discrete}
use native.Mathlib.Nat.{zero-add}
use order_book_server_cpp.Book.{Book}
use order_book_server_cpp.Book.Levels.{level_at}
use order_book_server_cpp.Book.Depth.{
  is_empty, DepthEntry, entry_at, best_bid_below, best_bid, best_ask_from, best_ask,
}

-- The levels of a side from `lo` up to `hi` hold no order.
abbrev pub AllEmpty : Book → Bool → ℕ → ℕ → Type 0
AllEmpty b s lo hi = (j : ℕ) → lo ≤ j → j < hi → is_empty (level_at b s j) ≡ true

-- `r` is the entry of the highest level below `n` that holds an order, or there is none.
abbrev pub IsHighest : Book → ℕ → Option DepthEntry → Type 0
IsHighest b n r =
    ((r ≡ none) × AllEmpty b true 0 n)
    ⊎ ((i : ℕ) × (i < n)
        × (is_empty (level_at b true i) ≡ false)
        × (r ≡ some (entry_at b true i))
        × AllEmpty b true (suc i) n)

abbrev pub IsLowest : Book → ℕ → ℕ → Option DepthEntry → Type 0
IsLowest b lo n r =
    ((r ≡ none) × AllEmpty b false lo n)
    ⊎ ((i : ℕ) × (lo ≤ i)
        × (i < n)
        × (is_empty (level_at b false i) ≡ false)
        × (r ≡ some (entry_at b false i))
        × AllEmpty b false lo i)

best_bid_below-IsHighest : (b : Book) (n : ℕ) → IsHighest b n (best_bid_below b n)
unfolding best_bid_below
best_bid_below-IsHighest b zero = inl (refl, λ j l h. absurd (omega arith))
best_bid_below-IsHighest b (suc n) = elim (Bool-cases (is_empty (level_at b true n))) [
  | inr full ↦ rw full (inr (n, omega arith, full, refl, λ j l h. absurd (omega arith)))
  | inl empty ↦ rw empty (elim (best_bid_below-IsHighest b n) [
    | inl (e, all) ↦
        inl
          (e, λ j l h. elim (ℕ_discrete j n) [ yes p ↦ rw p empty | no ne ↦ all j l (omega arith) ])
    | inr (i, below, full, e, all) ↦ inr (
      i,
      omega arith,
      full,
      e,
      λ j l h. elim (ℕ_discrete j n) [ yes p ↦ rw p empty | no ne ↦ all j l (omega arith) ],
    )
  ])
]

best_ask_from-IsLowest : (b : Book) (n i : ℕ) → IsLowest b i (i + n) (best_ask_from b n i)
unfolding best_ask_from
best_ask_from-IsLowest b zero i = inl (refl, λ j l h. absurd (omega arith))
best_ask_from-IsLowest b (suc n) i = elim (Bool-cases (is_empty (level_at b false i))) [
  | inr full ↦
      rw full (inr (i, omega arith, omega arith, full, refl, λ j l h. absurd (omega arith)))
  | inl empty ↦ rw empty (elim (best_ask_from-IsLowest b n (suc i)) [
    | inl (e, all) ↦ inl (
      e,
      λ j l h. elim (ℕ_discrete j i) [
        | yes p ↦ rw p empty
        | no ne ↦ all j (omega arith) (omega arith)
      ],
    )
    | inr (k, above, below, full, e, all) ↦ inr (
      k,
      omega arith,
      omega arith,
      full,
      e,
      λ j l h. elim (ℕ_discrete j i) [
        | yes p ↦ rw p empty
        | no ne ↦ all j (omega arith) (omega arith)
      ],
    )
  ])
]

-- In a book of fewer than 2 ^ 31 levels, `best_bid` is the price and total size of the highest bid
-- level that holds an order, and empty exactly when no bid level holds one.
pub best_bid-IsHighest : (b : Book) → b.num_levels < 2 ^ 31 → IsHighest b b.num_levels (best_bid b)
unfolding best_bid
best_bid-IsHighest b h =
    rw (int_rounds_small b.num_levels h) (best_bid_below-IsHighest b b.num_levels)

best_ask_from_zero : (b : Book) (n : ℕ) → IsLowest b 0 n (best_ask_from b n 0)
best_ask_from_zero b n = rw (zero-add n) at (best_ask_from-IsLowest b n 0)

-- `best_ask` is the price and total size of the lowest ask level that holds an order, and empty
-- exactly when no ask level holds one.
pub best_ask-IsLowest : (b : Book) → IsLowest b 0 b.num_levels (best_ask b)
unfolding best_ask
best_ask-IsLowest b = best_ask_from_zero b b.num_levels
