-- ===== src/Tests/Books.antt =====
-- src/orderbook/orderbook.h on a book of four price levels, and on the one that
-- src/orderbook/orderbook_controller.cpp builds.
use order_book_server_cpp.Prelude.{
  ℕ, suc, ◌≡◌, ◌≤◌, ◌<◌, refl, Option, none, some, ◌>>=◌, true, false, [], ◌∷◌, length, arith, take,
  inl,
}
use order_book_server_cpp.Prelude.Int.{
  pos, ◌+ℤ◌, ◌*ℤ◌, ◌-ℤ◌, ◌≤ℤ◌, add_i64, sub_i64, div_i64, to_size, int_rounds,
}
use order_book_server_cpp.Book.{
  Book, MboMsg, new_book, apply, apply_all, add, cancel, modify, handle_trade, handle_full_fill,
  handle_non_printed, clear, dispatch, locate, remove, shrink, enlarge, reduce, touch_price,
  get_side, set_side,
}
use order_book_server_cpp.Book.Prices.{Grid, new_grid, count_levels, price_to_index, index_to_price}
use order_book_server_cpp.Book.Prices.Laws.{
  IsGrid, price_to_index_range, price_to_index-index_to_price,
}
use order_book_server_cpp.Book.Queue.{deref, erase, write_size, move_to_back}
use order_book_server_cpp.Book.Levels.{level_at}
use order_book_server_cpp.Book.Invariant.{IsValid}
use order_book_server_cpp.Book.Ledger.{ledger, next_ledger}
use order_book_server_cpp.Book.Steps.Add.{added, add-Step}
use order_book_server_cpp.Book.Prices.Laws.{grid_of}
use order_book_server_cpp.Book.Levels.{level_at}
use order_book_server_cpp.Book.{empty_level}
use order_book_server_cpp.Prelude.{Bool}
use order_book_server_cpp.Book.Construction.{blank, blank-IsValid, new_book-IsValid}
use order_book_server_cpp.Book.Refinement.{
  IsPriced, apply-next_ledger, apply_all-next_ledgers, next_ledgers,
}
use order_book_server_cpp.Book.Outside.{apply-add_outside}
use order_book_server_cpp.Book.Depth.{DepthSnapshot, best_bid, best_ask, get_depth}
use order_book_server_cpp.Book.Depth.Best.{
  IsHighest, IsLowest, best_bid-IsHighest, best_ask-IsLowest,
}
use order_book_server_cpp.Book.Depth.Entries.{
  quotes, downto, upfrom, get_depth-take, get_depth_sorted, IsDescending, IsAscending,
}

abbrev small : Grid
small = record { price_min = pos 0; price_max = pos 300; tick_size = pos 100; num_levels = 4 }

small-IsGrid : IsGrid small
unfolding ◌+ℤ◌
small-IsGrid = record {
  tick = 99;
  tick_is = refl;
  span = 300;
  max_is = refl;
  span_fits = omega arith;
  levels = refl;
}

abbrev msg : ℕ → ℕ → ℕ → ℕ → ℕ → MboMsg
msg action side id px sz = record {
  order_id = id;
  action = action;
  side = side;
  price = pos px;
  size = sz;
}

abbrev pub buy : MboMsg
buy = msg b'A' b'B' 7 100 5

abbrev less : MboMsg
less = msg b'C' b'B' 7 100 2

-- A bid for five shares at 100.
abbrev pub one_bid : Book
one_bid = added (blank small) buy true 1

pub buy_priced : price_to_index small (pos 100) ≡ some 1
unfolding price_to_index sub_i64 div_i64 to_size ◌-ℤ◌
buy_priced = refl

pub one_bid-IsValid : IsValid one_bid
one_bid-IsValid =
    (add-Step (blank small) buy true 1 (blank-IsValid small small-IsGrid) (omega arith)
      buy_priced).valid

program : Unit {0}
unfolding apply dispatch apply_all add cancel modify handle_trade handle_full_fill
    handle_non_printed clear locate remove shrink enlarge reduce touch_price get_side set_side
    price_to_index sub_i64 div_i64 add_i64 to_size ◌-ℤ◌ ◌+ℤ◌ ◌*ℤ◌ deref erase write_size
    move_to_back level_at new_book new_grid index_to_price best_bid best_ask get_depth int_rounds
    added
program = tt

-- Orders 1 and 2 queue at 100; 1 grows and loses its place, 2 is bought in part.
abbrev session : Option DepthSnapshot
session = do
  b ← apply_all (blank small) (
      msg b'A' b'B' 1 100 5
      ∷ msg b'A' b'B' 2 100 3
      ∷ msg b'A' b'A' 3 200 4
      ∷ msg b'M' b'B' 1 100 9
      ∷ msg b'T' b'B' 2 100 1
      ∷ msg b'M' b'A' 3 300 2
      ∷ [])
  get_depth b (pos 5)

session_depth :
    session
    ≡ some (record {
      bids = record { price = pos 100; size = 11 } ∷ [];
      asks = record { price = pos 300; size = 2 } ∷ [];
    })
unfolding program
session_depth = refl

-- The controller's book has 11999 levels.
controller_levels : count_levels (pos 20000000) (pos 120000000000) (pos 10000000) ≡ some 11999
unfolding program
controller_levels = refl

-- An id that is added again leaves its first order in the queue with no reference to it.
abbrev orphan : Option DepthSnapshot
orphan = do
  b ← apply_all (blank small) (
      msg b'A' b'B' 1 100 5
      ∷ msg b'A' b'B' 1 200 3
      ∷ msg b'C' b'B' 1 200 3
      ∷ msg b'C' b'B' 1 100 5
      ∷ [])
  get_depth b (pos 5)

orphan_depth :
    orphan ≡ some (record { bids = record { price = pos 100; size = 5 } ∷ []; asks = [] })
unfolding program
orphan_depth = refl

less-IsPriced : IsPriced one_bid.grid less
unfolding added set_side
less-IsPriced = record { above = omega arith; under = omega arith }

apply-next_ledger_example :
    (c : Book) × (apply one_bid less ≡ some c)
    × IsValid c
    × (c.grid ≡ one_bid.grid)
    × ((id : ℕ) → ledger c id ≡ next_ledger (ledger one_bid) less id)
apply-next_ledger_example = apply-next_ledger one_bid less one_bid-IsValid less-IsPriced

apply_all-next_ledgers_example :
    (c : Book) × (apply_all one_bid (less ∷ less ∷ []) ≡ some c)
    × IsValid c
    × ((id : ℕ) → ledger c id ≡ next_ledgers (ledger one_bid) (less ∷ less ∷ []) id)
    × (c.grid ≡ one_bid.grid)
apply_all-next_ledgers_example =
    apply_all-next_ledgers one_bid (less ∷ less ∷ []) one_bid-IsValid
      (less-IsPriced, (less-IsPriced, tt))

new_book-IsValid_example :
    (b : Book) × (new_book (pos 20000000) (pos 20000000 +ℤ pos 119980000000) (pos (suc 9999999))
      ≡ some b)
    × IsValid b
    × (b.grid ≡ grid_of (pos 20000000) 119980000000 9999999)
    × ((s : Bool) (i : ℕ) → level_at b s i ≡ empty_level)
    × ((id : ℕ) → ledger b id ≡ none)
new_book-IsValid_example = new_book-IsValid (pos 20000000) 119980000000 9999999 (omega arith)

abbrev too_high : MboMsg
too_high = msg b'A' b'A' 8 450 1

one_bid-grid : one_bid.grid ≡ small
unfolding added set_side
one_bid-grid = refl

apply-add_outside_example : apply one_bid too_high ≡ none
apply-add_outside_example =
    apply-add_outside one_bid too_high one_bid-IsValid refl refl
      (inl (unfold added set_side ◌+ℤ◌ in omega arith))

price_to_index_range_example :
    (i : ℕ) × (price_to_index small (pos 250) ≡ some i)
    × (i < 4)
    × (index_to_price small i ≤ℤ pos 250)
    × (pos 250 +ℤ pos 1 ≤ℤ index_to_price small i +ℤ pos 100)
price_to_index_range_example =
    price_to_index_range small (pos 250) small-IsGrid (omega arith) (omega arith)

price_to_index-index_to_price_example : price_to_index small (index_to_price small 2) ≡ some 2
price_to_index-index_to_price_example =
    price_to_index-index_to_price small 2 small-IsGrid (omega arith)

best_bid-IsHighest_example : IsHighest one_bid one_bid.num_levels (best_bid one_bid)
best_bid-IsHighest_example = best_bid-IsHighest one_bid (unfold added set_side in omega arith)

best_ask-IsLowest_example : IsLowest one_bid 0 one_bid.num_levels (best_ask one_bid)
best_ask-IsLowest_example = best_ask-IsLowest one_bid

get_depth-take_example :
    get_depth one_bid (pos 1)
    ≡ some (record {
      bids = take 1 (quotes one_bid true (downto one_bid.num_levels));
      asks = take 1 (quotes one_bid false (upfrom 0 one_bid.num_levels));
    })
get_depth-take_example = get_depth-take one_bid 1 (unfold added set_side in omega arith)

get_depth_sorted_example :
    (d : DepthSnapshot) × (get_depth one_bid (pos 3) ≡ some d)
    × (length d.bids ≤ 3)
    × (length d.asks ≤ 3)
    × IsDescending d.bids
    × IsAscending d.asks
get_depth_sorted_example =
    get_depth_sorted one_bid 3 one_bid-IsValid.gridded (unfold added set_side in omega arith)
