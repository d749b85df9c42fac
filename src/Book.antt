-- ===== src/Book.antt =====
-- src/orderbook/orderbook.h: the class `OrderBook`, its state and the operations that a message
-- applies. A step that C++ leaves undefined (a level out of range, an iterator to no node) is
-- `none`. `databento::MboMsg` is a type of the DBN library; the record has the members that
-- `apply` reads, with the two enumerations as their characters.
pub mod Queue
pub mod Prices
pub mod Levels
pub mod Invariant
pub mod Ledger
pub mod Steps
pub mod Operations
pub mod Refinement
pub mod Priority
pub mod Construction
pub mod Outside
pub mod Depth
pub mod Snapshot
pub mod Mbp
use order_book_server_cpp.Prelude.{
  ℕ, suc, ◌+◌, ◌-◌, ◌%◌, ◌^◌, ◌≡◌, Option, none, some, ◌>>=◌, Bool, true, false, not, ◌&&◌, List,
  [], ◌∷◌, ◌++◌, map, ltb, leb, ◌==◌, if◌then◌else◌, get_elem?, set, replicate,
}
use order_book_server_cpp.Prelude.Int.{ℤ, ◌==ℤ◌}
use Queue.{Order, deref, erase, write_size, move_to_back}
use Prices.{Grid, new_grid, price_to_index}

pub record MboMsg : Type 0 where
  pub order_id : ℕ
  pub action : ℕ
  pub side : ℕ
  pub price : ℤ
  pub size : ℕ

pub record Level : Type 0 where
  pub queue : List Order
  pub total_size : ℕ

pub record Ref : Type 0 where
  pub is_bid : Bool
  pub index : ℕ
  pub it : ℕ
  pub price : ℤ

-- `next_it` is the address that the next list node gets.
pub record Book : Type 0 where
  pub grid : Grid
  pub open grid use *
  pub bids : List Level
  pub asks : List Level
  pub orders_ref : ℕ → Option Ref
  pub next_it : ℕ

abbrev pub empty_level : Level
empty_level = record { queue = []; total_size = 0 }

-- `uint64_t` sums and differences.
abbrev pub add_u64 : ℕ → ℕ → ℕ
add_u64 a b = (a + b) % 2 ^ 64

abbrev pub sub_u64 : ℕ → ℕ → ℕ
sub_u64 a b = (a + 2 ^ 64 - b % 2 ^ 64) % 2 ^ 64

abbrev pub update : (ℕ → Option Ref) → ℕ → Option Ref → ℕ → Option Ref
update f k r j = if k == j then r else f j

unfoldable pub new_book : ℤ → ℤ → ℤ → Option Book
new_book price_min price_max tick = do
  g ← new_grid price_min price_max tick
  some (record {
    grid = g;
    bids = replicate g.num_levels empty_level;
    asks = replicate g.num_levels empty_level;
    orders_ref = λ _. none;
    next_it = 0;
  })

abbrev pub side_of : Book → Bool → List Level
side_of b true = b.bids
side_of b false = b.asks

unfoldable pub get_side : Book → Bool → ℕ → Option Level
get_side b is_bid idx = get_elem? (side_of b is_bid) idx

-- A write through the reference that `get_side` returned.
unfoldable pub set_side : Book → Bool → ℕ → Level → Book
set_side b is_bid idx level = record b {
  bids = if is_bid then set b.bids idx level else b.bids;
  asks = if is_bid then b.asks else set b.asks idx level;
}

unfoldable pub add : Book → MboMsg → Bool → ℕ → Option Book
unfolding get_side set_side
add b m is_bid idx = do
  level ← get_side b is_bid idx
  let order : Order = record { it = b.next_it; order_id = m.order_id; size = m.size }
  let level' : Level = record {
    queue = level.queue ++ order ∷ [];
    total_size = add_u64 level.total_size m.size;
  }
  let ref : Ref = record { is_bid = is_bid; index = idx; it = b.next_it; price = m.price }
  some (record (set_side b is_bid idx level') {
    orders_ref = update b.orders_ref m.order_id (some ref);
    next_it = suc b.next_it;
  })

-- The level of an order and the order, through the reference that the table holds.
unfoldable pub locate : Book → Ref → Option (Level × Order)
unfolding get_side
locate b r = do level ← get_side b r.is_bid r.index; o ← deref r.it level.queue; some (level, o)

-- `level.total_size -= ord_sz; level.queue.erase(ref.it); m_orders_ref.erase(it);`
unfoldable pub remove : Book → ℕ → Ref → Level → Order → Book
unfolding set_side
remove b id r level o =
    let level' : Level = record {
      queue = erase r.it level.queue;
      total_size = sub_u64 level.total_size o.size;
    } in
    record (set_side b r.is_bid r.index level') { orders_ref = update b.orders_ref id none }

-- `ord_sz -= sz; level.total_size -= sz;`
unfoldable pub shrink : Book → Ref → Level → Order → ℕ → Book
unfolding set_side
shrink b r level o sz = set_side b r.is_bid r.index (record {
  queue = write_size r.it (o.size - sz) level.queue;
  total_size = sub_u64 level.total_size sz;
})

unfoldable pub cancel : Book → MboMsg → Option Book
cancel b m = elim (b.orders_ref m.order_id) [
  | none ↦ some b
  | some r ↦ do
    (level, o) ← locate b r
    some (if leb o.size m.size then remove b m.order_id r level o else shrink b r level o m.size)
]

unfoldable pub handle_trade : Book → MboMsg → Option Book
handle_trade b m = elim (b.orders_ref m.order_id) [
  | none ↦ some b
  | some r ↦ do
    (level, o) ← locate b r
    some (if leb o.size m.size then remove b m.order_id r level o else shrink b r level o m.size)
]

unfoldable pub handle_full_fill : Book → MboMsg → Option Book
handle_full_fill b m = elim (b.orders_ref m.order_id) [
  | none ↦ some b
  | some r ↦ do (level, o) ← locate b r; some (remove b m.order_id r level o)
]

unfoldable pub handle_non_printed : Book → MboMsg → Option Book
unfolding handle_trade
handle_non_printed b m = handle_trade b m

-- `it->second.price = mbo.price`
unfoldable pub touch_price : Book → ℕ → Ref → ℤ → Book
touch_price b id r price = record b {
  orders_ref = update b.orders_ref id (some (record r { price = price }));
}

-- Case 3 of `modify`: more shares at the same price, at the back of the queue.
unfoldable pub enlarge : Book → Ref → Level → Order → ℕ → Book
unfolding set_side
enlarge b r level o size = set_side b r.is_bid r.index (record {
  queue = move_to_back r.it (write_size r.it size level.queue);
  total_size = add_u64 level.total_size (size - o.size);
})

-- Case 4 of `modify`: fewer shares, in the same place.
unfoldable pub reduce : Book → Ref → Level → Order → ℕ → Book
unfolding set_side
reduce b r level o size = set_side b r.is_bid r.index (record {
  queue = write_size r.it size level.queue;
  total_size = sub_u64 level.total_size (o.size - size);
})

unfoldable pub modify : Book → MboMsg → Bool → ℕ → Option Book
modify b m new_is_bid new_idx = elim (b.orders_ref m.order_id) [
  | none ↦ add b m new_is_bid new_idx
  | some r ↦ do
    (level, o) ← locate b r
    if m.size == 0
        then some (remove b m.order_id r level o)
        else if not (m.price ==ℤ r.price)
        then add (remove b m.order_id r level o) m new_is_bid new_idx
        else if ltb o.size m.size
        then some (touch_price (enlarge b r level o m.size) m.order_id r m.price)
        else if ltb m.size o.size
        then some (touch_price (reduce b r level o m.size) m.order_id r m.price)
        else some (touch_price b m.order_id r m.price)
]

unfoldable pub clear : Book → Book
clear b = record b {
  bids = map (λ _. empty_level) b.bids;
  asks = map (λ _. empty_level) b.asks;
  orders_ref = λ _. none;
}

-- The `switch` of `apply`; an action with no case does nothing.
unfoldable pub dispatch : Book → MboMsg → Bool → ℕ → Option Book
dispatch b m is_bid idx =
    if m.action == b'T'
    then handle_trade b m
    else if m.action == b'F'
    then handle_full_fill b m
    else if m.action == b'N'
    then handle_non_printed b m
    else if m.action == b'A'
    then add b m is_bid idx
    else if m.action == b'C'
    then cancel b m
    else if m.action == b'M'
    then modify b m is_bid idx
    else some b

unfoldable pub apply : Book → MboMsg → Option Book
apply b m =
    if m.action == b'R'
    then some (clear b)
    else if not (m.side == b'A') && not (m.side == b'B')
    then some b
    else price_to_index b.grid m.price >>= dispatch b m (m.side == b'B')

-- A sequence of messages, as the streaming callback applies them.
unfoldable pub apply_all : Book → List MboMsg → Option Book
apply_all b [] = some b
apply_all b (m ∷ ms) = apply b m >>= λ c. apply_all c ms
