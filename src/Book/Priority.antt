-- ===== src/Book/Priority.antt =====
-- src/orderbook/orderbook.h: the order in which the orders of a level wait, the first in first out. What
-- a message does to it, from the ledger's entry of its order and the message alone.
pub mod Lists
pub mod Places
pub mod Operations
pub mod Fifo
use order_book_server_cpp.Prelude.{
  ℕ, Option, none, some, Bool, ◌&&◌, List, [], ◌∷◌, ◌++◌, leb, ltb, ◌==◌, if◌then◌else◌,
}
use order_book_server_cpp.Prelude.Int.{◌==ℤ◌}
use order_book_server_cpp.Book.{MboMsg, Ref}
use order_book_server_cpp.Book.Levels.{same_side}
use order_book_server_cpp.Book.Ledger.{Entry}
use order_book_server_cpp.Book.Queue.{Order}

-- What becomes of the place of an order: it keeps it, gives it up, goes to the back of its queue, comes
-- to the back of the queue of the message, or leaves the one for the back of the other.
pub data Move : Type 0 where
  keeps leaves requeues joins rejoins : Move

abbrev pub taken_move : Option Entry → ℕ → Move
taken_move none sz = keeps
taken_move (some e) sz = if leb e.size sz then leaves else keeps

abbrev pub filled_move : Option Entry → Move
filled_move none = keeps
filled_move (some e) = leaves

-- Only more shares or another price cost the place.
abbrev pub modified_move : Option Entry → MboMsg → Move
modified_move none m = joins
modified_move (some e) m =
    if m.size == 0
    then leaves
    else if m.price ==ℤ e.price
    then (if ltb e.size m.size then requeues else keeps)
    else rejoins

unfoldable pub move_of : Option Entry → MboMsg → Move
move_of e m =
    if m.action == b'T'
    then taken_move e m.size
    else if m.action == b'F'
    then filled_move e
    else if m.action == b'N'
    then taken_move e m.size
    else if m.action == b'A'
    then joins
    else if m.action == b'C'
    then taken_move e m.size
    else if m.action == b'M'
    then modified_move e m
    else keeps

-- The ids of the orders that wait, the first in front.
abbrev pub waiting : List Order → List ℕ
waiting [] = []
waiting (o ∷ q) = o.order_id ∷ waiting q

-- The ids without the order that stands in the node `it`.
abbrev pub leave : ℕ → List Order → List ℕ
leave it [] = []
leave it (o ∷ q) = if o.it == it then leave it q else o.order_id ∷ leave it q

abbrev pub is_at : Bool → ℕ → Bool → ℕ → Bool
is_at side index s i = same_side side s && (index == i)

-- The ids at one place of the book, of which `q` is the queue and `r` leads to the order.
module _ (id : ℕ) (s : Bool) (i : ℕ) where
  abbrev pub left : Ref → List Order → List ℕ
  left r q = if is_at r.is_bid r.index s i then leave r.it q else waiting q

  abbrev pub requeued : Ref → List Order → List ℕ
  requeued r q = if is_at r.is_bid r.index s i then leave r.it q ++ id ∷ [] else waiting q

  abbrev pub joined : Bool → ℕ → List ℕ → List ℕ
  joined side index w = if is_at side index s i then w ++ id ∷ [] else w

  -- `side` and `index` are the place of the message's price.
  abbrev pub next_waiting : Move → Option Ref → Bool → ℕ → List Order → List ℕ
  next_waiting keeps r side index q = waiting q
  next_waiting joins r side index q = joined side index (waiting q)
  next_waiting leaves (some r) side index q = left r q
  next_waiting requeues (some r) side index q = requeued r q
  next_waiting rejoins (some r) side index q = joined side index (left r q)
  next_waiting leaves none side index q = waiting q
  next_waiting requeues none side index q = waiting q
  next_waiting rejoins none side index q = joined side index (waiting q)
