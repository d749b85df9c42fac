-- ===== src/Book/Ledger.antt =====
-- What `OrderBook` of src/orderbook/orderbook.h promises of single orders: a ledger from order ids
-- to side, price and open shares, and how a message changes the entry of its order.
use order_book_server_cpp.Prelude.{
  ℕ, ◌-◌, Option, none, some, ◌>>=◌, Bool, not, ◌&&◌, leb, ◌==◌, if◌then◌else◌,
}
use order_book_server_cpp.Prelude.Int.{ℤ, ◌==ℤ◌}
use order_book_server_cpp.Book.{Book, MboMsg, Ref, locate}
use order_book_server_cpp.Book.Queue.{Order}

pub record Entry : Type 0 where
  pub is_bid : Bool
  pub price : ℤ
  pub size : ℕ

abbrev pub entry_of : Ref → Order → Entry
entry_of r o = record { is_bid = r.is_bid; price = r.price; size = o.size }

-- The entry of an order in the detailed book.
unfoldable pub ledger : Book → ℕ → Option Entry
ledger b id = do r ← b.orders_ref id; (level, o) ← locate b r; some (entry_of r o)

abbrev pub entry_of_msg : MboMsg → Entry
entry_of_msg m = record { is_bid = m.side == b'B'; price = m.price; size = m.size }

-- Shares are taken from an order, which goes when none are left.
unfoldable pub taken : Option Entry → ℕ → Option Entry
taken none sz = none
taken (some e) sz = if leb e.size sz then none else some (record e { size = e.size - sz })

-- A known order keeps its side, and its price unless the message has another one.
unfoldable pub modified : Option Entry → MboMsg → Option Entry
modified none m = some (entry_of_msg m)
modified (some e) m =
    if m.size == 0
    then none
    else if m.price ==ℤ e.price
    then some (record e { size = m.size })
    else some (entry_of_msg m)

-- The entry of the message's order after the message.
unfoldable pub next_entry : Option Entry → MboMsg → Option Entry
unfolding taken modified
next_entry e m =
    if m.action == b'T'
    then taken e m.size
    else if m.action == b'F'
    then none
    else if m.action == b'N'
    then taken e m.size
    else if m.action == b'A'
    then some (entry_of_msg m)
    else if m.action == b'C'
    then taken e m.size
    else if m.action == b'M'
    then modified e m
    else e

abbrev pub is_side : ℕ → Bool
is_side side = not (not (side == b'A') && not (side == b'B'))

unfoldable pub next_ledger : (ℕ → Option Entry) → MboMsg → ℕ → Option Entry
unfolding next_entry
next_ledger l m id =
    if m.action == b'R'
    then none
    else if is_side m.side && (m.order_id == id)
    then next_entry (l id) m
    else l id
