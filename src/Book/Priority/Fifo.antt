-- ===== src/Book/Priority/Fifo.antt =====
-- src/orderbook/orderbook.h: `apply` and the order in which the orders of a level wait.
use mathlib.Core.Path.{subst}
use order_book_server_cpp.Prelude.{
  ℕ, ◌<◌, ◌≡◌, ◌≢◌, sym, ◌∙◌, some, Bool, true, false, arith, ◌==◌, not, ◌&&◌,
}
use order_book_server_cpp.Book.{Book, MboMsg, apply}
use order_book_server_cpp.Book.Levels.{level_at}
use order_book_server_cpp.Book.Prices.{price_to_index}
use order_book_server_cpp.Book.Prices.Laws.{price_to_index_range}
use order_book_server_cpp.Book.Queue.{without}
use order_book_server_cpp.Book.Invariant.{IsValid}
use order_book_server_cpp.Book.Ledger.{ledger, is_side}
use order_book_server_cpp.Book.Refinement.{IsPriced, apply-fifo, some_inj}
use order_book_server_cpp.Book.Priority.{move_of, next_waiting}
use order_book_server_cpp.Book.Priority.Places.{waiting_at}
use order_book_server_cpp.Book.Priority.Operations.{Moves, dispatch-Moves}

apply-Moves :
    (b : Book) (m : MboMsg) (index : ℕ)
    → IsValid b
    → index < b.num_levels
    → (m.action == b'R') ≡ false
    → is_side m.side ≡ true
    → price_to_index b.grid m.price ≡ some index
    → Moves b m
        (b.orders_ref m.order_id)
        (m.side == b'B')
        index
        (move_of (ledger b m.order_id) m)
        (apply b m)
unfolding apply
apply-Moves b m index v h act side priced =
    let known : (not (m.side == b'A') && not (m.side == b'B')) ≡ false = ground arith in
    rw (act, known, priced) (dispatch-Moves b v m (m.side == b'B') index h)

-- A message with a side that is no reset moves its order in the queues as its action and the ledger say: a
-- new order, one with more shares and one with another price come to the back of the queue, an order
-- that loses some of its shares keeps its place, and one that loses all leaves. At every place the ids
-- that wait afterwards, and their sequence, are those that `next_waiting` computes from this, and the
-- orders of other ids are the same orders as before.
pub apply-next_waiting :
    (b c : Book) (m : MboMsg) (index : ℕ)
    → IsValid b
    → IsPriced b.grid m
    → m.action ≢ b'R'
    → is_side m.side ≡ true
    → price_to_index b.grid m.price ≡ some index
    → apply b m ≡ some c
    → (s : Bool) (i : ℕ)
    → (waiting_at c s i
        ≡ next_waiting m.order_id s i
            (move_of (ledger b m.order_id) m)
            (b.orders_ref m.order_id)
            (m.side == b'B')
            index
            (level_at b s i).queue)
      × (without m.order_id (level_at c s i).queue ≡ without m.order_id (level_at b s i).queue)
apply-next_waiting b c m index v p act side priced run s i =
    let (k, found, inside, lo, hi) =
      price_to_index_range b.grid m.price v.gridded p.above p.under in
    let h : index < b.num_levels =
      subst (λ n. n < b.num_levels) (some_inj (sym found ∙ priced)) inside in
    let (d, ran, moved) = apply-Moves b m index v h (ground arith) side priced in
    (
      subst
          (λ x.
            waiting_at x s i
            ≡ next_waiting m.order_id s i (move_of (ledger b m.order_id) m)
                (b.orders_ref m.order_id) (m.side == b'B') index (level_at b s i).queue)
          (some_inj (sym ran ∙ run)) (moved s i),
      apply-fifo b c m v p act run s i,
    )
