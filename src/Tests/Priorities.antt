-- ===== src/Tests/Priorities.antt =====
-- src/orderbook/orderbook.h: two bids in one queue, and one of them grows.
use order_book_server_cpp.Prelude.{◌≡◌, refl, true, arith}
use order_book_server_cpp.Prelude.Int.{pos}
use order_book_server_cpp.Book.{Book, MboMsg, set_side}
use order_book_server_cpp.Book.Levels.{level_at}
use order_book_server_cpp.Book.Queue.{without}
use order_book_server_cpp.Book.Ledger.{ledger}
use order_book_server_cpp.Book.Invariant.{IsValid}
use order_book_server_cpp.Book.Steps.Add.{added, add-Step}
use order_book_server_cpp.Book.Refinement.{IsPriced, apply-next_ledger}
use order_book_server_cpp.Book.Priority.{move_of, next_waiting}
use order_book_server_cpp.Book.Priority.Places.{waiting_at}
use order_book_server_cpp.Book.Priority.Fifo.{apply-next_waiting}
use order_book_server_cpp.Tests.Books.{one_bid, one_bid-IsValid, buy_priced}

abbrev second : MboMsg
second = record { order_id = 8; action = b'A'; side = b'B'; price = pos 100; size = 4 }

abbrev two_bids : Book
two_bids = added one_bid second true 1

two_bids-IsValid : IsValid two_bids
unfolding added set_side
two_bids-IsValid =
    (add-Step one_bid second true 1 one_bid-IsValid (unfold added set_side in omega arith)
      (unfold added set_side in buy_priced)).valid

-- Order 7 asks for nine shares.
abbrev more : MboMsg
more = record { order_id = 7; action = b'M'; side = b'B'; price = pos 100; size = 9 }

more-IsPriced : IsPriced two_bids.grid more
unfolding added set_side
more-IsPriced = record { above = omega arith; under = omega arith }

abbrev grown : Book
grown = (apply-next_ledger two_bids more two_bids-IsValid more-IsPriced).0

apply-next_waiting_example :
    (waiting_at grown true 1
      ≡ next_waiting 7 true 1
          (move_of (ledger two_bids 7) more)
          (two_bids.orders_ref 7)
          true
          1
          (level_at two_bids true 1).queue)
    × (without 7 (level_at grown true 1).queue ≡ without 7 (level_at two_bids true 1).queue)
apply-next_waiting_example =
    apply-next_waiting two_bids grown more 1 two_bids-IsValid more-IsPriced (omega arith) refl
      (unfold added set_side in buy_priced)
      (apply-next_ledger two_bids more two_bids-IsValid more-IsPriced).1 true 1
