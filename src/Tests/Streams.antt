-- ===== src/Tests/Streams.antt =====
-- src/dbn_wrapper/dbn_wrapper.h and src/orderbook/orderbook_controller.cpp on a file of a reset, a
-- record of another kind and an order for three shares.
use order_book_server_cpp.Prelude.{ℕ, ◌≡◌, none, List, [], ◌∷◌, length, All, arith, true}
use order_book_server_cpp.Prelude.Int.{pos}
use order_book_server_cpp.Book.{Book, MboMsg}
use order_book_server_cpp.Book.Invariant.{IsValid}
use order_book_server_cpp.Book.Ledger.{ledger}
use order_book_server_cpp.Book.Refinement.{IsPriced, next_ledgers}
use order_book_server_cpp.Streaming.{
  Record, mbo, other, timed, at_head, finished, Steps, done, more, skip, stop_at_head, stopped,
  start_streaming,
}
use order_book_server_cpp.Streaming.Runs.{
  messages, Applied, Steps-Applied, initialize-IsValid, initialize-bounds,
  start_streaming-next_ledgers,
}

abbrev pub order : MboMsg
order = record { order_id = 5; action = b'A'; side = b'B'; price = pos 70000000; size = 3 }

abbrev file : List Record
file = other ∷ mbo order (pos 4) ∷ []

abbrev pub start : Book
start = initialize-IsValid.0

pub order-IsPriced : IsPriced start.grid order
order-IsPriced =
    let (low, high) = initialize-bounds start initialize-IsValid.1 in
    record { above = rw low (omega arith); under = rw high (omega arith) }

file-IsPriced : All (IsPriced start.grid) (messages file)
unfolding messages
file-IsPriced = (order-IsPriced, tt)

-- A run that is stopped after the first record.
abbrev short_run :
    Steps timed (at_head start 0 file true) (finished start 0 (mbo order (pos 4) ∷ []))
short_run = more _ _ _ (skip start 0 (mbo order (pos 4) ∷ [])) (
    more _ _ _ (stop_at_head start 0 (mbo order (pos 4) ∷ []) true)
      (more _ _ _ (stopped start 0 (mbo order (pos 4) ∷ [])) (done _)))

Steps-Applied_example :
    (ms : List MboMsg) × Applied ms
      (at_head start 0 file true)
      (finished start 0 (mbo order (pos 4) ∷ []))
Steps-Applied_example = Steps-Applied timed _ _ short_run

start_streaming-next_ledgers_example :
    (c : Book) × (k : ℕ) × Steps timed (start_streaming start file) (finished c k [])
    × (k ≡ length (messages file))
    × IsValid c
    × ((id : ℕ) → ledger c id ≡ next_ledgers (λ j. none) (messages file) id)
    × (c.grid ≡ start.grid)
start_streaming-next_ledgers_example =
    start_streaming-next_ledgers start timed file initialize-IsValid.1 file-IsPriced
