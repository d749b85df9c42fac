-- ===== src/Streaming.antt =====
-- src/dbn_wrapper/dbn_wrapper.h and src/orderbook/orderbook_controller.cpp: a file of records is
-- applied to the book of the controller. The reader of the file is a library: its records are the
-- list that `NextRecord` returns one by one. `stop` runs on another coroutine, so it can come
-- between any two steps of the loop. A step that `apply` leaves undefined is no step.
pub mod Runs
pub mod Stop
use order_book_server_cpp.Prelude.{
  ℕ, zero, suc, ◌+◌, ◌≡◌, Option, none, some, Bool, true, false, ◌&&◌, List, [], ◌∷◌,
}
use order_book_server_cpp.Prelude.Int.{ℤ, pos, negsuc}
use order_book_server_cpp.Book.{Book, MboMsg, new_book, apply}

-- `databento::Record`: an order message with its `ts_in_delta`, or another kind of record.
pub data Record : Type 0 where
  mbo : MboMsg → ℤ → Record
  other : Record

-- `m_speed`: 0 or less for no sleep, or above 0.
pub data Speed : Type 0 where
  max_speed timed : Speed

-- The loop of `start_stream_data`: at its head, in the sleep before a message is applied, or behind
-- its end. The members are the book, `count_mbo_msgs`, the records
-- that are left and `m_is_streaming`.
pub data Stream : Type 0 where
  at_head : Book → ℕ → List Record → Bool → Stream
  sleeping : MboMsg → Book → ℕ → List Record → Bool → Stream
  finished : Book → ℕ → List Record → Stream

is_positive : ℤ → Bool
is_positive (pos zero) = false
is_positive (pos (suc n)) = true
is_positive (negsuc n) = false

is_timed : Speed → Bool
is_timed max_speed = false
is_timed timed = true

-- `mbo->ts_in_delta.count() > 0 && m_speed > 0.0`
unfoldable pub waits : Speed → ℤ → Bool
unfolding is_positive is_timed
waits speed delta = is_positive delta && is_timed speed

pub data Step (speed : Speed) : Stream → Stream → Type 0 where
  skip :
      (b : Book) (n : ℕ) (rs : List Record)
      → Step speed (at_head b n (other ∷ rs) true) (at_head b n rs true)
  sleep :
      (b : Book) (n : ℕ) (rs : List Record) (m : MboMsg) (delta : ℤ)
      → waits speed delta ≡ true
      → Step speed (at_head b n (mbo m delta ∷ rs) true) (sleeping m b n rs true)
  call :
      (b c : Book) (n : ℕ) (rs : List Record) (m : MboMsg) (delta : ℤ)
      → waits speed delta ≡ false
      → apply b m ≡ some c
      → Step speed (at_head b n (mbo m delta ∷ rs) true) (at_head c (n + 1) rs true)
  wake :
      (b c : Book) (n : ℕ) (rs : List Record) (m : MboMsg) (on : Bool)
      → apply b m ≡ some c
      → Step speed (sleeping m b n rs on) (at_head c (n + 1) rs on)
  stop_at_head :
      (b : Book) (n : ℕ) (rs : List Record) (on : Bool)
      → Step speed (at_head b n rs on) (at_head b n rs false)
  stop_asleep :
      (b : Book) (n : ℕ) (rs : List Record) (m : MboMsg) (on : Bool)
      → Step speed (sleeping m b n rs on) (sleeping m b n rs false)
  end_of_file : (b : Book) (n : ℕ) → Step speed (at_head b n [] true) (finished b n [])
  stopped :
      (b : Book) (n : ℕ) (rs : List Record) → Step speed (at_head b n rs false) (finished b n rs)

pub data Steps (speed : Speed) : Stream → Stream → Type 0 where
  done : (s : Stream) → Steps speed s s
  more : (s t u : Stream) → Step speed s t → Steps speed t u → Steps speed s u

-- The book of `initialize`.
unfoldable pub initialize : Option Book
unfolding new_book
initialize = new_book (pos 20000000) (pos 120000000000) (pos 10000000)

-- `start_streaming` on a book: the count starts at zero.
unfoldable pub start_streaming : Book → List Record → Stream
start_streaming b rs = at_head b 0 rs true
