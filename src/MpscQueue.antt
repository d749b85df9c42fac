-- ===== src/MpscQueue.antt =====
-- core/queue/mpsc_queue.h: the ring of `Size` pointer slots, run by one thread at a time. A null
-- pointer is `none`; the array is a function of the index, read and written below `Size`.
pub mod Fifo
pub mod Threads
use order_book_server_cpp.Prelude.{
  ℕ, zero, suc, ◌+◌, ◌-◌, ◌%◌, ◌≡◌, Option, none, some, List, ◌==◌, if◌then◌else◌,
}
use order_book_server_cpp.Prelude.Ring.{write}

pub record PoolBuffer {ℓ} (T : Type ℓ) : Type ℓ where
  pub available_items : ℕ → Option T
  pub head : ℕ
  pub tail : ℕ
  pub size : ℕ

pub data PushError : Type 0 where
  queue_is_full null_item : PushError

-- What `push` returns, or the exception that it throws.
pub data PushResult {ℓ} (T : Type ℓ) : Type ℓ where
  pushed : PoolBuffer T → PushResult T
  throws : PushError → PushResult T

module _ {ℓ} {T : Type ℓ} where
  unfoldable pub new_buffer : PoolBuffer T
  new_buffer = record { available_items = λ _. none; head = 0; tail = 0; size = 0 }

  -- The index that was claimed, and the buffer with the head moved on. The compare-and-exchange
  -- succeeds at once when no other thread moves the head.
  unfoldable pub get_current_head : ℕ → PoolBuffer T → ℕ × PoolBuffer T
  get_current_head Size b = (b.head, record b { head = (b.head + 1) % Size })

  unfoldable pub push : ℕ → Option T → PoolBuffer T → PushResult T
  unfolding get_current_head
  push Size none b = throws null_item
  push Size (some item) b =
      let (head_index, claimed) = get_current_head Size b in
      if b.size == Size
      then throws queue_is_full
      else pushed (record claimed {
        available_items = write b.available_items head_index (some item);
        size = b.size + 1;
      })

  unfoldable pub pop_slot : ℕ → PoolBuffer T → Option T → PoolBuffer T × Option T
  pop_slot Size b none = (b, none)
  pop_slot Size b (some item) = (
    record b {
      available_items = write b.available_items b.tail none;
      tail = (b.tail + 1) % Size;
      size = b.size - 1;
    },
    some item,
  )

  -- The new buffer and the item, null where there is none.
  unfoldable pub pop : ℕ → PoolBuffer T → PoolBuffer T × Option T
  unfolding pop_slot
  pop Size b = if b.size == 0 then (b, none) else pop_slot Size b (b.available_items b.tail)
