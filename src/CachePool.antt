-- ===== src/CachePool.antt =====
-- core/cache/cache_pool.h: a ring of pointers to the free ones of `Size` objects, run by one thread
-- at a time. A pointer is the index of its object in `data`; null is `none`. `init` and `clear` are
-- the methods of the object type, which the code calls where the type has them.
pub mod Ownership
use order_book_server_cpp.Prelude.{ℕ, ◌+◌, ◌-◌, ◌%◌, Option, none, some, ◌==◌, if◌then◌else◌}
use order_book_server_cpp.Prelude.Ring.{write}

pub record PoolBuffer {ℓ} (T : Type ℓ) : Type ℓ where
  pub available_items : ℕ → ℕ
  pub objects : ℕ → T
  pub head : ℕ
  pub tail : ℕ
  pub size : ℕ

pub data PoolError : Type 0 where
  no_available_items null_item : PoolError

pub data Result {ℓ} (A : Type ℓ) : Type ℓ where
  returns : A → Result A
  throws : PoolError → Result A

module _ {ℓ} {T : Type ℓ} where
  unfoldable pub new_pool : ℕ → (ℕ → T) → PoolBuffer T
  new_pool Size objects = record {
    available_items = λ i. i;
    objects = objects;
    head = 0;
    tail = 0;
    size = Size;
  }

  -- The index that was claimed, and the buffer with the head moved on. The compare-and-exchange
  -- succeeds at once when no other thread moves the head.
  unfoldable pub get_current_head : ℕ → PoolBuffer T → ℕ × PoolBuffer T
  get_current_head Size b = (b.head, record b { head = (b.head + 1) % Size })

  unfoldable pub get_current_tail : ℕ → PoolBuffer T → ℕ × PoolBuffer T
  get_current_tail Size b = (b.tail, record b { tail = (b.tail + 1) % Size })

  unfoldable pub acquire : ℕ → (T → T) → PoolBuffer T → Result (PoolBuffer T × ℕ)
  unfolding get_current_head
  acquire Size init b =
      let (head_index, claimed) = get_current_head Size b in
      let item = b.available_items head_index in
      if b.size == 0
      then throws no_available_items
      else returns (
        record claimed {
          objects = write b.objects item (init (b.objects item));
          size = b.size - 1;
        },
        item,
      )

  unfoldable pub release : ℕ → (T → T) → Option ℕ → PoolBuffer T → Result (PoolBuffer T)
  unfolding get_current_tail
  release Size clear none b = throws null_item
  release Size clear (some item) b =
      let (tail_index, claimed) = get_current_tail Size b in
      returns (record claimed {
        available_items = write b.available_items tail_index item;
        size = b.size + 1;
        objects = write b.objects item (clear (b.objects item));
      })

  unfoldable pub total_released_items : ℕ → PoolBuffer T → ℕ
  total_released_items Size b = Size - b.size
