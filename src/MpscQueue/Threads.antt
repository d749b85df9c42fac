-- ===== src/MpscQueue/Threads.antt =====
-- core/queue/mpsc_queue.h: the ring with any number of threads in `push` and one in `pop`. A step is one
-- access to the memory the threads share, and the threads take steps in any order; the accesses are taken
-- to be sequentially consistent. A slot is named by the order of the claims (0, 1, 2, ...) beside its
-- index in the array.
pub mod Counts
pub mod Slots
pub mod Moves
pub mod Runs
use order_book_server_cpp.Prelude.{
  ℕ, suc, ◌+◌, ◌-◌, ◌%◌, ◌<◌, ◌≡◌, ◌≢◌, Option, none, some, List, [], ◌∷◌, ◌++◌,
}
use order_book_server_cpp.Prelude.Ring.{write}
use order_book_server_cpp.MpscQueue.{PoolBuffer, new_buffer}

-- A thread in `push` past the test of the size; `current` is what it read of the head, once it did.
pub record Producer {ℓ} (T : Type ℓ) : Type ℓ where
  pub item : T
  pub current : Option ℕ

-- How far a push is that moved the head: it is to store the item, then to count it.
pub data Stage : Type 0 where
  claimed stored counted : Stage

pub record Push {ℓ} (T : Type ℓ) : Type ℓ where
  pub item : T
  pub head_index : ℕ
  pub stage : Stage

-- Where the thread in `pop` is: outside, past the test of the size, with the item that it loaded, with
-- the slot cleared, and with the tail moved.
pub data Consumer {ℓ} (T : Type ℓ) : Type ℓ where
  idle tested : Consumer T
  loaded cleared : ℕ → T → Consumer T
  moved : T → Consumer T

-- The ring, the threads, the pushes by the order of their claims, and what `pop` returned so far
-- other than null.
pub record Shared {ℓ} (T : Type ℓ) : Type ℓ where
  pub buffer : PoolBuffer T
  pub producers : List (Producer T)
  pub pushes : ℕ → Option (Push T)
  pub claims : ℕ
  pub consumer : Consumer T
  pub popped : List T

module _ {ℓ} {T : Type ℓ} where
  abbrev pub new_shared : Shared T
  new_shared = record {
    buffer = record { available_items = λ _. none; head = 0; tail = 0; size = 0 };
    producers = [];
    pushes = λ _. none;
    claims = 0;
    consumer = idle;
    popped = [];
  }

  -- The threads in `push` before their claims, changed.
  abbrev pub with_producers : List (Producer T) → Shared T → Shared T
  with_producers ps s = record s { producers = ps }

  -- The compare-and-exchange that moves the head from `current`, which becomes `head_index`.
  abbrev pub claim_head : ℕ → ℕ → T → List (Producer T) → Shared T → Shared T
  claim_head Size current item ps s = record s {
    buffer = record s.buffer { head = (current + 1) % Size };
    producers = ps;
    pushes =
        write s.pushes s.claims
          (some (record { item = item; head_index = current; stage = claimed }));
    claims = suc s.claims;
  }

  abbrev pub store_item : ℕ → Push T → Shared T → Shared T
  store_item k p s = record s {
    buffer = record s.buffer {
      available_items = write s.buffer.available_items p.head_index (some p.item);
    };
    pushes = write s.pushes k (some (record p { stage = stored }));
  }

  abbrev pub count_item : ℕ → Push T → Shared T → Shared T
  count_item k p s = record s {
    buffer = record s.buffer { size = s.buffer.size + 1 };
    pushes = write s.pushes k (some (record p { stage = counted }));
  }

  abbrev pub with_consumer : Consumer T → Shared T → Shared T
  with_consumer c s = record s { consumer = c }

  abbrev pub clear_slot : ℕ → T → Shared T → Shared T
  clear_slot tail_index item s = record s {
    buffer = record s.buffer { available_items = write s.buffer.available_items tail_index none };
    consumer = cleared tail_index item;
  }

  abbrev pub move_tail : ℕ → ℕ → T → Shared T → Shared T
  move_tail Size tail_index item s = record s {
    buffer = record s.buffer { tail = (tail_index + 1) % Size };
    consumer = moved item;
  }

  abbrev pub return_item : T → Shared T → Shared T
  return_item item s = record s {
    buffer = record s.buffer { size = s.buffer.size - 1 };
    consumer = idle;
    popped = s.popped ++ item ∷ [];
  }

-- A failed exchange reads the head again; it may fail when the head is what the thread read. A `push`
-- that throws and a test of the size by `pop` that finds 0 change nothing.
pub data Step {ℓ} {T : Type ℓ} (Size : ℕ) : Shared T → Shared T → Type ℓ where
  push_tests :
      (s : Shared T) (item : T)
      → s.buffer.size ≢ Size
      → Step Size s (with_producers (record { item = item; current = none } ∷ s.producers) s)
  push_reads_head :
      (s : Shared T) (before after : List (Producer T)) (w : Producer T)
      → s.producers ≡ before ++ w ∷ after
      → Step Size s (with_producers (before ++ record w { current = some s.buffer.head } ∷ after) s)
  push_claims :
      (s : Shared T) (before after : List (Producer T)) (w : Producer T) (current : ℕ)
      → s.producers ≡ before ++ w ∷ after
      → w.current ≡ some current
      → s.buffer.head ≡ current
      → Step Size s (claim_head Size current w.item (before ++ after) s)
  push_stores :
      (s : Shared T) (k : ℕ) (p : Push T)
      → s.pushes k ≡ some p
      → p.stage ≡ claimed
      → Step Size s (store_item k p s)
  push_counts :
      (s : Shared T) (k : ℕ) (p : Push T)
      → s.pushes k ≡ some p
      → p.stage ≡ stored
      → Step Size s (count_item k p s)
  pop_tests :
      (s : Shared T) → s.consumer ≡ idle → s.buffer.size ≢ 0 → Step Size s (with_consumer tested s)
  pop_loads :
      (s : Shared T) (item : T)
      → s.consumer ≡ tested
      → s.buffer.available_items s.buffer.tail ≡ some item
      → Step Size s (with_consumer (loaded s.buffer.tail item) s)
  pop_loads_null :
      (s : Shared T)
      → s.consumer ≡ tested
      → s.buffer.available_items s.buffer.tail ≡ none
      → Step Size s (with_consumer idle s)
  pop_clears :
      (s : Shared T) (tail_index : ℕ) (item : T)
      → s.consumer ≡ loaded tail_index item
      → Step Size s (clear_slot tail_index item s)
  pop_moves_tail :
      (s : Shared T) (tail_index : ℕ) (item : T)
      → s.consumer ≡ cleared tail_index item
      → Step Size s (move_tail Size tail_index item s)
  pop_returns :
      (s : Shared T) (item : T) → s.consumer ≡ moved item → Step Size s (return_item item s)

-- The states that the steps lead to from the new ring through states that are all `Allowed`.
pub data Run {ℓ κ} {T : Type ℓ} (Size : ℕ) (Allowed : Shared T → Type κ)
    : Shared T → Type (ℓ ⊔ κ) where
  starts : Run Size Allowed new_shared
  goes : {s t : Shared T} → Run Size Allowed s → Step Size s t → Allowed t → Run Size Allowed t
