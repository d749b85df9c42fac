-- ===== src/Tests/Rings.antt =====
-- core/queue/mpsc_queue.h: threads that push and pop.
use order_book_server_cpp.Prelude.{
  ℕ, zero, suc, ◌<◌, ◌≤◌, ◌≡◌, refl, Option, none, some, [], ◌∷◌, get_elem?, arith,
}
use order_book_server_cpp.MpscQueue.Fifo.{IsQueue}
use order_book_server_cpp.MpscQueue.Threads.{
  Producer, Push, Stage, claimed, stored, counted, idle, tested, loaded, Shared, new_shared,
  with_producers, claim_head, store_item, count_item, with_consumer, clear_slot, move_tail,
  return_item, push_tests, push_reads_head, push_claims, push_stores, push_counts, pop_tests,
  pop_loads, pop_loads_null, pop_clears, pop_moves_tail, pop_returns, Run, starts, goes,
}
use order_book_server_cpp.MpscQueue.Threads.Moves.{HasRoom}
use order_book_server_cpp.MpscQueue.Threads.Runs.{popped-fifo}
use order_book_server_cpp.MpscQueue.Threads.Runs.Rest.{AllCounted, items_from, rest-IsQueue}
use order_book_server_cpp.MpscQueue.Threads.Runs.Alone.{OneProducer, OneProducer-HasRoom}

abbrev producer : ℕ → Option ℕ → Producer ℕ
producer item current = record { item = item; current = current }

abbrev push_at : ℕ → ℕ → Stage → Push ℕ
push_at item index stage = record { item = item; head_index = index; stage = stage }

-- Two threads are past the test of the size; the second is the first to claim a slot.
abbrev both_in : Shared ℕ
both_in = with_producers (producer 10 none ∷ producer 20 none ∷ []) new_shared

abbrev both_read : Shared ℕ
both_read = with_producers (producer 10 (some 0) ∷ producer 20 (some 0) ∷ []) new_shared

abbrev second_claims : ℕ → Shared ℕ
second_claims Size = claim_head Size 0 20 (producer 10 (some 0) ∷ []) both_read

both_read-Run {κ} :
    (Size : ℕ) (Allowed : Shared ℕ → Type κ)
    → (0 < Size)
    → ((s : Shared ℕ) → s.claims ≤ 1 → Allowed s)
    → Run Size Allowed (second_claims Size)
both_read-Run Size Allowed h ok =
    goes
      (goes
        (goes
          (goes (goes starts (push_tests new_shared 20 (λ e. omega arith)) (ok _ (omega arith)))
            (push_tests _ 10 (λ e. omega arith)) (ok _ (omega arith)))
          (push_reads_head both_in [] (producer 20 none ∷ []) (producer 10 none) refl)
          (ok _ (omega arith)))
        (push_reads_head _ (producer 10 (some 0) ∷ []) [] (producer 20 none) refl)
        (ok both_read (omega arith)))
      (push_claims both_read (producer 10 (some 0) ∷ []) [] (producer 20 (some 0)) 0 refl refl refl)
      (ok _ (omega arith))

-- The first thread's exchange fails, it reads the head again and is done before the second stores.
abbrev first_claims : Shared ℕ
first_claims = claim_head 2 1 10 [] (with_producers (producer 10 (some 1) ∷ []) (second_claims 2))

abbrev first_counts : Shared ℕ
first_counts = count_item 1 (push_at 10 1 stored) (store_item 1 (push_at 10 1 claimed) first_claims)

first_done : Run 2 (HasRoom 2) first_counts
first_done =
    goes
      (goes
        (goes
          (goes (both_read-Run 2 (HasRoom 2) (omega arith) (λ s h. omega arith))
            (push_reads_head (second_claims 2) [] [] (producer 10 (some 0)) refl) (omega arith))
          (push_claims _ [] [] (producer 10 (some 1)) 1 refl refl refl) (omega arith))
        (push_stores first_claims 1 (push_at 10 1 claimed) refl refl) (omega arith))
      (push_counts _ 1 (push_at 10 1 stored) refl refl) (omega arith)

-- `pop` finds null in the slot of the second thread.
nothing_yet : Run 2 (HasRoom 2) (with_consumer idle (with_consumer tested first_counts))
nothing_yet =
    goes (goes first_done (pop_tests first_counts refl (λ e. omega arith)) (omega arith))
      (pop_loads_null _ refl refl) (omega arith)

abbrev second_counts : Shared ℕ
second_counts =
    count_item 0 (push_at 20 0 stored)
      (store_item 0 (push_at 20 0 claimed) (with_consumer idle (with_consumer tested first_counts)))

abbrev one_popped : Shared ℕ
one_popped =
    return_item 20 (move_tail 2 0 20 (clear_slot 0 20 (with_consumer (loaded 0 20) second_counts)))

second_done : Run 2 (HasRoom 2) second_counts
second_done =
    goes (goes nothing_yet (push_stores _ 0 (push_at 20 0 claimed) refl refl) (omega arith))
      (push_counts _ 0 (push_at 20 0 stored) refl refl) (omega arith)

popped_once : Run 2 (HasRoom 2) one_popped
popped_once =
    goes
      (goes
        (goes
          (goes (goes second_done (pop_tests second_counts refl (λ e. omega arith)) (omega arith))
            (pop_loads _ 20 refl refl) (omega arith))
          (pop_clears _ 0 20 refl) (omega arith))
        (pop_moves_tail _ 0 20 refl) (omega arith))
      (pop_returns _ 20 refl) (omega arith)

popped-fifo_example :
    (p : Push ℕ) × (one_popped.pushes 0 ≡ some p) × (get_elem? one_popped.popped 0 ≡ some p.item)
popped-fifo_example = popped-fifo 2 one_popped 0 (omega arith) popped_once (omega arith)

both_counted : AllCounted one_popped.pushes 2
both_counted zero h = (push_at 20 0 counted, refl, refl)
both_counted (suc zero) h = (push_at 10 1 counted, refl, refl)
both_counted (suc (suc k)) h = absurd (omega arith)

rest-IsQueue_example : IsQueue 2 one_popped.buffer (items_from one_popped.pushes 1 1)
rest-IsQueue_example = rest-IsQueue 2 one_popped (omega arith) popped_once refl both_counted

left_in_the_ring : items_from one_popped.pushes 1 1 ≡ 10 ∷ []
left_in_the_ring = refl

abbrev only_one : Shared ℕ
only_one =
    with_producers (producer 10 (some 0) ∷ []) (with_producers (producer 10 none ∷ []) new_shared)

one_pushes : Run 1 OneProducer (claim_head 1 0 10 [] only_one)
one_pushes =
    goes
      (goes (goes starts (push_tests new_shared 10 (λ e. omega arith)) (omega arith))
        (push_reads_head _ [] [] (producer 10 none) refl) (omega arith))
      (push_claims only_one [] [] (producer 10 (some 0)) 0 refl refl refl) (omega arith)

OneProducer-HasRoom_example : Run 1 (HasRoom 1) (claim_head 1 0 10 [] only_one)
OneProducer-HasRoom_example = OneProducer-HasRoom 1 (claim_head 1 0 10 [] only_one) one_pushes

abbrev Any : Shared ℕ → Type 0
Any s = Unit

-- On a ring of one slot both threads pass the test of the size, and the second item stored takes the
-- place of the first, which was counted.
abbrev overwritten : Shared ℕ
overwritten =
    let s =
      count_item 0 (push_at 20 0 stored) (store_item 0 (push_at 20 0 claimed) (second_claims 1)) in
    let t = claim_head 1 0 10 [] s in
    count_item 1 (push_at 10 0 stored) (store_item 1 (push_at 10 0 claimed) t)

overwrites : Run 1 Any overwritten
overwrites =
    goes
      (goes
        (goes
          (goes
            (goes (both_read-Run 1 Any (omega arith) (λ s h. tt))
              (push_stores (second_claims 1) 0 (push_at 20 0 claimed) refl refl) tt)
            (push_counts _ 0 (push_at 20 0 stored) refl refl) tt)
          (push_claims _ [] [] (producer 10 (some 0)) 0 refl refl refl) tt)
        (push_stores _ 1 (push_at 10 0 claimed) refl refl) tt)
      (push_counts _ 1 (push_at 10 0 stored) refl refl) tt

-- The size is 2 then, which is not the number of slots, and the test lets the next item in.
next_passes : Run 1 Any (with_producers (producer 30 none ∷ []) overwritten)
next_passes = goes overwrites (push_tests overwritten 30 (λ e. omega arith)) tt

one_is_lost :
    (overwritten.buffer.available_items 0 ≡ some 10)
    × (overwritten.popped ≡ [])
    × (overwritten.buffer.size ≡ 2)
one_is_lost = (refl, refl, refl)
