-- ===== src/MpscQueue/Threads/Runs/Alone.antt =====
-- core/queue/mpsc_queue.h: one thread in `push` and one in `pop` at a time.
use order_book_server_cpp.Prelude.{
  ℕ, ◌+◌, ◌≤◌, ap, [], ◌∷◌, length, length-append, arith, List, some,
}
use order_book_server_cpp.MpscQueue.Threads.{
  Consumer, idle, tested, loaded, cleared, moved, Shared, Step, push_tests, push_reads_head,
  push_claims, push_stores, push_counts, pop_tests, pop_loads, pop_loads_null, pop_clears,
  pop_moves_tail, pop_returns, Run, starts, goes,
}
use order_book_server_cpp.MpscQueue.Threads.Counts.{
  counted_pushes, counted_pushes_le, IsSized, Run-IsSized,
}
use order_book_server_cpp.MpscQueue.Threads.Moves.{HasRoom, taken}

module _ {ℓ} {T : Type ℓ} where
  -- At most one thread is between the test of the size and the count in `push`.
  abbrev pub OneProducer : Shared T → Type 0
  OneProducer s = length s.producers + s.claims ≤ counted_pushes s.pushes s.claims + 1

  abbrev Fits : ℕ → Shared T → Type 0
  Fits Size s = length s.producers + s.claims ≤ length s.popped + Size

  Step-Fits :
      (Size : ℕ) (s t : Shared T)
      → Step Size s t
      → OneProducer t
      → IsSized s
      → Fits Size s
      → Fits Size t
  Step-Fits Size s _ (push_tests _ item h) one v f =
      omega (arith, v.counts, counted_pushes_le s.pushes s.claims)
  Step-Fits Size s _ (push_reads_head _ before after w e) one v f = omega (
    arith,
    ap length e,
    length-append before (w ∷ after),
    length-append before (record w { current = some s.buffer.head } ∷ after),
  )
  Step-Fits Size s _ (push_claims _ before after w current e r same) one v f =
      omega (arith, ap length e, length-append before (w ∷ after), length-append before after)
  Step-Fits Size s _ (push_stores _ k p e g) one v f = f
  Step-Fits Size s _ (push_counts _ k p e g) one v f = f
  Step-Fits Size s _ (pop_tests _ e h) one v f = f
  Step-Fits Size s _ (pop_loads _ item e h) one v f = f
  Step-Fits Size s _ (pop_loads_null _ e h) one v f = f
  Step-Fits Size s _ (pop_clears _ tail_index item e) one v f = f
  Step-Fits Size s _ (pop_moves_tail _ tail_index item e) one v f = f
  Step-Fits Size s _ (pop_returns _ item e) one v f =
      omega (arith, length-append s.popped (item ∷ []))

  Run-Fits : (Size : ℕ) (s : Shared T) → Run Size OneProducer s → Fits Size s
  Run-Fits Size _ starts = omega arith
  Run-Fits Size t (goes {s = s} r step one) =
      Step-Fits Size s t step one (Run-IsSized Size s r) (Run-Fits Size s r)

  taken_le : (c : Consumer T) (xs : List T) → length xs ≤ length (taken c xs)
  taken_le idle xs = omega arith
  taken_le tested xs = omega arith
  taken_le (loaded i x) xs = omega arith
  taken_le (cleared i x) xs = omega (arith, length-append xs (x ∷ []))
  taken_le (moved x) xs = omega (arith, length-append xs (x ∷ []))

  -- While at most one thread at a time is between the test of the size and the count in `push`, and at
  -- most one in `pop`, the test keeps the claims that `pop` has not cleared within the ring.
  pub OneProducer-HasRoom :
      (Size : ℕ) (s : Shared T) → Run Size OneProducer s → Run Size (HasRoom Size) s
  OneProducer-HasRoom Size _ starts = starts
  OneProducer-HasRoom Size t (goes {s = s} r step one) =
      let f = Step-Fits Size s t step one (Run-IsSized Size s r) (Run-Fits Size s r) in
      goes (OneProducer-HasRoom Size s r) step (omega (arith, taken_le t.consumer t.popped))
