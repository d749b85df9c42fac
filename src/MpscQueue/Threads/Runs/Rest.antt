-- ===== src/MpscQueue/Threads/Runs/Rest.antt =====
-- core/queue/mpsc_queue.h: the threads at rest, against the queue that one thread uses.
use native.Mathlib.Nat.{mod-add-mod, mod-lt, mod-mod}
use order_book_server_cpp.Prelude.{
  ℕ, zero, suc, ◌+◌, ◌-◌, ◌%◌, ◌<◌, ◌≤◌, ◌≡◌, refl, sym, ◌∙◌, ap, Option, none, some, List, [], ◌∷◌,
  map, length, arith,
}
use order_book_server_cpp.Prelude.Ring.{Holds, Holds-congr}
use order_book_server_cpp.MpscQueue.Fifo.{IsQueue}
use order_book_server_cpp.MpscQueue.Threads.{counted, Push, idle, Shared, Run}
use order_book_server_cpp.MpscQueue.Threads.Counts.{counted_pushes, is_counted, Run-IsSized}
use order_book_server_cpp.MpscQueue.Threads.Slots.{contents, IsRing}
use order_book_server_cpp.MpscQueue.Threads.Moves.{HasRoom}
use order_book_server_cpp.MpscQueue.Threads.Runs.{room, Run-IsShared}

module _ {ℓ} {T : Type ℓ} where
  -- Every push that claimed a slot is done.
  abbrev pub AllCounted : (ℕ → Option (Push T)) → ℕ → Type ℓ
  AllCounted f n = (k : ℕ) → k < n → (p : Push T) × (f k ≡ some p) × (p.stage ≡ counted)

  -- The items of `n` pushes from the one at `t` on.
  abbrev pub items_from : (ℕ → Option (Push T)) → ℕ → ℕ → List T
  items_from f t zero = []
  items_from f t (suc n) = elim (f t) [
    | none ↦ items_from f (suc t) n
    | some p ↦ p.item ∷ items_from f (suc t) n
  ]

  counted_pushes-AllCounted :
      (f : ℕ → Option (Push T)) (n : ℕ) → AllCounted f n → counted_pushes f n ≡ n
  counted_pushes-AllCounted f zero h = refl
  counted_pushes-AllCounted f (suc n) h =
      let (p, e, g) = h n (omega arith) in
      let one : is_counted (f n) ≡ 1 = rw (e, g) refl in
      omega (arith, one, counted_pushes-AllCounted f n (λ k i. h k (omega arith)))

  items_from_at :
      (f : ℕ → Option (Push T)) (t n : ℕ) (p : Push T)
      → f t ≡ some p
      → items_from f t (suc n) ≡ p.item ∷ items_from f (suc t) n
  items_from_at f t n p e = rw (items_from, e) refl

  items_from-Holds :
      (Size : ℕ) (items : ℕ → Option T) (f : ℕ → Option (Push T)) (t n : ℕ)
      → ((k : ℕ) → t ≤ k → k < t + n → items (k % Size) ≡ contents (f k))
      → AllCounted f (t + n)
      → Holds Size items t (map some (items_from f t n)) × (length (items_from f t n) ≡ n)
  items_from-Holds Size items f t zero slots h = (tt, refl)
  items_from-Holds Size items f t (suc n) slots h =
      let (p, e, g) = h t (omega arith) in
      let (rest, length_rest) =
        items_from-Holds Size items f (suc t) n (λ k i j. slots k (omega arith) (omega arith))
          (λ k i. h k (omega arith)) in
      let here : contents (f t) ≡ some p.item = rw (e, g) refl in
      rw (items_from_at f t n p e)
        ((slots t (omega arith) (omega arith) ∙ here, rest), ap suc length_rest)

  -- In every state that the threads lead to on a ring of at least one slot, through states in which the
  -- claims that `pop` has not cleared fit into the ring: when no thread is in `pop` and every push that
  -- claimed a slot is done, the ring is a queue of the items of the pushes behind those that `pop`
  -- returned, in the order of their claims.
  pub rest-IsQueue :
      (Size : ℕ) (s : Shared T)
      → 0 < Size
      → Run Size (HasRoom Size) s
      → s.consumer ≡ idle
      → AllCounted s.pushes s.claims
      → IsQueue Size s.buffer (items_from s.pushes (length s.popped) (s.claims - length s.popped))
  rest-IsQueue Size s roomy r out done =
      let v = Run-IsShared Size s roomy r in
      let sized = Run-IsSized Size s r in
      let ring : IsRing Size s.buffer.available_items s.pushes s.claims s.popped =
        rw out at v.ring in
      let tail_is : s.buffer.tail ≡ length s.popped % Size = rw out at v.placed in
      let fits : s.claims ≤ length s.popped + Size = rw out at (room Size s r) in
      let total : length s.popped + (s.claims - length s.popped) ≡ s.claims =
        omega (arith, ring.behind) in
      let (holds, many) =
        items_from-Holds Size s.buffer.available_items s.pushes (length s.popped)
          (s.claims - length s.popped) (λ k h i. ring.slots k h (omega arith))
          (λ k h. done k (omega arith)) in
      let counts = sized.counts ∙ counted_pushes-AllCounted s.pushes s.claims done in
      record {
        roomy = roomy;
        counted = omega (arith, many, counts);
        bounded = omega (arith, many);
        tail_inside = rw tail_is (mod-lt _ roomy);
        head_is = v.head_is ∙ rw (tail_is, many, mod-add-mod) (ap (λ k. k % Size) (sym total));
        holds =
            Holds-congr Size s.buffer.available_items (length s.popped) s.buffer.tail _
              (rw tail_is (sym (mod-mod (length s.popped) Size))) holds;
      }
