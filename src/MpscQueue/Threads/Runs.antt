-- ===== src/MpscQueue/Threads/Runs.antt =====
-- core/queue/mpsc_queue.h: what holds in every state that the threads lead to.
pub mod Rest
pub mod Alone
use order_book_server_cpp.Prelude.{
  ℕ, zero, suc, ◌+◌, ◌%◌, ◌<◌, ◌≤◌, ◌≡◌, refl, sym, ◌∙◌, ap, Option, none, some, List, [], ◌∷◌,
  ◌++◌, length, length-append, get_elem?, get_or, get_elem?-inside, get_elem?-append_left, arith,
  Option-cases, inl, inr,
}
use order_book_server_cpp.MpscQueue.Threads.{
  Stage, claimed, stored, counted, Push, Consumer, idle, tested, loaded, cleared, moved, Shared,
  new_shared, Run, starts, goes,
}
use order_book_server_cpp.MpscQueue.Threads.Counts.{counted_pushes, busy, Run-IsSized}
use order_book_server_cpp.MpscQueue.Threads.Slots.{contents, stored_item, IsRing}
use order_book_server_cpp.MpscQueue.Threads.Moves.{IsShared, HasRoom, taken, Step-IsShared}

module _ {ℓ} {T : Type ℓ} where
  start-IsShared : (Size : ℕ) → IsShared {T = T} Size new_shared
  start-IsShared Size = record {
    ring = record {
      fresh = λ k h. refl;
      indexed = λ k p h. cc h;
      behind = omega arith;
      passed = λ k h. absurd (omega arith);
      slots = λ k h i. refl;
    };
    head_is = omega arith;
    placed = omega arith;
    oldest = tt;
  }

  pub room : (Size : ℕ) (s : Shared T) → Run Size (HasRoom Size) s → HasRoom Size s
  room Size _ starts = omega arith
  room Size s (goes r step ok) = ok

  pub Run-IsShared :
      (Size : ℕ) (s : Shared T) → 0 < Size → Run Size (HasRoom Size) s → IsShared Size s
  Run-IsShared Size _ roomy starts = start-IsShared Size
  Run-IsShared Size t roomy (goes {s = s} r step ok) =
      Step-IsShared Size s t roomy (room Size s r) step (Run-IsShared Size s roomy r)

  item_of : (x y : T) (g : Stage) → stored_item x g ≡ some y → x ≡ y
  item_of x y claimed h = cc h
  item_of x y stored h = cc h
  item_of x y counted h = cc h

  -- What a push whose slot has an item is.
  pub with_contents :
      (o : Option (Push T)) (x : T)
      → contents o ≡ some x
      → (p : Push T) × (o ≡ some p) × (p.item ≡ x)
  with_contents none x h = cc h
  with_contents (some p) x h = (p, refl, item_of p.item x p.stage h)

  taken-popped :
      (c : Consumer T) (xs : List T) (k : ℕ)
      → k < length xs
      → (get_elem? (taken c xs) k ≡ get_elem? xs k) × (length xs ≤ length (taken c xs))
  taken-popped idle xs k h = (refl, omega arith)
  taken-popped tested xs k h = (refl, omega arith)
  taken-popped (loaded i x) xs k h = (refl, omega arith)
  taken-popped (cleared i x) xs k h =
      (get_elem?-append_left xs (x ∷ []) k h, omega (arith, length-append xs (x ∷ [])))
  taken-popped (moved x) xs k h =
      (get_elem?-append_left xs (x ∷ []) k h, omega (arith, length-append xs (x ∷ [])))

  -- In every state that any number of threads in `push` and one in `pop` lead to on a ring of at least
  -- one slot, through states in which the claims that `pop` has not cleared fit into the ring: the item
  -- that `pop` returned k-th is the item of the push whose exchange of the head was the k-th, for every
  -- k below the number of items returned.
  pub popped-fifo :
      (Size : ℕ) (s : Shared T) (k : ℕ)
      → 0 < Size
      → Run Size (HasRoom Size) s
      → k < length s.popped
      → (p : Push T) × (s.pushes k ≡ some p) × (get_elem? s.popped k ≡ some p.item)
  popped-fifo Size s k roomy r h =
      let v = Run-IsShared Size s roomy r in
      let (same, le) = taken-popped s.consumer s.popped k h in
      let passed = v.ring.passed k (omega (arith, le)) in
      let (x, e) = get_elem?-inside s.popped k h in
      let (p, is_p, item) = with_contents (s.pushes k) x (passed ∙ same ∙ e) in
      (p, is_p, cc (e, item))

  -- In every state that any number of threads lead to, on a ring of any size: the size and the number of
  -- items that `pop` returned make the number of pushes that have been counted, and where `pop` is past
  -- its test the size is not 0, so that its decrement does not wrap.
  size-counts {κ} :
      {Allowed : Shared T → Type κ} (Size : ℕ) (s : Shared T)
      → Run Size Allowed s
      → (s.buffer.size + length s.popped ≡ counted_pushes s.pushes s.claims)
        × (busy s.consumer ≤ s.buffer.size)
  size-counts Size s r = let v = Run-IsSized Size s r in (v.counts, v.positive)
