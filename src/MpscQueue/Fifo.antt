-- ===== src/MpscQueue/Fifo.antt =====
-- core/queue/mpsc_queue.h against a first-in first-out list.
use native.Mathlib.Nat.{mod-add-mod, mod-eq_of_lt, mod-lt, mod-mod}
use native.Mathlib.Numerals.{add-one}
use mathlib.Core.Path.{subst}
use native.Mathlib.Nat.{add_assoc}
use mathlib.Core.List.{map, map-append}
use order_book_server_cpp.Prelude.{
  ℕ, suc, ◌-◌, length-map, ◌+◌, ◌%◌, ◌<◌, ◌≤◌, ◌≡◌, refl, Option, none, some, List, [], ◌∷◌, ◌++◌,
  length, length-append, arith, sym, ◌∙◌, ap,
}
use order_book_server_cpp.Prelude.Ring.{
  write, Holds, Holds-congr, Holds-write_end, Holds-write_front,
}
use order_book_server_cpp.MpscQueue.{
  PoolBuffer, pushed, throws, queue_is_full, null_item, new_buffer, push, pop,
}

-- The ring holds `xs`, oldest first, from the tail on.
pub record IsQueue {ℓ} {T : Type ℓ} (Size : ℕ) (b : PoolBuffer T) (xs : List T) : Type ℓ where
  pub roomy : 0 < Size
  pub counted : b.size ≡ length xs
  pub bounded : length xs ≤ Size
  pub tail_inside : b.tail < Size
  pub head_is : b.head ≡ (b.tail + length xs) % Size
  pub holds : Holds Size b.available_items b.tail (map some xs)

module _ {ℓ} {T : Type ℓ} (Size : ℕ) where
  pub new_buffer-IsQueue : 0 < Size → IsQueue {T = T} Size new_buffer []
  unfolding new_buffer
  new_buffer-IsQueue h = record {
    roomy = h;
    counted = refl;
    bounded = omega arith;
    tail_inside = h;
    head_is = omega arith;
    holds = tt;
  }

  abbrev after_push : PoolBuffer T → T → PoolBuffer T
  after_push b item = record {
    available_items = write b.available_items b.head (some item);
    head = (b.head + 1) % Size;
    tail = b.tail;
    size = b.size + 1;
  }

  abbrev after_pop : PoolBuffer T → PoolBuffer T
  after_pop b = record b {
    available_items = write b.available_items b.tail none;
    tail = (b.tail + 1) % Size;
    size = b.size - 1;
  }

  -- `push` of an item on a ring that is not full puts it behind the others.
  push-IsQueue :
      (b : PoolBuffer T) (xs : List T) (item : T)
      → IsQueue Size b xs
      → length xs < Size
      → (c : PoolBuffer T) × (push Size (some item) b ≡ pushed c) × IsQueue Size c (xs ++ item ∷ [])
  unfolding push
  push-IsQueue b xs item q h = (
    after_push b item,
    ground arith,
    record {
      roomy = q.roomy;
      counted = omega (arith, q.counted, length-append xs (item ∷ []));
      bounded = omega (arith, length-append xs (item ∷ []));
      tail_inside = q.tail_inside;
      head_is =
          rw (q.head_is, mod-add-mod, length-append)
            (ap (λ k. k % Size) (add_assoc b.tail (length xs) 1));
      holds =
          rw (q.head_is, map-append)
            (subst
              (λ k.
                Holds Size (write b.available_items ((b.tail + k) % Size) (some item)) b.tail
                  (map some xs ++ some item ∷ []))
              (length-map xs some)
              (Holds-write_end Size b.available_items b.tail (map some xs) (some item)
                (rw length-map h) q.holds));
    },
  )

  push_full :
      (b : PoolBuffer T) (xs : List T) (item : T)
      → IsQueue Size b xs
      → length xs ≡ Size
      → push Size (some item) b ≡ throws queue_is_full
  unfolding push
  push_full b xs item q h = ground arith

  front :
      (b : PoolBuffer T) (xs : List T) (x : T)
      → IsQueue Size b (x ∷ xs)
      → Holds Size (write b.available_items b.tail none) (b.tail + 1) (map some xs)
  front b xs x q =
      let h =
        Holds-write_front Size b.available_items b.tail 1 (map some xs) none (omega arith)
          (rw length-map (omega (arith, q.bounded))) (rw add-one (q.holds.1)) in
      rw (mod-eq_of_lt q.tail_inside) at h

  -- `pop` takes the oldest item off, and returns null exactly when there is none.
  pop-IsQueue :
      (b : PoolBuffer T) (xs : List T) (x : T)
      → IsQueue Size b (x ∷ xs)
      → (c : PoolBuffer T) × (pop Size b ≡ (c, some x)) × IsQueue Size c xs
  unfolding pop
  pop-IsQueue b xs x q = (
    after_pop b,
    ground (arith, mod-eq_of_lt q.tail_inside),
    record {
      roomy = q.roomy;
      counted = omega (arith, q.counted);
      bounded = omega (arith, q.bounded);
      tail_inside = mod-lt _ q.roomy;
      head_is =
          let e : b.tail + suc (length xs) ≡ b.tail + 1 + length xs = omega arith in
          q.head_is ∙ ap (λ k. k % Size) e ∙ sym (mod-add-mod (b.tail + 1) Size (length xs));
      holds =
          Holds-congr Size (write b.available_items b.tail none) (b.tail + 1) ((b.tail + 1) % Size)
            (map some xs) (sym (mod-mod (b.tail + 1) Size)) (front b xs x q);
    },
  )

  pop_empty : (b : PoolBuffer T) → IsQueue Size b [] → pop Size b ≡ (b, none)
  unfolding pop
  pop_empty b q = ground arith

  -- On a ring that holds `xs`, `push` of an item puts it behind the others if a slot is free, and
  -- throws if none is; `push` of null throws.
  push-fifo :
      (b : PoolBuffer T) (xs : List T) (item : T)
      → IsQueue Size b xs
      → (length xs < Size
          → (c : PoolBuffer T) × (push Size (some item) b ≡ pushed c)
            × IsQueue Size c (xs ++ item ∷ []))
        × (length xs ≡ Size → push Size (some item) b ≡ throws queue_is_full)
        × (push Size none b ≡ throws null_item)
  unfolding push
  push-fifo b xs item q = (λ h. push-IsQueue b xs item q h, λ h. push_full b xs item q h, refl)

  abbrev pub Pops : List T → PoolBuffer T × Option T → Type ℓ
  Pops [] r = (r.1 ≡ none) × IsQueue Size r.0 []
  Pops (x ∷ xs) r = (r.1 ≡ some x) × IsQueue Size r.0 xs

  -- On a ring that holds `xs`, `pop` takes the oldest item off and returns it, and returns null and
  -- leaves the ring empty if it held none.
  pop-fifo : (b : PoolBuffer T) (xs : List T) → IsQueue Size b xs → Pops xs (pop Size b)
  pop-fifo b [] q = rw (pop_empty b q) (refl, q)
  pop-fifo b (x ∷ xs) q = let (c, run, r) = pop-IsQueue b xs x q in rw run (refl, r)
