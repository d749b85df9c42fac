-- ===== src/MpscQueue/Threads/Moves.antt =====
-- core/queue/mpsc_queue.h: what each step of a thread keeps.
use native.Mathlib.Nat.{mod-add-mod}
use native.Mathlib.Numerals.{add-one}
use order_book_server_cpp.Prelude.{
  ℕ, ◌+◌, ◌%◌, ◌<◌, ◌≤◌, ◌≡◌, refl, sym, ◌∙◌, ap, Option, none, some, List, [], ◌∷◌, ◌++◌, length,
  length-append, arith,
}
use order_book_server_cpp.Prelude.Ring.{write, write_off}
use order_book_server_cpp.MpscQueue.Threads.{
  claimed, counted, Push, Consumer, idle, tested, loaded, cleared, moved, Shared, Step, push_tests,
  push_reads_head, push_claims, push_stores, push_counts, pop_tests, pop_loads, pop_loads_null,
  pop_clears, pop_moves_tail, pop_returns,
}
use order_book_server_cpp.MpscQueue.Threads.Counts.{claimed_before}
use order_book_server_cpp.MpscQueue.Threads.Slots.{
  contents, contents-write, IsRing, claim-IsRing, changed-IsRing, store-IsRing, clear-IsRing,
}

next_index : (Size a b : ℕ) → a ≡ b % Size → (a + 1) % Size ≡ (b + 1) % Size
next_index Size a b e = rw e (mod-add-mod b Size 1)

module _ {ℓ} {T : Type ℓ} where
  -- The items whose slots `pop` cleared: those that it returned, and the one in its hands.
  abbrev pub taken : Consumer T → List T → List T
  taken idle xs = xs
  taken tested xs = xs
  taken (loaded _ _) xs = xs
  taken (cleared _ x) xs = xs ++ x ∷ []
  taken (moved x) xs = xs ++ x ∷ []

  -- Where the tail is, and the index that the thread in `pop` read.
  abbrev pub Placed : ℕ → Consumer T → ℕ → List T → Type 0
  Placed Size idle tail xs = tail ≡ length xs % Size
  Placed Size tested tail xs = tail ≡ length xs % Size
  Placed Size (loaded i x) tail xs = (tail ≡ length xs % Size) × (i ≡ tail)
  Placed Size (cleared i x) tail xs = (tail ≡ length xs % Size) × (i ≡ tail)
  Placed Size (moved x) tail xs = tail ≡ length (xs ++ x ∷ []) % Size

  -- The item that it loaded is that of the oldest push.
  abbrev pub IsOldest : Consumer T → List T → (ℕ → Option (Push T)) → Type ℓ
  IsOldest (loaded i x) xs f = contents (f (length xs)) ≡ some x
  IsOldest _ xs f = Unit

  pub record IsShared (Size : ℕ) (s : Shared T) : Type ℓ where
    pub ring : IsRing Size s.buffer.available_items s.pushes s.claims (taken s.consumer s.popped)
    pub head_is : s.buffer.head ≡ s.claims % Size
    pub placed : Placed Size s.consumer s.buffer.tail s.popped
    pub oldest : IsOldest s.consumer s.popped s.pushes

  -- The claims that `pop` has not cleared fit into the ring.
  abbrev pub HasRoom : ℕ → Shared T → Type 0
  HasRoom Size s = s.claims ≤ length (taken s.consumer s.popped) + Size

  IsOldest-write :
      (c : Consumer T) (xs : List T) (f g : ℕ → Option (Push T))
      → ((j : ℕ) (x : T) → contents (f j) ≡ some x → contents (g j) ≡ some x)
      → IsOldest c xs f
      → IsOldest c xs g
  IsOldest-write (loaded i x) xs f g h v = h (length xs) x v
  IsOldest-write idle xs f g h v = tt
  IsOldest-write tested xs f g h v = tt
  IsOldest-write (cleared i x) xs f g h v = tt
  IsOldest-write (moved x) xs f g h v = tt

  pub Step-IsShared :
      (Size : ℕ) (s t : Shared T)
      → 0 < Size
      → HasRoom Size s
      → Step Size s t
      → IsShared Size s
      → IsShared Size t
  Step-IsShared Size s _ roomy room (push_tests _ item h) v = record {
    ring = v.ring;
    head_is = v.head_is;
    placed = v.placed;
    oldest = v.oldest;
  }
  Step-IsShared Size s _ roomy room (push_reads_head _ before after w e) v = record {
    ring = v.ring;
    head_is = v.head_is;
    placed = v.placed;
    oldest = v.oldest;
  }
  Step-IsShared Size s _ roomy room (push_claims _ before after w current e r same) v =
      let p : Push T = record { item = w.item; head_index = current; stage = claimed } in
      let nothing : contents (some p) ≡ contents (s.pushes s.claims) =
        sym (ap contents (v.ring.fresh s.claims (omega arith))) in
      record {
        ring = claim-IsRing Size _ s.pushes s.claims _ w.item current v.ring (sym same ∙ v.head_is);
        head_is =
            next_index Size current s.claims (sym same ∙ v.head_is)
            ∙ ap (λ k. k % Size) (add-one s.claims);
        placed = v.placed;
        oldest =
            IsOldest-write s.consumer s.popped s.pushes (write s.pushes s.claims (some p))
              (λ j x h. contents-write s.pushes s.claims j p nothing ∙ h) v.oldest;
      }
  Step-IsShared Size s _ roomy room (push_stores _ k p e g) v =
      let nothing : contents (s.pushes k) ≡ none = rw (e, g) refl in
      record {
        ring =
            store-IsRing Size _ s.pushes s.claims _ k p v.ring (claimed_before s k p v.ring.fresh e)
              room e g;
        head_is = v.head_is;
        placed = v.placed;
        oldest =
            IsOldest-write s.consumer s.popped s.pushes _
              (λ j x h.
                ap contents (
                  write_off s.pushes k j _
                    (λ m. cc (nothing, h, ap (λ i. contents (s.pushes i)) m)))
                ∙ h)
              v.oldest;
      }
  Step-IsShared Size s _ roomy room (push_counts _ k p e g) v =
      let q : Push T = record p { stage = counted } in
      let same : contents (some q) ≡ contents (some p) = rw g refl in
      record {
        ring =
            changed-IsRing Size _ s.pushes s.claims _ k p q v.ring
              (claimed_before s k p v.ring.fresh e) e refl same;
        head_is = v.head_is;
        placed = v.placed;
        oldest =
            IsOldest-write s.consumer s.popped s.pushes (write s.pushes k (some q))
              (λ j x h. contents-write s.pushes k j q (same ∙ sym (ap contents e)) ∙ h) v.oldest;
      }
  Step-IsShared Size s _ roomy room (pop_tests _ e h) v = record {
    ring = rw e at v.ring;
    head_is = v.head_is;
    placed = rw e at v.placed;
    oldest = tt;
  }
  Step-IsShared Size s _ roomy room (pop_loads _ item e h) v =
      let ring = rw e at v.ring in
      let stands : s.buffer.tail ≡ length s.popped % Size = rw e at v.placed in
      record {
        ring = ring;
        head_is = v.head_is;
        placed = (stands, refl);
        oldest =
            sym (ring.slots (length s.popped) (omega arith) (omega arith))
            ∙ sym (ap s.buffer.available_items stands)
            ∙ h;
      }
  Step-IsShared Size s _ roomy room (pop_loads_null _ e h) v = record {
    ring = rw e at v.ring;
    head_is = v.head_is;
    placed = rw e at v.placed;
    oldest = tt;
  }
  Step-IsShared Size s _ roomy room (pop_clears _ tail_index item e) v =
      let stands : Placed Size (loaded tail_index item) s.buffer.tail s.popped = rw e at v.placed in
      let room : s.claims ≤ length s.popped + Size = rw e at room in
      record {
        ring =
            rw (stands.1, stands.0)
              (clear-IsRing Size _ s.pushes s.claims s.popped item (rw e at v.ring) roomy room
                (rw e at v.oldest));
        head_is = v.head_is;
        placed = stands;
        oldest = tt;
      }
  Step-IsShared Size s _ roomy room (pop_moves_tail _ tail_index item e) v =
      let stands : Placed Size (cleared tail_index item) s.buffer.tail s.popped =
        rw e at v.placed in
      record {
        ring = rw e at v.ring;
        head_is = v.head_is;
        oldest = tt;
        placed =
            next_index Size tail_index (length s.popped) (stands.1 ∙ stands.0)
            ∙ ap (λ k. k % Size) (sym (length-append s.popped (item ∷ [])));
      }
  Step-IsShared Size s _ roomy room (pop_returns _ item e) v = record {
    ring = rw e at v.ring;
    head_is = v.head_is;
    placed = rw e at v.placed;
    oldest = tt;
  }
