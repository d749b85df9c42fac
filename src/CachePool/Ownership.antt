-- ===== src/CachePool/Ownership.antt =====
-- core/cache/cache_pool.h: every object is either free or handed out, never both.
use native.Mathlib.Nat.{mod-add-mod, mod-eq_of_lt, mod-lt, mod-mod, add_assoc, zero-add, mod_self}
use native.Mathlib.Bridge.{le_prop}
use native.Mathlib.Numerals.{add-one}
use mathlib.Core.List.{
  Nodup, Mem, Nodup-cons, mem-append, perm_middle, append_assoc, append-nil, not-mem-nil, Nodup-nil,
  mem-cons,
}
use mathlib.Core.List.Perm
use mathlib.Core.Logic.Or
use order_book_server_cpp.Prelude.{
  ℕ, zero, suc, ◌+◌, ◌-◌, ◌%◌, ◌<◌, ◌≤◌, ◌≡◌, refl, some, List, [], ◌∷◌, ◌++◌, length,
  length-append, arith, sym, ◌∙◌, ap,
}
use order_book_server_cpp.Prelude.Ring.{write, Holds, Holds-congr, Holds-write_end}
use order_book_server_cpp.CachePool.{
  PoolBuffer, Result, returns, throws, no_available_items, acquire, release, new_pool,
  total_released_items,
}

-- The ring holds the free objects from the head on, the others are handed out, and no object is in
-- both lists or twice in one.
pub record IsPool {ℓ} {T : Type ℓ} (Size : ℕ) (b : PoolBuffer T) (free used : List ℕ) : Type ℓ where
  pub roomy : 0 < Size
  pub counted : b.size ≡ length free
  pub total : length free + length used ≡ Size
  pub head_inside : b.head < Size
  pub tail_is : b.tail ≡ (b.head + length free) % Size
  pub holds : Holds Size b.available_items b.head free
  pub distinct : Nodup (free ++ used)

-- The pointers from `i` up, `n` of them.
abbrev pub pointers : ℕ → ℕ → List ℕ
pointers i zero = []
pointers i (suc n) = i ∷ pointers (suc i) n

mem-pointers_le : (a i n : ℕ) → Mem a (pointers i n) → i ≤ a
mem-pointers_le a i zero m = absurd (not-mem-nil m)
mem-pointers_le a i (suc n) m =
    Or.elim le_prop (mem-cons.0 m) (λ e. omega arith)
      (λ r. omega (arith, mem-pointers_le a (suc i) n r))

pointers-Nodup : (i n : ℕ) → Nodup (pointers i n)
pointers-Nodup i zero = Nodup-nil
pointers-Nodup i (suc n) =
    Nodup-cons.1
      (λ m. absurd (omega (arith, mem-pointers_le i (suc i) n m)), pointers-Nodup (suc i) n)

length-pointers : (i n : ℕ) → length (pointers i n) ≡ n
length-pointers i zero = refl
length-pointers i (suc n) = ap suc (length-pointers (suc i) n)

Holds-pointers : (size i n : ℕ) → i + n ≤ size → Holds size (λ k. k) i (pointers i n)
Holds-pointers size i zero h = tt
Holds-pointers size i (suc n) h =
    (mod-eq_of_lt (omega arith), Holds-pointers size (suc i) n (omega arith))

module _ {ℓ} {T : Type ℓ} (Size : ℕ) where
  -- A new pool of at least one object has all of them free, in the order of their addresses, and
  -- none handed out.
  pub new_pool-IsPool :
      (objects : ℕ → T) → 0 < Size → IsPool Size (new_pool Size objects) (pointers 0 Size) []
  unfolding new_pool
  new_pool-IsPool objects h = record {
    roomy = h;
    counted = sym (length-pointers 0 Size);
    total = omega (arith, length-pointers 0 Size);
    head_inside = h;
    tail_is = rw (length-pointers 0 Size) (sym (rw zero-add (mod_self Size)));
    holds = Holds-pointers Size 0 Size (omega arith);
    distinct = rw append-nil (pointers-Nodup 0 Size);
  }

  acquire-IsPool :
      (init : T → T) (b : PoolBuffer T) (x : ℕ) (free used : List ℕ)
      → IsPool Size b (x ∷ free) used
      → (c : PoolBuffer T) × (acquire Size init b ≡ returns (c, x))
        × IsPool Size c free (x ∷ used)
        × (¬ Mem x used)
        × ((p : ℕ) → c.objects p ≡ write b.objects x (init (b.objects x)) p)
  unfolding acquire
  acquire-IsPool init b x free used v =
      let here : b.available_items b.head ≡ x = rw (mod-eq_of_lt v.head_inside) at (v.holds.0) in
      let apart = Nodup-cons.0 v.distinct in
      (
        record {
          available_items = b.available_items;
          objects = write b.objects x (init (b.objects x));
          head = (b.head + 1) % Size;
          tail = b.tail;
          size = b.size - 1;
        },
        ground arith,
        record {
          roomy = v.roomy;
          counted = omega (arith, v.counted);
          total = omega (arith, v.total);
          head_inside = mod-lt _ v.roomy;
          tail_is =
              let e : b.head + suc (length free) ≡ b.head + 1 + length free = omega arith in
              v.tail_is ∙ ap (λ k. k % Size) e ∙ sym (mod-add-mod (b.head + 1) Size (length free));
          holds =
              Holds-congr Size b.available_items (b.head + 1) ((b.head + 1) % Size) free
                (sym (mod-mod (b.head + 1) Size)) (rw add-one (v.holds.1));
          distinct = Perm.nodup (Perm.symm (perm_middle free used)) v.distinct;
        },
        λ m. apart.0 (mem-append.1 (Or.inr m)),
        λ p. refl,
      )

  -- `release` of a handed-out object puts it at the end of the free ones, with `clear` called on it.
  pub release-IsPool :
      (clear : T → T) (b : PoolBuffer T) (x : ℕ) (free before after : List ℕ)
      → IsPool Size b free (before ++ x ∷ after)
      → (c : PoolBuffer T) × (release Size clear (some x) b ≡ returns c)
        × IsPool Size c (free ++ x ∷ []) (before ++ after)
        × ((p : ℕ) → c.objects p ≡ write b.objects x (clear (b.objects x)) p)
  unfolding release
  release-IsPool clear b x free before after v = (
    record {
      available_items = write b.available_items b.tail x;
      objects = write b.objects x (clear (b.objects x));
      head = b.head;
      tail = (b.tail + 1) % Size;
      size = b.size + 1;
    },
    refl,
    record {
      roomy = v.roomy;
      counted = omega (arith, v.counted, length-append free (x ∷ []));
      total = omega (
        arith,
        v.total,
        length-append free (x ∷ []),
        length-append before after,
        length-append before (x ∷ after),
      );
      head_inside = v.head_inside;
      tail_is =
          rw (v.tail_is, mod-add-mod, length-append)
            (ap (λ k. k % Size) (add_assoc b.head (length free) 1));
      holds = rw v.tail_is (
          Holds-write_end Size b.available_items b.head free x
            (omega (arith, v.total, length-append before (x ∷ after))) v.holds);
      distinct =
          rw append_assoc
            (Perm.nodup (Perm.append_left free (perm_middle before after)) v.distinct);
    },
    λ p. refl,
  )

  acquire_empty :
      (init : T → T) (b : PoolBuffer T) (used : List ℕ)
      → IsPool Size b [] used
      → acquire Size init b ≡ throws no_available_items
  unfolding acquire
  acquire_empty init b used v = ground arith

  -- On a pool `total_released_items` is the number of objects that are handed out.
  total_released_items-length :
      (b : PoolBuffer T) (free used : List ℕ)
      → IsPool Size b free used
      → total_released_items Size b ≡ length used
  unfolding total_released_items
  total_released_items-length b free used v = omega (arith, v.counted, v.total)

  abbrev pub Acquires :
      (T → T) → PoolBuffer T → List ℕ → List ℕ → Result (PoolBuffer T × ℕ) → Type ℓ
  Acquires init b [] used r = r ≡ throws no_available_items
  Acquires init b (x ∷ free) used r =
      (c : PoolBuffer T) × (r ≡ returns (c, x))
      × IsPool Size c free (x ∷ used)
      × (¬ Mem x used)
      × ((p : ℕ) → c.objects p ≡ write b.objects x (init (b.objects x)) p)

  -- `acquire` throws on a pool with no free object. Else it returns the first free one, which nobody
  -- holds, with `init` called on it and every other object as it was, and the pool counts it as
  -- handed out.
  pub acquire-Acquires :
      (init : T → T) (b : PoolBuffer T) (free used : List ℕ)
      → IsPool Size b free used
      → Acquires init b free used (acquire Size init b)
  acquire-Acquires init b [] used v = acquire_empty init b used v
  acquire-Acquires init b (x ∷ free) used v = acquire-IsPool init b x free used v
