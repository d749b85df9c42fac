-- ===== src/Prelude/Ring.antt =====
-- Arrays of `N` slots that are walked round, with the indices taken modulo `N`: the shape that
-- core/queue/mpsc_queue.h and core/cache/cache_pool.h share.
use native.Mathlib.Nat.{mod-add-mod, add-zero}
use native.Mathlib.Numerals.{add-one}
use Prim.Native.Nat.{ℕ, suc, ◌+◌, ◌%◌, ◌≤◌, ◌<◌}
use mathlib.Core.Path.{subst, ◌≡◌, sym, refl}
use mathlib.Core.Logic.{◌≢◌}
use mathlib.Core.List.{List, [], ◌∷◌, ◌++◌}
use native.Mathlib.Omega.{arith}
use order_book_server_cpp.Prelude.Tests.{◌==◌, ==_refl, if◌then◌else◌}
use order_book_server_cpp.Prelude.Lists.{length}

-- `slots[i] = a`
abbrev pub write {ℓ} : {A : Type ℓ} → (ℕ → A) → ℕ → A → ℕ → A
write f i a j = if i == j then a else f j

module _ {ℓ} {A : Type ℓ} where
  pub write_at : (f : ℕ → A) (i : ℕ) (a : A) → write f i a i ≡ a
  write_at f i a = rw (==_refl i) refl

  pub write_off : (f : ℕ → A) (i j : ℕ) (a : A) → i ≢ j → write f i a j ≡ f j
  write_off f i j a n = ground arith

pub mod_ne : (n a d : ℕ) → 0 < d → d < n → a % n ≢ (a + d) % n
mod_ne n a d p h e = grind arith

pub add_round : (n a : ℕ) → 0 < n → (a + n) % n ≡ a % n
add_round n a h = grind arith

suc_mod : (n s t : ℕ) → s % n ≡ t % n → suc s % n ≡ suc t % n
suc_mod n s t e = rw (← add-one s, ← add-one t, ← mod-add-mod s n 1, ← mod-add-mod t n 1, e)

module _ {ℓ} {A : Type ℓ} (n : ℕ) where
  -- The slots from `t` on hold the list, one item a slot.
  abbrev pub Holds : (ℕ → A) → ℕ → List A → Type ℓ
  Holds f t [] = Unit
  Holds f t (x ∷ xs) = (f (t % n) ≡ x) × Holds f (suc t) xs

  -- Indices that agree modulo `n` name the same slots.
  pub Holds-congr :
      (f : ℕ → A) (s t : ℕ) (xs : List A) → s % n ≡ t % n → Holds f s xs → Holds f t xs
  Holds-congr f s t [] e h = tt
  Holds-congr f s t (x ∷ xs) e h =
      (rw (← e) h.0, Holds-congr f (suc s) (suc t) xs (suc_mod n s t e) h.1)

  -- The slot behind the last item takes a new one.
  pub Holds-write_end :
      (f : ℕ → A) (t : ℕ) (xs : List A) (a : A)
      → length xs < n
      → Holds f t xs
      → Holds (write f ((t + length xs) % n) a) t (xs ++ a ∷ [])
  Holds-write_end f t [] a h hs = (ground (arith, add-zero t), tt)
  Holds-write_end f t (x ∷ xs) a h hs = (
    ground (arith, mod_ne n t (suc (length xs))),
    let e : t + suc (length xs) ≡ suc t + length xs = omega arith in
        subst (λ k. Holds (write f (k % n) a) (suc t) (xs ++ a ∷ [])) (sym e)
          (Holds-write_end f (suc t) xs a (omega arith) hs.1),
  )

  -- A write to the slot at `t` leaves the items that start `d` slots later.
  pub Holds-write_front :
      (f : ℕ → A) (t d : ℕ) (xs : List A) (a : A)
      → 0 < d
      → d + length xs ≤ n
      → Holds f (t + d) xs
      → Holds (write f (t % n) a) (t + d) xs
  Holds-write_front f t d [] a p h hs = tt
  Holds-write_front f t d (x ∷ xs) a p h hs = (
    ground (arith, mod_ne n t d),
    let e : suc (t + d) ≡ t + suc d = omega arith in
        rw e (Holds-write_front f t (suc d) xs a (omega arith) (omega arith) (rw e at (hs.1))),
  )
