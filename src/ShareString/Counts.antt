-- ===== src/ShareString/Counts.antt =====
-- core/cache/share_string.cpp: the counts of the strings in the pool.
use native.Mathlib.Nat.{mod-eq_of_lt}
use mathlib.Core.List.{Mem, Nodup-cons, mem-append, mem-cons, perm_middle, append_assoc}
use mathlib.Core.List.Perm
use mathlib.Core.Logic.Or
use order_book_server_cpp.Prelude.{
  ℕ, ◌+◌, ◌-◌, ◌^◌, ◌≤◌, ◌<◌, ◌≡◌, refl, sym, ap, Bool, true, false, ◌||◌, List, [], ◌∷◌, ◌++◌, leb,
  leb→le, ◌==◌, if◌then◌else◌, arith, Bool-cases, inl, inr,
}
use order_book_server_cpp.Prelude.Ring.{write}
use order_book_server_cpp.CachePool.Ownership.{IsPool}
use order_book_server_cpp.ShareString.{
  StringReference, StringPool, set_reference, retain, release_count,
}

abbrev pub has : ℕ → List ℕ → Bool
has a [] = false
has a (x ∷ xs) = (x == a) || has a xs

abbrev pub one_at : ℕ → ℕ → ℕ
one_at x a = if x == a then 1 else 0

-- The strings handed out are those that objects refer to, and the count of each is the number of the
-- objects, which is what `h` gives of an address.
pub record IsCounted (Size : ℕ) (p : StringPool) (free used : List ℕ) (h : ℕ → ℕ) : Type 0 where
  pub pool : IsPool Size p free used
  pub counts : (a : ℕ) → has a used ≡ true → (p.objects a).count ≡ h a
  pub positive : (a : ℕ) → has a used ≡ true → 1 ≤ h a
  pub owned : (a : ℕ) → 1 ≤ h a → has a used ≡ true

has-Mem : (a : ℕ) (xs : List ℕ) → has a xs ≡ true → Mem a xs
has-Mem a [] h = cc
has-Mem a (x ∷ xs) h = elim (Bool-cases (x == a)) [
  | inl e ↦ mem-cons.1 (Or.inl (ground arith))
  | inr e ↦ mem-cons.1 (Or.inr (has-Mem a xs (ground arith)))
]

pub split :
    (a : ℕ) (xs : List ℕ)
    → has a xs ≡ true
    → (before : List ℕ) × (after : List ℕ) × (xs ≡ before ++ a ∷ after)
split a [] h = cc
split a (x ∷ xs) h = elim (Bool-cases (x == a)) [
  | inl e ↦ ([], xs, ap (λ y. y ∷ xs) (ground arith))
  | inr e ↦
      let (before, after, same) = split a xs (ground arith) in (x ∷ before, after, ap (◌∷◌ x) same)
]

has-append : (a : ℕ) (xs ys : List ℕ) → has a (xs ++ ys) ≡ (has a xs || has a ys)
has-append a [] ys = refl
has-append a (x ∷ xs) ys = ground (arith, has-append a xs ys)

has-around :
    (x a : ℕ) (before after : List ℕ)
    → has a (before ++ after) ≡ true
    → has a (before ++ x ∷ after) ≡ true
has-around x a before after m =
    ground (arith, has-append a before after, has-append a before (x ∷ after))

has-other :
    (x a : ℕ) (before after : List ℕ)
    → (x == a) ≡ false
    → has a (before ++ x ∷ after) ≡ true
    → has a (before ++ after) ≡ true
has-other x a before after e m =
    ground (arith, has-append a before after, has-append a before (x ∷ after))

pub equal : (x a : ℕ) → (x == a) ≡ true → x ≡ a
equal x a e = ground arith

module _ (Size : ℕ) where
  pub IsPool-set_reference :
      (a : ℕ) (r : StringReference) (p : StringPool) (free used : List ℕ)
      → IsPool Size p free used
      → IsPool Size (set_reference a r p) free used
  IsPool-set_reference a r p free used v = record {
    roomy = v.roomy;
    counted = v.counted;
    total = v.total;
    head_inside = v.head_inside;
    tail_is = v.tail_is;
    holds = v.holds;
    distinct = v.distinct;
  }

  -- One more object for a string that has one.
  pub retain-IsCounted :
      (x : ℕ) (p : StringPool) (free used : List ℕ) (h : ℕ → ℕ)
      → IsCounted Size p free used h
      → 1 ≤ h x
      → h x + 1 < 2 ^ 32
      → IsCounted Size (retain x p) free used (λ a. h a + one_at x a)
  unfolding retain
  retain-IsCounted x p free used h v one small = record {
    pool = IsPool-set_reference x _ p free used v.pool;
    counts = λ a m. elim (Bool-cases (x == a)) [
      | inl e ↦
          rw (e, v.counts x (v.owned x one), mod-eq_of_lt small) (ap (λ y. h y + 1) (equal x a e))
      | inr e ↦ rw e (omega (arith, v.counts a m))
    ];
    positive = λ a m. omega (arith, v.positive a m);
    owned = λ a m. elim (Bool-cases (x == a)) [
      | inl e ↦ rw (equal x a e) at (v.owned x one)
      | inr e ↦ v.owned a (omega (arith, rw e at m))
    ];
  }

  pub unowned :
      (x : ℕ) (p : StringPool) (free used : List ℕ) (h : ℕ → ℕ)
      → IsCounted Size p free used h
      → ¬ Mem x used
      → h x ≡ 0
  unowned x p free used h v fresh = elim (Bool-cases (leb 1 (h x))) [
    | inl e ↦ absurd (fresh (has-Mem x used (v.owned x (leb→le 1 (h x) e))))
    | inr e ↦ ground arith
  ]

  -- The first object of a string that was free.
  pub new-IsCounted :
      (x : ℕ) (p q : StringPool) (r : StringReference) (free used : List ℕ) (h : ℕ → ℕ)
      → IsCounted Size p (x ∷ free) used h
      → IsPool Size q free (x ∷ used)
      → ¬ Mem x used
      → ((a : ℕ) → q.objects a ≡ write p.objects x (p.objects x) a)
      → r.count ≡ 1
      → IsCounted Size (set_reference x r q) free (x ∷ used) (λ a. h a + one_at x a)
  new-IsCounted x p q r free used h v w fresh same one = record {
    pool = IsPool-set_reference x r q free (x ∷ used) w;
    counts = λ a m. elim (Bool-cases (x == a)) [
      | inl e ↦ rw e (omega (arith, one, ap h (equal x a e), unowned x p (x ∷ free) used h v fresh))
      | inr e ↦ rw (e, same a, e) (omega (arith, v.counts a (rw e at m)))
    ];
    positive = λ a m. elim (Bool-cases (x == a)) [
      | inl e ↦ rw e (omega arith)
      | inr e ↦ rw e (omega (arith, v.positive a (rw e at m)))
    ];
    owned = λ a m. elim (Bool-cases (x == a)) [
      | inl e ↦ rw e refl
      | inr e ↦ rw e (v.owned a (omega (arith, rw e at m)))
    ];
  }

  -- One object less for a string that has more than one.
  pub fewer-IsCounted :
      (x : ℕ) (p : StringPool) (free used : List ℕ) (h : ℕ → ℕ)
      → IsCounted Size p free used h
      → 1 < h x
      → h x < 2 ^ 32
      → IsCounted Size ((release_count x p).0) free used (λ a. h a - one_at x a)
  unfolding release_count
  fewer-IsCounted x p free used h v more small = record {
    pool = IsPool-set_reference x _ p free used v.pool;
    counts = λ a m. elim (Bool-cases (x == a)) [
      | inl e ↦ rw (e, v.counts x (v.owned x (omega arith))) (omega (arith, ap h (equal x a e)))
      | inr e ↦ rw e (omega (arith, v.counts a m))
    ];
    positive = λ a m. elim (Bool-cases (x == a)) [
      | inl e ↦ rw e (omega (arith, ap h (equal x a e)))
      | inr e ↦ rw e (omega (arith, v.positive a m))
    ];
    owned = λ a m. v.owned a (omega arith);
  }

  gone :
      (x : ℕ) (q : StringPool) (free used : List ℕ)
      → IsPool Size q (free ++ x ∷ []) used
      → ¬ Mem x used
  gone x q free used w m =
      let apart = Perm.nodup (perm_middle free used) (rw append_assoc at w.distinct) in
      (Nodup-cons.0 apart).0 (mem-append.1 (Or.inr m))

  -- The last object of a string gone, the string is free.
  pub last-IsCounted :
      (x : ℕ) (p q : StringPool) (free before after : List ℕ) (h : ℕ → ℕ)
      → IsCounted Size p free (before ++ x ∷ after) h
      → h x ≡ 1
      → IsPool Size q (free ++ x ∷ []) (before ++ after)
      → ((a : ℕ) → (x == a) ≡ false → q.objects a ≡ p.objects a)
      → IsCounted Size q (free ++ x ∷ []) (before ++ after) (λ a. h a - one_at x a)
  last-IsCounted x p q free before after h v one w same = record {
    pool = w;
    counts = λ a m. elim (Bool-cases (x == a)) [
      | inl e ↦ absurd (
          gone x q free (before ++ after) w
            (rw (sym (equal x a e)) at (has-Mem a (before ++ after) m)))
      | inr e ↦ rw (same a e, e) (omega (arith, v.counts a (has-around x a before after m)))
    ];
    positive = λ a m. elim (Bool-cases (x == a)) [
      | inl e ↦ absurd (
          gone x q free (before ++ after) w
            (rw (sym (equal x a e)) at (has-Mem a (before ++ after) m)))
      | inr e ↦ rw e (omega (arith, v.positive a (has-around x a before after m)))
    ];
    owned = λ a m. elim (Bool-cases (x == a)) [
      | inl e ↦ absurd (omega (arith, ap h (equal x a e), rw e at m))
      | inr e ↦ has-other x a before after e (v.owned a (omega (arith, rw e at m)))
    ];
  }
