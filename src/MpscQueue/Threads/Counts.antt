-- ===== src/MpscQueue/Threads/Counts.antt =====
-- core/queue/mpsc_queue.h: what the size counts while the threads take steps.
use order_book_server_cpp.Prelude.{
  ltb, ltb→lt, ℕ, zero, suc, ◌+◌, ◌<◌, ◌≤◌, ◌≡◌, ◌≢◌, refl, sym, ◌∙◌, ap, Option, none, some, [],
  ◌∷◌, length, length-append, ◌==◌, arith, Bool-cases, inl, inr,
}
use order_book_server_cpp.Prelude.Ring.{write, write_at, write_off}
use order_book_server_cpp.MpscQueue.Threads.{
  Stage, claimed, stored, counted, Push, Consumer, idle, tested, loaded, cleared, moved, Shared,
  new_shared, Step, push_tests, push_reads_head, push_claims, push_stores, push_counts, pop_tests,
  pop_loads, pop_loads_null, pop_clears, pop_moves_tail, pop_returns, Run, starts, goes,
}

abbrev pub in_size : Stage → ℕ
in_size claimed = 0
in_size stored = 0
in_size counted = 1

in_size_le : (g : Stage) → in_size g ≤ 1
in_size_le claimed = omega arith
in_size_le stored = omega arith
in_size_le counted = omega arith

module _ {ℓ} {T : Type ℓ} where
  abbrev pub is_counted : Option (Push T) → ℕ
  is_counted none = 0
  is_counted (some p) = in_size p.stage

  -- How many of the first `n` pushes have been counted.
  abbrev pub counted_pushes : (ℕ → Option (Push T)) → ℕ → ℕ
  counted_pushes f zero = 0
  counted_pushes f (suc n) = counted_pushes f n + is_counted (f n)

  abbrev pub busy : Consumer T → ℕ
  busy idle = 0
  busy tested = 1
  busy (loaded _ _) = 1
  busy (cleared _ _) = 1
  busy (moved _) = 1

  pub record IsSized (s : Shared T) : Type ℓ where
    pub fresh : (k : ℕ) → s.claims ≤ k → s.pushes k ≡ none
    pub counts : s.buffer.size + length s.popped ≡ counted_pushes s.pushes s.claims
    pub positive : busy s.consumer ≤ s.buffer.size

  is_counted_le : (o : Option (Push T)) → is_counted o ≤ 1
  is_counted_le none = omega arith
  is_counted_le (some p) = in_size_le p.stage

  pub counted_pushes_le : (f : ℕ → Option (Push T)) (n : ℕ) → counted_pushes f n ≤ n
  counted_pushes_le f zero = omega arith
  counted_pushes_le f (suc n) = omega (arith, counted_pushes_le f n, is_counted_le (f n))

  counted_pushes-write_above :
      (f : ℕ → Option (Push T)) (k n : ℕ) (o : Option (Push T))
      → n ≤ k
      → counted_pushes (write f k o) n ≡ counted_pushes f n
  counted_pushes-write_above f k zero o h = refl
  counted_pushes-write_above f k (suc n) o h =
      rw (write_off f k n o (λ e. omega arith), counted_pushes-write_above f k n o (omega arith))
        refl

  counted_pushes-claim :
      (f : ℕ → Option (Push T)) (n : ℕ) (p : Push T)
      → in_size p.stage ≡ 0
      → counted_pushes (write f n (some p)) (suc n) ≡ counted_pushes f n
  counted_pushes-claim f n p h = omega (
    arith,
    counted_pushes-write_above f n n (some p) (omega arith),
    ap is_counted (write_at f n (some p)),
  )

  counted_pushes-write :
      (f : ℕ → Option (Push T)) (k n : ℕ) (o : Option (Push T))
      → k < n
      → counted_pushes (write f k o) n + is_counted (f k) ≡ counted_pushes f n + is_counted o
  counted_pushes-write f k zero o h = absurd (omega arith)
  counted_pushes-write f k (suc n) o h = elim (Bool-cases (k == n)) [
    | inl e ↦
        let same : k ≡ n = ground arith in
        let there : write f k o n ≡ o = rw e refl in
        omega (
          arith,
          counted_pushes-write_above f k n o (omega arith),
          ap is_counted there,
          ap (λ j. is_counted (f j)) same,
        )
    | inr e ↦
        let apart : k ≢ n = λ same. ground arith in
        omega (
          arith,
          counted_pushes-write f k n o (ground arith),
          ap is_counted (write_off f k n o apart),
        )
  ]

  pub claimed_before :
      (s : Shared T) (k : ℕ) (p : Push T)
      → ((j : ℕ) → s.claims ≤ j → s.pushes j ≡ none)
      → s.pushes k ≡ some p
      → k < s.claims
  claimed_before s k p fresh e = elim (Bool-cases (ltb k s.claims)) [
    | inl below ↦ ltb→lt k s.claims below
    | inr above ↦ cc (fresh k (ground arith), e)
  ]

  -- A push changed in place, with what the size gains.
  changed-IsSized :
      (s : Shared T) (k size : ℕ) (p q : Push T)
      → IsSized s
      → s.pushes k ≡ some p
      → size + in_size p.stage ≡ s.buffer.size + in_size q.stage
      → (size + length s.popped ≡ counted_pushes (write s.pushes k (some q)) s.claims)
        × ((j : ℕ) → s.claims ≤ j → write s.pushes k (some q) j ≡ none)
  changed-IsSized s k size p q v e gain =
      let inside = claimed_before s k p v.fresh e in
      (
        omega (
          arith,
          v.counts,
          counted_pushes-write s.pushes k s.claims (some q) inside,
          ap is_counted e,
        ),
        λ j h. write_off s.pushes k j (some q) (λ same. omega arith) ∙ v.fresh j h,
      )

  start-IsSized : IsSized new_shared
  start-IsSized = record { fresh = λ k h. refl; counts = refl; positive = omega arith }

  pub Step-IsSized : (Size : ℕ) (s t : Shared T) → Step Size s t → IsSized s → IsSized t
  Step-IsSized Size s _ (push_tests _ item h) v = record {
    fresh = v.fresh;
    counts = v.counts;
    positive = v.positive;
  }
  Step-IsSized Size s _ (push_reads_head _ before after w e) v = record {
    fresh = v.fresh;
    counts = v.counts;
    positive = v.positive;
  }
  Step-IsSized Size s _ (push_claims _ before after w current e r same) v = record {
    fresh = λ k h. write_off s.pushes s.claims k _ (λ e. omega arith) ∙ v.fresh k (omega arith);
    counts = v.counts ∙ sym (counted_pushes-claim s.pushes s.claims _ refl);
    positive = v.positive;
  }
  Step-IsSized Size s _ (push_stores _ k p e g) v =
      let (counts, fresh) =
        changed-IsSized s k s.buffer.size p (record p { stage = stored }) v e
          (omega (arith, ap in_size g)) in
      record { fresh = fresh; counts = counts; positive = v.positive }
  Step-IsSized Size s _ (push_counts _ k p e g) v =
      let (counts, fresh) =
        changed-IsSized s k (s.buffer.size + 1) p (record p { stage = counted }) v e
          (omega (arith, ap in_size g)) in
      record { fresh = fresh; counts = counts; positive = omega (arith, v.positive) }
  Step-IsSized Size s _ (pop_tests _ e h) v = record {
    fresh = v.fresh;
    counts = v.counts;
    positive = omega arith;
  }
  Step-IsSized Size s _ (pop_loads _ item e h) v = record {
    fresh = v.fresh;
    counts = v.counts;
    positive = rw e at v.positive;
  }
  Step-IsSized Size s _ (pop_loads_null _ e h) v = record {
    fresh = v.fresh;
    counts = v.counts;
    positive = omega arith;
  }
  Step-IsSized Size s _ (pop_clears _ tail_index item e) v = record {
    fresh = v.fresh;
    counts = v.counts;
    positive = rw e at v.positive;
  }
  Step-IsSized Size s _ (pop_moves_tail _ tail_index item e) v = record {
    fresh = v.fresh;
    counts = v.counts;
    positive = rw e at v.positive;
  }
  Step-IsSized Size s _ (pop_returns _ item e) v = record {
    fresh = v.fresh;
    counts = omega (arith, v.counts, length-append s.popped (item ∷ []), rw e at v.positive);
    positive = omega arith;
  }

  pub Run-IsSized {κ} :
      {Allowed : Shared T → Type κ} (Size : ℕ) (s : Shared T) → Run Size Allowed s → IsSized s
  Run-IsSized Size _ starts = start-IsSized
  Run-IsSized Size t (goes {s = s} r step ok) = Step-IsSized Size s t step (Run-IsSized Size s r)
