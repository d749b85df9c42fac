-- ===== src/Coroutines/Future/Phases.antt =====
-- core/coroutine/future.h: what the call of `set_value` and the coroutine know of each other.
use order_book_server_cpp.Prelude.{
  ℕ, suc, ◌+◌, ◌≡◌, refl, ap, Option, some, Bool, true, false, arith, if◌then◌else◌,
}
use order_book_server_cpp.Coroutines.Future.{
  Await, starting, waiting, stored, executed, Setter, calling, passed, written, marked, waking,
  cleared, woken, thrown, unheard, refused, Awaiting, new_awaiting, FutureStep, waits,
  stores_promise, executes, passes, refuses, writes, marks, loads, loads_null, clears, pushes,
  throws, resumes, goes_on, FutureSteps, stays, goes,
}

-- A call that has begun was handed the future, and then the promise is there.
abbrev pub Handed : Await → Bool → Bool → Type 0
Handed executed begun promise = promise ≡ true
Handed stored false promise = promise ≡ true
Handed starting false promise = Unit
Handed waiting false promise = Unit
Handed _ true promise = ⊥

abbrev pub entry_if : Bool → ℕ
entry_if b = if b then 1 else 0

waiting-Handed : (b p : Bool) → Handed starting b p → Handed waiting b p
waiting-Handed false p h = tt
waiting-Handed true p h = h

stored-Handed : (b p : Bool) → Handed waiting b p → Handed stored b true
stored-Handed false p h = refl
stored-Handed true p h = h

executed-Handed : (b p : Bool) → Handed stored b p → Handed executed b p
executed-Handed false p h = h
executed-Handed true p h = absurd h

-- The promise is there for a call that has begun.
pub begun-promise : (a : Await) (p : Bool) → Handed a true p → p ≡ true
begun-promise executed p h = h
begun-promise starting p h = absurd h
begun-promise waiting p h = absurd h
begun-promise stored p h = absurd h

module _ {ℓ} {T : Type ℓ} where
  abbrev pub begun : Setter T → Bool
  begun (calling v) = false
  begun _ = true

  -- What the call has done for the value `v`. Behind the push there is one entry, or the coroutine went on,
  -- and with the value.
  abbrev pub Told : T → Setter T → Option T → Bool → ℕ → Bool → Option T → Type ℓ
  Told v (calling w) value is_set n r g = (w ≡ v) × (is_set ≡ false) × (n ≡ 0) × (r ≡ false)
  Told v (passed w) value is_set n r g = (w ≡ v) × (n ≡ 0) × (r ≡ false)
  Told v woken value is_set n r g =
      (value ≡ some v) × (n + entry_if r ≡ 1) × (r ≡ true → g ≡ some v)
  Told v unheard value is_set n r g = (value ≡ some v) × ⊥
  Told v refused value is_set n r g = (value ≡ some v) × ⊥
  Told v _ value is_set n r g = (value ≡ some v) × (n ≡ 0) × (r ≡ false)

  pub record IsAwaited (v : T) (s : Awaiting T) : Type ℓ where
    pub handed : Handed s.await (begun s.setter) s.future.has_promise
    pub told : Told v s.setter s.future.m_value s.future.is_set s.queued s.resumed s.result

  pub start-IsAwaited : (v : T) → IsAwaited v (new_awaiting v)
  start-IsAwaited v = record { handed = tt; told = (refl, refl, refl, refl) }

  -- An entry is in the ready queue behind the push only.
  resumed-Told :
      (v : T) (x : Setter T) (value : Option T) (is_set : Bool) (n : ℕ) (r : Bool) (g : Option T)
      → Told v x value is_set (suc n) r g
      → Told v x value is_set n true value
  resumed-Told v (calling w) value is_set n r g h = absurd (omega (arith, h.2))
  resumed-Told v (passed w) value is_set n r g h = absurd (omega (arith, h.1))
  resumed-Told v written value is_set n r g h = absurd (omega (arith, h.1))
  resumed-Told v marked value is_set n r g h = absurd (omega (arith, h.1))
  resumed-Told v waking value is_set n r g h = absurd (omega (arith, h.1))
  resumed-Told v cleared value is_set n r g h = absurd (omega (arith, h.1))
  resumed-Told v thrown value is_set n r g h = absurd (omega (arith, h.1))
  resumed-Told v unheard value is_set n r g h = absurd (h.1)
  resumed-Told v refused value is_set n r g h = absurd (h.1)
  resumed-Told v woken value is_set n r g h =
      let none_left : n ≡ 0 = ground (arith, h.1) in (h.0, omega (arith, none_left), λ e. h.0)

  pub step-IsAwaited : (v : T) (s t : Awaiting T) → FutureStep s t → IsAwaited v s → IsAwaited v t
  step-IsAwaited v s _ (waits _ e) a = record {
    handed = waiting-Handed (begun s.setter) s.future.has_promise (rw e at a.handed);
    told = a.told;
  }
  step-IsAwaited v s _ (stores_promise _ e) a = record {
    handed = stored-Handed (begun s.setter) s.future.has_promise (rw e at a.handed);
    told = a.told;
  }
  step-IsAwaited v s _ (executes _ e) a = record {
    handed = executed-Handed (begun s.setter) s.future.has_promise (rw e at a.handed);
    told = a.told;
  }
  step-IsAwaited v s _ (passes _ w e f g) a =
      let (same, fresh, empty, asleep) = rw f at a.told in
      record { handed = rw e (rw e at a.handed); told = (same, empty, asleep) }
  step-IsAwaited v s _ (refuses _ w e f g) a =
      let (same, fresh, empty, asleep) = rw f at a.told in cc (fresh, g)
  step-IsAwaited v s _ (writes _ w f) a =
      let (same, empty, asleep) = rw f at a.told in
      record { handed = rw f at a.handed; told = (ap some same, empty, asleep) }
  step-IsAwaited v s _ (marks _ f) a = record { handed = rw f at a.handed; told = rw f at a.told }
  step-IsAwaited v s _ (loads _ f g) a = record { handed = rw f at a.handed; told = rw f at a.told }
  step-IsAwaited v s _ (loads_null _ f g) a =
      let promised = begun-promise s.await s.future.has_promise (rw f at a.handed) in
      cc (promised, g)
  step-IsAwaited v s _ (clears _ f) a = record { handed = rw f at a.handed; told = rw f at a.told }
  step-IsAwaited v s _ (pushes _ f) a =
      let (given, empty, asleep) = rw f at a.told in
      record {
        handed = rw f at a.handed;
        told = (given, rw asleep (omega (arith, empty)), λ e. cc (e, asleep));
      }
  step-IsAwaited v s _ (throws _ f) a = record { handed = rw f at a.handed; told = rw f at a.told }
  step-IsAwaited v s _ (resumes _ n e) a = record {
    handed = a.handed;
    told =
        resumed-Told v s.setter s.future.m_value s.future.is_set n s.resumed s.result
          (rw e at a.told);
  }
  step-IsAwaited v s _ (goes_on _ b e) a = record { handed = a.handed; told = a.told }

  pub steps-IsAwaited : (v : T) (s t : Awaiting T) → FutureSteps s t → IsAwaited v s → IsAwaited v t
  steps-IsAwaited v s _ (stays _) a = a
  steps-IsAwaited v s u (goes {t = t} r step) a =
      step-IsAwaited v t u step (steps-IsAwaited v s t r a)
