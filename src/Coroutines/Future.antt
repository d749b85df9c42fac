-- ===== src/Coroutines/Future.antt =====
-- core/coroutine/future.h: a coroutine that awaits a `Future`, a call of `set_value` on the `FutureValue`
-- that `m_execute_func` hands out, from any thread, and the event base that resumes the coroutine.
-- One call is modelled: a coroutine that was resumed destroys the `Future`, which a second call
-- would still use.
pub mod Phases
pub mod Wakes
use order_book_server_cpp.Prelude.{ℕ, suc, ◌+◌, ◌≡◌, Option, none, some, Bool, true, false}

pub record FutureValue {ℓ} (T : Type ℓ) : Type ℓ where
  pub m_value : Option T
  pub is_set : Bool
  pub has_promise : Bool

-- Where `await_suspend` is: at its start, with `m_is_waiting` set, with the promise stored, and with
-- `m_execute_func` called.
pub data Await : Type 0 where
  starting waiting stored executed : Await

-- Where the call of `set_value` is: at its start, past the test of `m_is_set`, with the value written, with
-- `m_is_set` stored, with a promise that is not null loaded, with `m_is_waiting` cleared, returned from
-- the push on the ready queue, left by the exception of a push on a full queue, returned as there was
-- no promise, and returned from the test.
pub data Setter {ℓ} (T : Type ℓ) : Type ℓ where
  calling passed : T → Setter T
  written marked waking cleared woken thrown unheard refused : Setter T

-- `queued` is how many entries of the task the call has put into the ready queue that were not taken out,
-- `resumed` is whether the coroutine went on behind its `co_await`, and `result` what
-- `await_resume` gave it.
pub record Awaiting {ℓ} (T : Type ℓ) : Type ℓ where
  pub future : FutureValue T
  pub await : Await
  pub setter : Setter T
  pub is_waiting : Bool
  pub queued : ℕ
  pub resumed : Bool
  pub result : Option T

module _ {ℓ} {T : Type ℓ} where
  abbrev pub new_awaiting : T → Awaiting T
  new_awaiting v = record {
    future = record { m_value = none; is_set = false; has_promise = false };
    await = starting;
    setter = calling v;
    is_waiting = false;
    queued = 0;
    resumed = false;
    result = none;
  }

  abbrev pub with_setter : Setter T → Awaiting T → Awaiting T
  with_setter x s = record s { setter = x }

  abbrev pub set_waiting_true : Awaiting T → Awaiting T
  set_waiting_true s = record s { await = waiting; is_waiting = true }

  abbrev pub set_suspending_promise : Awaiting T → Awaiting T
  set_suspending_promise s = record s {
    future = record s.future { has_promise = true };
    await = stored;
  }

  abbrev pub execute : Awaiting T → Awaiting T
  execute s = record s { await = executed }

  abbrev pub write_value : T → Awaiting T → Awaiting T
  write_value v s = record s { future = record s.future { m_value = some v }; setter = written }

  abbrev pub mark_set : Awaiting T → Awaiting T
  mark_set s = record s { future = record s.future { is_set = true }; setter = marked }

  -- The two accesses of `set_waiting(false)`.
  abbrev pub clear_waiting : Awaiting T → Awaiting T
  clear_waiting s = record s { is_waiting = false; setter = cleared }

  abbrev pub set_ready_task : Awaiting T → Awaiting T
  set_ready_task s = record s { queued = s.queued + 1; setter = woken }

  -- The event base took an entry, of which `n` are left, and resumes the coroutine.
  abbrev pub resume : ℕ → Awaiting T → Awaiting T
  resume n s = record s { queued = n; resumed = true; result = s.future.m_value }

  -- The coroutine goes on, and may await again.
  abbrev pub go_on : Bool → Awaiting T → Awaiting T
  go_on b s = record s { is_waiting = b }

-- The call has the `FutureValue` once `m_execute_func` is called. Whether a push finds the ready queue full
-- depends on the other tasks.
pub data FutureStep {ℓ} {T : Type ℓ} : Awaiting T → Awaiting T → Type ℓ where
  waits : (s : Awaiting T) → s.await ≡ starting → FutureStep s (set_waiting_true s)
  stores_promise : (s : Awaiting T) → s.await ≡ waiting → FutureStep s (set_suspending_promise s)
  executes : (s : Awaiting T) → s.await ≡ stored → FutureStep s (execute s)
  passes :
      (s : Awaiting T) (v : T)
      → s.await ≡ executed
      → s.setter ≡ calling v
      → s.future.is_set ≡ false
      → FutureStep s (with_setter (passed v) s)
  refuses :
      (s : Awaiting T) (v : T)
      → s.await ≡ executed
      → s.setter ≡ calling v
      → s.future.is_set ≡ true
      → FutureStep s (with_setter refused s)
  writes : (s : Awaiting T) (v : T) → s.setter ≡ passed v → FutureStep s (write_value v s)
  marks : (s : Awaiting T) → s.setter ≡ written → FutureStep s (mark_set s)
  loads :
      (s : Awaiting T)
      → s.setter ≡ marked
      → s.future.has_promise ≡ true
      → FutureStep s (with_setter waking s)
  loads_null :
      (s : Awaiting T)
      → s.setter ≡ marked
      → s.future.has_promise ≡ false
      → FutureStep s (with_setter unheard s)
  clears : (s : Awaiting T) → s.setter ≡ waking → FutureStep s (clear_waiting s)
  pushes : (s : Awaiting T) → s.setter ≡ cleared → FutureStep s (set_ready_task s)
  throws : (s : Awaiting T) → s.setter ≡ cleared → FutureStep s (with_setter thrown s)
  resumes : (s : Awaiting T) (n : ℕ) → s.queued ≡ suc n → FutureStep s (resume n s)
  goes_on : (s : Awaiting T) (b : Bool) → s.resumed ≡ true → FutureStep s (go_on b s)

pub data FutureSteps {ℓ} {T : Type ℓ} : Awaiting T → Awaiting T → Type ℓ where
  stays : (s : Awaiting T) → FutureSteps s s
  goes : {s t u : Awaiting T} → FutureSteps s t → FutureStep t u → FutureSteps s u
