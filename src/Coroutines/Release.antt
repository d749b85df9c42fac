-- ===== src/Coroutines/Release.antt =====
-- core/coroutine/base_task.h and core/coroutine/event_base.cpp: who gives the frame of a coroutine back.
-- The `Task` object goes out of scope on one thread while the event base runs the coroutine to its end,
-- maybe on another.
pub mod Once
use order_book_server_cpp.Prelude.{ℕ, ◌+◌, ◌≡◌, Bool, true, false, if◌then◌else◌}

-- The owner of the `Task`: it has it, it found the coroutine running, or it is done with it.
pub data Owner : Type 0 where
  holding saw_running gone : Owner

-- The event base: it has the coroutine to run, its last `resume` returned, or it is done with it.
pub data Runner : Type 0 where
  running ended left : Runner

-- `released` counts the calls of `TaskInfoPool::release`. Its `clear` destroys the frame and empties the
-- `handle` and the `event_base` of the TaskInfo: `registered` is whether they are there. `faulted` is an
-- access to a frame that was destroyed. The task was started on its event base, so that
-- `m_event_base` of the promise is not null.
pub record Life : Type 0 where
  pub owner : Owner
  pub runner : Runner
  pub is_task_release : Bool
  pub released : ℕ
  pub registered : Bool
  pub faulted : Bool

abbrev pub new_life : Life
new_life = record {
  owner = holding;
  runner = running;
  is_task_release = false;
  released = 0;
  registered = true;
  faulted = false;
}

-- `handle.done()`
abbrev pub done : Runner → Bool
done running = false
done ended = true
done left = true

-- `EventBase::remove_from_event_base`
unfoldable pub remove_from_event_base : Life → Life
remove_from_event_base s = record s { released = s.released + 1; registered = false }

-- The last `handle.resume()` of `TaskInfo::check_handle`.
unfoldable pub resume_to_end : Life → Life
resume_to_end s = record s { runner = ended }

-- The end of `check_handle`: `done()` of a `handle` that was emptied is a fault, and of one that is there
-- true, as `event_base != nullptr` is; then `EventBase::check_to_remove_task`.
unfoldable pub check_to_remove_task : Life → Life
unfolding remove_from_event_base
check_to_remove_task s =
    let t = record s { runner = left } in
    if s.registered
    then (if s.is_task_release then remove_from_event_base t else t)
    else record t { faulted = true }

-- The two accesses of `BaseTask::destroy(false)`: the test, with the removal when the coroutine is done,
-- and else the mark. Both are accesses to the frame.
unfoldable pub destroy_test : Life → Life
unfolding remove_from_event_base
destroy_test s =
    if s.registered
    then (if done s.runner
        then remove_from_event_base (record s { owner = gone })
        else record s { owner = saw_running })
    else record s { owner = gone; faulted = true }

unfoldable pub destroy_mark : Life → Life
destroy_mark s =
    if s.registered
    then record s { owner = gone; is_task_release = true }
    else record s { owner = gone; faulted = true }

-- Two threads.
pub data LifeStep : Life → Life → Type 0 where
  resumes : (s : Life) → s.runner ≡ running → LifeStep s (resume_to_end s)
  checks : (s : Life) → s.runner ≡ ended → LifeStep s (check_to_remove_task s)
  tests : (s : Life) → s.owner ≡ holding → LifeStep s (destroy_test s)
  marks : (s : Life) → s.owner ≡ saw_running → LifeStep s (destroy_mark s)

pub data LifeSteps : Life → Life → Type 0 where
  stays : (s : Life) → LifeSteps s s
  goes : {s t u : Life} → LifeSteps s t → LifeStep t u → LifeSteps s u

-- One thread: `check_handle` and `destroy` each run as a whole.
unfoldable pub run_check_handle : Life → Life
unfolding resume_to_end check_to_remove_task
run_check_handle s = check_to_remove_task (resume_to_end s)

unfoldable pub destroy : Life → Life
unfolding destroy_test destroy_mark
destroy s = let t = destroy_test s in elim t.owner [ saw_running ↦ destroy_mark t | _ ↦ t ]

pub data LifeTurn : Life → Life → Type 0 where
  runs : (s : Life) → s.runner ≡ running → LifeTurn s (run_check_handle s)
  destroys : (s : Life) → s.owner ≡ holding → LifeTurn s (destroy s)

pub data LifeTurns : Life → Life → Type 0 where
  rests : (s : Life) → LifeTurns s s
  turns : {s t u : Life} → LifeTurns s t → LifeTurn t u → LifeTurns s u
