-- ===== src/Tests/Tasks.antt =====
-- core/coroutine: a future with a call of `set_value`, and the end of a coroutine.
use order_book_server_cpp.Prelude.{ℕ, ◌≡◌, refl, true, false}
use order_book_server_cpp.Coroutines.Future.{
  Awaiting, thrown, waking, passed, new_awaiting, with_setter, set_waiting_true,
  set_suspending_promise, execute, write_value, mark_set, clear_waiting, set_ready_task, resume,
  FutureSteps, waits, stores_promise, executes, passes, writes, marks, loads, clears, throws,
  resumes, stays, goes,
}
use order_book_server_cpp.Coroutines.Release.{
  Life, LifeSteps, LifeTurns, new_life, holding, saw_running, running, ended, resume_to_end,
  check_to_remove_task, destroy_test, destroy_mark, remove_from_event_base, run_check_handle,
  destroy, checks, tests, runs, destroys, rests, turns,
}
use order_book_server_cpp.Coroutines.Release
use order_book_server_cpp.Coroutines.Release.Once.{released_once}

-- The coroutine awaits, and the call has cleared `m_is_waiting`.
abbrev about_to_push : Awaiting ℕ
about_to_push =
    let awaited = execute (set_suspending_promise (set_waiting_true (new_awaiting 7))) in
    clear_waiting (with_setter waking (mark_set (write_value 7 (with_setter (passed 7) awaited))))

one_call : FutureSteps (new_awaiting 7) about_to_push
one_call =
    let suspended =
      goes (goes (goes (stays (new_awaiting 7)) (waits _ refl)) (stores_promise _ refl))
        (executes _ refl) in
    goes
      (goes
        (goes (goes (goes suspended (passes _ 7 refl refl refl)) (writes _ 7 refl)) (marks _ refl))
        (loads _ refl refl))
      (clears _ refl)

abbrev went_on : Awaiting ℕ
went_on = resume 0 (set_ready_task about_to_push)

-- The ready queue is full: the caller has the exception, and the coroutine is not ready.
abbrev not_queued : Awaiting ℕ
not_queued = with_setter thrown about_to_push

queue_is_full : FutureSteps (new_awaiting 7) not_queued
queue_is_full = goes one_call (throws _ refl)

not_ready : not_queued.queued ≡ 0
not_ready = refl

-- The owner finds the coroutine running, the event base is done with it, and then the owner marks it.
abbrev lost : Life
lost = destroy_mark (check_to_remove_task (resume_to_end (destroy_test new_life)))

nobody_releases : LifeSteps new_life lost
unfolding resume_to_end check_to_remove_task destroy_test destroy_mark
nobody_releases =
    Release.goes
      (Release.goes
        (Release.goes (Release.goes (Release.stays new_life) (tests _ refl))
          (Release.resumes _ refl))
        (checks _ refl))
      (Release.marks _ refl)

not_released : lost.released ≡ 0
unfolding resume_to_end check_to_remove_task destroy_test destroy_mark
not_released = refl

-- The owner removes the coroutine that has just ended, and the event base then looks at it.
abbrev late_check : Life
late_check = check_to_remove_task (destroy_test (resume_to_end new_life))

late_check_faults : late_check.faulted ≡ true
unfolding resume_to_end check_to_remove_task destroy_test remove_from_event_base
late_check_faults = refl

-- On one thread the mark is seen.
abbrev back : Life
back = run_check_handle (destroy new_life)

owner_first : LifeTurns new_life back
unfolding destroy destroy_test destroy_mark run_check_handle resume_to_end check_to_remove_task
    remove_from_event_base
owner_first = turns (turns (rests new_life) (destroys _ refl)) (runs _ refl)

released_once_example : (back.released ≡ 1) × (back.faulted ≡ false)
released_once_example =
    released_once back owner_first
      (unfold run_check_handle destroy destroy_test destroy_mark resume_to_end check_to_remove_task
          remove_from_event_base in
        refl)
      (unfold run_check_handle resume_to_end check_to_remove_task destroy destroy_test destroy_mark
          remove_from_event_base in
        refl)
