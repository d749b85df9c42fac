-- ===== src/Coroutines/Release/Once.antt =====
-- core/coroutine/base_task.h and core/coroutine/event_base.cpp: the frame is given back once.
use order_book_server_cpp.Prelude.{ℕ, ◌≡◌, ◌≤◌, refl, Bool, true, false, arith}
use order_book_server_cpp.Coroutines.Release.{
  Owner, holding, saw_running, gone, Runner, running, ended, left, Life, new_life,
  remove_from_event_base, resume_to_end, check_to_remove_task, destroy_test, destroy_mark,
  run_check_handle, destroy, LifeTurn, runs, destroys, LifeTurns, rests, turns,
}

-- What may be so: nothing is released until the owner is done; then once, by the owner if the mark is not
-- there, and at most by the event base if it is. Only a check behind the owner's removal faults.
abbrev Counted : Owner → Runner → Bool → ℕ → Bool → Bool → Type 0
Counted gone running false n g b = ⊥
Counted gone ended false n g b = (n ≡ 1) × (g ≡ false) × (b ≡ false)
Counted gone left false n g b = (n ≡ 1) × (g ≡ false)
Counted gone left true n g b = (n ≤ 1) × (b ≡ false)
Counted gone _ true n g b = (n ≡ 0) × (g ≡ true) × (b ≡ false)
Counted _ _ false n g b = (n ≡ 0) × (g ≡ true) × (b ≡ false)
Counted _ _ true n g b = ⊥

abbrev IsCountedLife : Life → Type 0
IsCountedLife s = Counted s.owner s.runner s.is_task_release s.released s.registered s.faulted

abbrev life_of : Owner → Runner → Bool → ℕ → Bool → Bool → Life
life_of o r f n g b = record {
  owner = o;
  runner = r;
  is_task_release = f;
  released = n;
  registered = g;
  faulted = b;
}

-- What the counts say: at most one release, and where a fault can be.
abbrev Bounded : Owner → Runner → Bool → ℕ → Bool → Type 0
Bounded o r f n b = (n ≤ 1) × (b ≡ true → (o ≡ gone) × (r ≡ left) × (f ≡ false) × (n ≡ 1))

-- When each runs as a whole.
abbrev Settled : Owner → Runner → Bool → ℕ → Bool → Bool → Type 0
Settled holding running false n g b = (n ≡ 0) × (g ≡ true) × (b ≡ false)
Settled holding left false n g b = (n ≡ 0) × (g ≡ true) × (b ≡ false)
Settled gone running true n g b = (n ≡ 0) × (g ≡ true) × (b ≡ false)
Settled gone left f n g b = (n ≡ 1) × (b ≡ false)
Settled _ _ _ n g b = ⊥

abbrev IsSettled : Life → Type 0
IsSettled s = Settled s.owner s.runner s.is_task_release s.released s.registered s.faulted

run_whole :
    (o : Owner) (f : Bool) (n : ℕ) (g b : Bool)
    → Settled o running f n g b
    → IsSettled (run_check_handle (life_of o running f n g b))
unfolding run_check_handle resume_to_end check_to_remove_task remove_from_event_base
run_whole holding true n g b h = absurd h
run_whole holding false n true b h = h
run_whole holding false n false b h = cc (h.1)
run_whole saw_running true n g b h = absurd h
run_whole saw_running false n g b h = absurd h
run_whole gone true n true b h = (omega (arith, h.0), h.2)
run_whole gone true n false b h = cc (h.1)
run_whole gone false n g b h = absurd h

destroy_whole :
    (r : Runner) (f : Bool) (n : ℕ) (g b : Bool)
    → Settled holding r f n g b
    → IsSettled (destroy (life_of holding r f n g b))
unfolding destroy destroy_test destroy_mark remove_from_event_base
destroy_whole running true n g b h = absurd h
destroy_whole running false n true b h = h
destroy_whole running false n false b h = cc (h.1)
destroy_whole ended true n g b h = absurd h
destroy_whole ended false n g b h = absurd h
destroy_whole left true n g b h = absurd h
destroy_whole left false n true b h = (omega (arith, h.0), h.2)
destroy_whole left false n false b h = cc (h.1)

turn-IsSettled : (s t : Life) → LifeTurn s t → IsSettled s → IsSettled t
unfolding run_check_handle resume_to_end check_to_remove_task remove_from_event_base destroy
    destroy_test destroy_mark
turn-IsSettled s _ (runs _ e) v =
    run_whole s.owner s.is_task_release s.released s.registered s.faulted (rw e at v)
turn-IsSettled s _ (destroys _ e) v =
    destroy_whole s.runner s.is_task_release s.released s.registered s.faulted (rw e at v)

turns-IsSettled : (s t : Life) → LifeTurns s t → IsSettled s → IsSettled t
turns-IsSettled s _ (rests _) v = v
turns-IsSettled s u (turns {t = t} r turn) v = turn-IsSettled t u turn (turns-IsSettled s t r v)

-- When the owner's destructor and the event base's last steps run on one thread, in either order, and both
-- are done, the frame of the coroutine was given back exactly once, and not accessed afterwards.
pub released_once :
    (s : Life)
    → LifeTurns new_life s
    → s.owner ≡ gone
    → s.runner ≡ left
    → (s.released ≡ 1) × (s.faulted ≡ false)
released_once s r e f = rw (e, f) at (turns-IsSettled new_life s r (refl, refl, refl))
