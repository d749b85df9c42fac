-- ===== src/SpinLock.antt =====
-- core/utils/spin_lock.h: class SpinLock, used by any number of threads. A step is one access to the
-- flag, or a thread's call of `lock`; threads take steps in any order.
pub mod Exclusion
use order_book_server_cpp.Prelude.{Bool, true, false, List, ◌∷◌, ◌++◌, if◌then◌else◌}

-- Where a thread is: it does not use the lock, it is in the loop of `lock`, or it has the lock.
pub data Thread : Type 0 where
  outside spinning inside : Thread

-- `flag.test_and_set`: the flag after it, and what it was.
abbrev pub test_and_set : Bool → Bool × Bool
test_and_set flag = (true, flag)

-- One round of the loop of `lock`.
unfoldable pub lock_round : Bool → Bool × Thread
lock_round flag = let (set, old) = test_and_set flag in (set, if old then spinning else inside)

-- `flag.clear`
unfoldable pub unlock : Bool → Bool × Thread
unlock flag = (false, outside)

abbrev pub State : Type 0
State = Bool × List Thread

pub data LockStep : State → State → Type 0 where
  calls :
      (flag : Bool) (before after : List Thread)
      → LockStep (flag, before ++ outside ∷ after) (flag, before ++ spinning ∷ after)
  tests :
      (flag : Bool) (before after : List Thread)
      → LockStep
          (flag, before ++ spinning ∷ after)
          ((lock_round flag).0, before ++ (lock_round flag).1 ∷ after)
  unlocks :
      (flag : Bool) (before after : List Thread)
      → LockStep
          (flag, before ++ inside ∷ after)
          ((unlock flag).0, before ++ (unlock flag).1 ∷ after)

pub data LockSteps : State → State → Type 0 where
  stays : (st : State) → LockSteps st st
  goes : {st mid last : State} → LockStep st mid → LockSteps mid last → LockSteps st last
