-- ===== src/Tests/Threads.antt =====
-- core/utils/spin_lock.h: two threads that use a lock.
use order_book_server_cpp.Prelude.{◌≡◌, ◌≤◌, true, false, [], ◌∷◌, replicate, if◌then◌else◌}
use order_book_server_cpp.SpinLock.{
  outside, spinning, inside, lock_round, LockStep, LockSteps, calls, tests, stays, goes,
}
use order_book_server_cpp.SpinLock.Exclusion.{holders, mutual_exclusion, Enters, spinning-Enters}

first_enters : LockStep (false, spinning ∷ outside ∷ []) (true, inside ∷ outside ∷ [])
unfolding lock_round
first_enters = tests false [] (outside ∷ [])

-- The first thread has the lock and the second waits for it.
one_waits : LockSteps (false, replicate 2 outside) (true, inside ∷ spinning ∷ [])
one_waits =
    goes (calls false [] (outside ∷ []))
      (goes first_enters (goes (calls true (inside ∷ []) []) (stays _)))

mutual_exclusion_example :
    (holders (inside ∷ spinning ∷ []) ≤ 1)
    × (holders (inside ∷ spinning ∷ []) ≡ (if true then 1 else 0))
mutual_exclusion_example = mutual_exclusion 2 (true, inside ∷ spinning ∷ []) one_waits

spinning-Enters_example : Enters true (inside ∷ []) []
spinning-Enters_example = spinning-Enters 2 true (inside ∷ []) [] one_waits
