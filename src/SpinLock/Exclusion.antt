-- ===== src/SpinLock/Exclusion.antt =====
-- core/utils/spin_lock.h: at most one thread has the lock, and a thread that waits can get it.
use mathlib.Core.List.{append_assoc}
use order_book_server_cpp.Prelude.{
  ℕ, zero, suc, ◌+◌, ◌≤◌, ◌≡◌, refl, sym, ap, ◌∙◌, Bool, true, false, List, [], ◌∷◌, ◌++◌, length,
  length-append, replicate, leb, leb→le, Bool-cases, inl, inr, if◌then◌else◌, arith,
}
use order_book_server_cpp.SpinLock.{
  Thread, outside, spinning, inside, lock_round, unlock, State, LockStep, calls, tests, unlocks,
  LockSteps, stays, goes,
}

abbrev pub holds : Thread → ℕ
holds outside = 0
holds spinning = 0
holds inside = 1

-- How many threads have the lock.
abbrev pub holders : List Thread → ℕ
holders [] = 0
holders (t ∷ ts) = holds t + holders ts

-- The flag is set when a thread has the lock and not else, and no two have it.
abbrev pub IsExclusive : State → Type 0
IsExclusive st = holders st.1 ≡ (if st.0 then 1 else 0)

holders-around :
    (before after : List Thread) (t : Thread)
    → holders (before ++ t ∷ after) ≡ holders (before ++ after) + holds t
holders-around [] after t = omega arith
holders-around (u ∷ before) after t = omega (arith, holders-around before after t)

-- A thread's step changes what it holds, and the flag with it.
changed :
    (flag flag' : Bool) (t t' : Thread) (before after : List Thread)
    → IsExclusive (flag, before ++ t ∷ after)
    → (if flag' then 1 else 0) + holds t ≡ (if flag then 1 else 0) + holds t'
    → IsExclusive (flag', before ++ t' ∷ after)
changed flag flag' t t' before after h e =
    omega (arith, h, e, holders-around before after t, holders-around before after t')

LockStep-IsExclusive : (st st' : State) → LockStep st st' → IsExclusive st → IsExclusive st'
unfolding lock_round unlock
LockStep-IsExclusive _ _ (calls flag before after) h =
    changed flag flag outside spinning before after h refl
LockStep-IsExclusive _ _ (tests true before after) h =
    changed true true spinning spinning before after h refl
LockStep-IsExclusive _ _ (tests false before after) h =
    changed false true spinning inside before after h refl
LockStep-IsExclusive _ _ (unlocks true before after) h =
    changed true false inside outside before after h refl
LockStep-IsExclusive _ _ (unlocks false before after) h =
    absurd (omega (arith, h, holders-around before after inside))

LockSteps-IsExclusive : (st st' : State) → LockSteps st st' → IsExclusive st → IsExclusive st'
LockSteps-IsExclusive _ _ (stays st) h = h
LockSteps-IsExclusive st st' (goes {mid = mid} s ss) h =
    LockSteps-IsExclusive mid st' ss (LockStep-IsExclusive st mid s h)

holders-replicate : (n : ℕ) → holders (replicate n outside) ≡ 0
holders-replicate zero = refl
holders-replicate (suc n) = omega (arith, holders-replicate n)

-- A holder, when there is one.
find_holder :
    (ts : List Thread)
    → 1 ≤ holders ts
    → (before : List Thread) × (after : List Thread) × (ts ≡ before ++ inside ∷ after)
find_holder [] h = absurd (omega arith)
find_holder (inside ∷ ts) h = ([], ts, refl)
find_holder (outside ∷ ts) h =
    let (before, after, e) = find_holder ts (omega arith) in
    (outside ∷ before, after, ap (◌∷◌ outside) e)
find_holder (spinning ∷ ts) h =
    let (before, after, e) = find_holder ts (omega arith) in
    (spinning ∷ before, after, ap (◌∷◌ spinning) e)

holders-append : (xs ys : List Thread) → holders (xs ++ ys) ≡ holders xs + holders ys
holders-append [] ys = omega arith
holders-append (t ∷ xs) ys = omega (arith, holders-append xs ys)

reached-IsExclusive :
    (n : ℕ) (st : State) → LockSteps (false, replicate n outside) st → IsExclusive st
reached-IsExclusive n st ss =
    LockSteps-IsExclusive (false, replicate n outside) st ss (holders-replicate n)

-- From a free lock, however the steps of any number of threads follow each other, at most one has the
-- lock, and the flag is set just when one has it.
pub mutual_exclusion :
    (n : ℕ) (st : State)
    → LockSteps (false, replicate n outside) st
    → (holders st.1 ≤ 1) × (holders st.1 ≡ (if st.0 then 1 else 0))
mutual_exclusion n (true, threads) ss =
    let one = reached-IsExclusive n (true, threads) ss in (omega (arith, one), one)
mutual_exclusion n (false, threads) ss =
    let no_one = reached-IsExclusive n (false, threads) ss in (omega (arith, no_one), no_one)

unlock_before :
    (left right rest : List Thread)
    → LockStep (true, (left ++ inside ∷ right) ++ rest) (false, (left ++ outside ∷ right) ++ rest)
unlock_before left right rest =
    rw (append_assoc left (inside ∷ right) rest, append_assoc left (outside ∷ right) rest)
      (unfold unlock in unlocks true left (right ++ rest))

unlock_behind :
    (before left right : List Thread) (t : Thread)
    → LockStep
        (true, before ++ t ∷ (left ++ inside ∷ right))
        (false, before ++ t ∷ (left ++ outside ∷ right))
unlock_behind before left right t =
    rw
      (
        sym (append_assoc before (t ∷ left) (inside ∷ right)),
        sym (append_assoc before (t ∷ left) (outside ∷ right)),
      )
      (unfold unlock in unlocks true (before ++ t ∷ left) right)

-- The state that a thread comes to when it gets the lock at its place among the others.
abbrev pub Enters : Bool → List Thread → List Thread → Type 0
Enters flag before after =
    (before' : List Thread) × (after' : List Thread) × LockSteps (flag, before ++ spinning ∷ after)
      (true, before' ++ inside ∷ after')
    × (length before' ≡ length before)

test_of_free :
    (before after : List Thread)
    → LockStep (false, before ++ spinning ∷ after) (true, before ++ inside ∷ after)
unfolding lock_round
test_of_free before after = tests false before after

free_lock : (before after : List Thread) → Enters false before after
free_lock before after = (before, after, goes (test_of_free before after) (stays _), refl)

lock_held_before : (left right after : List Thread) → Enters true (left ++ inside ∷ right) after
lock_held_before left right after =
    let freed = left ++ outside ∷ right in
    (
      freed,
      after,
      goes (unlock_before left right (spinning ∷ after))
          (goes (test_of_free freed after) (stays _)),
      length-append left (outside ∷ right) ∙ sym (length-append left (inside ∷ right)),
    )

lock_held_behind : (before left right : List Thread) → Enters true before (left ++ inside ∷ right)
lock_held_behind before left right =
    let freed = left ++ outside ∷ right in
    (
      before,
      freed,
      goes (unlock_behind before left right spinning) (goes (test_of_free before freed) (stays _)),
      refl,
    )

-- In every state that any number of threads reach from a free lock, a thread that waits for the lock
-- can get it: the next steps may be the `unlock` of the thread that has it, if one has, and the waiting
-- thread's own access to the flag.
pub spinning-Enters :
    (n : ℕ) (flag : Bool) (before after : List Thread)
    → LockSteps (false, replicate n outside) (flag, before ++ spinning ∷ after)
    → Enters flag before after
spinning-Enters n false before after ss = free_lock before after
spinning-Enters n true before after ss =
    let one = reached-IsExclusive n (true, before ++ spinning ∷ after) ss in
    let around = holders-around before after spinning in
    elim (Bool-cases (leb 1 (holders before))) [
      | inl e ↦
          let (left, right, same) = find_holder before (leb→le 1 (holders before) e) in
          rw same (lock_held_before left right after)
      | inr e ↦
          let (left, right, same) =
            find_holder after (ground (arith, one, around, holders-append before after)) in
          rw same (lock_held_behind before left right)
    ]
