-- ===== src/Coroutines/Future/Wakes.antt =====
-- core/coroutine/future.h: the coroutine that awaits is resumed.
use order_book_server_cpp.Prelude.{◌≡◌, true}
use order_book_server_cpp.Coroutines.Future.{Awaiting, FutureStep, FutureSteps, stays, goes}

module _ {ℓ} {T : Type ℓ} where
  behind : {s t u : Awaiting T} → FutureStep s t → FutureSteps t u → FutureSteps s u
  behind {s} first (stays _) = goes (stays s) first
  behind first (goes r last) = goes (behind first r) last

  abbrev Resumes : Awaiting T → Type ℓ
  Resumes s = (t : Awaiting T) × FutureSteps s t × (t.resumed ≡ true)

  first : {s t : Awaiting T} → FutureStep s t → Resumes t → Resumes s
  first step (u, r, done) = (u, behind step r, done)
