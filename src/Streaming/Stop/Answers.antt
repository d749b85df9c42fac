-- ===== src/Streaming/Stop/Answers.antt =====
-- src/dbn_wrapper/dbn_wrapper.h: whether a request to stop is answered.
use order_book_server_cpp.Prelude.{ℕ, ◌≡◌, Option, some, Bool, true, false, List, [], ◌∷◌}
use order_book_server_cpp.Streaming.Stop.{
  Loop, looping, over, Stopper, registered, awaiting, Stopping,
}

abbrev HasFuture : Option ℕ → Type 0
HasFuture p = (k : ℕ) × (p ≡ some k)

-- A call past its first write.
abbrev IsRegistered : Stopper → Type 0
IsRegistered registered = Unit
IsRegistered awaiting = Unit
IsRegistered _ = ⊥

-- What the loop knows: when it may stop, and behind it when it was stopped, a future is there; at the end
-- one was set.
abbrev Answering : Loop → Bool → Bool → Option ℕ → List ℕ → Type 0
Answering looping streaming stopped p ks = (ks ≡ []) × (streaming ≡ false → HasFuture p)
Answering over streaming stopped p ks = stopped ≡ true → (k : ℕ) × (ks ≡ k ∷ [])
Answering _ streaming stopped p ks = (ks ≡ []) × (stopped ≡ true → HasFuture p)

record IsStopping (s : Stopping) : Type 0 where
  asked : (k : ℕ) → IsRegistered (s.stoppers k) → HasFuture s.stop_future
  answering : Answering s.loop s.is_streaming s.was_stopped s.stop_future s.answered
