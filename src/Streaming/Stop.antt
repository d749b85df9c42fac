-- ===== src/Streaming/Stop.antt =====
-- src/dbn_wrapper/dbn_wrapper.h and src/orderbook/orderbook_controller.cpp: any number of calls of
-- `stop_streaming` against the end of `start_stream_data` on another event base. A step is one access to the
-- members that they share.
pub mod Answers
use order_book_server_cpp.Prelude.{
  ℕ, ◌≡◌, Option, none, some, Bool, true, false, List, [], ◌∷◌, ◌||◌, ◌==◌, if◌then◌else◌,
}

-- The loop: in its `while`, behind it, behind `m_is_streaming.store(false)`, past the test that
-- `m_stop_future_value` is not null, past the test of `is_value_set`, and at the end.
pub data Loop : Type 0 where
  looping leaving cleared not_null not_set over : Loop

-- A call of `stop_streaming`: not begun, past the test of `get_is_streaming`, with
-- `m_stop_future_value` set, in the await of the future with `m_is_streaming` false, and returned as the
-- loop was not running.
pub data Stopper : Type 0 where
  outside checked registered awaiting not_needed : Stopper

-- `stop_future` is `m_stop_future_value`, the future of one of the calls, `answered` lists the futures that
-- were set, and `was_stopped` is whether the loop was left as it read that `m_is_streaming` is false.
pub record Stopping : Type 0 where
  pub is_streaming : Bool
  pub stop_future : Option ℕ
  pub loop : Loop
  pub was_stopped : Bool
  pub stoppers : ℕ → Stopper
  pub answered : List ℕ

-- In the loop, behind the assignments at the start of `start_stream_data`.
abbrev pub new_stopping : Stopping
new_stopping = record {
  is_streaming = true;
  stop_future = none;
  loop = looping;
  was_stopped = false;
  stoppers = λ k. outside;
  answered = [];
}

-- `is_value_set()` of the future of call `k`.
unfoldable pub is_value_set : ℕ → List ℕ → Bool
is_value_set k [] = false
is_value_set k (j ∷ js) = let rest = is_value_set k js in (j == k) || rest

abbrev pub set_stopper : ℕ → Stopper → (ℕ → Stopper) → ℕ → Stopper
set_stopper k x stoppers j = if k == j then x else stoppers j

unfoldable pub leave_loop : Bool → Stopping → Stopping
leave_loop stopped s = record s { loop = leaving; was_stopped = stopped }

unfoldable pub end_loop : Stopping → Stopping
end_loop s = record s { is_streaming = false; loop = cleared }

unfoldable pub test_not_null : Stopping → Stopping
test_not_null s = record s { loop = elim s.stop_future [ none ↦ over | some k ↦ not_null ] }

-- `m_stop_future_value` is read again, here and below; it is never reset to null meanwhile.
unfoldable pub test_is_value_set : ℕ → Stopping → Stopping
test_is_value_set k s = record s { loop = if is_value_set k s.answered then over else not_set }

unfoldable pub set_stop_future : ℕ → Stopping → Stopping
set_stop_future k s = record s {
  loop = over;
  answered = if is_value_set k s.answered then s.answered else k ∷ s.answered;
}

unfoldable pub test_is_streaming : ℕ → Stopping → Stopping
test_is_streaming k s = record s {
  stoppers = set_stopper k (if s.is_streaming then checked else not_needed) s.stoppers;
}

-- The two writes of `stop`.
unfoldable pub register_stop : ℕ → Stopping → Stopping
register_stop k s = record s {
  stop_future = some k;
  stoppers = set_stopper k registered s.stoppers;
}

unfoldable pub ask_stop : ℕ → Stopping → Stopping
ask_stop k s = record s { is_streaming = false; stoppers = set_stopper k awaiting s.stoppers }

-- The loop ends at the end of the file, too.
pub data StopStep : Stopping → Stopping → Type 0 where
  stops :
      (s : Stopping) → s.loop ≡ looping → s.is_streaming ≡ false → StopStep s (leave_loop true s)
  ends : (s : Stopping) → s.loop ≡ looping → StopStep s (leave_loop false s)
  clears : (s : Stopping) → s.loop ≡ leaving → StopStep s (end_loop s)
  looks : (s : Stopping) → s.loop ≡ cleared → StopStep s (test_not_null s)
  looks_again :
      (s : Stopping) (k : ℕ)
      → s.loop ≡ not_null
      → s.stop_future ≡ some k
      → StopStep s (test_is_value_set k s)
  answers :
      (s : Stopping) (k : ℕ)
      → s.loop ≡ not_set
      → s.stop_future ≡ some k
      → StopStep s (set_stop_future k s)
  tests : (s : Stopping) (k : ℕ) → s.stoppers k ≡ outside → StopStep s (test_is_streaming k s)
  registers : (s : Stopping) (k : ℕ) → s.stoppers k ≡ checked → StopStep s (register_stop k s)
  asks : (s : Stopping) (k : ℕ) → s.stoppers k ≡ registered → StopStep s (ask_stop k s)

pub data StopSteps : Stopping → Stopping → Type 0 where
  stays : (s : Stopping) → StopSteps s s
  goes : {s t u : Stopping} → StopSteps s t → StopStep t u → StopSteps s u
