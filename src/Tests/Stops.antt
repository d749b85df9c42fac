-- ===== src/Tests/Stops.antt =====
-- src/dbn_wrapper/dbn_wrapper.h: a request to stop that comes in time, two of which one is forgotten, and
-- one that comes too late.
use order_book_server_cpp.Prelude.{◌≡◌, refl, true, false, [], ◌∷◌}
use order_book_server_cpp.Streaming.Stop.{
  Stopping, new_stopping, leave_loop, end_loop, test_not_null, test_is_value_set, set_stop_future,
  test_is_streaming, register_stop, ask_stop, is_value_set, ends, clears, looks, tests, registers,
  asks, StopSteps, stays, goes,
}

-- Calls 0 and 1 both pass the test, and the future of call 1 takes the place of that of call 0.
abbrev two_ask : Stopping
two_ask = ask_stop 1 (
    ask_stop 0
      (register_stop 1 (register_stop 0 (test_is_streaming 1 (test_is_streaming 0 new_stopping)))))

abbrev stopped : Stopping
stopped =
    set_stop_future 1 (test_is_value_set 1 (test_not_null (end_loop (leave_loop true two_ask))))

only_one : stopped.answered ≡ 1 ∷ []
unfolding test_is_streaming register_stop ask_stop leave_loop end_loop test_not_null
    test_is_value_set set_stop_future is_value_set
only_one = refl

-- The loop ends between the test and the rest of `stop`: the request is not answered.
abbrev too_late : Stopping
too_late = ask_stop 0 (
    register_stop 0
      (test_not_null (end_loop (leave_loop false (test_is_streaming 0 new_stopping)))))

comes_too_late : StopSteps new_stopping too_late
unfolding test_is_streaming register_stop ask_stop leave_loop end_loop test_not_null
comes_too_late =
    goes
      (goes
        (goes
          (goes (goes (goes (stays new_stopping) (tests _ 0 refl)) (ends _ refl)) (clears _ refl))
          (looks _ refl))
        (registers _ 0 refl))
      (asks _ 0 refl)

nobody_answered : too_late.answered ≡ []
unfolding test_is_streaming register_stop ask_stop leave_loop end_loop test_not_null
nobody_answered = refl
