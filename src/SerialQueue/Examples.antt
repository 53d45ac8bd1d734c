-- ===== src/SerialQueue/Examples.antt =====
-- Runs of the queue, and its theorems at them.
use stage5_browser.Base.{◌+◌, ◌⊎◌, ◌≤◌, ◌≡◌, refl, none, some, List, [], ◌∷◌}
use stage5_browser.SerialQueue.{
  waits, runs, released, Queue, Event, calls, starts, ends, step, pending_count, run, empty_queue,
}
use stage5_browser.SerialQueue.Order.{InOrder, unreleased, running, run-IsSerial}
use stage5_browser.SerialQueue.Progress.{work, CanMove, run_settles}

abbrev three_calls : List Event
three_calls = calls ∷ starts 0 ∷ calls ∷ calls ∷ ends 0 ∷ starts 1 ∷ []

abbrev one_ended : Queue
one_ended = record { tickets = released ∷ runs ∷ waits ∷ []; waiting = 2 }

three_calls-run : run three_calls empty_queue ≡ some one_ended
unfolding run
three_calls-run = refl

-- The third call cannot start before the second has ended.
third_must_wait : step (starts 2) one_ended ≡ none
unfolding step
third_must_wait = refl

run-IsSerial_example :
    (running one_ended.tickets ≤ 1)
    × InOrder one_ended.tickets
    × (pending_count one_ended ≡ unreleased one_ended.tickets)
run-IsSerial_example = run-IsSerial three_calls one_ended three_calls-run

-- The second call ends.
abbrev second_ended : Queue
second_ended = record { tickets = released ∷ released ∷ waits ∷ []; waiting = 1 }

second_ended-run : run (ends 1 ∷ []) one_ended ≡ some second_ended
unfolding run
second_ended-run = refl

run_settles_example :
    (1 + work second_ended.tickets ≡ work one_ended.tickets)
    × (((pending_count second_ended ≡ 0) × (unreleased second_ended.tickets ≡ 0))
        ⊎ CanMove second_ended)
run_settles_example =
    run_settles three_calls (ends 1 ∷ []) one_ended second_ended three_calls-run (tt, tt)
      second_ended-run
