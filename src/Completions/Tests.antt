-- ===== src/Completions/Tests.antt =====
-- Histories of the completion queue with two runs.
use pi_recipes.Prelude.{
  ◌<◌, Text, codes, text_eq, true, List, [], ◌∷◌, ◌++◌, none, ◌≡◌, refl, ◌⊎◌, any, arith,
}
use pi_recipes.Completions.{
  CompletionQueue, empty, enqueue, fire_timer, run_microtask, acknowledge, Event, sets_deliverer,
  enqueues, pokes, consumes, clears, timer_fires, microtask_runs, step, run,
}
use pi_recipes.Completions.Envelopes.{CompletionStatus, completed, failed, Envelope}
use pi_recipes.Completions.Loop.{IsOwed, run-empty-IsWellFormed, enqueue_not_stranded}
use pi_recipes.Completions.Order.{of_run, all_enqueued, run-of_run}

abbrev envelope_of : Text → CompletionStatus → Envelope
envelope_of id status = record {
  id = id;
  agent = codes "scout";
  label = none;
  status = status;
  output_preview = none;
  error = none;
  duration_ms = none;
}

abbrev first_envelope : Envelope
first_envelope = envelope_of (codes "r1") completed

abbrev second_envelope : Envelope
second_envelope = envelope_of (codes "r2") failed

abbrev test_history : List Event
test_history = enqueues first_envelope ∷ enqueues second_envelope ∷ microtask_runs ∷ consumes ∷ []

abbrev with_deliverer : CompletionQueue
with_deliverer = (run (sets_deliverer true ∷ []) empty).1

is_installed : with_deliverer.deliverer ≡ true
unfolding run step pi_recipes.Completions.set_deliverer empty
is_installed = refl

enqueue_not_stranded_example :
    (with_deliverer.calls
      < (run (pokes ∷ clears ∷ []) (enqueue first_envelope with_deliverer)).1.calls)
    ⊎ IsOwed (run (pokes ∷ clears ∷ []) (enqueue first_envelope with_deliverer)).1
enqueue_not_stranded_example =
    enqueue_not_stranded first_envelope with_deliverer (pokes ∷ clears ∷ [])
      (run-empty-IsWellFormed (sets_deliverer true ∷ [])) is_installed
      ((λ e. ground arith), ((λ e. ground arith), tt))

run-of_run_example :
    of_run (codes "r1") ((run test_history empty).0 ++ (run test_history empty).1.pending)
    ≡ of_run (codes "r1") (empty.pending ++ all_enqueued test_history)
run-of_run_example = run-of_run (codes "r1") test_history empty (tt, (tt, (tt, (tt, tt))))

is_named : any (text_eq (codes "r1")) (codes "r1" ∷ []) ≡ true
unfolding text_eq
is_named = refl

abbrev later_history : List Event
later_history = microtask_runs ∷ consumes ∷ []
