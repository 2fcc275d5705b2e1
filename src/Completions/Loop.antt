-- ===== src/Completions/Loop.antt =====
-- Timers, microtasks and calls of the deliverer over any history of the queue.
use pi_recipes.Prelude.{
  ℕ, ◌+◌, ◌≤◌, ◌<◌, Bool, true, false, ◌≡◌, refl, ◌≢◌, ◌⊎◌, List, [], ◌∷◌, All, arith,
  if◌then◌else◌,
}
use pi_recipes.Completions.Envelopes.{Envelope}
use pi_recipes.Completions.{
  CompletionQueue, empty, set_deliverer, enqueue, poke, acknowledge, consume_batch, clear,
  fire_timer, run_microtask, Event, sets_deliverer, step, run,
}

abbrev one_if : Bool → ℕ
one_if b = if b then 1 else 0

-- The flags tell which callbacks the engine holds, and it holds at most one of each kind.
pub record IsWellFormed (q : CompletionQueue) : Type 0 where
  pub timer : q.timers ≡ one_if q.flush_timer
  pub microtask : q.microtasks ≡ one_if q.delivery_scheduled

-- Every call and callback keeps the flags in step with the callbacks that wait.
pub step-IsWellFormed :
    (ev : Event) (q : CompletionQueue) → IsWellFormed q → IsWellFormed (step ev q).1
unfolding step set_deliverer enqueue poke acknowledge consume_batch clear fire_timer run_microtask
step-IsWellFormed (sets_deliverer d) q v = ground arith
step-IsWellFormed _ q v = ground arith

pub run-IsWellFormed :
    (evs : List Event) (q : CompletionQueue) → IsWellFormed q → IsWellFormed (run evs q).1
unfolding run
run-IsWellFormed [] q v = v
run-IsWellFormed (ev ∷ evs) q v = run-IsWellFormed evs (step ev q).1 (step-IsWellFormed ev q v)

empty-IsWellFormed : IsWellFormed empty
unfolding empty
empty-IsWellFormed = ground arith

-- After any history of a new queue there is at most one timer and at most one microtask of the
-- queue waiting, and its two flags say exactly whether there is one.
pub run-empty-IsWellFormed : (evs : List Event) → IsWellFormed (run evs empty).1
run-empty-IsWellFormed evs = run-IsWellFormed evs empty empty-IsWellFormed

-- With a deliverer installed, a new envelope leads to exactly one call of it once the timer that
-- waits, if there is one, and then the microtask have run.
pub enqueue_settles :
    (envelope : Envelope) (q : CompletionQueue)
    → IsWellFormed q
    → q.deliverer ≡ true
    → (run_microtask (fire_timer (enqueue envelope q))).calls ≡ q.calls + 1
unfolding enqueue fire_timer run_microtask
enqueue_settles envelope q v d = ground arith

-- A callback waits in the engine that leads to a call of the deliverer, or there is nothing to
-- deliver.
abbrev pub IsOwed : CompletionQueue → Type 0
IsOwed q = (q.pending ≡ []) ⊎ (1 ≤ q.timers) ⊎ (1 ≤ q.microtasks)

record IsTracked (calls : ℕ) (q : CompletionQueue) : Type 0 where
  installed : q.deliverer ≡ true
  formed : IsWellFormed q
  served : (calls < q.calls) ⊎ IsOwed q

step-IsTracked :
    (n : ℕ) (ev : Event) (q : CompletionQueue)
    → ev ≢ sets_deliverer false
    → n ≤ q.calls
    → IsTracked n q
    → IsTracked n (step ev q).1 × (n ≤ (step ev q).1.calls)
unfolding step set_deliverer enqueue poke acknowledge consume_batch clear fire_timer run_microtask
step-IsTracked n (sets_deliverer false) q h le t = absurd (h refl)
step-IsTracked n _ q h le t = ground arith

run-IsTracked :
    (n : ℕ) (evs : List Event) (q : CompletionQueue)
    → All (λ ev. ev ≢ sets_deliverer false) evs
    → n ≤ q.calls
    → IsTracked n q
    → IsTracked n (run evs q).1
unfolding run
run-IsTracked n [] q h le t = t
run-IsTracked n (ev ∷ evs) q (here, later) le t =
    let (t', le') = step-IsTracked n ev q here le t in
    run-IsTracked n evs (step ev q).1 later le' t'

enqueue-IsTracked :
    (envelope : Envelope) (q : CompletionQueue)
    → IsWellFormed q
    → q.deliverer ≡ true
    → IsTracked q.calls (enqueue envelope q) × (q.calls ≤ (enqueue envelope q).calls)
unfolding enqueue
enqueue-IsTracked envelope q v d = ground arith

-- No envelope is stranded: with a deliverer installed and not removed, at every later time after
-- an envelope was queued the deliverer has been called since, or a timer or a microtask of the
-- queue waits in the engine, or nothing is pending.
pub enqueue_not_stranded :
    (envelope : Envelope) (q : CompletionQueue) (evs : List Event)
    → IsWellFormed q
    → q.deliverer ≡ true
    → All (λ ev. ev ≢ sets_deliverer false) evs
    → (q.calls < (run evs (enqueue envelope q)).1.calls) ⊎ IsOwed (run evs (enqueue envelope q)).1
enqueue_not_stranded envelope q evs v d h =
    let (t, le) = enqueue-IsTracked envelope q v d in
    (run-IsTracked q.calls evs (enqueue envelope q) h le t).served
