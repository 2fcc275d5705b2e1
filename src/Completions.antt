-- ===== src/Completions.antt =====
-- The queue that tells an idle parent of finished child runs (src/child-agent-completions.ts).
-- The queue runs on an event loop: beside the object's fields the state holds the callbacks that
-- the engine still has to run, and a count of the calls of the deliverer.
pub mod Envelopes
pub mod Loop
pub mod Order
mod Tests
use pi_recipes.Prelude.{
  ℕ, ◌+◌, ◌-◌, Text, text_eq, Bool, true, false, not, List, [], ◌∷◌, ◌++◌, Option, none, some, any,
  keep, if◌then◌else◌, ◌==◌,
}
use Envelopes.{CompletionStatus, completed, failed, Envelope}

-- `timers` and `microtasks` are the callbacks of the queue that the engine has not run yet.
pub record CompletionQueue : Type 0 where
  pub pending : List Envelope
  pub deliverer : Bool
  pub flush_timer : Bool
  pub delivery_scheduled : Bool
  pub timers : ℕ
  pub microtasks : ℕ
  pub calls : ℕ

pub empty : CompletionQueue
empty = record {
  pending = [];
  deliverer = false;
  flush_timer = false;
  delivery_scheduled = false;
  timers = 0;
  microtasks = 0;
  calls = 0;
}

-- this.deliverer?.()
deliver : CompletionQueue → CompletionQueue
deliver q = if q.deliverer then record q { calls = q.calls + 1 } else q

-- if (this.flushTimer) { clearTimeout(this.flushTimer); this.flushTimer = null; }
-- Clearing a timer that is firing takes no callback away.
clear_timer : CompletionQueue → CompletionQueue
clear_timer q = if q.flush_timer then record q { flush_timer = false; timers = q.timers - 1 } else q

schedule_delivery : CompletionQueue → CompletionQueue
schedule_delivery q =
    if q.delivery_scheduled
    then q
    else record q { delivery_scheduled = true; microtasks = q.microtasks + 1 }

flush_now : CompletionQueue → CompletionQueue
unfolding clear_timer schedule_delivery
flush_now q = schedule_delivery (clear_timer q)

abbrev pub is_empty {ℓ} : {A : Type ℓ} → List A → Bool
is_empty [] = true
is_empty (_ ∷ _) = false

pub set_deliverer : Bool → CompletionQueue → CompletionQueue
unfolding flush_now
set_deliverer d q =
    let q' = record q { deliverer = d } in
    if d then (if is_empty q.pending then q' else flush_now q') else q'

arm_timer : CompletionQueue → CompletionQueue
arm_timer q = if q.flush_timer then q else record q { flush_timer = true; timers = q.timers + 1 }

abbrev is_failed : CompletionStatus → Bool
is_failed failed = true
is_failed completed = false

pub enqueue : Envelope → CompletionQueue → CompletionQueue
unfolding flush_now arm_timer
enqueue envelope q =
    let q' = record q { pending = q.pending ++ envelope ∷ [] } in
    if is_failed envelope.status then flush_now q' else arm_timer q'

pub poke : CompletionQueue → CompletionQueue
unfolding clear_timer deliver
poke q = if is_empty q.pending then q else deliver (clear_timer q)

abbrev pub is_acknowledged : List Text → Envelope → Bool
is_acknowledged ids envelope = any (text_eq envelope.id) ids

pub acknowledge : List Text → CompletionQueue → CompletionQueue
acknowledge ids q = record q { pending = keep (λ e. not (is_acknowledged ids e)) q.pending }

pub has_pending : CompletionQueue → Bool
has_pending q = not (is_empty q.pending)

-- The batch that is taken, and the queue that is left.
pub consume_batch : CompletionQueue → List Envelope × CompletionQueue
consume_batch q = (q.pending, record q { pending = [] })

pub clear : CompletionQueue → CompletionQueue
unfolding clear_timer
clear q = clear_timer (record q { pending = [] })

-- The callback of setTimeout, run by the engine if one is waiting: the timer is spent, and
-- `flushNow` finds `flushTimer` still set.
pub fire_timer : CompletionQueue → CompletionQueue
unfolding schedule_delivery
fire_timer q =
    if q.timers == 0
    then q
    else schedule_delivery (record q { flush_timer = false; timers = q.timers - 1 })

-- The callback of queueMicrotask.
pub run_microtask : CompletionQueue → CompletionQueue
unfolding deliver
run_microtask q =
    if q.microtasks == 0
    then q
    else deliver (record q { delivery_scheduled = false; microtasks = q.microtasks - 1 })

pub data Event : Type 0 where
  sets_deliverer : Bool → Event
  enqueues : Envelope → Event
  pokes consumes clears timer_fires microtask_runs : Event
  acknowledges : List Text → Event

-- One call or callback: the queue after it, and what `consumeBatch` returned.
pub step : Event → CompletionQueue → List Envelope × CompletionQueue
step (sets_deliverer d) q = ([], set_deliverer d q)
step (enqueues envelope) q = ([], enqueue envelope q)
step pokes q = ([], poke q)
step consumes q = consume_batch q
step clears q = ([], clear q)
step timer_fires q = ([], fire_timer q)
step microtask_runs q = ([], run_microtask q)
step (acknowledges ids) q = ([], acknowledge ids q)

-- A history of calls and callbacks, with all that was consumed.
pub run : List Event → CompletionQueue → List Envelope × CompletionQueue
run [] q = ([], q)
run (ev ∷ evs) q =
    let (taken, q') = step ev q in let (later, q'') = run evs q' in (taken ++ later, q'')
