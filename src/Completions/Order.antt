-- ===== src/Completions/Order.antt =====
-- What is delivered, in which order, and how often.
use mathlib.Core.Path.{ap₂}
use mathlib.Core.List.{append-nil, append_assoc}
use pi_recipes.Prelude.{
  Text, text_eq, text_eq_iff, true, false, not, ◌≡◌, refl, ap, sym, ◌∙◌, List, [], ◌∷◌, ◌++◌, any,
  keep, All, arith, Bool-cases, inl, inr, keep-append, keep-keep_nil,
}
use pi_recipes.Completions.Envelopes.{Envelope}
use pi_recipes.Completions.{
  CompletionQueue, set_deliverer, enqueue, poke, acknowledge, is_acknowledged, consume_batch, clear,
  fire_timer, run_microtask, Event, enqueues, clears, acknowledges, step, run,
}

-- The envelopes of one run, in order.
abbrev pub of_run : Text → List Envelope → List Envelope
of_run id = keep (λ e. text_eq e.id id)

abbrev pub enqueued : Event → List Envelope
enqueued (enqueues e) = e ∷ []
enqueued _ = []

abbrev pub all_enqueued : List Event → List Envelope
all_enqueued [] = []
all_enqueued (ev ∷ evs) = enqueued ev ++ all_enqueued evs

-- The event does not drop envelopes of the run.
abbrev pub Spares : Text → Event → Type 0
Spares id clears = ⊥
Spares id (acknowledges ids) = any (text_eq id) ids ≡ false
Spares id _ = Unit

of_run-acknowledge :
    (id : Text) (ids : List Text) (es : List Envelope)
    → any (text_eq id) ids ≡ false
    → of_run id (keep (λ e. not (is_acknowledged ids e)) es) ≡ of_run id es
of_run-acknowledge id ids [] h = refl
of_run-acknowledge id ids (e ∷ es) h = elim (Bool-cases (text_eq e.id id)) [
  | inl same ↦ ground (arith, of_run-acknowledge id ids es h, (text_eq_iff e.id id).0 same)
  | inr other ↦ ground (arith, of_run-acknowledge id ids es h)
]

step-of_run :
    (id : Text) (ev : Event) (q : CompletionQueue)
    → Spares id ev
    → of_run id ((step ev q).0 ++ (step ev q).1.pending) ≡ of_run id (q.pending ++ enqueued ev)
unfolding step set_deliverer enqueue poke acknowledge consume_batch clear fire_timer run_microtask
step-of_run id clears q h = elim h [ ]
step-of_run id (acknowledges ids) q h =
    of_run-acknowledge id ids q.pending h ∙ ap (of_run id) (sym (append-nil q.pending))
step-of_run id (enqueues e) q h = ground arith
step-of_run id _ q h = ground (arith, append-nil q.pending)

regroup :
    (id : Text) (taken later pending : List Envelope)
    → of_run id ((taken ++ later) ++ pending) ≡ of_run id taken ++ of_run id (later ++ pending)
regroup id taken later pending = simp (keep-append, append_assoc)

-- Over any history in which nothing of a run is cleared or acknowledged, what was consumed and then
-- what is still pending are, for that run, exactly what was pending before and then what was
-- queued: each envelope once, none lost, none repeated, in the order of queueing.
pub run-of_run :
    (id : Text) (evs : List Event) (q : CompletionQueue)
    → All (Spares id) evs
    → of_run id ((run evs q).0 ++ (run evs q).1.pending) ≡ of_run id (q.pending ++ all_enqueued evs)
unfolding run
run-of_run id [] q h = ap (of_run id) (sym (append-nil q.pending))
run-of_run id (ev ∷ evs) q (here, later) =
    let q' = (step ev q).1 in
    let taken = (step ev q).0 in
    regroup id taken (run evs q').0 (run evs q').1.pending
    ∙ ap (λ l. of_run id taken ++ l) (run-of_run id evs q' later)
    ∙ sym (regroup id taken q'.pending (all_enqueued evs))
    ∙ keep-append (λ e. text_eq e.id id) (taken ++ q'.pending) (all_enqueued evs)
    ∙ ap (λ l. l ++ of_run id (all_enqueued evs)) (step-of_run id ev q here)
    ∙ sym (keep-append (λ e. text_eq e.id id) (q.pending ++ enqueued ev) (all_enqueued evs))
    ∙ ap (of_run id) (append_assoc q.pending (enqueued ev) (all_enqueued evs))

-- The event queues nothing of the run.
abbrev pub IsQuiet : Text → Event → Type 0
IsQuiet id (enqueues e) = text_eq e.id id ≡ false
IsQuiet id _ = Unit

-- An event that queues nothing of a run of which nothing is pending yields nothing of it.
step-quiet :
    (id : Text) (ev : Event) (q : CompletionQueue)
    → IsQuiet id ev
    → of_run id q.pending ≡ []
    → (of_run id (step ev q).0 ≡ []) × (of_run id (step ev q).1.pending ≡ [])
unfolding step set_deliverer enqueue poke acknowledge consume_batch clear fire_timer run_microtask
step-quiet id (enqueues e) q h none_left =
    (refl, ground (arith, keep-append (λ (x : Envelope). text_eq x.id id) q.pending (e ∷ [])))
step-quiet id (acknowledges ids) q h none_left = (
  refl,
  keep-keep_nil (λ x. text_eq x.id id) (λ x. not (is_acknowledged ids x)) q.pending none_left,
)
step-quiet id _ q h none_left = ground arith

run-quiet :
    (id : Text) (evs : List Event) (q : CompletionQueue)
    → All (IsQuiet id) evs
    → of_run id q.pending ≡ []
    → of_run id (run evs q).0 ≡ []
unfolding run
run-quiet id [] q h e = refl
run-quiet id (ev ∷ evs) q (here, later) e =
    let (a, b) = step-quiet id ev q here e in
    keep-append (λ x. text_eq x.id id) (step ev q).0 (run evs (step ev q).1).0
    ∙ ap₂ ◌++◌ a (run-quiet id evs (step ev q).1 later b)

of_run-acknowledged :
    (id : Text) (ids : List Text) (es : List Envelope)
    → any (text_eq id) ids ≡ true
    → of_run id (keep (λ e. not (is_acknowledged ids e)) es) ≡ []
of_run-acknowledged id ids [] h = refl
of_run-acknowledged id ids (e ∷ es) h = elim (Bool-cases (text_eq e.id id)) [
  | inl same ↦ ground (arith, of_run-acknowledged id ids es h, (text_eq_iff e.id id).0 same)
  | inr other ↦ ground (arith, of_run-acknowledged id ids es h)
]

-- A run whose output the parent has already seen is not delivered again: after `acknowledge` of
-- its id nothing of it is ever consumed, until it is queued anew.
pub acknowledge_not_delivered :
    (id : Text) (ids : List Text) (evs : List Event) (q : CompletionQueue)
    → any (text_eq id) ids ≡ true
    → All (IsQuiet id) evs
    → of_run id (run evs (acknowledge ids q)).0 ≡ []
unfolding acknowledge
acknowledge_not_delivered id ids evs q h quiet =
    run-quiet id evs (record q { pending = keep (λ e. not (is_acknowledged ids e)) q.pending })
      quiet (of_run-acknowledged id ids q.pending h)
