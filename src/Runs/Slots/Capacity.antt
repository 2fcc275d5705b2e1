-- ===== src/Runs/Slots/Capacity.antt =====
-- How many runs are active: no slot is left idle while somebody waits, and when the bound holds.
use pi_recipes.Prelude.{
  ℕ, ◌+◌, ◌≤◌, ◌<◌, true, ◌≡◌, ◌⊎◌, inl, inr, List, [], ◌∷◌, Option, arith, List-cases, length,
  length-append,
}
use pi_recipes.Runs.Slots.{
  SlotPool, new_slots, remove, mem, SlotEvent, acquires, releases, resumes, slot_step, slot_run,
}

length-remove : (t : ℕ) (xs : List ℕ) → mem t xs ≡ true → length (remove t xs) + 1 ≡ length xs
unfolding remove
length-remove t [] h = cc
length-remove t (x ∷ xs) h = ground (arith, length-remove t xs)

-- Nobody waits for a slot that is free: slots that are taken or promised reach the bound.
abbrev pub IsWorkConserving : SlotPool → Type 0
IsWorkConserving s = (s.queue ≡ []) ⊎ (s.concurrency ≤ s.active + length s.woken)

abbrev pub IsEnabled : SlotEvent → SlotPool → Type 0
IsEnabled releases s = 0 < s.active
IsEnabled _ s = Unit

pub slot_step-IsWorkConserving :
    (ev : SlotEvent) (s : SlotPool)
    → IsEnabled ev s
    → IsWorkConserving s
    → IsWorkConserving (slot_step ev s)
unfolding slot_step
slot_step-IsWorkConserving (acquires t) s e h = ground arith
slot_step-IsWorkConserving releases s e h = elim (List-cases s.queue) [
  | inl nobody ↦ ground arith
  | inr (t, rest, first) ↦ ground (arith, length-append s.woken (t ∷ []))
]
slot_step-IsWorkConserving (resumes t) s e h = ground (arith, length-remove t s.woken)

-- A release is made by a run that holds a slot.
abbrev pub AreEnabled : List SlotEvent → SlotPool → Type 0
AreEnabled [] s = Unit
AreEnabled (ev ∷ evs) s = IsEnabled ev s × AreEnabled evs (slot_step ev s)

-- No wake-up is lost: while somebody is queued, the slots that are taken and those that are
-- promised to woken waiters always add up to at least the bound.
pub slot_run-IsWorkConserving :
    (evs : List SlotEvent) (s : SlotPool)
    → AreEnabled evs s
    → IsWorkConserving s
    → IsWorkConserving (slot_run evs s)
unfolding slot_run
slot_run-IsWorkConserving [] s e h = h
slot_run-IsWorkConserving (ev ∷ evs) s (here, later) h =
    slot_run-IsWorkConserving evs (slot_step ev s) later (slot_step-IsWorkConserving ev s here h)

abbrev pub IsBounded : SlotPool → Type 0
IsBounded s = s.active + length s.woken ≤ s.concurrency

-- Nobody asks for a slot between a release and the continuation of the waiter that it woke.
abbrev pub IsCalm : SlotEvent → SlotPool → Type 0
IsCalm (acquires t) s = s.woken ≡ []
IsCalm releases s = 0 < s.active
IsCalm (resumes t) s = Unit

abbrev pub AreCalm : List SlotEvent → SlotPool → Type 0
AreCalm [] s = Unit
AreCalm (ev ∷ evs) s = IsCalm ev s × AreCalm evs (slot_step ev s)

slot_step-IsBounded :
    (ev : SlotEvent) (s : SlotPool)
    → IsCalm ev s
    → IsBounded s
    → IsBounded (slot_step ev s) × ((slot_step ev s).concurrency ≡ s.concurrency)
unfolding slot_step
slot_step-IsBounded (acquires t) s e h = ground arith
slot_step-IsBounded releases s e h = elim (List-cases s.queue) [
  | inl nobody ↦ ground arith
  | inr (t, rest, first) ↦ ground (arith, length-append s.woken (t ∷ []))
]
slot_step-IsBounded (resumes t) s e h = ground (arith, length-remove t s.woken)

slot_run-IsBounded :
    (evs : List SlotEvent) (s : SlotPool)
    → AreCalm evs s
    → IsBounded s
    → (slot_run evs s).active ≤ s.concurrency
unfolding slot_run
slot_run-IsBounded [] s e h = omega arith
slot_run-IsBounded (ev ∷ evs) s (here, later) h =
    let (b, same) = slot_step-IsBounded ev s here h in
    omega (arith, slot_run-IsBounded evs (slot_step ev s) later b, same)

-- From a new controller on, at most `concurrency` runs are active at a time, and the bound is at
-- least 1, in any history where nobody asks for a slot while a woken waiter has not taken its own.
pub slot_run_bounded :
    (concurrency : Option ℕ) (evs : List SlotEvent)
    → AreCalm evs (new_slots concurrency)
    → ((slot_run evs (new_slots concurrency)).active ≤ (new_slots concurrency).concurrency)
      × (1 ≤ (new_slots concurrency).concurrency)
unfolding new_slots
slot_run_bounded concurrency evs calm =
    (slot_run-IsBounded evs (new_slots concurrency) calm (omega arith), omega arith)

-- Without that condition the bound fails: whenever all slots are taken and somebody waits, a
-- request that comes between a release and the continuation of the waiter gets the free slot, and
-- then the waiter takes one more than there are.
pub slot_run_overcommits :
    (s : SlotPool) (waiter late : ℕ) (rest : List ℕ)
    → 0 < s.concurrency
    → s.active ≡ s.concurrency
    → s.queue ≡ waiter ∷ rest
    → s.woken ≡ []
    → (slot_run (releases ∷ acquires late ∷ resumes waiter ∷ []) s).active ≡ s.concurrency + 1
unfolding slot_run
slot_run_overcommits s waiter late rest pos full waiting calm = ground arith
