-- ===== src/Runs/Slots.antt =====
-- The slots that bound how many child runs execute at a time: acquireSlot and releaseSlot of
-- src/run-controller.ts. `await` splits an acquisition: a waiter that `releaseSlot` resolves takes
-- its slot only when its continuation runs, and is in `woken` until then.
pub mod Capacity
pub mod Fairness
use pi_recipes.Prelude.{
  ℕ, ◌+◌, ◌-◌, Bool, true, false, List, [], ◌∷◌, ◌++◌, Option, none, some, ltb, ◌==◌, if◌then◌else◌,
  max,
}

pub record SlotPool : Type 0 where
  pub concurrency : ℕ
  pub active : ℕ
  pub queue : List ℕ
  pub woken : List ℕ

abbrev pub default_subagent_concurrency : ℕ
default_subagent_concurrency = 4

or_default : Option ℕ → ℕ
or_default none = default_subagent_concurrency
or_default (some n) = n

unfoldable pub new_slots : Option ℕ → SlotPool
unfolding or_default
new_slots concurrency = record {
  concurrency = max 1 (or_default concurrency);
  active = 0;
  queue = [];
  woken = [];
}

-- The part of `acquireSlot` up to its `await`, called by `task`; true if it got the slot at once.
unfoldable pub acquire : ℕ → SlotPool → SlotPool × Bool
acquire task s =
    if ltb s.active s.concurrency
    then (record s { active = s.active + 1 }, true)
    else (record s { queue = s.queue ++ task ∷ [] }, false)

-- `queue.shift()?.()`
shift : SlotPool → SlotPool
shift s = elim s.queue [
  | [] ↦ s
  | task ∷ rest ↦ record s { queue = rest; woken = s.woken ++ task ∷ [] }
]

unfoldable pub release : SlotPool → SlotPool
unfolding shift
release s = shift (record s { active = s.active - 1 })

remove : ℕ → List ℕ → List ℕ
remove t [] = []
remove t (x ∷ xs) = if x == t then xs else x ∷ remove t xs

abbrev pub mem : ℕ → List ℕ → Bool
mem t [] = false
mem t (x ∷ xs) = if x == t then true else mem t xs

-- The continuation of `acquireSlot` after its `await`, if the waiter has been resolved.
unfoldable pub resume : ℕ → SlotPool → SlotPool
unfolding remove
resume task s =
    if mem task s.woken then record s { active = s.active + 1; woken = remove task s.woken } else s

pub data SlotEvent : Type 0 where
  acquires : ℕ → SlotEvent
  releases : SlotEvent
  resumes : ℕ → SlotEvent

unfoldable pub slot_step : SlotEvent → SlotPool → SlotPool
unfolding acquire release resume
slot_step (acquires task) s = (acquire task s).0
slot_step releases s = release s
slot_step (resumes task) s = resume task s

unfoldable pub slot_run : List SlotEvent → SlotPool → SlotPool
unfolding slot_step
slot_run [] s = s
slot_run (ev ∷ evs) s = slot_run evs (slot_step ev s)
