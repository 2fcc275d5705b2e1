-- ===== src/Runs/Slots/Fairness.antt =====
-- In which order waiters get their slots.
use mathlib.Core.List.{append-nil, append_assoc}
use pi_recipes.Prelude.{
  ℕ, ◌≡◌, ap, sym, ◌∙◌, inl, inr, List, [], ◌∷◌, ◌++◌, arith, List-cases, if◌then◌else◌, ltb,
}
use pi_recipes.Runs.Slots.{SlotPool, SlotEvent, acquires, releases, resumes, slot_step, slot_run}

-- Those who wait, the longest first.
abbrev pub line : SlotPool → List ℕ
line s = s.woken ++ s.queue

-- Who joins the line, and who leaves it with a slot.
abbrev pub joins : SlotEvent → SlotPool → List ℕ
joins (acquires t) s = if ltb s.active s.concurrency then [] else t ∷ []
joins _ s = []

abbrev pub leaves : SlotEvent → List ℕ
leaves (resumes t) = t ∷ []
leaves _ = []

abbrev pub all_joins : List SlotEvent → SlotPool → List ℕ
all_joins [] s = []
all_joins (ev ∷ evs) s = joins ev s ++ all_joins evs (slot_step ev s)

abbrev pub all_leaves : List SlotEvent → List ℕ
all_leaves [] = []
all_leaves (ev ∷ evs) = leaves ev ++ all_leaves evs

-- Continuations run in the order in which their promises were resolved.
abbrev pub IsInOrder : SlotEvent → SlotPool → Type 0
IsInOrder (resumes t) s = (rest : List ℕ) × (s.woken ≡ t ∷ rest)
IsInOrder _ s = Unit

abbrev pub AreInOrder : List SlotEvent → SlotPool → Type 0
AreInOrder [] s = Unit
AreInOrder (ev ∷ evs) s = IsInOrder ev s × AreInOrder evs (slot_step ev s)

slot_step-line :
    (ev : SlotEvent) (s : SlotPool)
    → IsInOrder ev s
    → leaves ev ++ line (slot_step ev s) ≡ line s ++ joins ev s
unfolding slot_step
slot_step-line (acquires t) s h =
    ground (arith, append-nil (line s), append_assoc s.woken s.queue (t ∷ []))
slot_step-line releases s h = elim (List-cases s.queue) [
  | inl nobody ↦ ground (arith, append-nil s.woken, append-nil (line s))
  | inr (t, rest, first) ↦ ground (arith, append-nil (line s), append_assoc s.woken (t ∷ []) rest)
]
slot_step-line (resumes t) s (rest, first) = ground (arith, append-nil (line s))

-- The line is served in its order: over any history in which woken waiters go on in the order in
-- which they were woken, those who left the line with a slot, and then those who are still in it,
-- are those who were in it before and then those who joined it, in that order. Who finds a slot free
-- takes it at once and is never in the line.
pub slot_run-line :
    (evs : List SlotEvent) (s : SlotPool)
    → AreInOrder evs s
    → all_leaves evs ++ line (slot_run evs s) ≡ line s ++ all_joins evs s
unfolding slot_run
slot_run-line [] s h = sym (append-nil (line s))
slot_run-line (ev ∷ evs) s (here, later) =
    append_assoc (leaves ev) (all_leaves evs) (line (slot_run evs (slot_step ev s)))
    ∙ ap (λ l. leaves ev ++ l) (slot_run-line evs (slot_step ev s) later)
    ∙ sym (append_assoc (leaves ev) (line (slot_step ev s)) (all_joins evs (slot_step ev s)))
    ∙ ap (λ l. l ++ all_joins evs (slot_step ev s)) (slot_step-line ev s here)
    ∙ append_assoc (line s) (joins ev s) (all_joins evs (slot_step ev s))
