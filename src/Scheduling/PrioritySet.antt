-- ===== src/Scheduling/PrioritySet.antt =====
-- IROBPrioritySet.
use libcmm.Prelude.{ℕ, false, Option, none, some, List, [], ◌∷◌}
use libcmm.StdSet.{set_insert, set_find, set_erase}
use libcmm.Scheduling.Task.{SchedulingData, chunk_task, less}

-- The member `tasks` of IROBPrioritySet.
abbrev pub PrioritySet : Type 0
PrioritySet = List SchedulingData

unfoldable pub insert : SchedulingData → PrioritySet → PrioritySet
insert task s = set_insert less task s

-- `pop_item` (common.h): the first element, or nothing of an empty set.
unfoldable pub pop : PrioritySet → Option (SchedulingData × PrioritySet)
pop [] = none
pop (d ∷ ds) = some (d, ds)

-- The search is for a task that only has the id.
unfoldable pub remove : ℕ → PrioritySet → Option (SchedulingData × PrioritySet)
remove id s =
    let dummy = chunk_task id false 0 in
    elim (set_find less dummy s) [ none ↦ none | some d ↦ some (d, set_erase less dummy s) ]

-- `transfer` between two sets.
unfoldable pub transfer : ℕ → ℕ → PrioritySet → PrioritySet → PrioritySet × PrioritySet
unfolding remove insert
transfer id labels this other = elim (remove id this) [
  | none ↦ (this, other)
  | some (d, rest) ↦ (rest, insert (record d { send_labels = labels }) other)
]

-- `transfer` from a set to itself.
unfoldable pub transfer_self : ℕ → ℕ → PrioritySet → PrioritySet
unfolding remove insert
transfer_self id labels this = elim (remove id this) [
  | none ↦ this
  | some (d, rest) ↦ insert (record d { send_labels = labels }) rest
]

-- Inserts all tasks of a range.
unfoldable pub insert_range : List SchedulingData → PrioritySet → PrioritySet
unfolding insert
insert_range [] s = s
insert_range (d ∷ ds) s = insert_range ds (insert d s)
