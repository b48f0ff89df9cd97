-- ===== src/IntSet/Tests.antt =====
-- A set that a negative and a positive number enter and leave.
use libcmm.Prelude.{◌≡◌, refl, Bool, true, false, List, [], ◌∷◌, ℤ, pos, negsuc}
use libcmm.IntSet.{empty_set, contains, empty, Op, inserts, erases, run, step, insert, erase}
use libcmm.IntSet.Laws.{spec_run, contains-run}
use libcmm.IntSet.Size.{IsCounted, run-empty_set-IsCounted, contains_of_empty}

abbrev calls : List Op
calls = inserts (negsuc 0) ∷ inserts (pos 2) ∷ erases (negsuc 0) ∷ erases (pos 2) ∷ []

abbrev nothing : ℤ → Bool
nothing z = false

emptied : empty (run empty_set calls) ≡ true
unfolding empty run step erase insert
emptied = refl

contains-run_example : contains (run empty_set calls) (pos 2) ≡ spec_run nothing calls (pos 2)
contains-run_example = contains-run calls (pos 2)

run-empty_set-IsCounted_example : IsCounted (run empty_set calls)
run-empty_set-IsCounted_example = run-empty_set-IsCounted calls

contains_of_empty_example : contains (run empty_set calls) (negsuc 0) ≡ false
contains_of_empty_example = contains_of_empty calls emptied (negsuc 0)
