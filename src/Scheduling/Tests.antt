-- ===== src/Scheduling/Tests.antt =====
-- A foreground and two background tasks, inserted with the greater id first.
use libcmm.Prelude.{◌≡◌, refl, ◌⊎◌, true, false, none, some, List, [], ◌∷◌, ◌++◌, pos, arith, All}
use libcmm.StdSet.{StrictWeakOrder, set_insert}
use libcmm.Scheduling.Task.{no_time, SchedulingData, chunk_task, ack_task, is_ondemand, less}
use libcmm.Scheduling.PrioritySet
use libcmm.Scheduling.PrioritySet.{PrioritySet, pop, remove, transfer}
use libcmm.Scheduling.Order.{At, less-StrictWeakOrder, less_both_ways}
use libcmm.Scheduling.Sets.{
  Call, inserts, pops, run, step, CallAt, InOrder, Yields, Misses, pop_order, remove_outcome,
  transfer_foreground,
}

abbrev background : SchedulingData
background = chunk_task 5 true 8

abbrev foreground : SchedulingData
foreground = chunk_task 7 true 4

abbrev calls : List Call
calls = inserts background ∷ inserts foreground ∷ inserts (chunk_task 3 true 8) ∷ pops ∷ []

abbrev calls-At : All (CallAt no_time) calls
calls-At = (refl, (refl, (refl, (tt, tt))))

abbrev left : PrioritySet
left = background ∷ []

pops_third : pop (run [] calls) ≡ some (chunk_task 3 true 8, left)
unfolding pop run step set_insert less PrioritySet.insert
pops_third = refl

pop_order_example : All (Yields no_time (chunk_task 3 true 8)) left
pop_order_example = pop_order no_time calls calls-At (chunk_task 3 true 8) left pops_third

less-StrictWeakOrder_example : StrictWeakOrder less (At no_time)
less-StrictWeakOrder_example = less-StrictWeakOrder no_time

abbrev early_ack : SchedulingData
early_ack = ack_task 9 (record { tv_sec = pos 1; tv_usec = pos 0 }) 8

abbrev late_ack : SchedulingData
late_ack = ack_task 2 (record { tv_sec = pos 3; tv_usec = pos 0 }) 8

less_both_ways_example : (less early_ack late_ack ≡ true) × (less late_ack early_ack ≡ true)
less_both_ways_example = less_both_ways early_ack late_ack refl refl (ground arith)

left-InOrder : InOrder no_time left
left-InOrder = record { level = (refl, tt); sorted = (tt, tt) }

remove_outcome_example :
    ((remove 5 left ≡ none) × All (Misses 5) left)
    ⊎ ((d : SchedulingData) × (before after : PrioritySet) × (left ≡ before ++ d ∷ after)
        × (remove 5 left ≡ some (d, before ++ after))
        × (d.id ≡ 5)
        × (is_ondemand d ≡ false))
remove_outcome_example = remove_outcome 5 left left-InOrder

abbrev urgent : PrioritySet
urgent = foreground ∷ []

urgent-InOrder : InOrder no_time urgent
urgent-InOrder = record { level = (refl, tt); sorted = (tt, tt) }

urgent-Misses : All (Misses 7) urgent
urgent-Misses = (λ same_id. refl, tt)

transfer_foreground_example : transfer 7 8 urgent left ≡ (urgent, left)
transfer_foreground_example = transfer_foreground 7 8 urgent left urgent-InOrder urgent-Misses
