-- ===== src/Lattice/Tests.antt =====
-- Runs of the lattice, at the sender with the base class's virtual methods and at the receiver.
use libcmm.Prelude.{ℕ, ◌≡◌, refl, ◌⊎◌, ◌↔◌, Bool, true, false, Option, none, some, List, [], ◌∷◌}
use libcmm.IntSet
use libcmm.IdSet
use libcmm.Irob.{
  Chunk, Irob, Virtuals, placeholder_irob, new_irob, is_ready, subsume, add_chunk, add_chunk-Keeps,
  subsume-Keeps,
}
use libcmm.Irob
use libcmm.ReceiverIrob.{absorb, Receiving, ReceiverIrob, new_receiver_irob}
use libcmm.ReceiverIrob.Virtual.{receiver_virtuals}
use libcmm.Lattice.{
  Lattice, new_lattice, insert_locked, find_locked, erase_locked, drop_irob_and_dependents,
  slot_dependents, put_slot, modify, correct_deps, is_past,
}
use libcmm.IdSet.{has}
use libcmm.Lattice.Invariant.{IsValid}
use libcmm.Lattice.Outcome.{TurnedAway, Inserted, insert_locked_outcome}
use libcmm.Lattice.Erase.{Erased, erase_locked_outcome}
use libcmm.Lattice.Drop.{Fate, drop_irob_and_dependents_outcome}
use libcmm.Lattice.Readiness.{
  Received, start, arrive, consume, hold_place, Received-Tracks, ready_when_past,
}
use libcmm.Lattice.Erasure.{announce}
use libcmm.Lattice.Ordering.{Sent, Barriers}
use libcmm.Lattice.Sender.{Sending, none_sent, hand_over, acknowledge, Sending-Barriers}

abbrev after : {E : Type 0} → Option (Lattice E × Bool) → Lattice E
after none = new_lattice
after (some r) = r.0

abbrev first : ReceiverIrob
first = new_receiver_irob 0 [] 0

-- It waits for 0 and for 2, which have not arrived.
abbrev second : ReceiverIrob
second = new_receiver_irob 1 (0 ∷ 2 ∷ []) 0

abbrev one : Lattice Receiving
one = after (insert_locked receiver_virtuals new_lattice second false)

abbrev two : Lattice Receiving
two = after (insert_locked receiver_virtuals one first false)

abbrev three : Lattice Receiving
three = (erase_locked two 0 true).0

-- Something comes for IROB 5 before its Begin_IROB message.
abbrev four : Lattice Receiving
four =
    after (insert_locked receiver_virtuals three (placeholder_irob 5 receiver_virtuals.fresh) false)

abbrev found : {E : Type 0} → Irob E → Option (Irob E) → Irob E
found p none = p
found p (some q) = q

abbrev waiting : ReceiverIrob
waiting = found first (find_locked four 1)

inserts_second : insert_locked receiver_virtuals new_lattice second false ≡ some (one, true)
unfolding insert_locked erase_locked new_receiver_irob new_irob IntSet.contains IntSet.insert
    find_locked correct_deps put_slot modify subsume add_chunk Irob.placeholder_irob
    Irob.remove_deps_if Irob.add_dependent Irob.add_dep Irob.dep_satisfied IdSet.insert
    IdSet.insert_all IdSet.keep_if IdSet.erase IdSet.erase_all IdSet.intersection absorb
inserts_second = refl

inserts_first : insert_locked receiver_virtuals one first false ≡ some (two, true)
unfolding insert_locked erase_locked new_receiver_irob new_irob IntSet.contains IntSet.insert
    find_locked correct_deps put_slot modify subsume add_chunk Irob.placeholder_irob
    Irob.remove_deps_if Irob.add_dependent Irob.add_dep Irob.dep_satisfied IdSet.insert
    IdSet.insert_all IdSet.keep_if IdSet.erase IdSet.erase_all IdSet.intersection absorb
inserts_first = refl

finds_waiting : find_locked four 1 ≡ some waiting
unfolding insert_locked erase_locked new_receiver_irob new_irob IntSet.contains IntSet.insert
    find_locked correct_deps put_slot modify subsume add_chunk Irob.placeholder_irob
    Irob.remove_deps_if Irob.add_dependent Irob.add_dep Irob.dep_satisfied IdSet.insert
    IdSet.insert_all IdSet.keep_if IdSet.erase IdSet.erase_all IdSet.intersection absorb
finds_waiting = refl

waiting_deps : waiting.deps ≡ 2 ∷ []
unfolding insert_locked erase_locked new_receiver_irob new_irob IntSet.contains IntSet.insert
    find_locked correct_deps put_slot modify subsume add_chunk Irob.placeholder_irob
    Irob.remove_deps_if Irob.add_dependent Irob.add_dep Irob.dep_satisfied IdSet.insert
    IdSet.insert_all IdSet.keep_if IdSet.erase IdSet.erase_all IdSet.intersection absorb
waiting_deps = refl

waiting_real : waiting.placeholder ≡ false
unfolding insert_locked erase_locked new_receiver_irob new_irob IntSet.contains IntSet.insert
    find_locked correct_deps put_slot modify subsume add_chunk Irob.placeholder_irob
    Irob.remove_deps_if Irob.add_dependent Irob.add_dep Irob.dep_satisfied IdSet.insert
    IdSet.insert_all IdSet.keep_if IdSet.erase IdSet.erase_all IdSet.intersection absorb
waiting_real = refl

real_first : first.placeholder ≡ false
unfolding new_receiver_irob
real_first = refl

real_second : second.placeholder ≡ false
unfolding new_receiver_irob
real_second = refl

abbrev nothing : ℕ → IdSet.IdSet
nothing j = []

abbrev heard : ℕ → IdSet.IdSet
heard = announce (announce nothing second.id second.deps) first.id first.deps

Received-one : Received receiver_virtuals one (announce nothing second.id second.deps)
Received-one = arrive second (start nothing) real_second inserts_second

Received-three : Received receiver_virtuals three heard
Received-three = consume 0 (arrive first Received-one real_first inserts_first)

five_free : (find_locked three 5 ≡ none) × (is_past three 5 ≡ false)
unfolding insert_locked erase_locked new_receiver_irob new_irob IntSet.contains IntSet.insert
    find_locked correct_deps put_slot modify subsume add_chunk Irob.placeholder_irob
    Irob.remove_deps_if Irob.add_dependent Irob.add_dep Irob.dep_satisfied IdSet.insert
    IdSet.insert_all IdSet.keep_if IdSet.erase IdSet.erase_all IdSet.intersection absorb
five_free = (refl, refl)

inserts_place :
    insert_locked receiver_virtuals three (placeholder_irob 5 receiver_virtuals.fresh) false
    ≡ some (four, true)
unfolding insert_locked erase_locked new_receiver_irob new_irob IntSet.contains IntSet.insert
    find_locked correct_deps put_slot modify subsume add_chunk Irob.placeholder_irob
    Irob.remove_deps_if Irob.add_dependent Irob.add_dep Irob.dep_satisfied IdSet.insert
    IdSet.insert_all IdSet.keep_if IdSet.erase IdSet.erase_all IdSet.intersection absorb
inserts_place = refl

Received-four : Received receiver_virtuals four heard
Received-four = hold_place 5 Received-three five_free.0 five_free.1 inserts_place

ready_when_past_example :
    (is_ready waiting ≡ true) ↔ ((d : ℕ) → has (heard 1) d ≡ true → is_past four d ≡ true)
ready_when_past_example =
    ready_when_past receiver_virtuals Received-four 1 waiting finds_waiting waiting_real

IsValid-one : IsValid one
IsValid-one = (Received-Tracks receiver_virtuals Received-one).valid

insert_locked_outcome_example :
    (TurnedAway receiver_virtuals one first false
      × (insert_locked receiver_virtuals one first false ≡ some (one, false)))
    ⊎ ((l' : Lattice Receiving) × (insert_locked receiver_virtuals one first false
          ≡ some (l', true))
        × Inserted one first false l')
insert_locked_outcome_example =
    insert_locked_outcome receiver_virtuals one first false IsValid-one real_first

erase_locked_outcome_example :
    ((find_locked two 0 ≡ none) × (erase_locked two 0 true ≡ (two, false)))
    ⊎ ((victim : ReceiverIrob) × (l' : Lattice Receiving) × (find_locked two 0 ≡ some victim)
        × (erase_locked two 0 true ≡ (l', true))
        × Erased two 0 true victim l')
erase_locked_outcome_example = erase_locked_outcome two 0 true

drop_irob_and_dependents_outcome_example :
    (m : Lattice Receiving) × (drop_irob_and_dependents two 2 ≡ some m)
    × ((j : ℕ) (p : ReceiverIrob) → find_locked two j ≡ some p → Fate two 2 m j p)
drop_irob_and_dependents_outcome_example = drop_irob_and_dependents_outcome two 2

-- A sender whose IROBs carry nothing beside what the base class does.
abbrev base_virtuals : Virtuals (Unit {0})
base_virtuals = record {
  fresh = tt;
  absorb = subsume add_chunk;
  absorb-id = λ p o. (subsume-Keeps add_chunk add_chunk-Keeps p o).same_id;
  absorb-deps = λ p o. (subsume-Keeps add_chunk add_chunk-Keeps p o).same_deps;
  absorb-anonymous = λ p o. (subsume-Keeps add_chunk add_chunk-Keeps p o).same_anonymous;
  absorb-placeholder = λ p o. (subsume-Keeps add_chunk add_chunk-Keeps p o).same_placeholder;
  absorb-dependents = λ p o. (subsume-Keeps add_chunk add_chunk-Keeps p o).same_dependents;
}

-- An anonymous IROB, a labelled one and again an anonymous one.
abbrev opening : Irob (Unit {0})
opening = new_irob 0 [] (7 ∷ []) 0 tt

abbrev labelled : Irob (Unit {0})
labelled = new_irob 1 [] [] 0 tt

abbrev closing : Irob (Unit {0})
closing = new_irob 2 [] (8 ∷ []) 0 tt

abbrev sent_one : Lattice (Unit {0})
sent_one = after (insert_locked base_virtuals new_lattice opening true)

abbrev sent_two : Lattice (Unit {0})
sent_two = after (insert_locked base_virtuals sent_one labelled true)

abbrev acked : Lattice (Unit {0})
acked = (erase_locked sent_two 0 false).0

abbrev sent_three : Lattice (Unit {0})
sent_three = after (insert_locked base_virtuals acked closing true)

abbrev in_lattice : Lattice (Unit {0}) → ℕ → Irob (Unit {0})
in_lattice l id = found opening (find_locked l id)

abbrev remembered : Lattice (Unit {0}) → Irob (Unit {0}) → Sent
remembered l p = record { id = p.id; deps = (in_lattice l p.id).deps; anonymous = p.anonymous }

inserts_opening : insert_locked base_virtuals new_lattice opening true ≡ some (sent_one, true)
unfolding insert_locked erase_locked new_receiver_irob new_irob IntSet.contains IntSet.insert
    find_locked correct_deps put_slot modify subsume add_chunk Irob.placeholder_irob
    Irob.remove_deps_if Irob.add_dependent Irob.add_dep Irob.dep_satisfied IdSet.insert
    IdSet.insert_all IdSet.keep_if IdSet.erase IdSet.erase_all IdSet.intersection absorb
inserts_opening = refl

inserts_labelled : insert_locked base_virtuals sent_one labelled true ≡ some (sent_two, true)
unfolding insert_locked erase_locked new_receiver_irob new_irob IntSet.contains IntSet.insert
    find_locked correct_deps put_slot modify subsume add_chunk Irob.placeholder_irob
    Irob.remove_deps_if Irob.add_dependent Irob.add_dep Irob.dep_satisfied IdSet.insert
    IdSet.insert_all IdSet.keep_if IdSet.erase IdSet.erase_all IdSet.intersection absorb
inserts_labelled = refl

inserts_closing : insert_locked base_virtuals acked closing true ≡ some (sent_three, true)
unfolding insert_locked erase_locked new_receiver_irob new_irob IntSet.contains IntSet.insert
    find_locked correct_deps put_slot modify subsume add_chunk Irob.placeholder_irob
    Irob.remove_deps_if Irob.add_dependent Irob.add_dep Irob.dep_satisfied IdSet.insert
    IdSet.insert_all IdSet.keep_if IdSet.erase IdSet.erase_all IdSet.intersection absorb
inserts_closing = refl

finds_opening : find_locked sent_one opening.id ≡ some (in_lattice sent_one opening.id)
unfolding insert_locked erase_locked new_receiver_irob new_irob IntSet.contains IntSet.insert
    find_locked correct_deps put_slot modify subsume add_chunk Irob.placeholder_irob
    Irob.remove_deps_if Irob.add_dependent Irob.add_dep Irob.dep_satisfied IdSet.insert
    IdSet.insert_all IdSet.keep_if IdSet.erase IdSet.erase_all IdSet.intersection absorb
finds_opening = refl

finds_labelled : find_locked sent_two labelled.id ≡ some (in_lattice sent_two labelled.id)
unfolding insert_locked erase_locked new_receiver_irob new_irob IntSet.contains IntSet.insert
    find_locked correct_deps put_slot modify subsume add_chunk Irob.placeholder_irob
    Irob.remove_deps_if Irob.add_dependent Irob.add_dep Irob.dep_satisfied IdSet.insert
    IdSet.insert_all IdSet.keep_if IdSet.erase IdSet.erase_all IdSet.intersection absorb
finds_labelled = refl

finds_closing : find_locked sent_three closing.id ≡ some (in_lattice sent_three closing.id)
unfolding insert_locked erase_locked new_receiver_irob new_irob IntSet.contains IntSet.insert
    find_locked correct_deps put_slot modify subsume add_chunk Irob.placeholder_irob
    Irob.remove_deps_if Irob.add_dependent Irob.add_dep Irob.dep_satisfied IdSet.insert
    IdSet.insert_all IdSet.keep_if IdSet.erase IdSet.erase_all IdSet.intersection absorb
finds_closing = refl

real_opening : opening.placeholder ≡ false
unfolding new_irob
real_opening = refl

real_labelled : labelled.placeholder ≡ false
unfolding new_irob
real_labelled = refl

real_closing : closing.placeholder ≡ false
unfolding new_irob
real_closing = refl

abbrev sendings : List Sent
sendings =
    remembered sent_three closing ∷ remembered sent_two labelled ∷ remembered sent_one opening ∷ []

Sending-three : Sending base_virtuals sent_three sendings
Sending-three =
    hand_over closing (in_lattice sent_three closing.id)
      (acknowledge 0 (
        hand_over labelled (in_lattice sent_two labelled.id)
          (hand_over opening (in_lattice sent_one opening.id) none_sent real_opening inserts_opening
            finds_opening)
          real_labelled inserts_labelled finds_labelled))
      real_closing inserts_closing finds_closing

Sending-Barriers_example : Barriers sendings
Sending-Barriers_example = Sending-Barriers base_virtuals Sending-three

-- A labelled IROB that is dropped, and an anonymous one handed over afterwards: it depends on the
-- dropped one all the same.
abbrev with_labelled : Lattice (Unit {0})
with_labelled = after (insert_locked base_virtuals new_lattice labelled true)

abbrev sent_after_drop : Lattice (Unit {0})
sent_after_drop = elim (drop_irob_and_dependents with_labelled 1) [
  | none ↦ new_lattice
  | some l ↦ after (insert_locked base_virtuals l closing true)
]

depends_on_dropped : (in_lattice sent_after_drop 2).deps ≡ 1 ∷ []
unfolding insert_locked erase_locked new_receiver_irob new_irob IntSet.contains IntSet.insert
    find_locked correct_deps put_slot modify subsume add_chunk Irob.placeholder_irob
    Irob.remove_deps_if Irob.add_dependent Irob.add_dep Irob.dep_satisfied IdSet.insert
    IdSet.insert_all IdSet.keep_if IdSet.erase IdSet.erase_all IdSet.intersection absorb
    drop_irob_and_dependents slot_dependents
depends_on_dropped = refl
