-- ===== src/Multisocket/Tests.antt =====
-- An IROB of which only the Begin_IROB message has come, and its sender.
use libcmm.Prelude.{
  ℕ, ◌≡◌, ◌⊎◌, refl, Bool, true, false, Option, none, some, [], ◌∷◌, if◌then◌else◌,
}
use libcmm.IntSet
use libcmm.IdSet
use libcmm.Irob
use libcmm.Irob.{Chunk, new_irob, subsume}
use libcmm.Lattice.{Lattice, new_lattice, insert_locked, find_locked, modify, correct_deps, is_past}
use libcmm.Lattice.Invariant.{IsValid}
use libcmm.Lattice.Sender.{none_sent, hand_over, Sending-IsValid}
use libcmm.Scheduling.Task.{ResendRequest}
use libcmm.ReceiverIrob.{ReceiverIrob, Receiving, new_receiver_irob, absorb, get_missing_chunks}
use libcmm.ReceiverIrob.Virtual.{receiver_virtuals}
use libcmm.ReceiverLattice.{new_receiver_lattice}
use libcmm.ReceiverLattice.Serving.{has_task}
use libcmm.SenderIrob.{Sending, SenderIrob, new_sender_irob}
use libcmm.SenderIrob.Virtual.{sender_virtuals}
use libcmm.Multisocket.{
  Multisocket, new_multisocket, done, cmm_exception, ack_received, resend_request_received,
  data_check_requested,
}
use libcmm.Multisocket.Checking.{Acknowledged, ack_received_outcome, acked_too_early}

abbrev after : {E : Type 0} → Option (Lattice E × Bool) → Lattice E
after none = new_lattice
after (some r) = r.0

abbrev sent : SenderIrob
sent = new_sender_irob 0 [] (5 ∷ 6 ∷ []) 8

abbrev outgoing : Lattice Sending
outgoing = after (insert_locked sender_virtuals new_lattice sent true)

abbrev begun : ReceiverIrob
begun = new_receiver_irob 0 [] 8

abbrev incoming : Lattice Receiving
incoming = after (insert_locked receiver_virtuals new_lattice begun false)

abbrev sender : Multisocket
sender = record new_multisocket { outgoing_irobs = outgoing }

abbrev receiver : Multisocket
receiver = record new_multisocket {
  incoming_irobs = record new_receiver_lattice { irobs = incoming };
}

abbrev sent_there : SenderIrob
sent_there = elim (find_locked outgoing 0) [ none ↦ sent | some p ↦ p ]

abbrev begun_there : ReceiverIrob
begun_there = elim (find_locked incoming 0) [ none ↦ begun | some p ↦ p ]

real_sent : sent.placeholder ≡ false
unfolding insert_locked new_receiver_irob new_sender_irob new_irob IntSet.contains IntSet.insert
    find_locked correct_deps modify subsume Irob.placeholder_irob Irob.remove_deps_if
    Irob.add_dependent Irob.add_dep IdSet.insert IdSet.insert_all IdSet.keep_if IdSet.erase_all
    IdSet.intersection absorb get_missing_chunks
real_sent = refl

inserts_sent : insert_locked sender_virtuals new_lattice sent true ≡ some (outgoing, true)
unfolding insert_locked new_receiver_irob new_sender_irob new_irob IntSet.contains IntSet.insert
    find_locked correct_deps modify subsume Irob.placeholder_irob Irob.remove_deps_if
    Irob.add_dependent Irob.add_dep IdSet.insert IdSet.insert_all IdSet.keep_if IdSet.erase_all
    IdSet.intersection absorb get_missing_chunks
inserts_sent = refl

finds_sent : find_locked outgoing 0 ≡ some sent_there
unfolding insert_locked new_receiver_irob new_sender_irob new_irob IntSet.contains IntSet.insert
    find_locked correct_deps modify subsume Irob.placeholder_irob Irob.remove_deps_if
    Irob.add_dependent Irob.add_dep IdSet.insert IdSet.insert_all IdSet.keep_if IdSet.erase_all
    IdSet.intersection absorb get_missing_chunks
finds_sent = refl

real_there : sent_there.placeholder ≡ false
unfolding insert_locked new_receiver_irob new_sender_irob new_irob IntSet.contains IntSet.insert
    find_locked correct_deps modify subsume Irob.placeholder_irob Irob.remove_deps_if
    Irob.add_dependent Irob.add_dep IdSet.insert IdSet.insert_all IdSet.keep_if IdSet.erase_all
    IdSet.intersection absorb get_missing_chunks
real_there = refl

complete_there : sent_there.complete ≡ true
unfolding insert_locked new_receiver_irob new_sender_irob new_irob IntSet.contains IntSet.insert
    find_locked correct_deps modify subsume Irob.placeholder_irob Irob.remove_deps_if
    Irob.add_dependent Irob.add_dep IdSet.insert IdSet.insert_all IdSet.keep_if IdSet.erase_all
    IdSet.intersection absorb get_missing_chunks
complete_there = refl

finds_begun : find_locked incoming 0 ≡ some begun_there
unfolding insert_locked new_receiver_irob new_sender_irob new_irob IntSet.contains IntSet.insert
    find_locked correct_deps modify subsume Irob.placeholder_irob Irob.remove_deps_if
    Irob.add_dependent Irob.add_dep IdSet.insert IdSet.insert_all IdSet.keep_if IdSet.erase_all
    IdSet.intersection absorb get_missing_chunks
finds_begun = refl

real_begun : begun_there.placeholder ≡ false
unfolding insert_locked new_receiver_irob new_sender_irob new_irob IntSet.contains IntSet.insert
    find_locked correct_deps modify subsume Irob.placeholder_irob Irob.remove_deps_if
    Irob.add_dependent Irob.add_dep IdSet.insert IdSet.insert_all IdSet.keep_if IdSet.erase_all
    IdSet.intersection absorb get_missing_chunks
real_begun = refl

no_hole_begun : get_missing_chunks begun_there ≡ []
unfolding insert_locked new_receiver_irob new_sender_irob new_irob IntSet.contains IntSet.insert
    find_locked correct_deps modify subsume Irob.placeholder_irob Irob.remove_deps_if
    Irob.add_dependent Irob.add_dep IdSet.insert IdSet.insert_all IdSet.keep_if IdSet.erase_all
    IdSet.intersection absorb get_missing_chunks
no_hole_begun = refl

endless_begun : begun_there.ext.expected_bytes ≡ none
unfolding insert_locked new_receiver_irob new_sender_irob new_irob IntSet.contains IntSet.insert
    find_locked correct_deps modify subsume Irob.placeholder_irob Irob.remove_deps_if
    Irob.add_dependent Irob.add_dep IdSet.insert IdSet.insert_all IdSet.keep_if IdSet.erase_all
    IdSet.intersection absorb get_missing_chunks
endless_begun = refl

outgoing-IsValid : IsValid outgoing
unfolding new_sender_irob
outgoing-IsValid =
    Sending-IsValid sender_virtuals
      (hand_over sent sent_there none_sent real_sent inserts_sent finds_sent)

ack_received_outcome_example :
    ((find_locked outgoing 0 ≡ none)
      × (ack_received 0 sender ≡ some (sender, if is_past outgoing 0 then done else cmm_exception)))
    ⊎ ((p : SenderIrob) × (find_locked outgoing 0 ≡ some p)
        × (((p.placeholder ≡ true) × (ack_received 0 sender ≡ none))
            ⊎ ((p.placeholder ≡ false)
                × ((m' : Multisocket) × (ack_received 0 sender ≡ some (m', done))
                    × Acknowledged outgoing 0 p m'.outgoing_irobs))))
ack_received_outcome_example = ack_received_outcome sender 0 outgoing-IsValid

acked_too_early_example :
    (has_task (data_check_requested 0 receiver).irob_indexes.acks 0 ≡ true)
    × ((m : Multisocket) × (ack_received 0 sender ≡ some (m, done))
        × (find_locked m.outgoing_irobs 0 ≡ none)
        × ((request : ResendRequest) (seqno next_chunk : ℕ)
            → resend_request_received 0 request seqno next_chunk m ≡ some (m, done)))
acked_too_early_example =
    acked_too_early receiver sender 0 begun_there sent_there finds_begun real_begun no_hole_begun
      endless_begun outgoing-IsValid finds_sent real_there complete_there
