-- ===== src/Multisocket/Checking.antt =====
-- What an acknowledgement and a data check come to.
use libcmm.Prelude.{
  ℕ, ◌≡◌, refl, ◌∙◌, ◌≢◌, ◌⊎◌, inl, inr, true, false, none, some, [], ◌∷◌, arith, if◌then◌else◌,
  Bool-cases, Option-cases, ==_iff, ==_refl,
}
use libcmm.Lattice.{Lattice, find_locked, modify, is_past, erase_locked}
use libcmm.Lattice.View.{find-modify}
use libcmm.Lattice.Erase.{erase_locked_outcome}
use libcmm.Lattice.Invariant.{IsValid}
use libcmm.StdSet.{set_insert}
use libcmm.Scheduling.Task.{SchedulingData, ResendRequest, request_none, ack_task, less}
use libcmm.Scheduling.PrioritySet.{PrioritySet}
use libcmm.Scheduling.PrioritySet
use libcmm.Scheduling.Indexes.{waiting_acks, insert}
use libcmm.ReceiverIrob.{ReceiverIrob, get_missing_chunks}
use libcmm.ReceiverLattice.Serving.{has_task}
use libcmm.SenderIrob.{Sending, SenderIrob, ack}
use libcmm.Multisocket.{
  Multisocket, done, cmm_exception, remove_if_unneeded, ack_received, resend_request_received,
  schedule, invalid_time, wanted, data_check_requested, is_empty,
}

-- An insertion leaves a task with the id, whatever the order is.
has_task-insert :
    (x : SchedulingData) (s : PrioritySet) → has_task (set_insert less x s) x.id ≡ true
unfolding set_insert less
has_task-insert x [] = ground (arith, ==_refl x.id)
has_task-insert x (y ∷ ys) = ground (arith, has_task-insert x ys, ==_refl x.id, ==_iff y.id x.id)

-- What an acknowledgement makes of a pending IROB at the sender.
pub record Acknowledged (l : Lattice Sending) (id : ℕ) (p : SenderIrob) (l' : Lattice Sending)
    : Type 0 where
  pub complete_goes : p.complete ≡ true → (find_locked l' id ≡ none) × (is_past l' id ≡ true)
  pub other_stays : p.complete ≡ false → find_locked l' id ≡ some (ack p)
  pub others : (j : ℕ) → j ≢ id → find_locked l' j ≡ find_locked l j

module _ (l : Lattice Sending) (id : ℕ) (p : SenderIrob) where
  abbrev marked : Lattice Sending
  marked = modify l id (λ _. ack p)

  find-marked : find_locked l id ≡ some p → find_locked marked id ≡ some (ack p)
  find-marked there = ground (arith, find-modify l id id (λ _. ack p), ==_refl id)

  find-marked_other : (j : ℕ) → j ≢ id → find_locked marked j ≡ find_locked l j
  find-marked_other j apart = ground (arith, find-modify l id j (λ _. ack p), ==_iff id j)

  removed-Acknowledged :
      find_locked l id ≡ some p
      → p.id ≡ id
      → p.complete ≡ true
      → Acknowledged l id p (erase_locked marked id false).0
  removed-Acknowledged there named whole = elim (erase_locked_outcome marked id false) [
    | inl (free, e) ↦ absurd (ground (arith, find-marked there))
    | inr (victim, l', there', e, n) ↦ rw e (record {
      complete_goes = λ _. (n.gone, n.past id ∙ ground (arith, ==_refl id));
      other_stays = λ partial. absurd (ground arith);
      others = λ j apart. n.others j apart ∙ ground (arith, find-marked_other j apart);
    })
  ]

  kept-Acknowledged : find_locked l id ≡ some p → p.complete ≡ false → Acknowledged l id p marked
  kept-Acknowledged there partial = record {
    complete_goes = λ whole. absurd (ground arith);
    other_stays = λ _. find-marked there;
    others = find-marked_other;
  }

-- An acknowledgement of an id that is not pending is ignored if the id is past, and else an exception.
-- That of a placeholder fails the ASSERT. That of another pending IROB removes the IROB, which is past from then on, if the application has completed
-- it, and else marks it as acknowledged; no other IROB changes.
pub ack_received_outcome :
    (m : Multisocket) (id : ℕ)
    → IsValid m.outgoing_irobs
    → ((find_locked m.outgoing_irobs id ≡ none)
        × (ack_received id m
            ≡ some (m, if is_past m.outgoing_irobs id then done else cmm_exception)))
      ⊎ ((p : SenderIrob) × (find_locked m.outgoing_irobs id ≡ some p)
          × (((p.placeholder ≡ true) × (ack_received id m ≡ none))
              ⊎ ((p.placeholder ≡ false)
                  × ((m' : Multisocket) × (ack_received id m ≡ some (m', done))
                      × Acknowledged m.outgoing_irobs id p m'.outgoing_irobs))))
unfolding ack_received remove_if_unneeded
ack_received_outcome m id valid = elim (Option-cases (find_locked m.outgoing_irobs id)) [
  | inl free ↦ inl (free, ground arith)
  | inr (p, there) ↦
      let same : p.id ≡ id = valid.keyed id p there in
      let l = modify m.outgoing_irobs id (λ _. ack p) in
      inr (
        p,
        there,
        elim (Bool-cases p.placeholder) [
          | inl dummy ↦ inl (dummy, ground arith)
          | inr real ↦ inr (
            real,
            elim (Bool-cases p.complete) [
              | inl whole ↦ (
                record m { outgoing_irobs = (erase_locked l id false).0 },
                ground arith,
                removed-Acknowledged m.outgoing_irobs id p there same whole,
              )
              | inr partial ↦ (
                record m { outgoing_irobs = l },
                ground arith,
                kept-Acknowledged m.outgoing_irobs id p there partial,
              )
            ],
          )
        ],
      )
]

-- A request for anything of an id that is past is ignored.
resend_ignored :
    (m : Multisocket) (id : ℕ) (request : ResendRequest) (seqno next_chunk : ℕ)
    → find_locked m.outgoing_irobs id ≡ none
    → is_past m.outgoing_irobs id ≡ true
    → resend_request_received id request seqno next_chunk m ≡ some (m, done)
unfolding resend_request_received
resend_ignored m id request seqno next_chunk free past = ground arith

wanted_nothing :
    (p : ReceiverIrob)
    → p.placeholder ≡ false
    → get_missing_chunks p ≡ []
    → p.ext.expected_bytes ≡ none
    → wanted p ≡ request_none
unfolding wanted is_empty
wanted_nothing p real no_hole endless = rw (no_hole, endless, real) refl

-- A data check acknowledges a real IROB that lacks nothing of what has come, without its end.
acked_early :
    (m : Multisocket) (id : ℕ) (p : ReceiverIrob)
    → find_locked m.incoming_irobs.irobs id ≡ some p
    → p.placeholder ≡ false
    → get_missing_chunks p ≡ []
    → p.ext.expected_bytes ≡ none
    → has_task (data_check_requested id m).irob_indexes.acks id ≡ true
unfolding data_check_requested insert PrioritySet.insert
acked_early m id p there real no_hole endless =
    let nothing = wanted_nothing p real no_hole endless in
    let acks : data_check_requested id m ≡ schedule (ack_task id invalid_time 0) waiting_acks m =
      ground arith in
    rw acks (has_task-insert (ack_task id invalid_time 0) m.irob_indexes.acks)

-- The receiver has the IROB of an id, its Begin_IROB message has come, no chunk before the last one that
-- came is missing, and End_IROB has not come. Then a data check makes it acknowledge the IROB. If the
-- application at the sender has completed the IROB, the acknowledgement removes it there, and whatever
-- the receiver asks for afterwards, the request is ignored.
pub acked_too_early :
    (receiver sender : Multisocket) (id : ℕ) (p : ReceiverIrob) (q : SenderIrob)
    → find_locked receiver.incoming_irobs.irobs id ≡ some p
    → p.placeholder ≡ false
    → get_missing_chunks p ≡ []
    → p.ext.expected_bytes ≡ none
    → IsValid sender.outgoing_irobs
    → find_locked sender.outgoing_irobs id ≡ some q
    → q.placeholder ≡ false
    → q.complete ≡ true
    → (has_task (data_check_requested id receiver).irob_indexes.acks id ≡ true)
      × ((m : Multisocket) × (ack_received id sender ≡ some (m, done))
          × (find_locked m.outgoing_irobs id ≡ none)
          × ((request : ResendRequest) (seqno next_chunk : ℕ)
              → resend_request_received id request seqno next_chunk m ≡ some (m, done)))
acked_too_early receiver sender id p q there real no_hole endless valid pending sent whole = (
  acked_early receiver id p there real no_hole endless,
  elim (ack_received_outcome sender id valid) [
    | inl (free, e) ↦ absurd (ground arith)
    | inr (q', pending', inl (dummy, e)) ↦ absurd (ground arith)
    | inr (q', pending', inr (real', (m, e, a))) ↦
        let went = a.complete_goes (ground arith) in
        (
          m,
          e,
          went.0,
          λ request seqno next_chunk. resend_ignored m id request seqno next_chunk went.0 went.1,
        )
  ],
)
