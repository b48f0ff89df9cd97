-- ===== src/CsocketReceiver.antt =====
-- CSocketReceiver (csocket_receiver.h, csocket_receiver.cpp): the handlers of the messages that carry
-- IROBs. What a handler reads from the network socket after the header is an argument, `none` if the
-- read fails. The statistics of networks and the wake-up of the other threads are left out, and so are
-- the resend requests of an End_IROB message, which the code switches off.
pub mod Handling
pub mod Session
mod Tests
use libcmm.Prelude.{
  ℕ, Bool, true, false, not, ◌&&◌, Option, none, some, List, [], pos, ◌==◌, if◌then◌else◌, ◌>>=◌,
}
use libcmm.Irob.{Chunk}
use libcmm.Lattice.{find_locked, modify, is_past, insert_locked}
use libcmm.Scheduling.Task.{Timeval, ack_task}
use libcmm.Scheduling.PrioritySet.{PrioritySet, insert}
use libcmm.ReceiverIrob.{ReceiverIrob, new_receiver_irob, is_complete, add_chunk, finish}
use libcmm.ReceiverIrob.Virtual.{receiver_virtuals}
use libcmm.ReceiverLattice.{
  ReceiverLattice, new_receiver_lattice, make_placeholder, release_if_ready,
}

-- `incoming_irobs` of the multisocket and `waiting_acks` of the network socket.
pub record Receiver : Type 0 where
  pub incoming_irobs : ReceiverLattice
  pub waiting_acks : PrioritySet

abbrev pub new_receiver : Receiver
new_receiver = record { incoming_irobs = new_receiver_lattice; waiting_acks = [] }

-- How a handler ends: it returns, or it throws a CMMControlException or a CMMFatalError.
pub data Ending : Type 0 where
  returned control_exception fatal_error : Ending

abbrev pub zero_time : Timeval
zero_time = record { tv_sec = pos 0; tv_usec = pos 0 }

unfoldable pub schedule_ack : ℕ → Bool → Timeval → Receiver → Receiver
schedule_ack id valid_for_measurement now r =
    let completion_time = if valid_for_measurement then now else zero_time in
    record r { waiting_acks = insert (ack_task id completion_time 0) r.waiting_acks }

-- The end of the three handlers.
unfoldable pub release_and_ack : ℕ → Timeval → Receiver → Option Receiver
unfolding schedule_ack
release_and_ack id now r = release_if_ready r.incoming_irobs id >>= λ l.
    find_locked l.irobs id >>= λ p. is_complete p >>= λ done.
    let r' = record r { incoming_irobs = l } in
    some (if done && not p.placeholder then schedule_ack id true now r' else r')

abbrev pub with_irobs : Receiver → (ReceiverLattice → ReceiverLattice) → Receiver
with_irobs r f = record r { incoming_irobs = f r.incoming_irobs }

unfoldable pub do_begin_irob :
    ℕ → Option (List ℕ) → ℕ → Timeval → Receiver → Option (Receiver × Ending)
unfolding release_and_ack
do_begin_irob id none labels now r = some (r, control_exception)
do_begin_irob id (some deps) labels now r =
    insert_locked receiver_virtuals r.incoming_irobs.irobs (new_receiver_irob id deps labels) false
    >>= λ (l, inserted).
        if inserted
        then (release_and_ack id now (with_irobs r (λ i. record i { irobs = l })) >>= λ r'.
            some (r', returned))
        else some (r, returned)

-- The IROB of `id`, made as a placeholder if it is neither pending nor past; an IROB that is past
-- comes back as `none` within.
unfoldable pub find_or_make : ℕ → Receiver → Option (Receiver × Option ReceiverIrob)
find_or_make id r = elim (find_locked r.incoming_irobs.irobs id) [
  | some p ↦ some (r, some p)
  | none ↦
      if is_past r.incoming_irobs.irobs id
      then some (r, none)
      else insert_locked receiver_virtuals r.incoming_irobs.irobs (make_placeholder id) false
        >>= λ (l, inserted).
            if inserted
            then (find_locked l id >>= λ p.
                some (with_irobs r (λ i. record i { irobs = l }), some p))
            else none
]

abbrev pub put_irob : Receiver → ℕ → ReceiverIrob → Receiver
put_irob r id p = with_irobs r (λ i. record i { irobs = modify i.irobs id (λ _. p) })

unfoldable pub do_end_irob : ℕ → ℕ → ℕ → Timeval → Receiver → Option (Receiver × Ending)
unfolding find_or_make release_and_ack schedule_ack
do_end_irob id expected_bytes expected_chunks now r = find_or_make id r >>= λ (r', found).
    elim found [
      | none ↦ some (schedule_ack id false now r', returned)
      | some p ↦ finish p expected_bytes expected_chunks >>= λ (q, finished).
          (if finished then some true else is_complete q) >>= λ _.
          release_and_ack id now (put_irob r' id q) >>= λ r''. some (r'', returned)
    ]

-- `datas` is what follows the header.
unfoldable pub do_irob_chunk : Chunk → Timeval → Receiver → Option (Receiver × Ending)
unfolding find_or_make release_and_ack
do_irob_chunk c now r = if c.datalen == 0 then some (r, control_exception) else elim (c.datas) [
  | none ↦ some (r, control_exception)
  | some bytes ↦ find_or_make c.id r >>= λ (r', found). elim found [
    | none ↦ some (r', returned)
    | some p ↦ add_chunk p c >>= λ (q, added).
        (if added then some true else is_complete q) >>= λ accepted.
        if accepted
        then (release_and_ack c.id now (put_irob r' c.id q) >>= λ r''. some (r'', returned))
        else some (put_irob r' c.id q, fatal_error)
  ]
]
