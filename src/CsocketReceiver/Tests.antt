-- ===== src/CsocketReceiver/Tests.antt =====
-- Runs of the receiver.
use libcmm.Prelude.{
  ℕ, ◌≤◌, ◌<◌, ◌≡◌, refl, ◌⊎◌, ◌↔◌, true, false, Option, none, some, [], ◌∷◌, pos, length, take,
  arith,
}
use mathlib.Core.Option
use libcmm.IntSet
use libcmm.IdSet
use libcmm.IdSet.{IdSet, has}
use libcmm.Irob
use libcmm.Irob.{Chunk, is_ready, subsume}
use libcmm.Lattice.{find_locked, modify, insert_locked, erase_locked, correct_deps, is_past}
use libcmm.StdSet.{set_insert}
use libcmm.Scheduling.Task.{Timeval, less}
use libcmm.Scheduling.PrioritySet
use libcmm.ReceiverIrob.{
  ReceiverIrob, new_receiver_irob, is_complete, all_chunks_complete, reach_seqno, accept_chunk,
  add_chunk, finish, read_data, remove_bytes,
}
use libcmm.ReceiverIrob.Reading.{contents}
use libcmm.ReceiverLattice.{
  ReceiverLattice, new_receiver_lattice, release, ready_irob, release_if_ready, release_dependents,
  Socket, get_ready_irob, pop_pending, when_empty, has_flag, msg_peek, msg_waitall, Passed, Recv,
  passed, retire, put_back, add_bytes, read_turn, stop, recv_loop, recv,
}
use libcmm.ReceiverLattice.Serving.{has_task}
use libcmm.ReceiverLattice.Peek.{Peeked}
use libcmm.ReceiverLattice.Receive.{bytes_passed, stalled, Coherent}
use libcmm.CsocketReceiver.{
  Receiver, new_receiver, returned, schedule_ack, release_and_ack, do_begin_irob, find_or_make,
  do_end_irob, do_irob_chunk,
}
use libcmm.CsocketReceiver.Handling.{after_begin}
use libcmm.CsocketReceiver.Session.{
  Session, start, begins, sends_chunk, finishes, released_when_due, recv_outcome,
  recv_never_starves, recv_in_order, peek_fills,
}

abbrev noon : Timeval
noon = record { tv_sec = pos 43200; tv_usec = pos 0 }

abbrev no_deps : ℕ → IdSet
no_deps j = []

abbrev only_chunk : Chunk
only_chunk = record { id = 0; seqno = 0; offset = 0; datalen = 2; datas = some (5 ∷ 6 ∷ []) }

abbrev open_socket : Socket
open_socket = record {
  closing = false;
  shutting_down = false;
  non_blocking = false;
  timeout_expired = false;
}

abbrev state_of : {E : Type 0} → Option (Receiver × E) → Receiver
state_of none = new_receiver
state_of (some x) = x.0

unfoldable pub begun : Receiver
unfolding do_begin_irob
begun = state_of (do_begin_irob 0 (some []) 7 noon new_receiver)

unfoldable pub fed : Receiver
unfolding begun do_irob_chunk
fed = state_of (do_irob_chunk only_chunk noon begun)

unfoldable pub full : Receiver
unfolding fed do_end_irob
full = state_of (do_end_irob 0 2 1 noon fed)

begins_run : do_begin_irob 0 (some []) 7 noon new_receiver ≡ some (begun, returned)
unfolding begun fed full do_begin_irob do_irob_chunk do_end_irob find_or_make release_and_ack
    schedule_ack release_if_ready ready_irob release insert_locked new_receiver_irob IntSet.contains
    find_locked correct_deps modify subsume add_chunk finish is_complete all_chunks_complete
    reach_seqno accept_chunk is_ready Irob.placeholder_irob Irob.remove_deps_if IdSet.insert_all
    IdSet.keep_if PrioritySet.insert set_insert less
begins_run = refl

chunk_run : do_irob_chunk only_chunk noon begun ≡ some (fed, returned)
unfolding begun fed full do_begin_irob do_irob_chunk do_end_irob find_or_make release_and_ack
    schedule_ack release_if_ready ready_irob release insert_locked new_receiver_irob IntSet.contains
    find_locked correct_deps modify subsume add_chunk finish is_complete all_chunks_complete
    reach_seqno accept_chunk is_ready Irob.placeholder_irob Irob.remove_deps_if IdSet.insert_all
    IdSet.keep_if PrioritySet.insert set_insert less
chunk_run = refl

end_run : do_end_irob 0 2 1 noon fed ≡ some (full, returned)
unfolding begun fed full do_begin_irob do_irob_chunk do_end_irob find_or_make release_and_ack
    schedule_ack release_if_ready ready_irob release insert_locked new_receiver_irob IntSet.contains
    find_locked correct_deps modify subsume add_chunk finish is_complete all_chunks_complete
    reach_seqno accept_chunk is_ready Irob.placeholder_irob Irob.remove_deps_if IdSet.insert_all
    IdSet.keep_if PrioritySet.insert set_insert less
end_run = refl

abbrev announced : ℕ → IdSet
announced = after_begin no_deps new_receiver 0 (some []) 7

full-Session : Session full announced
full-Session =
    finishes 0 2 1 noon returned
      (sends_chunk only_chunk noon returned
        (begins 0 (some []) 7 noon returned (start no_deps) begins_run) (λ _. refl) chunk_run)
      (omega arith) end_run

unfoldable the_irob : ReceiverIrob
unfolding begun fed full do_begin_irob do_irob_chunk do_end_irob find_or_make release_and_ack
    schedule_ack release_if_ready ready_irob release insert_locked new_receiver_irob IntSet.contains
    find_locked correct_deps modify subsume add_chunk finish is_complete all_chunks_complete
    reach_seqno accept_chunk is_ready Irob.placeholder_irob Irob.remove_deps_if IdSet.insert_all
    IdSet.keep_if PrioritySet.insert set_insert less
the_irob = elim (find_locked full.incoming_irobs.irobs 0) [
  | none ↦ new_receiver_irob 0 [] 0
  | some p ↦ p
]

the_irob_found : find_locked full.incoming_irobs.irobs 0 ≡ some the_irob
unfolding begun fed full do_begin_irob do_irob_chunk do_end_irob find_or_make release_and_ack
    schedule_ack release_if_ready ready_irob release insert_locked new_receiver_irob IntSet.contains
    find_locked correct_deps modify subsume add_chunk finish is_complete all_chunks_complete
    reach_seqno accept_chunk is_ready Irob.placeholder_irob Irob.remove_deps_if IdSet.insert_all
    IdSet.keep_if PrioritySet.insert set_insert less the_irob
the_irob_found = refl

released_when_due_example :
    ((the_irob.ext.released ≡ true)
      ↔ ((is_complete the_irob ≡ some true) × (is_ready the_irob ≡ true)))
    × (the_irob.ext.released ≡ true
        → (full.incoming_irobs.partially_read_irob ≡ some 0)
          ⊎ (has_task full.incoming_irobs.ready_irobs 0 ≡ true))
released_when_due_example = released_when_due full-Session 0 the_irob the_irob_found

coherent : Coherent open_socket
coherent h = absurd (ground arith)

recv_outcome_example :
    (l : ReceiverLattice) × (out : Recv) × (recv open_socket 5 msg_peek full.incoming_irobs
      ≡ some (l, out))
    × (length (bytes_passed out) ≤ 5)
    × (stalled out ≡ true
        → (j : ℕ) (p : ReceiverIrob) → find_locked l.irobs j ≡ some p
        → is_complete p ≡ some true
        → is_ready p ≡ false)
recv_outcome_example = recv_outcome full-Session open_socket 5 msg_peek coherent (omega arith)

the_irob_complete : is_complete the_irob ≡ some true
unfolding begun fed full do_begin_irob do_irob_chunk do_end_irob find_or_make release_and_ack
    schedule_ack release_if_ready ready_irob release insert_locked new_receiver_irob IntSet.contains
    find_locked correct_deps modify subsume add_chunk finish is_complete all_chunks_complete
    reach_seqno accept_chunk is_ready Irob.placeholder_irob Irob.remove_deps_if IdSet.insert_all
    IdSet.keep_if PrioritySet.insert set_insert less the_irob
the_irob_complete = refl

the_irob_ready : is_ready the_irob ≡ true
unfolding begun fed full do_begin_irob do_irob_chunk do_end_irob find_or_make release_and_ack
    schedule_ack release_if_ready ready_irob release insert_locked new_receiver_irob IntSet.contains
    find_locked correct_deps modify subsume add_chunk finish is_complete all_chunks_complete
    reach_seqno accept_chunk is_ready Irob.placeholder_irob Irob.remove_deps_if IdSet.insert_all
    IdSet.keep_if PrioritySet.insert set_insert less the_irob
the_irob_ready = refl

no_waitall : has_flag 0 msg_waitall ≡ false
unfolding has_flag
no_waitall = refl

no_peek : has_flag 0 msg_peek ≡ false
unfolding has_flag
no_peek = refl

recv_never_starves_example :
    (l : ReceiverLattice) × (g : Passed) × (recv open_socket 5 0 full.incoming_irobs
      ≡ some (l, passed g))
    × (0 < length g.bytes)
recv_never_starves_example =
    recv_never_starves full-Session open_socket 5 0 coherent (omega arith) no_waitall 0 the_irob
      the_irob_found the_irob_complete the_irob_ready

abbrev lattice_of : Option (ReceiverLattice × Recv) → ReceiverLattice
lattice_of none = new_receiver_lattice
lattice_of (some x) = x.0

unfoldable after_read : ReceiverLattice
unfolding begun fed full do_begin_irob do_irob_chunk do_end_irob find_or_make release_and_ack
    schedule_ack release_if_ready ready_irob release insert_locked new_receiver_irob IntSet.contains
    find_locked correct_deps modify subsume add_chunk finish is_complete all_chunks_complete
    reach_seqno accept_chunk is_ready Irob.placeholder_irob Irob.remove_deps_if IdSet.insert_all
    IdSet.keep_if PrioritySet.insert set_insert less recv recv_loop get_ready_irob pop_pending
    when_empty read_turn read_data remove_bytes put_back add_bytes retire release_dependents
    erase_locked has_flag stop IntSet.insert IdSet.erase
after_read = lattice_of (recv open_socket 5 0 full.incoming_irobs)

abbrev both_bytes : Passed
both_bytes = record { bytes = 5 ∷ 6 ∷ []; labels = some 7 }

read_run : recv open_socket 5 0 full.incoming_irobs ≡ some (after_read, passed both_bytes)
unfolding begun fed full do_begin_irob do_irob_chunk do_end_irob find_or_make release_and_ack
    schedule_ack release_if_ready ready_irob release insert_locked new_receiver_irob IntSet.contains
    find_locked correct_deps modify subsume add_chunk finish is_complete all_chunks_complete
    reach_seqno accept_chunk is_ready Irob.placeholder_irob Irob.remove_deps_if IdSet.insert_all
    IdSet.keep_if PrioritySet.insert set_insert less recv recv_loop get_ready_irob pop_pending
    when_empty read_turn read_data remove_bytes put_back add_bytes retire release_dependents
    erase_locked has_flag stop IntSet.insert IdSet.erase after_read
read_run = refl

recv_in_order_example :
    (p : ReceiverIrob) × (find_locked full.incoming_irobs.irobs p.id ≡ some p)
    × (is_complete p ≡ some true)
    × (both_bytes.bytes ≡ take 5 (contents p))
    × (both_bytes.labels ≡ some p.send_labels)
    × ((d : ℕ) → has (announced p.id) d ≡ true → is_past full.incoming_irobs.irobs d ≡ true)
recv_in_order_example =
    recv_in_order full-Session open_socket 5 0 after_read both_bytes coherent no_waitall no_peek
      read_run (omega arith)

-- With MSG_PEEK a read of more bytes than the IROB has gets them again.
peeks_twice :
    Option.map
      (λ (x : ReceiverLattice × Recv). bytes_passed x.1)
      (recv open_socket 5 msg_peek full.incoming_irobs)
    ≡ some (5 ∷ 6 ∷ 5 ∷ 6 ∷ 5 ∷ [])
unfolding begun fed full do_begin_irob do_irob_chunk do_end_irob find_or_make release_and_ack
    schedule_ack release_if_ready ready_irob release insert_locked new_receiver_irob IntSet.contains
    find_locked correct_deps modify subsume add_chunk finish is_complete all_chunks_complete
    reach_seqno accept_chunk is_ready Irob.placeholder_irob Irob.remove_deps_if IdSet.insert_all
    IdSet.keep_if PrioritySet.insert set_insert less recv recv_loop get_ready_irob pop_pending
    when_empty read_turn read_data remove_bytes put_back add_bytes retire release_dependents
    erase_locked has_flag stop IntSet.insert IdSet.erase
peeks_twice = refl

peeks : has_flag msg_peek msg_peek ≡ true
unfolding has_flag
peeks = refl

peek_fills_example :
    (l : ReceiverLattice) × (g : Passed) × (recv open_socket 5 msg_peek full.incoming_irobs
      ≡ some (l, passed g))
    × Peeked 5 full.incoming_irobs g
peek_fills_example =
    peek_fills full-Session open_socket 5 msg_peek peeks 0 the_irob the_irob_found the_irob_complete
      the_irob_ready

unfoldable empty_irob : Receiver
unfolding begun fed full do_begin_irob do_irob_chunk do_end_irob find_or_make release_and_ack
    schedule_ack release_if_ready ready_irob release insert_locked new_receiver_irob IntSet.contains
    find_locked correct_deps modify subsume add_chunk finish is_complete all_chunks_complete
    reach_seqno accept_chunk is_ready Irob.placeholder_irob Irob.remove_deps_if IdSet.insert_all
    IdSet.keep_if PrioritySet.insert set_insert less
empty_irob = state_of (do_end_irob 0 0 0 noon begun)

-- An IROB that ends without a byte is released, and fails an ASSERT of the read.
empty_irob_fails : recv open_socket 5 0 empty_irob.incoming_irobs ≡ none
unfolding begun fed full do_begin_irob do_irob_chunk do_end_irob find_or_make release_and_ack
    schedule_ack release_if_ready ready_irob release insert_locked new_receiver_irob IntSet.contains
    find_locked correct_deps modify subsume add_chunk finish is_complete all_chunks_complete
    reach_seqno accept_chunk is_ready Irob.placeholder_irob Irob.remove_deps_if IdSet.insert_all
    IdSet.keep_if PrioritySet.insert set_insert less recv recv_loop get_ready_irob pop_pending
    when_empty read_turn read_data remove_bytes put_back add_bytes retire release_dependents
    erase_locked has_flag stop IntSet.insert IdSet.erase empty_irob
empty_irob_fails = refl
