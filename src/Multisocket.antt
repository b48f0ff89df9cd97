-- ===== src/Multisocket.antt =====
-- CMMSocketImpl (cmm_socket.private.h, cmm_socket_impl.cpp): the state of a multisocket that the
-- scheduling lock guards, what a message of the peer does to it, and its shutdown. The condition
-- variable that wakes the sending threads, and the reevaluation of an IROB that is acknowledged,
-- are left out. A call that fails an ASSERT is `none`.
mod Checking
mod Application
mod Messages
mod Tests
use Prim.Native.Nat.{bit_and, bit_or}
use libcmm.Prelude.{
  ℕ, Bool, true, false, not, ◌||◌, ◌&&◌, Option, none, some, List, [], ◌∷◌, pos, negsuc, ◌==◌,
  if◌then◌else◌, ◌>>=◌,
}
use libcmm.Lattice.{Lattice, new_lattice, find_locked, modify, is_past, erase_locked, get_all_ids}
use libcmm.Scheduling.Task.{
  Timeval, SchedulingData, ResendRequest, request_none, request_deps, request_data, request_end,
  request_all, chunk_task, resend_task, ack_task,
}
use libcmm.Scheduling.Indexes.{
  Indexes, new_irobs, new_chunks, finished_irobs, waiting_acks, resend_requests,
  waiting_data_checks,
}
use libcmm.Scheduling.Indexes
use libcmm.ReceiverIrob.{ReceiverIrob, get_missing_chunks}
use libcmm.ReceiverLattice.{ReceiverLattice, new_receiver_lattice}
use libcmm.SenderIrob.{Sending, SenderIrob, ack, all_bytes_chunked}
use libcmm.SenderIrob.Marks.{mark_not_received, mark_drop_point, was_sent_on}
use libcmm.NetworkChooser.{has_network_restriction, fallback_allowed, has_label}

pub record Multisocket : Type 0 where
  pub outgoing_irobs : Lattice Sending
  pub incoming_irobs : ReceiverLattice
  pub irob_indexes : Indexes
  pub shutting_down : Bool
  pub remote_shutdown : Bool
  pub goodbye_sent : Bool

abbrev pub new_multisocket : Multisocket
new_multisocket = record {
  outgoing_irobs = new_lattice;
  incoming_irobs = new_receiver_lattice;
  irob_indexes = Indexes.empty;
  shutting_down = false;
  remote_shutdown = false;
  goodbye_sent = false;
}

-- How a call ends: it returns, or it throws a CMMException.
pub data Answer : Type 0 where
  done cmm_exception : Answer

abbrev pub schedule : SchedulingData → Indexes.IndexType → Multisocket → Multisocket
schedule task t m = record m { irob_indexes = Indexes.insert task t m.irob_indexes }

unfoldable pub remove_if_unneeded : SenderIrob → Lattice Sending → Lattice Sending
remove_if_unneeded p l =
    let erased = (erase_locked l p.id false).0 in if p.ext.acked && p.complete then erased else l

-- The cast to a PendingSenderIROB, and the ASSERT of it: a placeholder at the sender is a PendingIROB.
abbrev pub as_sender : SenderIrob → Option SenderIrob
as_sender p = if p.placeholder then none else some p

unfoldable pub ack_received : ℕ → Multisocket → Option (Multisocket × Answer)
unfolding remove_if_unneeded
ack_received id m = elim (find_locked m.outgoing_irobs id) [
  | none ↦ some (if is_past m.outgoing_irobs id then (m, done) else (m, cmm_exception))
  | some p ↦ as_sender p >>= λ q. some (
    record m {
      outgoing_irobs = remove_if_unneeded (ack q) (modify m.outgoing_irobs id (λ _. ack q));
    },
    done,
  )
]

abbrev pub has_flag : ResendRequest → ResendRequest → Bool
has_flag request flag = not (bit_and request flag == 0)

-- What a request for data, and for the end, does to the IROB; `none` if it reads outside a deque.
unfoldable pub mark_for_resend : ResendRequest → ℕ → ℕ → SenderIrob → Option SenderIrob
mark_for_resend request seqno next_chunk p =
    (if has_flag request request_data then mark_not_received p seqno else some p) >>= λ q.
    if has_flag request request_end then mark_drop_point q next_chunk else some q

-- The tasks that a request puts into the indexes.
unfoldable pub schedule_resend : ℕ → ResendRequest → SenderIrob → Multisocket → Multisocket
schedule_resend id request p m =
    let begin = chunk_task id false p.send_labels in
    let chunks = chunk_task id true p.send_labels in
    let m₁ = if has_flag request request_deps then schedule begin new_irobs m else m in
    let m₂ = if has_flag request request_data then schedule chunks new_chunks m₁ else m₁ in
    let m₃ =
      if has_flag request request_end && p.complete && all_bytes_chunked p
      then schedule begin finished_irobs m₂
      else m₂ in
    if has_flag request request_end then schedule chunks new_chunks m₃ else m₃

unfoldable pub resend_request_received :
    ℕ → ResendRequest → ℕ → ℕ → Multisocket → Option (Multisocket × Answer)
unfolding mark_for_resend schedule_resend
resend_request_received id request seqno next_chunk m = elim (find_locked m.outgoing_irobs id) [
  | none ↦ some (if is_past m.outgoing_irobs id then (m, done) else (m, cmm_exception))
  | some p ↦ as_sender p >>= mark_for_resend request seqno next_chunk >>= λ q.
      let m' = schedule_resend id request p m in
      some (record m' { outgoing_irobs = modify m'.outgoing_irobs id (λ _. q) }, done)
]

-- `inval`, which tells the peer to measure nothing.
abbrev pub invalid_time : Timeval
invalid_time = record { tv_sec = pos 0; tv_usec = negsuc 0 }

pub is_empty : List ℕ → Bool
is_empty [] = true
is_empty (j ∷ js) = false

abbrev pub seen_end : ReceiverIrob → Bool
seen_end p = elim (p.ext.expected_bytes) [ none ↦ false | some n ↦ true ]

-- What `data_check_requested` asks for.
unfoldable pub wanted : ReceiverIrob → ResendRequest
unfolding is_empty
wanted p =
    let deps = if p.placeholder then request_deps else request_none in
    let datas = if is_empty (get_missing_chunks p) then deps else bit_or deps request_data in
    if seen_end p then bit_or datas request_end else datas

unfoldable pub data_check_requested : ℕ → Multisocket → Multisocket
unfolding wanted
data_check_requested id m =
    let acks = schedule (ack_task id invalid_time 0) waiting_acks m in
    elim (find_locked m.incoming_irobs.irobs id) [
      | none ↦
          if is_past m.incoming_irobs.irobs id
          then acks
          else schedule (resend_task id request_all 0) resend_requests m
      | some p ↦
          if wanted p == request_none
          then acks
          else schedule (resend_task id (wanted p) 0) resend_requests m
    ]

unfoldable pub should_data_check : ℕ → ℕ → ℕ → SenderIrob → Bool
should_data_check local_ip remote_ip label_mask p =
    was_sent_on p local_ip remote_ip
    && ((label_mask == 0) || has_label label_mask p.send_labels)
    && (not (has_network_restriction p.send_labels) || fallback_allowed p.send_labels)

-- The loop over the ids; the ids are those of pending IROBs.
unfoldable pub check_each : ℕ → ℕ → ℕ → List ℕ → Multisocket → Option Multisocket
unfolding should_data_check
check_each local_ip remote_ip label_mask [] m = some m
check_each local_ip remote_ip label_mask (id ∷ ids) m =
    find_locked m.outgoing_irobs id >>= as_sender >>= λ p.
    let task = record (chunk_task id false 0) { data_check = true } in
    check_each local_ip remote_ip label_mask ids (
      if should_data_check local_ip remote_ip label_mask p
      then schedule task waiting_data_checks m
      else m)

unfoldable pub data_check_all_irobs : ℕ → ℕ → ℕ → Multisocket → Option Multisocket
unfolding check_each
data_check_all_irobs local_ip remote_ip label_mask m =
    check_each local_ip remote_ip label_mask (get_all_ids m.outgoing_irobs) m

-- `has_csock`: the multisocket was bootstrapped and `get_csock` finds a network socket. What the
-- chooser saves to a file is left out.
unfoldable pub goodbye : Bool → Bool → Multisocket → Option Multisocket
unfolding data_check_all_irobs
goodbye remote_initiated has_csock m =
    if m.shutting_down
    then some m
    else ((if remote_initiated then data_check_all_irobs 0 0 0 m else some m) >>= λ m'.
        some (record m' {
          shutting_down = true;
          remote_shutdown = m'.remote_shutdown || remote_initiated || not has_csock;
          goodbye_sent = m'.goodbye_sent || not has_csock;
        }))

unfoldable pub goodbye_acked : Multisocket → Option Multisocket
goodbye_acked m = if m.shutting_down then some (record m { remote_shutdown = true }) else none
