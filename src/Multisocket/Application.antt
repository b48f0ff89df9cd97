-- ===== src/Multisocket/Application.antt =====
-- CMMSocketImpl (cmm_socket_impl.cpp): the calls by which the application begins an IROB, adds a chunk
-- to it, and sends one at once. What `get_csock` returns is an argument; nothing else happens to the
-- IROB while it waits. The check for redundancy, which the chooser does, is left out.
use libcmm.Prelude.{
  ℕ, Bool, true, false, Option, none, some, List, [], ◌==◌, if◌then◌else◌, ◌>>=◌, length,
}
use libcmm.Irob.{Chunk}
use libcmm.Lattice.{
  Lattice, find_locked, modify, irob_was_dropped, irob_is_undeliverable, insert_locked,
}
use libcmm.Scheduling.Task.{SchedulingData, chunk_task}
use libcmm.Scheduling.Indexes.{Indexes, IndexType, new_irobs, new_chunks}
use libcmm.Scheduling.Indexes
use libcmm.SenderIrob.{Sending, SenderIrob, new_sender_irob, add_chunk, expected_bytes}
use libcmm.SenderIrob.Marks.{was_announced}
use libcmm.SenderIrob.Virtual.{sender_virtuals}
use libcmm.Multisocket.{Multisocket, as_sender, schedule}

-- A multisocket with its network sockets, by number.
pub record Endpoint : Type 0 where
  pub multisocket : Multisocket
  pub is_connected : ℕ → Bool
  pub csock_indexes : ℕ → Indexes.Indexes

-- What a call returns: a length, which for `begin_irob` is 0, or the codes of failure.
pub data Result : Type 0 where
  success : ℕ → Result
  failed undeliverable : Result
  csock_error : ℕ → Result

-- A network socket, or the code of an error without its sign.
pub data Csock : Type 0 where
  csock : ℕ → Csock
  no_csock : ℕ → Csock

pub add_scheduling_data : ℕ → IndexType → SchedulingData → Endpoint → Endpoint
add_scheduling_data sock t task e =
    if e.is_connected sock
    then record e {
      csock_indexes =
          λ s. if s == sock then Indexes.insert task t (e.csock_indexes s) else e.csock_indexes s;
    }
    else record e { multisocket = schedule task t e.multisocket }

abbrev pub with_outgoing : Endpoint → Lattice Sending → Endpoint
with_outgoing e l = record e { multisocket = record (e.multisocket) { outgoing_irobs = l } }

-- The ASSERT that the insertion succeeds, and the task for the IROB.
insert_outgoing : SenderIrob → ℕ → Endpoint → Option Endpoint
unfolding add_scheduling_data
insert_outgoing p sock e =
    insert_locked sender_virtuals e.multisocket.outgoing_irobs p true >>= λ (l, inserted).
    if inserted
    then some (
        add_scheduling_data sock new_irobs (chunk_task p.id false p.send_labels)
          (with_outgoing e l))
    else none

unfoldable pub begin_irob : ℕ → List ℕ → ℕ → Csock → Endpoint → Option (Endpoint × Result)
unfolding insert_outgoing
begin_irob id deps labels (no_csock code) e =
    some (e, if e.multisocket.shutting_down then failed else csock_error code)
begin_irob id deps labels (csock sock) e =
    let p = new_sender_irob id deps [] labels in
    if e.multisocket.shutting_down
    then some (e, failed)
    else if irob_is_undeliverable e.multisocket.outgoing_irobs p
    then some (e, undeliverable)
    else insert_outgoing p sock e >>= λ e'. some (e', success 0)

-- `validate_default_irob` and `send_default_irob`.
unfoldable pub default_irob : ℕ → List ℕ → ℕ → Csock → Endpoint → Option (Endpoint × Result)
unfolding insert_outgoing
default_irob id bytes labels (no_csock code) e =
    some (e, if e.multisocket.shutting_down then failed else csock_error code)
default_irob id bytes labels (csock sock) e =
    let p = new_sender_irob id [] bytes labels in
    if e.multisocket.shutting_down
    then some (e, failed)
    else insert_outgoing p sock e >>= λ e'.
        if expected_bytes p == length bytes then some (e', success (expected_bytes p)) else none

-- The part of `irob_chunk` after the IROB and a network socket are found.
put_chunk : SenderIrob → List ℕ → ℕ → Endpoint → Endpoint
unfolding add_scheduling_data
put_chunk p bytes sock e =
    let chunk : Chunk = record {
      id = p.id;
      seqno = 0;
      offset = 0;
      datalen = length bytes;
      datas = some bytes;
    } in
    let q = (add_chunk p chunk).0 in
    let e' = with_outgoing e (modify e.multisocket.outgoing_irobs p.id (λ _. q)) in
    if was_announced q (some sock)
    then add_scheduling_data sock new_chunks (chunk_task p.id true p.send_labels) e'
    else e'

unfoldable pub irob_chunk : ℕ → List ℕ → Csock → Endpoint → Option (Endpoint × Result)
unfolding put_chunk
irob_chunk id bytes c e =
    if e.multisocket.shutting_down
    then some (e, failed)
    else elim (find_locked e.multisocket.outgoing_irobs id) [
      | none ↦
          some
            (e, if irob_was_dropped e.multisocket.outgoing_irobs id then undeliverable else failed)
      | some p ↦
          if p.complete
          then some (e, failed)
          else (as_sender p >>= λ q. elim c [
            | no_csock code ↦ some (e, csock_error code)
            | csock sock ↦ some (put_chunk q bytes sock e, success (length bytes))
          ])
    ]
