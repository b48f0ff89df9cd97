-- ===== src/ReceiverLattice.antt =====
-- PendingReceiverIROBLattice (pending_receiver_irob.h, pending_receiver_irob.cpp): the IROBs at the
-- receiver, those of them that may be read, and the reads of the application. The scheduling lock is
-- held but for the wait inside `get_ready_irob`: a read that has to wait is `waiting`, with what it
-- has so far, and goes on from there in a later state. The condition variable and the select pipe
-- that wake readers are left out.
pub mod Slots
pub mod Sound
pub mod Changes
pub mod Absorb
pub mod Reads
pub mod Serving
pub mod Releasing
pub mod Taking
pub mod Turn
pub mod Receive
pub mod Peek
pub mod Arriving
pub mod Inserting
use Prim.Native.Nat.{bit_and}
use libcmm.Prelude.{
  ℕ, zero, suc, ◌-◌, Bool, true, false, not, ◌||◌, ◌&&◌, Option, none, some, List, [], ◌∷◌, ◌++◌,
  ltb, ◌==◌, if◌then◌else◌, ◌>>=◌, length, is_some,
}
use libcmm.IdSet.{IdSet}
use libcmm.Irob.{placeholder_irob, is_ready}
use libcmm.Lattice.{Lattice, new_lattice, find_locked, modify, erase_locked}
use libcmm.Scheduling.Task.{chunk_task}
use libcmm.Scheduling.PrioritySet.{PrioritySet, insert}
use libcmm.ReceiverIrob.{
  Receiving, ReceiverIrob, fresh_receiving, is_complete, read_data, remove_bytes,
}
use libcmm.ReceiverIrob

-- `partially_read_irob` is the id of the IROB that the pointer leads to.
pub record ReceiverLattice : Type 0 where
  pub irobs : Lattice Receiving
  pub ready_irobs : PrioritySet
  pub partially_read_irob : Option ℕ

abbrev pub new_receiver_lattice : ReceiverLattice
new_receiver_lattice = record { irobs = new_lattice; ready_irobs = []; partially_read_irob = none }

abbrev pub make_placeholder : ℕ → ReceiverIrob
make_placeholder id = placeholder_irob id fresh_receiving

is_empty : PrioritySet → Bool
is_empty [] = true
is_empty (d ∷ ds) = false

pub data_is_ready : ReceiverLattice → Bool
unfolding is_empty
data_is_ready r = is_some r.partially_read_irob || not (is_empty r.ready_irobs)

unfoldable pub release : ReceiverLattice → ℕ → ℕ → ReceiverLattice
release r id labels = record r { ready_irobs = insert (chunk_task id false labels) r.ready_irobs }

-- The predicate ReadyIROB.
unfoldable pub ready_irob : ReceiverIrob → Option Bool
ready_irob p = is_complete p >>= λ done. some (done && is_ready p && not p.ext.released)

-- The IROB is the one pending under `id`.
unfoldable pub release_if_ready : ReceiverLattice → ℕ → Option ReceiverLattice
unfolding ready_irob release
release_if_ready r id = find_locked r.irobs id >>= λ p. ready_irob p >>= λ ready. some (
    if ready
    then release (record r { irobs = modify r.irobs id (λ q. ReceiverIrob.release q) }) id
        p.send_labels
    else r)

-- The loop over the dependents.
unfoldable pub release_dependents : ReceiverLattice → IdSet → Option ReceiverLattice
unfolding release_if_ready
release_dependents r [] = some r
release_dependents r (d ∷ ds) = elim (find_locked r.irobs d) [
  | none ↦ release_dependents r ds
  | some dependent ↦ release_if_ready r d >>= λ r'. release_dependents r' ds
]

-- What a read finds of the socket: `closing` is the end of the connection with no network left.
pub record Socket : Type 0 where
  pub closing : Bool
  pub shutting_down : Bool
  pub non_blocking : Bool
  pub timeout_expired : Bool

-- What `get_ready_irob` returns: a null pointer, the sentinel, or an IROB; or it waits.
pub data Next : Type 0 where
  no_more nothing_ready waits : Next
  next : ReceiverIrob → Next

unfoldable pub when_empty : Socket → Bool → Next
when_empty sk block_for_data =
    if sk.closing
    then no_more
    else if not block_for_data || sk.non_blocking || sk.timeout_expired
    then nothing_ready
    else waits

-- Pops until an IROB is found that is still pending.
unfoldable pub pop_pending : Lattice Receiving → PrioritySet → PrioritySet × Option ReceiverIrob
pop_pending l [] = ([], none)
pop_pending l (d ∷ ds) = elim (find_locked l d.id) [
  | none ↦ pop_pending l ds
  | some p ↦ (ds, some p)
]

unfoldable pub get_ready_irob : Socket → Bool → ReceiverLattice → Option (ReceiverLattice × Next)
unfolding pop_pending when_empty
get_ready_irob sk block_for_data r = elim (r.partially_read_irob) [
  | some id ↦ find_locked r.irobs id >>= λ p. is_complete p >>= λ done.
      if done then some (record r { partially_read_irob = none }, next p) else none
  | none ↦
      let (rest, found) = pop_pending r.irobs r.ready_irobs in
      some (
        record r { ready_irobs = rest },
        elim found [ none ↦ when_empty sk block_for_data | some p ↦ next p ],
      )
]

abbrev pub msg_peek : ℕ
msg_peek = 0x2

abbrev pub msg_waitall : ℕ
msg_waitall = 0x100

unfoldable pub has_flag : ℕ → ℕ → Bool
has_flag flags f = not (bit_and flags f == 0)

-- The buffer as far as it is filled, and `*recv_labels` once it is set.
pub record Passed : Type 0 where
  pub bytes : List ℕ
  pub labels : Option ℕ

abbrev pub nothing_passed : Passed
nothing_passed = record { bytes = []; labels = none }

-- `would_block` is the result -1 with EWOULDBLOCK.
pub data Recv : Type 0 where
  passed waiting : Passed → Recv
  would_block : Recv

-- The IROB is used up: it goes, and those that waited for it may follow.
unfoldable pub retire : ReceiverLattice → ReceiverIrob → Option ReceiverLattice
unfolding release_dependents
retire r p =
    release_dependents (record r { irobs = (erase_locked r.irobs p.id true).0 }) p.dependents

-- The end of a turn, for the IROB as the read left it; the flag says that it is used up.
unfoldable pub put_back : ReceiverLattice → ReceiverIrob → Option (ReceiverLattice × Bool)
unfolding retire
put_back r p = is_complete p >>= λ done.
    if done && (p.ext.num_bytes == 0)
    then (retire r p >>= λ r'. some (r', true))
    else if is_some r.partially_read_irob
    then none
    else some (record r { partially_read_irob = some p.id }, false)

unfoldable pub add_bytes : Passed → ReceiverIrob → List ℕ → Passed
add_bytes got p xs = record {
  bytes = got.bytes ++ xs;
  labels = if length got.bytes == 0 then some p.send_labels else got.labels;
}

-- A turn of the loop of `recv` with the IROB that `get_ready_irob` returned.
unfoldable pub read_turn :
    ℕ → ℕ → ReceiverLattice → ReceiverIrob → Passed → Option (ReceiverLattice × Bool × Passed)
unfolding put_back add_bytes
read_turn len flags r p got = is_complete p >>= λ done.
    if (p.ext.num_bytes == 0) || not (is_ready p) || not done
    then none
    else read_data p (len - length got.bytes) >>= λ xs.
        (if has_flag flags msg_peek then some p else remove_bytes p (length xs)) >>= λ q.
        put_back (record r { irobs = modify r.irobs p.id (λ _. q) }) q >>= λ (r', used_up).
        some (r', used_up, add_bytes got p xs)

-- The loop with no IROB to go on with.
unfoldable pub stop : Socket → Next → Passed → Option Recv
stop sk no_more got = if sk.shutting_down then some (passed got) else none
stop sk waits got = some (waiting got)
stop sk nothing_ready got =
    if not (length got.bytes == 0)
    then some (passed got)
    else if sk.non_blocking || sk.timeout_expired
    then some would_block
    else none
stop sk (next p) got = none

unfoldable pub recv_loop :
    ℕ → Socket → ℕ → ℕ → ReceiverLattice → Passed → Option (ReceiverLattice × Recv)
unfolding stop get_ready_irob read_turn
recv_loop zero sk len flags r got =
    if ltb (length got.bytes) len then none else some (r, passed got)
recv_loop (suc fuel) sk len flags r got = elim (ltb (length got.bytes) len) [
  | false ↦ some (r, passed got)
  | true ↦
      get_ready_irob sk ((length got.bytes == 0) || has_flag flags msg_waitall) r >>= λ (r', n).
      elim n as (λ _. Option (ReceiverLattice × Recv)) [
        | next p ↦ read_turn len flags r' p got >>= λ (r'', used_up, got').
            elim (used_up && not (has_flag flags msg_waitall)) [
              | true ↦ some (r'', passed got')
              | false ↦ recv_loop fuel sk len flags r'' got'
            ]
        | no_more ↦ stop sk no_more got >>= λ out. some (r', out)
        | nothing_ready ↦ stop sk nothing_ready got >>= λ out. some (r', out)
        | waits ↦ stop sk waits got >>= λ out. some (r', out)
      ]
]

-- `recv`; a read that has waited goes on with `recv_loop` from what it had passed.
unfoldable pub recv : Socket → ℕ → ℕ → ReceiverLattice → Option (ReceiverLattice × Recv)
unfolding recv_loop
recv sk len flags r = recv_loop len sk len flags r nothing_passed
