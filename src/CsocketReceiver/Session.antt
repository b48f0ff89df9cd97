-- ===== src/CsocketReceiver/Session.antt =====
-- The histories of a receiver: messages of whatever content in whatever order, and reads.
use libcmm.Prelude.{
  ℕ, ◌+◌, ◌≤◌, ◌<◌, ◌≡◌, refl, subst, ◌⊎◌, ◌↔◌, true, false, Option, some, List, arith, length,
  take,
}
use libcmm.IdSet.{IdSet, has}
use libcmm.Irob.{Chunk, is_ready}
use libcmm.Lattice.{find_locked, is_past}
use libcmm.Lattice.Tracks.{nothing_pending, new_lattice-Tracks, ready_of_Tracks}
use libcmm.Scheduling.Task.{Timeval}
use libcmm.Scheduling.PrioritySet.{PrioritySet}
use libcmm.ReceiverIrob.{ReceiverIrob, is_complete}
use libcmm.ReceiverIrob.Reading.{contents}
use libcmm.ReceiverIrob.Virtual.{receiver_virtuals}
use libcmm.ReceiverLattice.{
  ReceiverLattice, new_receiver_lattice, Socket, has_flag, msg_peek, msg_waitall, Passed, Recv,
  passed, waiting, would_block, recv_loop, recv,
}
use libcmm.ReceiverLattice.Sound.{real_of_ready}
use libcmm.ReceiverLattice.Serving.{has_task, Serves}
use libcmm.ReceiverLattice.Receive.{
  bytes_passed, stalled, Coherent, recv_loop_lem, recv_lem, recv_passes, recv-Takes,
}
use libcmm.ReceiverLattice.Peek.{Peeked, recv_peek}
use libcmm.CsocketReceiver.{
  Receiver, Ending, new_receiver, do_begin_irob, do_end_irob, do_irob_chunk,
}
use libcmm.CsocketReceiver.Handling.{
  after_begin, do_begin_irob-Serves, do_end_irob-Serves, Framed, do_irob_chunk-Serves,
}

-- `Session r a` are the histories that lead to `r`, with the dependencies `a` announced so far. No
-- message comes that ends an IROB of no bytes. The sender thread takes acknowledgements at any time.
pub data Session : Receiver → (ℕ → IdSet) → Type 0 where
  start : (a : ℕ → IdSet) → Session new_receiver a
  begins :
      {r r' : Receiver} {a : ℕ → IdSet} (id : ℕ) (deps : Option (List ℕ)) (labels : ℕ)
      (now : Timeval) (e : Ending)
      → Session r a
      → do_begin_irob id deps labels now r ≡ some (r', e)
      → Session r' (after_begin a r id deps labels)
  sends_chunk :
      {r r' : Receiver} {a : ℕ → IdSet} (c : Chunk) (now : Timeval) (e : Ending)
      → Session r a
      → Framed c
      → do_irob_chunk c now r ≡ some (r', e)
      → Session r' a
  finishes :
      {r r' : Receiver} {a : ℕ → IdSet} (id bytes chunks : ℕ) (now : Timeval) (e : Ending)
      → Session r a
      → 0 < bytes
      → do_end_irob id bytes chunks now r ≡ some (r', e)
      → Session r' a
  reads :
      {r : Receiver} {l : ReceiverLattice} {a : ℕ → IdSet} (sk : Socket) (len flags fuel : ℕ)
      (g : Passed) (out : Recv)
      → Session r a
      → Coherent sk
      → (length g.bytes ≤ len) × (len ≤ length g.bytes + fuel) × (0 < len)
      → recv_loop fuel sk len flags r.incoming_irobs g ≡ some (l, out)
      → Session (record r { incoming_irobs = l }) a
  acknowledges :
      {r : Receiver} {a : ℕ → IdSet} (acks : PrioritySet)
      → Session r a
      → Session (record r { waiting_acks = acks }) a

start-Serves : (a : ℕ → IdSet) → Serves a new_receiver_lattice
start-Serves a = record {
  tracks = new_lattice-Tracks receiver_virtuals a;
  sound = λ j p e. absurd (ground (arith, nothing_pending receiver_virtuals j));
  checked = λ j p e out. absurd (ground (arith, nothing_pending receiver_virtuals j));
  prompt = λ j p e out done ready. absurd (ground (arith, nothing_pending receiver_virtuals j));
  queued = λ j p e out rel. absurd (ground (arith, nothing_pending receiver_virtuals j));
  tasked = λ j p h e. absurd (ground arith);
  known = λ j h e. absurd (ground arith);
  partial = λ j e. absurd (ground arith);
  level = tt;
}

pub Session-Serves : {r : Receiver} {a : ℕ → IdSet} → Session r a → Serves a r.incoming_irobs
Session-Serves (start a) = start-Serves a
Session-Serves (begins {r} {r'} {a} id deps labels now e h eq) =
    do_begin_irob-Serves a id deps labels now r r' e (Session-Serves h) eq
Session-Serves (sends_chunk {r} {r'} {a} c now e h framed eq) =
    do_irob_chunk-Serves a c now r r' e framed (Session-Serves h) eq
Session-Serves (finishes {r} {r'} {a} id bytes chunks now e h pos eq) =
    do_end_irob-Serves a id bytes chunks now r r' e pos (Session-Serves h) eq
Session-Serves (reads {r} {l} {a} sk len flags fuel g out h co b eq) =
    let (l', out', e', o) =
      recv_loop_lem a fuel sk len flags r.incoming_irobs g co (Session-Serves h) b.0 b.1 b.2 in
    let same : l' ≡ l = ground arith in subst (Serves a) same o.serves
Session-Serves (acknowledges acks h) = Session-Serves h

module _ {r : Receiver} {a : ℕ → IdSet} (h : Session r a) where
  -- In every session, that is, in which no End_IROB of no bytes comes, a pending IROB is released, and
  -- from then on waits in the queue or is the one that is partly read, exactly when it is complete and
  -- no dependency of it is left.
  pub released_when_due :
      (j : ℕ) (p : ReceiverIrob)
      → find_locked r.incoming_irobs.irobs j ≡ some p
      → ((p.ext.released ≡ true) ↔ ((is_complete p ≡ some true) × (is_ready p ≡ true)))
        × (p.ext.released ≡ true
            → (r.incoming_irobs.partially_read_irob ≡ some j)
              ⊎ (has_task r.incoming_irobs.ready_irobs j ≡ true))
  released_when_due j p e =
      let s = Session-Serves h in
      (
        (
          λ rel. let d = (s.sound j p e).deliverable rel in (d.complete, d.ready),
          λ due. s.prompt j p e refl due.0 due.1,
        ),
        s.queued j p e refl,
      )

  -- In every session, that is, in which no End_IROB of no bytes comes, a read of a positive length with
  -- any flags meets no failed ASSERT and ends. It passes at most as many bytes as there is room for, and if it waits or passes nothing there is no
  -- pending IROB that is complete and ready. The socket must be shutting down when the connection is
  -- closing.
  pub recv_outcome :
      (sk : Socket) (len flags : ℕ)
      → Coherent sk
      → 0 < len
      → (l : ReceiverLattice) × (out : Recv) × (recv sk len flags r.incoming_irobs ≡ some (l, out))
        × (length (bytes_passed out) ≤ len)
        × (stalled out ≡ true
            → (j : ℕ) (p : ReceiverIrob) → find_locked l.irobs j ≡ some p
            → is_complete p ≡ some true
            → is_ready p ≡ false)
  recv_outcome sk len flags co pos =
      let (l, out, e, o) = recv_lem a sk len flags r.incoming_irobs co (Session-Serves h) pos in
      (l, out, e, o.within, o.dry)

  -- In every session, that is, in which no End_IROB of no bytes comes, and in which a pending IROB is
  -- complete and ready, a read of a positive length without MSG_WAITALL returns and passes at least one
  -- byte: it neither waits nor fails.
  pub recv_never_starves :
      (sk : Socket) (len flags : ℕ)
      → Coherent sk
      → 0 < len
      → has_flag flags msg_waitall ≡ false
      → (j : ℕ) (p : ReceiverIrob) → find_locked r.incoming_irobs.irobs j ≡ some p
      → is_complete p ≡ some true
      → is_ready p ≡ true
      → (l : ReceiverLattice) × (g : Passed) × (recv sk len flags r.incoming_irobs
          ≡ some (l, passed g))
        × (0 < length g.bytes)
  recv_never_starves sk len flags co pos wall j p e done ready =
      let (l, out, eq, live) =
        recv_passes a sk len flags r.incoming_irobs co (Session-Serves h) pos wall j p e done
          ready in
      passed_of l out eq live
    where
      passed_of :
          (l : ReceiverLattice) (out : Recv)
          → recv sk len flags r.incoming_irobs ≡ some (l, out)
          → stalled out ≡ false
          → (l' : ReceiverLattice) × (g : Passed) × (recv sk len flags r.incoming_irobs
              ≡ some (l', passed g))
            × (0 < length g.bytes)
      passed_of l (passed g) eq live = (l, g, eq, ground arith)
      passed_of l (waiting g) eq live = absurd (ground arith)
      passed_of l would_block eq live = absurd (ground arith)

  -- In every session, that is, in which no End_IROB of no bytes comes, what a read of flags without
  -- MSG_WAITALL and MSG_PEEK passes, if it passes anything, are the next bytes of one pending IROB, up to the length asked for, with the labels of
  -- that IROB; the IROB is complete, and the application has read every IROB that was announced as a
  -- dependency of it.
  pub recv_in_order :
      (sk : Socket) (len flags : ℕ) (l : ReceiverLattice) (g : Passed)
      → Coherent sk
      → has_flag flags msg_waitall ≡ false
      → has_flag flags msg_peek ≡ false
      → recv sk len flags r.incoming_irobs ≡ some (l, passed g)
      → 0 < length g.bytes
      → (p : ReceiverIrob) × (find_locked r.incoming_irobs.irobs p.id ≡ some p)
        × (is_complete p ≡ some true)
        × (g.bytes ≡ take len (contents p))
        × (g.labels ≡ some p.send_labels)
        × ((d : ℕ) → has (a p.id) d ≡ true → is_past r.incoming_irobs.irobs d ≡ true)
  recv_in_order sk len flags l g co wall peek e some_bytes =
      let s = Session-Serves h in
      let t = recv-Takes a sk len flags r.incoming_irobs l g co s wall peek e some_bytes in
      let p = t.from in
      (
        p,
        t.pending,
        t.complete,
        t.next_bytes,
        t.its_labels,
        (ready_of_Tracks r.incoming_irobs.irobs a s.tracks p.id p t.pending
              (real_of_ready p t.ready)).0
            t.ready,
      )

  -- In every session in which a pending IROB is complete and ready, a read with MSG_PEEK passes exactly
  -- as many bytes as it was asked for, however few there are to be read: the bytes left of one pending
  -- IROB that is complete and ready, over and over. The sessions are those in which no End_IROB of no
  -- bytes comes.
  pub peek_fills :
      (sk : Socket) (len flags : ℕ)
      → has_flag flags msg_peek ≡ true
      → (j : ℕ) (p : ReceiverIrob) → find_locked r.incoming_irobs.irobs j ≡ some p
      → is_complete p ≡ some true
      → is_ready p ≡ true
      → (l : ReceiverLattice) × (g : Passed) × (recv sk len flags r.incoming_irobs
          ≡ some (l, passed g))
        × Peeked len r.incoming_irobs g
  peek_fills sk len flags peek j p e done ready =
      let s = Session-Serves h in
      recv_peek a sk len flags r.incoming_irobs s peek j p e (s.prompt j p e refl done ready)
