-- ===== src/Lib.antt =====
-- Verification of the core of libcmm: the bookkeeping that lets an application send ordered units of
-- data, IROBs, over several networks at once.
--
-- A sender cuts an IROB into chunks and sends it as Begin_IROB, Irob_chunk and End_IROB messages,
-- over whatever networks there are. A receiver gathers the chunks and hands an IROB to the
-- application only when the IROBs that it depends on have been read. Both ends keep their pending
-- IROBs in a lattice, which at the sender also infers dependencies: an anonymous IROB, sent with its
-- data in one call, is ordered against all others.
--
-- IntSet is intset.cpp: sets of ids as bit vectors, with which the lattice remembers past and
--   dropped IROBs. IntSet/Laws and IntSet/Size compare it with a membership test.
-- IdSet is the std::set of ids of pending_irob.h; StdSet is a std::set with a comparator.
-- Irob is PendingIROB (pending_irob.h, pending_irob.cpp), with a type argument for what a subclass
--   adds, and `Virtuals`, the interface of the virtual methods that the lattice calls. Irob/Data is
--   the data that a list of chunks carries.
-- Lattice is PendingIROBLattice (pending_irob.h, pending_irob.cpp). `insert_locked`,
--   `erase_locked`, `find_locked`, `correct_deps` and `drop_irob_and_dependents` are the methods of
--   these names; the first is composed of `place` (up to the return for placeholders) and `settle`
--   (the rest). View says what `find` answers after each change, Place, Growth, Invariant, Insert
--   and Outcome treat insertion, Erase and Erasure erasure, Tracks and Readiness the receiver's
--   histories, Chain and Drop the loop over victims, Every, Tracking and Arrival what the receiver's
--   changes leave of the IROBs, Ordering, Dominance and Sender the sender's histories.
-- Scheduling is irob_scheduling.h and irob_scheduling.cpp: Task (IROBSchedulingData and its
--   operator<), PrioritySet (IROBPrioritySet), Indexes (IROBSchedulingIndexes); Order and Sets hold
--   the proofs.
-- ReceiverIrob is PendingReceiverIROB (pending_receiver_irob.h, pending_receiver_irob.cpp). Parts,
--   Gather and Messages treat the arrival of messages, Missing what is asked for again, Reading,
--   Removing and Trimming the reads, Delivery the way from messages to bytes, Virtual the place in
--   the lattice.
-- SenderIrob is PendingSenderIROB (pending_sender_irob.h, pending_sender_irob.cpp): its state and
--   the search for bytes in it; Sends has `get_ready_bytes` and its parts, Marks the marks for
--   chunks to be sent again and for announcements. Locate treats the search for the chunk of an
--   offset and the gathering of bytes, Chunking the invariant of the chunks cut, Record and Advance
--   the recording of a chunk, Serve all of `get_ready_bytes`, Grown, Calls, History and Serving the
--   histories of an IROB with several sockets, Announce the announcements, Virtual the place in the
--   lattice.
-- ReceiverLattice is PendingReceiverIROBLattice (pending_receiver_irob.h,
--   pending_receiver_irob.cpp): `release`, `release_if_ready` and `release_dependents`,
--   `get_ready_irob` with its part `pop_pending`, and `recv`, whose loop is `recv_loop` with a turn
--   `read_turn`. Slots, Sound, Changes, Absorb and Reads treat one IROB, Serving the whole state
--   with its queue, Releasing, Taking, Turn, Receive and Peek the reads, Arriving and Inserting the
--   messages.
-- CsocketReceiver is CSocketReceiver (csocket_receiver.h, csocket_receiver.cpp): `do_begin_irob`,
--   `do_irob_chunk` and `do_end_irob`. Handling treats one message, Session the histories of
--   messages and reads.
-- Transfer joins SenderIrob and ReceiverIrob.
-- Multisocket is CMMSocketImpl (cmm_socket.private.h, cmm_socket_impl.cpp): acknowledgements,
--   resend requests, data checks and the goodbye; Application has the calls that begin and send
--   IROBs, Messages the handlers of csocket_receiver.cpp for these messages, and Checking the
--   proofs.
-- NetworkChooser is net_interface.cpp, libcmm_net_restriction.cpp, the choosers of
--   network_chooser_impl.cpp and the choice of interfaces of csocket_mapping.cpp.
-- Thunks is thunks.cpp, the handlers that wait for a network, with Laws and Order the proofs; Time
--   is timeops.h and timeops.cpp.
-- Prelude holds native numbers, lists and tests that all share.
--
-- Conventions. A call that may fail an ASSERT returns an Option, `none` for the failure. Ids and
-- sizes are natural numbers; size_t wraps where the code can take it below zero, in the count of the
-- lattice. Ids lie within the range of `int` of each other, as the casts of the code need, and other
-- machine numbers within their types; a bound that matters stands in a hypothesis or in the comment
-- of its file. A mutex is held throughout a call, so that a call is one step; the object that a
-- shared pointer leads to is the one in the slot of its id, and `partially_read_irob` is such an id.
-- A read that has to wait ends with the result `waiting`, from which it goes on in a later state.
-- Two loops are not structural. That of `recv` has the length of the buffer for its fuel, which is
-- enough since each turn passes at least a byte. For that of `drop_irob_and_dependents` the fuel is
-- one more than the number of dependents that the pending IROBs list, which is enough since a round
-- takes one victim off the queue and adds no more than it takes dependents out of the lattice.
--
-- Not modelled: the threads that send and receive but for the handlers above, system calls and
-- waiting, the measurement of networks, the choosers that stand on other libraries, logging, the
-- counter of live objects, and the freeing of memory.
pub mod Prelude
pub mod IntSet
pub mod IdSet
pub mod StdSet
pub mod Irob
pub mod Scheduling
pub mod ReceiverIrob
pub mod ReceiverLattice
pub mod CsocketReceiver
pub mod Time
pub mod Thunks
pub mod NetworkChooser
pub mod Lattice
pub mod SenderIrob
pub mod Transfer
pub mod Multisocket
