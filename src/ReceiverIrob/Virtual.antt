-- ===== src/ReceiverIrob/Virtual.antt =====
-- The receiver's IROBs as the nodes of a lattice.
use libcmm.Prelude.{List, arith}
use libcmm.IdSet.{insert_all}
use libcmm.Irob.{Chunk, Virtuals, Keeps, subsume-Keeps}
use libcmm.ReceiverIrob.{
  Receiving, ReceiverIrob, fresh_receiving, add_chunk, accept_chunk, reach_seqno, virtual_add,
  absorb,
}

accept_chunk-Keeps :
    (p : ReceiverIrob) (cs : List Chunk) (c : Chunk) → Keeps p (accept_chunk p cs c).0
unfolding accept_chunk
accept_chunk-Keeps p cs c = ground arith

virtual_add-Keeps : (p : ReceiverIrob) (c : Chunk) → Keeps p (virtual_add p c).0
unfolding add_chunk
virtual_add-Keeps p c = ground (arith, accept_chunk-Keeps p (reach_seqno p.chunks c.seqno) c)

pub absorb-Keeps :
    (p other : ReceiverIrob)
    → Keeps (record p { dependents = insert_all p.dependents other.dependents }) (absorb p other)
unfolding absorb
absorb-Keeps p other = ground (arith, subsume-Keeps virtual_add virtual_add-Keeps p other)

abbrev pub receiver_virtuals : Virtuals Receiving
receiver_virtuals = record {
  fresh = fresh_receiving;
  absorb = absorb;
  absorb-id = λ p o. (absorb-Keeps p o).same_id;
  absorb-deps = λ p o. (absorb-Keeps p o).same_deps;
  absorb-anonymous = λ p o. (absorb-Keeps p o).same_anonymous;
  absorb-placeholder = λ p o. (absorb-Keeps p o).same_placeholder;
  absorb-dependents = λ p o. (absorb-Keeps p o).same_dependents;
}
