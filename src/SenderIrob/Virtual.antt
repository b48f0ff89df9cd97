-- ===== src/SenderIrob/Virtual.antt =====
-- The sender's IROBs as the nodes of a lattice: PendingSenderIROB overrides `add_chunk` only.
use libcmm.Prelude.{arith}
use libcmm.Irob.{Chunk, Virtuals, Keeps, subsume, subsume-Keeps}
use libcmm.SenderIrob.{Sending, SenderIrob, fresh_sending, add_chunk}

pub add_chunk-Keeps : (p : SenderIrob) (c : Chunk) → Keeps p (add_chunk p c).0
unfolding add_chunk
add_chunk-Keeps p c = ground arith

abbrev pub sender_virtuals : Virtuals Sending
sender_virtuals = record {
  fresh = fresh_sending 0;
  absorb = subsume add_chunk;
  absorb-id = λ p o. (subsume-Keeps add_chunk add_chunk-Keeps p o).same_id;
  absorb-deps = λ p o. (subsume-Keeps add_chunk add_chunk-Keeps p o).same_deps;
  absorb-anonymous = λ p o. (subsume-Keeps add_chunk add_chunk-Keeps p o).same_anonymous;
  absorb-placeholder = λ p o. (subsume-Keeps add_chunk add_chunk-Keeps p o).same_placeholder;
  absorb-dependents = λ p o. (subsume-Keeps add_chunk add_chunk-Keeps p o).same_dependents;
}
