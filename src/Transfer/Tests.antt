-- ===== src/Transfer/Tests.antt =====
-- The two chunks of the sender's example arrive in the other order, one of them twice.
use libcmm.Prelude.{ℕ, ◌<◌, ◌≡◌, refl, inl, inr, true, some, List, [], ◌∷◌, arith, take, All}
use libcmm.Irob.{new_irob}
use libcmm.Irob.Data.{data_of}
use libcmm.IdSet
use libcmm.SenderIrob.{add_chunk, new_sender_irob, sum_chunks, num_sender_chunks, all_bytes_chunked}
use libcmm.SenderIrob.Sends.{get_ready_bytes}
use libcmm.SenderIrob.Tests.{first_ready, second_ready, other_ready, served, served-History}
use libcmm.ReceiverIrob.{ReceiverIrob, new_receiver_irob, is_complete}
use libcmm.ReceiverIrob.Messages.{Message, irob_chunk, end_irob, receive_all, has_chunk, has_end}
use libcmm.ReceiverIrob.Removing.{read_each, sum}
use libcmm.Transfer.{wire_chunk, FromServed, transfer_outcome}

abbrev arrivals : List Message
arrivals =
    irob_chunk (wire_chunk 5 second_ready)
    ∷ end_irob 3 2
    ∷ irob_chunk (wire_chunk 5 first_ready)
    ∷ irob_chunk (wire_chunk 5 other_ready)
    ∷ []

cut_up : all_bytes_chunked other_ready.next ≡ true
unfolding get_ready_bytes add_chunk new_sender_irob new_irob IdSet.insert_all sum_chunks
cut_up = refl

from_served : All (FromServed other_ready.next served) arrivals
unfolding get_ready_bytes add_chunk new_sender_irob new_irob IdSet.insert_all sum_chunks
from_served = (
  (second_ready, inr (inl refl), ground arith, refl),
  (
    (refl, refl),
    (
      (first_ready, inr (inr (inl refl)), ground arith, refl),
      ((other_ready, inl refl, ground arith, refl), tt),
    ),
  ),
)

ended : has_end arrivals ≡ true
ended = refl

all_there : (j : ℕ) → j < num_sender_chunks other_ready.next → has_chunk arrivals j ≡ true
unfolding get_ready_bytes add_chunk new_sender_irob new_irob IdSet.insert_all sum_chunks
all_there j lt = ground arith

transfer_outcome_example :
    (q : ReceiverIrob) × (receive_all (new_receiver_irob other_ready.next.id [] 8) arrivals
      ≡ some q)
    × (is_complete q ≡ some true)
    × (read_each q (2 ∷ 1 ∷ []) ≡ some (take (sum (2 ∷ 1 ∷ [])) (data_of other_ready.next.chunks)))
transfer_outcome_example =
    transfer_outcome served-History cut_up 8 [] arrivals (2 ∷ 1 ∷ []) from_served ended all_there
      (ground arith, (ground arith, tt))
