-- ===== src/ReceiverIrob/Tests.antt =====
-- Two chunks of an IROB that arrive out of order, and a reader that takes them byte by byte.
use libcmm.Prelude.{
  ℕ, ◌<◌, ◌≡◌, refl, ◌↔◌, Bool, true, false, not, ◌||◌, ◌&&◌, some, List, [], ◌∷◌, arith, ltb,
  length, All,
}
use libcmm.Irob.{Chunk}
use libcmm.ReceiverIrob.{
  ReceiverIrob, new_receiver_irob, is_complete, get_missing_chunks, fresh_receiving,
}
use libcmm.ReceiverIrob.Parts.{IsTarget, bytes}
use libcmm.ReceiverIrob.Messages.{
  Message, irob_chunk, end_irob, receive_all, has_chunk, has_chunk_from, has_end, FromSender,
  gather_any_order,
}
use libcmm.Irob.Data.{Solid}
use libcmm.ReceiverIrob.Reading.{IsReadable}
use libcmm.ReceiverIrob.Removing.{read_each, IsPositive, read_each_lem, Rests, remove_bytes_lem}
use libcmm.ReceiverIrob.Delivery.{deliver_any_order}
use libcmm.ReceiverIrob.Missing.{any_is, missing_any_order}

abbrev head_chunk : Chunk
head_chunk = record { id = 1; seqno = 0; offset = 0; datalen = 2; datas = some (10 ∷ 11 ∷ []) }

abbrev tail_chunk : Chunk
tail_chunk = record { id = 1; seqno = 1; offset = 2; datalen = 1; datas = some (12 ∷ []) }

abbrev both : List Chunk
both = head_chunk ∷ tail_chunk ∷ []

both-IsTarget : IsTarget 0 both
both-IsTarget = (refl, refl, (refl, refl, tt))

both-Solid : Solid both
both-Solid = (refl, (refl, tt))

-- The tail first, then the end, the head, and the tail again.
abbrev arrivals : List Message
arrivals = irob_chunk tail_chunk ∷ end_irob 3 2 ∷ irob_chunk head_chunk ∷ irob_chunk tail_chunk ∷ []

arrivals-FromSender : All (FromSender both both-IsTarget) arrivals
unfolding bytes
arrivals-FromSender = (
  record { within = ground arith; known = refl },
  (
    (refl, refl),
    (
      record { within = ground arith; known = refl },
      (record { within = ground arith; known = refl }, tt),
    ),
  ),
)

all_there : (j : ℕ) → j < length both → has_chunk arrivals j ≡ true
all_there j lt = ground arith

abbrev bytewise : List ℕ
bytewise = 1 ∷ 1 ∷ []

bytewise-IsPositive : All IsPositive bytewise
bytewise-IsPositive = (ground arith, (ground arith, tt))

deliver_any_order_example :
    (q : ReceiverIrob) × (receive_all (new_receiver_irob 1 [] 0) arrivals ≡ some q)
    × (is_complete q ≡ some true)
    × (read_each q bytewise ≡ some (10 ∷ 11 ∷ []))
deliver_any_order_example =
    deliver_any_order both both-IsTarget both-Solid 1 0 [] arrivals bytewise arrivals-FromSender
      refl all_there bytewise-IsPositive

gather_any_order_example :
    (q : ReceiverIrob) × (b : Bool) × (receive_all (new_receiver_irob 1 [] 0) arrivals ≡ some q)
    × (is_complete q ≡ some b)
    × ((b ≡ true)
        ↔ ((has_end arrivals ≡ true) × ((j : ℕ) → j < length both → has_chunk arrivals j ≡ true)))
    × (b ≡ true → q.chunks ≡ both)
gather_any_order_example = gather_any_order both both-IsTarget 1 0 [] arrivals arrivals-FromSender

missing_any_order_example :
    (q : ReceiverIrob) × (receive_all (new_receiver_irob 1 [] 0) arrivals ≡ some q)
    × ((j : ℕ)
        → any_is (get_missing_chunks q) j ≡ (
            (has_chunk_from arrivals j || (has_end arrivals && ltb j (length both)))
            && not (has_chunk arrivals j)))
missing_any_order_example = missing_any_order both both-IsTarget 1 0 [] arrivals arrivals-FromSender

-- One byte of the head has been read: it is the partial chunk.
abbrev half_read : ReceiverIrob
half_read = record {
  id = 1;
  send_labels = 0;
  deps = [];
  dependents = [];
  chunks = tail_chunk ∷ [];
  anonymous = false;
  complete = true;
  placeholder = false;
  status = 0;
  ext = record fresh_receiving {
    offset = 1;
    partial_chunk = head_chunk;
    num_bytes = 2;
    expected_bytes = some 3;
    expected_chunks = some 2;
    recvd_bytes = 3;
    recvd_chunks = 2;
  };
}

half_read-IsReadable : IsReadable half_read
half_read-IsReadable = record {
  solid = (refl, tt);
  partial_len = refl;
  partial_left = λ there. ground arith;
  counted = refl;
}

remove_bytes_lem_example : Rests half_read 2 []
remove_bytes_lem_example = remove_bytes_lem half_read 2 half_read-IsReadable (ground arith)

read_each_lem_example : read_each half_read bytewise ≡ some (11 ∷ 12 ∷ [])
read_each_lem_example = read_each_lem half_read bytewise half_read-IsReadable bytewise-IsPositive
