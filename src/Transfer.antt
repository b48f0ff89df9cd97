-- ===== src/Transfer.antt =====
-- An IROB on its way from the sender's application to the receiver's: what the sockets of the sender
-- are served (SenderIrob) arrives in any order and is read (ReceiverIrob).
mod Tests
use libcmm.Prelude.{
  ℕ, zero, suc, ◌+◌, ◌-◌, ◌≤◌, ◌<◌, ◌≡◌, refl, sym, ap, ◌∙◌, subst, ◌⊎◌, inl, inr, min, Bool, true,
  false, not, ◌||◌, ◌&&◌, Option, none, some, List, [], ◌∷◌, ◌++◌, arith, leb, ltb, ◌==◌, ==_iff,
  ==_refl, if◌then◌else◌, ◌>>=◌, length, get_or, take, drop, Bool-cases, take-append-drop,
  drop-drop, take-beyond, length-drop, All,
}
use libcmm.Irob.{Chunk, bytes_of}
use libcmm.Irob.Data.{Solid, data_of}
use libcmm.SenderIrob.{
  Socket, Sending, SenderIrob, sum_chunks, zero_chunk, all_bytes_chunked, expected_bytes,
  num_sender_chunks,
}
use libcmm.SenderIrob.Sends.{Ready, get_ready_bytes}
use libcmm.SenderIrob.Locate.{Consecutive, joined}
use libcmm.SenderIrob.Chunking.{Numbered, Chunked, length-data_of}
use libcmm.SenderIrob.Record.{seqno_at}
use libcmm.SenderIrob.Serve.{Sound, Handed}
use libcmm.SenderIrob.History.{Kept, asks-Kept, History-Kept}
use libcmm.SenderIrob.Grown.{History}
use libcmm.ReceiverIrob.{ReceiverIrob, new_receiver_irob, is_complete, empty_chunk}
use libcmm.ReceiverIrob.Parts.{IsTarget, bytes}
use libcmm.ReceiverIrob.Gather.{Genuine}
use libcmm.ReceiverIrob.Messages.{
  Message, irob_chunk, end_irob, receive_all, has_chunk, has_end, FromSender,
}
use libcmm.ReceiverIrob.Removing.{read_each, sum, IsPositive}
use libcmm.ReceiverIrob.Delivery.{deliver_any_order}
use libcmm.SenderIrob.Serving.{IsIn, Handed-of}

-- The chunk that goes over the network for what a socket was served.
abbrev pub wire_chunk : ℕ → Ready → Chunk
wire_chunk id r = record {
  id = id;
  seqno = r.seqno;
  offset = r.offset;
  datalen = r.bytes_requested;
  datas = some (joined r.iovecs);
}

abbrev cut_at : ℕ → List ℕ → Chunk → Chunk
cut_at id ds c = record {
  id = id;
  seqno = c.seqno;
  offset = c.offset;
  datalen = c.datalen;
  datas = some (take c.datalen (drop c.offset ds));
}

-- All chunks cut, with their data.
abbrev pub wire : ℕ → List ℕ → List Chunk → List Chunk
wire id ds [] = []
wire id ds (c ∷ cs) = cut_at id ds c ∷ wire id ds cs

wire-IsTarget :
    (id : ℕ) (ds : List ℕ) (i : ℕ) (cs : List Chunk) → Numbered i cs → IsTarget i (wire id ds cs)
wire-IsTarget id ds i [] n = tt
wire-IsTarget id ds i (c ∷ cs) n = (n.0, refl, wire-IsTarget id ds (i + 1) cs n.2)

length-take-exact : (n : ℕ) (xs : List ℕ) → n ≤ length xs → length (take n xs) ≡ n
length-take-exact zero xs le = refl
length-take-exact (suc n) [] le = absurd (omega arith)
length-take-exact (suc n) (x ∷ xs) le = ap suc (length-take-exact n xs (omega arith))

wire-Solid :
    (id : ℕ) (ds : List ℕ) (o : ℕ) (cs : List Chunk)
    → Consecutive o cs
    → o + sum_chunks cs ≤ length ds
    → Solid (wire id ds cs)
unfolding sum_chunks
wire-Solid id ds o [] h le = tt
wire-Solid id ds o (c ∷ cs) h le = (
  sym (
      length-take-exact c.datalen (drop c.offset ds)
        (ground (arith, h.0, length-drop c.offset ds))),
  wire-Solid id ds (o + c.datalen) cs h.1 (omega arith),
)

data_of-wire :
    (id : ℕ) (ds : List ℕ) (o : ℕ) (cs : List Chunk)
    → Consecutive o cs
    → data_of (wire id ds cs) ≡ take (sum_chunks cs) (drop o ds)
unfolding sum_chunks
data_of-wire id ds o [] h = refl
data_of-wire id ds o (c ∷ cs) h =
    ap (λ xs. take c.datalen (drop c.offset ds) ++ xs) (data_of-wire id ds (o + c.datalen) cs h.1)
    ∙ ap (λ k. take c.datalen (drop k ds) ++ take (sum_chunks cs) (drop (o + c.datalen) ds)) h.0
    ∙ ap (λ xs. take c.datalen (drop o ds) ++ take (sum_chunks cs) xs)
        (sym (drop-drop o c.datalen ds))
    ∙ take-append-drop c.datalen (sum_chunks cs) (drop o ds)

length-wire : (id : ℕ) (ds : List ℕ) (cs : List Chunk) → length (wire id ds cs) ≡ length cs
length-wire id ds [] = refl
length-wire id ds (c ∷ cs) = ap suc (length-wire id ds cs)

bytes-wire : (id : ℕ) (ds : List ℕ) (cs : List Chunk) → bytes (wire id ds cs) ≡ sum_chunks cs
unfolding bytes sum_chunks
bytes-wire id ds [] = refl
bytes-wire id ds (c ∷ cs) = ap (λ n. c.datalen + n) (bytes-wire id ds cs)

get_or-wire :
    (id : ℕ) (ds : List ℕ) (cs : List Chunk) (k : ℕ)
    → k < length cs
    → get_or (wire id ds cs) k empty_chunk ≡ cut_at id ds (get_or cs k zero_chunk)
get_or-wire id ds [] k lt = absurd (omega arith)
get_or-wire id ds (c ∷ cs) zero lt = refl
get_or-wire id ds (c ∷ cs) (suc k) lt = get_or-wire id ds cs k (omega arith)

-- A message of the sender: a chunk that some socket was served, or the end with the sender's counts.
abbrev pub FromServed : SenderIrob → List Ready → Message → Type 0
FromServed p rs (irob_chunk c) =
    (r : Ready) × IsIn r rs × (0 < r.bytes_requested) × (c ≡ wire_chunk p.id r)
FromServed p rs (end_irob b n) = (b ≡ expected_bytes p) × (n ≡ num_sender_chunks p)

module _ {p : SenderIrob} {rs : List Ready} (k : Kept p rs) where
  abbrev target_of : List Chunk
  target_of = wire p.id (data_of p.chunks) p.ext.sent_chunks

  target-IsTarget : IsTarget 0 target_of
  target-IsTarget =
      wire-IsTarget p.id (data_of p.chunks) 0 p.ext.sent_chunks k.sound.chunked.numbered

  served-Genuine :
      (r : Ready)
      → IsIn r rs
      → 0 < r.bytes_requested
      → Genuine target_of target-IsTarget (wire_chunk p.id r)
  served-Genuine r i lt =
      let h = Handed-of p rs r k.handed i in
      let (a, b, c) = h.recorded lt in
      let own = seqno_at 0 r.seqno p.ext.sent_chunks k.sound.chunked.numbered a in
      let same : (get_or p.ext.sent_chunks r.seqno zero_chunk).seqno ≡ r.seqno =
        omega (arith, own) in
      record {
        within = omega (arith, a, length-wire p.id (data_of p.chunks) p.ext.sent_chunks);
        known = sym (
            get_or-wire p.id (data_of p.chunks) p.ext.sent_chunks r.seqno a
            ∙ ground (arith, same, b, c, h.bytes));
      }

  served-FromSender :
      all_bytes_chunked p ≡ true
      → (ms : List Message) → All (FromServed p rs) ms
      → All (FromSender target_of target-IsTarget) ms
  served-FromSender all [] h = tt
  served-FromSender all (irob_chunk c ∷ ms) h =
      let (r, i, lt, e) = h.0 in
      (
        subst (Genuine target_of target-IsTarget) (sym e) (served-Genuine r i lt),
        served-FromSender all ms h.1,
      )
  served-FromSender all (end_irob b n ∷ ms) h = (
    (
      ground (arith, h.0, bytes-wire p.id (data_of p.chunks) p.ext.sent_chunks),
      ground (arith, h.0, length-wire p.id (data_of p.chunks) p.ext.sent_chunks),
    ),
    served-FromSender all ms h.1,
  )

-- Let an IROB be cut up entirely, in any history of its sender: any sockets, any requests, chunks sent
-- again. When every chunk cut and the End_IROB message have come to a new IROB at the receiver, in
-- any order and with repetitions, the receiver's IROB is complete, and reads of any positive lengths return
-- the application's bytes in their order, with no failed ASSERT on the way.
pub transfer_outcome :
    {p : SenderIrob} {rs : List Ready}
    → History p rs
    → all_bytes_chunked p ≡ true
    → (labels : ℕ) (deps : List ℕ) (ms : List Message) (lens : List ℕ) → All (FromServed p rs) ms
    → has_end ms ≡ true
    → ((j : ℕ) → j < num_sender_chunks p → has_chunk ms j ≡ true)
    → All IsPositive lens
    → (q : ReceiverIrob) × (receive_all (new_receiver_irob p.id deps labels) ms ≡ some q)
      × (is_complete q ≡ some true)
      × (read_each q lens ≡ some (take (sum lens) (data_of p.chunks)))
transfer_outcome {p} {rs} h all labels deps ms lens from ended arrived pos =
    let k = History-Kept h in
    let c = k.sound.chunked in
    let ds = data_of p.chunks in
    let same_sum : sum_chunks p.ext.sent_chunks ≡ sum_chunks p.chunks = ground arith in
    let whole : data_of (target_of k) ≡ ds =
      data_of-wire p.id ds 0 p.ext.sent_chunks c.sent
      ∙ take-beyond (sum_chunks p.ext.sent_chunks) ds
          (omega (arith, length-data_of p.chunks c.solid, same_sum)) in
    let (q, e, done, read) =
      deliver_any_order (target_of k) (target-IsTarget k)
        (wire-Solid p.id ds 0 p.ext.sent_chunks c.sent
          (omega (arith, length-data_of p.chunks c.solid, same_sum)))
        p.id labels deps ms lens (served-FromSender k all ms from) ended
        (λ j lt. arrived j (omega (arith, lt, length-wire p.id ds p.ext.sent_chunks))) pos in
    (q, e, done, read ∙ ap (λ xs. some (take (sum lens) xs)) whole)
