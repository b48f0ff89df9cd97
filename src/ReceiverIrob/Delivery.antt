-- ===== src/ReceiverIrob/Delivery.antt =====
-- From the chunks of one IROB, in whatever order they come, to the bytes that the receiver reads.
use libcmm.Prelude.{
  ℕ, ◌<◌, ◌≡◌, refl, sym, ap, ◌∙◌, true, false, some, List, [], ◌∷◌, arith, length, take, All,
  length-append,
}
use libcmm.Irob.{Chunk, bytes_of}
use libcmm.ReceiverIrob.{ReceiverIrob, new_receiver_irob, is_complete}
use libcmm.ReceiverIrob.Parts.{IsTarget, bytes, filled, full_eq, filled_iff}
use libcmm.ReceiverIrob.Gather.{Gathering, is_complete_lem}
use libcmm.ReceiverIrob.Messages.{
  Message, receive_all, has_chunk, has_end, FromSender, receive_all_lem, new-Gathering,
}
use libcmm.Irob.Data.{Solid, data_of}
use libcmm.ReceiverIrob.Reading.{contents, IsReadable}
use libcmm.ReceiverIrob.Removing.{read_each, sum, IsPositive, read_each_lem}

bytes_lem : (cs : List Chunk) → Solid cs → bytes cs ≡ length (data_of cs)
unfolding bytes
bytes_lem [] h = refl
bytes_lem (c ∷ cs) h = ground (arith, h, bytes_lem cs h.1, length-append (bytes_of c) (data_of cs))

module _ (ts : List Chunk) (target : IsTarget 0 ts) (solid : Solid ts) where
  gathered-contents :
      (q : ReceiverIrob) → Gathering ts true q → q.chunks ≡ ts → contents q ≡ data_of ts
  gathered-contents q g e = rw (g.unread.0, g.unread.1, e) refl

  gathered-IsReadable : (q : ReceiverIrob) → Gathering ts true q → q.chunks ≡ ts → IsReadable q
  gathered-IsReadable q g e = record {
    solid = rw e solid;
    partial_len = rw (g.unread.1) refl;
    partial_left = rw (g.unread.1) (ground arith);
    counted =
        g.num_bytes
        ∙ g.recvd_bytes
        ∙ ap bytes e
        ∙ bytes_lem ts solid
        ∙ ap (λ xs. length xs) (sym (gathered-contents q g e));
  }

  -- When every chunk of an IROB and its End_IROB message have come to a new IROB at the receiver, in
  -- any order and with repetitions, the IROB is complete, and a reader that takes its bytes in calls of any positive
  -- lengths gets the sender's bytes in their order, with no failed ASSERT on the way.
  pub deliver_any_order :
      (id labels : ℕ) (deps : List ℕ) (ms : List Message) (lens : List ℕ)
      → All (FromSender ts target) ms
      → has_end ms ≡ true
      → ((j : ℕ) → j < length ts → has_chunk ms j ≡ true)
      → All IsPositive lens
      → (q : ReceiverIrob) × (receive_all (new_receiver_irob id deps labels) ms ≡ some q)
        × (is_complete q ≡ some true)
        × (read_each q lens ≡ some (take (sum lens) (data_of ts)))
  deliver_any_order id labels deps ms lens h ended all pos =
      let p = new_receiver_irob id deps labels in
      let (q, e, g0, held, same, reach) =
        receive_all_lem ts target ms false p (new-Gathering ts target id labels deps) h in
      let g : Gathering ts true q = rw ended at g0 in
      let full : filled q.chunks ≡ length ts =
        (filled_iff q.chunks ts g.part).1 (λ j lt. ground (arith, held j, all j lt)) in
      let c = full_eq q.chunks ts g.part full in
      (
        q,
        e,
        is_complete_lem ts target true q g ∙ ground (arith, full),
        read_each_lem q lens (gathered-IsReadable q g c) pos
            ∙ ap (λ xs. some (take (sum lens) xs)) (gathered-contents q g c),
      )
