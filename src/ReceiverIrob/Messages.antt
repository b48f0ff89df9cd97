-- ===== src/ReceiverIrob/Messages.antt =====
-- The messages for one IROB, in any order.
use libcmm.Prelude.{
  ℕ, ◌<◌, ◌≡◌, refl, ap, subst, ◌∙◌, ◌↔◌, inl, inr, Bool, true, false, ◌||◌, ◌&&◌, Option, some,
  List, [], ◌∷◌, arith, ltb, leb, ◌==◌, ◌>>=◌, length, Bool-cases, All,
}
use libcmm.Irob.{Chunk}
use libcmm.ReceiverIrob.{ReceiverIrob, new_receiver_irob, is_complete, add_chunk, finish, expect}
use libcmm.ReceiverIrob.Gather.{Gathering, Genuine, is_complete_lem, add_chunk_lem}
use libcmm.ReceiverIrob.Parts.{IsTarget, bytes, filled, holds, full_eq, filled_iff}

module _ (ts : List Chunk) (target : IsTarget 0 ts) where
  -- End_IROB with the sender's counts.
  finish_lem :
      (ended : Bool) (p : ReceiverIrob)
      → Gathering ts ended p
      → (q : ReceiverIrob) × (b : Bool) × (finish p (bytes ts) (length ts) ≡ some (q, b))
        × Gathering ts true q
        × (q.chunks ≡ p.chunks)
        × (q.placeholder ≡ p.placeholder)
  unfolding finish expect
  finish_lem true p g =
      let done = is_complete_lem ts target true p g in
      elim (Bool-cases (filled p.chunks == length ts)) [
        | inl full ↦ (p, false, ground arith, g, refl, refl)
        | inr open_ ↦ (
          record p { complete = true },
          false,
          ground arith,
          record {
            part = g.part;
            recvd_bytes = g.recvd_bytes;
            recvd_chunks = g.recvd_chunks;
            num_bytes = g.num_bytes;
            expected_bytes = g.expected_bytes;
            expected_chunks = g.expected_chunks;
            complete = refl;
            unread = g.unread;
          },
          refl,
          refl,
        )
      ]
  finish_lem false p g =
      let done = is_complete_lem ts target false p g in
      (
        record p {
          complete = true;
          ext = record (p.ext) {
            expected_bytes = some (bytes ts);
            expected_chunks = some (length ts);
          };
        },
        leb (length p.chunks) (length ts),
        ground arith,
        record {
          part = g.part;
          recvd_bytes = g.recvd_bytes;
          recvd_chunks = g.recvd_chunks;
          num_bytes = g.num_bytes;
          expected_bytes = refl;
          expected_chunks = refl;
          complete = refl;
          unread = g.unread;
        },
        refl,
        refl,
      )

-- What arrives for one IROB.
pub data Message : Type 0 where
  irob_chunk : Chunk → Message
  end_irob : ℕ → ℕ → Message

abbrev first_of_pair : ReceiverIrob × Bool → Option ReceiverIrob
first_of_pair r = some r.0

pub receive : ReceiverIrob → Message → Option ReceiverIrob
receive p (irob_chunk c) = add_chunk p c >>= first_of_pair
receive p (end_irob b n) = finish p b n >>= first_of_pair

pub receive_all : ReceiverIrob → List Message → Option ReceiverIrob
receive_all p [] = some p
receive_all p (m ∷ ms) = receive p m >>= λ q. receive_all q ms

abbrev pub has_chunk : List Message → ℕ → Bool
has_chunk [] j = false
has_chunk (irob_chunk c ∷ ms) j = (c.seqno == j) || has_chunk ms j
has_chunk (end_irob b n ∷ ms) j = has_chunk ms j

-- A chunk has come whose seqno is `j` or greater.
abbrev pub has_chunk_from : List Message → ℕ → Bool
has_chunk_from [] j = false
has_chunk_from (irob_chunk c ∷ ms) j = leb j c.seqno || has_chunk_from ms j
has_chunk_from (end_irob b n ∷ ms) j = has_chunk_from ms j

abbrev pub has_end : List Message → Bool
has_end [] = false
has_end (irob_chunk c ∷ ms) = has_end ms
has_end (end_irob b n ∷ ms) = true

module _ (ts : List Chunk) (target : IsTarget 0 ts) where
  -- The message is one of the sender's for this IROB.
  abbrev pub FromSender : Message → Type 0
  FromSender (irob_chunk c) = Genuine ts target c
  FromSender (end_irob b n) = (b ≡ bytes ts) × (n ≡ length ts)

  pub receive_all_lem :
      (ms : List Message) (ended : Bool) (p : ReceiverIrob)
      → Gathering ts ended p
      → All FromSender ms
      → (q : ReceiverIrob) × (receive_all p ms ≡ some q)
        × Gathering ts (ended || has_end ms) q
        × ((j : ℕ) → holds q.chunks j ≡ (holds p.chunks j || has_chunk ms j))
        × (q.placeholder ≡ p.placeholder)
        × ((j : ℕ) → ltb j (length q.chunks) ≡ (ltb j (length p.chunks) || has_chunk_from ms j))
  unfolding receive_all receive
  receive_all_lem [] ended p g h = (
    p,
    refl,
    subst (λ b. Gathering ts b p) (ground arith) g,
    (λ j. ground arith),
    refl,
    λ j. ground arith,
  )
  receive_all_lem (irob_chunk c ∷ ms) ended p g h =
      let (q, e, added) = add_chunk_lem ts target ended p c g h.0 in
      let (r, er, gr, held, same, reach) = receive_all_lem ms ended q added.gathering h.1 in
      (
        r,
        rw e er,
        gr,
        (λ j. ground (arith, held j, added.held j)),
        same ∙ added.same_placeholder,
        λ j. ground (arith, reach j, added.reach j),
      )
  receive_all_lem (end_irob b n ∷ ms) ended p g h =
      let (q, ret, e, gq, same_chunks, same_q) = finish_lem ts target ended p g in
      let (r, er, gr, held, same, reach) = receive_all_lem ms true q gq h.1 in
      (
        r,
        rw (h.0.0, h.0.1, e) er,
        subst (λ x. Gathering ts x r) (ground arith) gr,
        (λ j. held j ∙ ap (λ cs. holds cs j || has_chunk ms j) same_chunks),
        same ∙ same_q,
        λ j. reach j ∙ ap (λ cs. ltb j (length cs) || has_chunk_from ms j) same_chunks,
      )

  pub new-Gathering :
      (id labels : ℕ) (deps : List ℕ) → Gathering ts false (new_receiver_irob id deps labels)
  unfolding new_receiver_irob bytes filled
  new-Gathering id labels deps = record {
    part = tt;
    recvd_bytes = refl;
    recvd_chunks = refl;
    num_bytes = refl;
    expected_bytes = refl;
    expected_chunks = refl;
    complete = refl;
    unread = (refl, refl);
  }

  pub new-holds :
      (id labels : ℕ) (deps : List ℕ) (j : ℕ)
      → holds (new_receiver_irob id deps labels).chunks j ≡ false
  unfolding new_receiver_irob
  new-holds id labels deps j = refl

  pub new-length :
      (id labels : ℕ) (deps : List ℕ) → length (new_receiver_irob id deps labels).chunks ≡ 0
  unfolding new_receiver_irob
  new-length id labels deps = refl

  -- Whatever the order in which the chunks of an IROB and its End_IROB message reach a new IROB at the
  -- receiver, and however often each comes, no ASSERT fails. The IROB is complete exactly if
  -- End_IROB and every chunk have come, and then it holds the sender's chunks, in their order.
  pub gather_any_order :
      (id labels : ℕ) (deps : List ℕ) (ms : List Message)
      → All FromSender ms
      → (q : ReceiverIrob) × (b : Bool) × (receive_all (new_receiver_irob id deps labels) ms
          ≡ some q)
        × (is_complete q ≡ some b)
        × ((b ≡ true) ↔ ((has_end ms ≡ true) × ((j : ℕ) → j < length ts → has_chunk ms j ≡ true)))
        × (b ≡ true → q.chunks ≡ ts)
  gather_any_order id labels deps ms h =
      let (q, e, g, held, same, reach) =
        receive_all_lem ms false (new_receiver_irob id deps labels) (new-Gathering id labels deps)
          h in
      let none_yet = λ (j : ℕ). new-holds id labels deps j in
      (
        q,
        has_end ms && (filled q.chunks == length ts),
        e,
        is_complete_lem ts target (has_end ms) q g,
        (
          λ t. (
            ground arith,
            λ j lt.
                ground (
                  arith,
                  held j,
                  none_yet j,
                  (filled_iff q.chunks ts g.part).0 (ground arith) j lt,
                ),
          ),
          λ t.
              let full : filled q.chunks ≡ length ts =
                (filled_iff q.chunks ts g.part).1 (λ j lt. ground (arith, held j, t.1 j lt)) in
              ground (arith, t.0),
        ),
        λ t. full_eq q.chunks ts g.part (ground arith),
      )
