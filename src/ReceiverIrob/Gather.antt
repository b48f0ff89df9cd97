-- ===== src/ReceiverIrob/Gather.antt =====
-- A real IROB that receives its chunks and its End_IROB message in any order, with repetitions.
use libcmm.Prelude.{
  ℕ, ◌<◌, ◌≡◌, refl, sym, ap, ◌∙◌, inl, inr, Bool, true, false, not, ◌||◌, ◌&&◌, none, some, List,
  arith, ltb, leb, ◌==◌, ==_iff, length-set, if◌then◌else◌, length, get_or, is_some, get_or-set,
  Bool-cases,
}
use libcmm.Irob.{Chunk}
use libcmm.ReceiverIrob.{
  ReceiverIrob, empty_chunk, is_complete, all_chunks_complete, add_chunk, accept_chunk, reach_seqno,
  beyond,
}
use libcmm.ReceiverIrob.Parts.{
  IsTarget, Partial, bytes, filled, holds, bytes-le, length-le, filled-le, full_eq, complete-target,
  filled_iff, Reached, reach_seqno-Reached, slot_cases, fill_hole, target_at,
}

-- The state that chunks of `ts` lead to; `ended` says whether End_IROB has come.
pub record Gathering (ts : List Chunk) (ended : Bool) (p : ReceiverIrob) : Type 0 where
  pub part : Partial p.chunks ts
  pub recvd_bytes : p.ext.recvd_bytes ≡ bytes p.chunks
  pub recvd_chunks : p.ext.recvd_chunks ≡ filled p.chunks
  pub num_bytes : p.ext.num_bytes ≡ p.ext.recvd_bytes
  pub expected_bytes : p.ext.expected_bytes ≡ (if ended then some (bytes ts) else none)
  pub expected_chunks : p.ext.expected_chunks ≡ (if ended then some (length ts) else none)
  pub complete : p.complete ≡ ended
  pub unread : (p.ext.offset ≡ 0) × (p.ext.partial_chunk ≡ empty_chunk)

module _ (ts : List Chunk) (target : IsTarget 0 ts) where
  -- `is_complete` meets no failed ASSERT, and tells whether all is there.
  pub is_complete_lem :
      (ended : Bool) (p : ReceiverIrob)
      → Gathering ts ended p
      → is_complete p ≡ some (ended && (filled p.chunks == length ts))
  unfolding is_complete
  is_complete_lem false p g = ground arith
  is_complete_lem true p g = elim (Bool-cases (filled p.chunks == length ts)) [
    | inl full ↦
        let cs_ts : p.chunks ≡ ts = full_eq p.chunks ts g.part (ground arith) in
        let all_bytes : bytes p.chunks ≡ bytes ts = ap bytes cs_ts in
        let all_there : all_chunks_complete p.chunks ≡ true =
          ap all_chunks_complete cs_ts ∙ complete-target 0 ts target in
        ground arith
    | inr short ↦
        ground
          (arith, bytes-le p.chunks ts g.part, length-le p.chunks ts g.part, filled-le p.chunks)
  ]

  -- The state after a chunk: the same IROB with the seqno filled.
  pub record Added (ended : Bool) (p : ReceiverIrob) (k : ℕ) (q : ReceiverIrob) : Type 0 where
    pub gathering : Gathering ts ended q
    pub held : (j : ℕ) → holds q.chunks j ≡ ((k == j) || holds p.chunks j)
    pub reach : (j : ℕ) → ltb j (length q.chunks) ≡ (leb j k || ltb j (length p.chunks))
    pub same_placeholder : q.placeholder ≡ p.placeholder

  -- A chunk that the sender made.
  pub record Genuine (c : Chunk) : Type 0 where
    pub within : c.seqno < length ts
    pub known : c ≡ get_or ts c.seqno empty_chunk

  Genuine-there : (c : Chunk) → Genuine c → is_some c.datas ≡ true
  Genuine-there c h = rw h.known (target_at 0 ts c.seqno target h.within).1

  accept_old :
      (ended : Bool) (p : ReceiverIrob) (c : Chunk) (ds : List Chunk)
      → Gathering ts ended p
      → Genuine c
      → Reached p.chunks ts c.seqno ds
      → get_or ds c.seqno empty_chunk ≡ c
      → Added ended p c.seqno (accept_chunk p ds c).0 × ((accept_chunk p ds c).1 ≡ true)
  unfolding accept_chunk
  accept_old ended p c ds g h r old =
      let there = Genuine-there c h in
      let full : is_some (get_or ds c.seqno empty_chunk).datas ≡ true = rw old there in
      let same : ((c.offset == (get_or ds c.seqno empty_chunk).offset)
            && (c.datalen == (get_or ds c.seqno empty_chunk).datalen))
          ≡ true =
        rw old (ground arith) in
      (
        record {
          gathering = record {
            part = rw full r.part;
            recvd_bytes = rw full (g.recvd_bytes ∙ sym r.same_bytes);
            recvd_chunks = rw full (g.recvd_chunks ∙ sym r.same_filled);
            num_bytes = rw full g.num_bytes;
            expected_bytes = rw full g.expected_bytes;
            expected_chunks = rw full g.expected_chunks;
            complete = rw full g.complete;
            unread = rw full g.unread;
          };
          held = λ j. rw full (ground (arith, r.same_slot j, ==_iff c.seqno j));
          reach = λ j. rw full (r.reach j);
          same_placeholder = rw full;
        },
        rw (full, same),
      )

  accept_new :
      (ended : Bool) (p : ReceiverIrob) (c : Chunk) (ds : List Chunk)
      → Gathering ts ended p
      → Genuine c
      → Reached p.chunks ts c.seqno ds
      → get_or ds c.seqno empty_chunk ≡ empty_chunk
      → Added ended p c.seqno (accept_chunk p ds c).0 × ((accept_chunk p ds c).1 ≡ true)
  unfolding accept_chunk
  accept_new ended p c ds g h r hole =
      let there = Genuine-there c h in
      let free : is_some (get_or ds c.seqno empty_chunk).datas ≡ false = rw hole refl in
      let fills = fill_hole ds ts c.seqno r.part r.long hole (rw (← h.known) there) in
      let filling = rw (← h.known) at fills in
      (
        record {
          gathering = record {
            part = rw free filling.0;
            recvd_bytes = rw free (ground (arith, filling.1, g.recvd_bytes, r.same_bytes));
            recvd_chunks = rw free (ground (arith, filling.2, g.recvd_chunks, r.same_filled));
            num_bytes = rw free (ground (arith, g.num_bytes));
            expected_bytes = rw free g.expected_bytes;
            expected_chunks = rw free g.expected_chunks;
            complete = rw free g.complete;
            unread = rw free g.unread;
          };
          held = λ j. rw free (
              ground (
                arith,
                r.same_slot j,
                get_or-set ds c.seqno j c empty_chunk r.long,
                ==_iff c.seqno j,
              ));
          reach = λ j. rw free (ground (arith, r.reach j, length-set ds c.seqno c));
          same_placeholder = rw free;
        },
        rw free,
      )

  accept-Genuine :
      (ended : Bool) (p : ReceiverIrob) (c : Chunk)
      → Gathering ts ended p
      → Genuine c
      → Added ended p c.seqno (accept_chunk p (reach_seqno p.chunks c.seqno) c).0
        × ((accept_chunk p (reach_seqno p.chunks c.seqno) c).1 ≡ true)
  accept-Genuine ended p c g h =
      let r = reach_seqno-Reached p.chunks ts c.seqno g.part h.within in
      elim (slot_cases (reach_seqno p.chunks c.seqno) ts c.seqno r.part r.long) [
        | inl old ↦ accept_old ended p c (reach_seqno p.chunks c.seqno) g h r (old ∙ sym h.known)
        | inr hole ↦ accept_new ended p c (reach_seqno p.chunks c.seqno) g h r hole
      ]

  within_expected :
      (ended : Bool) (p : ReceiverIrob) (k : ℕ)
      → Gathering ts ended p
      → k < length ts
      → beyond k p.ext.expected_chunks ≡ false
  within_expected ended p k g lt = ground arith

  -- `add_chunk` of a chunk that the sender made meets no failed ASSERT. It returns true unless the
  -- IROB is complete, and afterwards the seqno is there and no other has come or gone.
  pub add_chunk_lem :
      (ended : Bool) (p : ReceiverIrob) (c : Chunk)
      → Gathering ts ended p
      → Genuine c
      → (q : ReceiverIrob) × (add_chunk p c
          ≡ some (q, not (ended && (filled p.chunks == length ts))))
        × Added ended p c.seqno q
  unfolding add_chunk
  add_chunk_lem ended p c g h =
      let done = is_complete_lem ended p g in
      elim (Bool-cases (ended && (filled p.chunks == length ts))) [
        | inl full ↦
            let all_held = (filled_iff p.chunks ts g.part).0 (ground arith) c.seqno h.within in
            (
              p,
              rw (done, full, add_chunk) refl,
              record {
                gathering = g;
                held = λ j. ground (arith, ==_iff c.seqno j);
                reach = λ j.
                    let same =
                      ap (λ (cs : List Chunk). length cs)
                        (full_eq p.chunks ts g.part (ground arith)) in
                    let below = h.within in ground arith;
                same_placeholder = refl;
              },
            )
        | inr open_ ↦
            let (added, ret) = accept-Genuine ended p c g h in
            (
              (accept_chunk p (reach_seqno p.chunks c.seqno) c).0,
              ground (arith, within_expected ended p c.seqno g h.within),
              added,
            )
      ]
