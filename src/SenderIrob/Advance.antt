-- ===== src/SenderIrob/Advance.antt =====
-- A chunk that was cut is recorded, and the socket moves on behind it.
use libcmm.Prelude.{
  ℕ, suc, ◌+◌, ◌≤◌, ◌<◌, ◌≡◌, refl, sym, ap, ◌∙◌, inl, inr, none, some, List, [], ◌∷◌, arith, ltb,
  ◌==◌, ==_iff, length, get_or, take, drop, Bool-cases, length-append, take-beyond,
}
use libcmm.Irob.{Chunk}
use libcmm.Irob.Data.{data_of}
use libcmm.SenderIrob.{
  Socket, same_socket, SenderIrob, sum_chunks, zero_chunk, null_index_if_single_sending,
  get_irob_offset, get_next_seqno_to_send, increment_seqno, increment_irob_offset,
}
use libcmm.SenderIrob.Sends.{add_sent_chunk, Ready, get_new_bytes}
use libcmm.SenderIrob.Locate.{Consecutive, joined}
use libcmm.SenderIrob.Chunking.{Numbered, Chunked, sent_at, Got, get_bytes_lem}
use libcmm.SenderIrob.Record.{
  with_last, Consecutive-with_last, Numbered-with_last, sum-with_last, last-with_last,
  take-with_last, Extends, Extends-refl, get_or-with_last, Advanced, seqno_at,
}

-- The state with the socket moved on, and `sent` as the chunks cut.
moved : SenderIrob → Socket → ℕ → List Chunk → SenderIrob
unfolding increment_seqno increment_irob_offset
moved p csock len sent =
    let q = increment_irob_offset (increment_seqno p csock) csock len in
    record q { ext = record (q.ext) { sent_chunks = sent } }

moved-Chunked :
    (p : SenderIrob) (csock : Socket) (len : ℕ) (sent : List Chunk)
    → let key = null_index_if_single_sending p csock in
      let k = p.ext.next_seqnos_to_send key in
      Chunked p
      → Consecutive 0 sent
      → Numbered 0 sent
      → sum_chunks sent ≤ sum_chunks p.chunks
      → ((s : Socket) → p.ext.next_seqnos_to_send s ≤ length sent)
      → ((n : ℕ) → n ≤ length p.ext.sent_chunks → take n sent ≡ take n p.ext.sent_chunks)
      → k < length sent
      → (get_or sent k zero_chunk).datalen ≡ len
      → Chunked (moved p csock len sent)
unfolding moved
moved-Chunked p csock len sent h cons numb within reach same lt l =
    let key = null_index_if_single_sending p csock in
    let k = p.ext.next_seqnos_to_send key in
    let s_at = sent_at 0 0 k sent cons numb lt in
    record {
      app = h.app;
      solid = h.solid;
      sent = cons;
      numbered = numb;
      within = within;
      reached = λ s. elim (Bool-cases (same_socket key s)) [
        | inl is ↦ rw is (omega arith)
        | inr other ↦ rw other (reach s)
      ];
      offsets = λ s. elim (Bool-cases (same_socket key s)) [
        | inl is ↦
            let before : p.ext.irob_offsets key ≡ sum_chunks (take k sent) =
              h.offsets key ∙ ap sum_chunks (sym (same k (h.reached key))) in
            let plus_one : suc k ≡ k + 1 = omega arith in
            rw is (ground (arith, before, s_at, l) ∙ ap (λ n. sum_chunks (take n sent)) plus_one)
        | inr other ↦
            rw other
              (h.offsets s ∙ ap sum_chunks (sym (same (p.ext.next_seqnos_to_send s) (h.reached s))))
      ];
    }

module _ (p : SenderIrob) (csock : Socket) (h : Chunked p) where
  abbrev key : Socket
  key = null_index_if_single_sending p csock

  abbrev k_of : ℕ
  k_of = p.ext.next_seqnos_to_send key

  abbrev sent_of : List Chunk
  sent_of = p.ext.sent_chunks

  add_old :
      (len : ℕ)
      → k_of < length sent_of
      → (get_or sent_of k_of zero_chunk).datalen ≡ len
      → (q : SenderIrob) × (add_sent_chunk p csock len ≡ some q)
        × Advanced p k_of (p.ext.irob_offsets key) len q
  unfolding add_sent_chunk moved
  add_old len lt l =
      let s = sent_at 0 0 k_of sent_of h.sent h.numbered lt in
      let off = h.offsets key in
      let c =
        moved-Chunked p csock len sent_of h h.sent h.numbered h.within h.reached (λ n le. refl) lt
          l in
      (
        moved p csock len sent_of,
        ground (
          arith,
          s,
          off,
          ==_iff k_of (length sent_of),
          ==_iff (get_or sent_of k_of zero_chunk).offset (p.ext.irob_offsets key),
          ==_iff (get_or sent_of k_of zero_chunk).datalen len,
        ),
        record {
          chunked = c;
          same_app = refl;
          same_resends = refl;
          same_bytes = refl;
          extends = record { longer = omega arith; kept = λ j lt'. refl };
          recorded = lt;
          seqno = ground (arith, seqno_at 0 k_of sent_of h.numbered lt);
          offset = ground (arith, s, off);
          datalen = l;
        },
      )

  add_new :
      (len : ℕ)
      → k_of ≡ length sent_of
      → 0 < len
      → p.ext.irob_offsets key + len ≤ sum_chunks p.chunks
      → (q : SenderIrob) × (add_sent_chunk p csock len ≡ some q)
        × Advanced p k_of (p.ext.irob_offsets key) len q
  unfolding add_sent_chunk moved
  add_new len eq pos fits =
      let chunk : Chunk = record {
        id = p.id;
        seqno = k_of;
        offset = p.ext.irob_offsets key;
        datalen = len;
        datas = none;
      } in
      let sent' = with_last sent_of chunk in
      let all : sum_chunks (take k_of sent_of) ≡ sum_chunks sent_of =
        ap sum_chunks (take-beyond k_of sent_of (omega arith)) in
      let off : p.ext.irob_offsets key ≡ sum_chunks sent_of = h.offsets key ∙ all in
      let longer : length sent' ≡ length sent_of + 1 =
        ground (arith, length-append sent_of (chunk ∷ [])) in
      let last : get_or sent' k_of zero_chunk ≡ chunk =
        ap (λ n. get_or sent' n zero_chunk) eq ∙ last-with_last sent_of chunk in
      let c =
        moved-Chunked p csock len sent' h
          (Consecutive-with_last 0 sent_of chunk h.sent (ground (arith, off)))
          (Numbered-with_last 0 sent_of chunk h.numbered (ground arith) pos)
          (ground (arith, sum-with_last sent_of chunk, off))
          (λ s. omega (arith, h.reached s, longer)) (λ n le. take-with_last n sent_of chunk le)
          (omega arith) (ap (λ (x : Chunk). x.datalen) last) in
      (
        moved p csock len sent',
        ground (arith, ==_iff k_of (length sent_of)),
        record {
          chunked = c;
          same_app = refl;
          same_resends = refl;
          same_bytes = refl;
          extends = record {
            longer = omega arith;
            kept = λ j lt. get_or-with_last sent_of chunk j lt;
          };
          recorded = omega arith;
          seqno = ap (λ (x : Chunk). x.seqno) last;
          offset = ap (λ (x : Chunk). x.offset) last;
          datalen = ap (λ (x : Chunk). x.datalen) last;
        },
      )

  -- A chunk of some bytes is recorded, whether it was cut before or is new.
  advance :
      (requested : ℕ)
      → (g : Got p k_of (p.ext.irob_offsets key) requested) → 0 < g.result.1
      → (q : SenderIrob) × (add_sent_chunk p csock g.result.1 ≡ some q)
        × Advanced p k_of (p.ext.irob_offsets key) g.result.1 q
  advance requested g pos = elim (Bool-cases (ltb k_of (length sent_of))) [
    | inl old ↦ add_old g.result.1 (ground arith) (sym (g.again (ground arith)))
    | inr fresh ↦
        let eq : k_of ≡ length sent_of = ground (arith, h.reached key) in
        add_new g.result.1 eq pos (ground (arith, g.new eq))
  ]

  done :
      (requested : ℕ)
      → (g : Got p k_of (p.ext.irob_offsets key) requested) → g.result.1 ≡ 0
      → (p.ext.irob_offsets key < sum_chunks p.chunks → 0 < requested)
      → p.ext.irob_offsets key ≡ sum_chunks p.chunks
  done requested g z pos = elim (Bool-cases (ltb k_of (length sent_of))) [
    | inl old ↦
        let s = sent_at 0 0 k_of sent_of h.sent h.numbered (ground arith) in
        absurd (ground (arith, g.again (ground arith), s))
    | inr fresh ↦
        let eq : k_of ≡ length sent_of = ground (arith, h.reached key) in
        let all : sum_chunks (take k_of sent_of) ≡ sum_chunks sent_of =
          ap sum_chunks (take-beyond k_of sent_of (omega arith)) in
        ground (arith, g.new eq, h.offsets key, all, h.within)
  ]

  -- What a socket gets is the next bytes of the application, as one chunk that has its place for good.
  pub record Cut (r : Ready) : Type 0 where
    pub bytes : joined r.iovecs ≡ take r.bytes_requested (drop r.offset (data_of p.chunks))
    pub seqno : r.seqno ≡ k_of
    pub offset : r.offset ≡ get_irob_offset p csock
    pub chunked : Chunked r.next
    pub same_app : r.next.chunks ≡ p.chunks
    pub same_resends : r.next.ext.resend_chunks ≡ p.ext.resend_chunks
    pub same_bytes : r.next.ext.num_bytes ≡ p.ext.num_bytes
    pub extends : Extends p r.next
    pub recorded :
        0 < r.bytes_requested
        → (r.seqno < length r.next.ext.sent_chunks)
          × ((get_or r.next.ext.sent_chunks r.seqno zero_chunk).seqno ≡ r.seqno)
          × ((get_or r.next.ext.sent_chunks r.seqno zero_chunk).offset ≡ r.offset)
          × ((get_or r.next.ext.sent_chunks r.seqno zero_chunk).datalen ≡ r.bytes_requested)
    pub finished : r.bytes_requested ≡ 0 → r.offset ≡ sum_chunks p.chunks

  pub get_new_bytes_lem :
      (requested : ℕ)
      → (p.ext.irob_offsets key < sum_chunks p.chunks → 0 < requested)
      → (r : Ready) × (get_new_bytes p csock requested ≡ some r) × Cut r
  unfolding get_new_bytes get_next_seqno_to_send
  get_new_bytes_lem requested pos =
      let x = p.ext.irob_offsets key in
      let g = get_bytes_lem p k_of x requested h (h.reached key) (h.offsets key) in
      elim (Bool-cases (g.result.1 == 0)) [
        | inl nothing ↦ (
          record { iovecs = g.result.0; bytes_requested = 0; seqno = k_of; offset = x; next = p },
          ground (arith, h.reached key, g.gets),
          record {
            bytes = ground (arith, g.bytes);
            seqno = refl;
            offset = refl;
            chunked = h;
            same_app = refl;
            same_resends = refl;
            same_bytes = refl;
            extends = Extends-refl p;
            recorded = λ lt. absurd (omega arith);
            finished = λ z. done requested g (ground arith) pos;
          },
        )
        | inr some_bytes ↦
            let (q, e, a) = advance requested g (ground arith) in
            (
              record {
                iovecs = g.result.0;
                bytes_requested = g.result.1;
                seqno = k_of;
                offset = x;
                next = q;
              },
              ground (arith, h.reached key, g.gets, e),
              record {
                bytes = g.bytes;
                seqno = refl;
                offset = refl;
                chunked = a.chunked;
                same_app = a.same_app;
                same_resends = a.same_resends;
                same_bytes = a.same_bytes;
                extends = a.extends;
                recorded = λ lt. (a.recorded, a.seqno, a.offset, a.datalen);
                finished = λ z. absurd (ground arith);
              },
            )
      ]
