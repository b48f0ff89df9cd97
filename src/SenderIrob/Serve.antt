-- ===== src/SenderIrob/Serve.antt =====
-- All that `get_ready_bytes` hands out, new chunks and chunks sent again.
use libcmm.Prelude.{
  ℕ, zero, suc, ◌+◌, ◌-◌, ◌≤◌, ◌<◌, ◌≡◌, refl, sym, ◌∙◌, subst, ◌⊎◌, inl, inr, some, List, [], ◌∷◌,
  arith, ◌==◌, ==_refl, if◌then◌else◌, length, get_or, take, drop, Bool-cases, All,
}
use libcmm.Irob.{Chunk}
use libcmm.Irob.Data.{data_of}
use libcmm.SenderIrob.{
  Socket, SenderIrob, sum_chunks, zero_chunk, null_index_if_single_sending, get_irob_offset,
}
use libcmm.SenderIrob.Sends.{Ready, get_new_bytes, get_resend_bytes, get_ready_bytes}
use libcmm.SenderIrob.Locate.{joined}
use libcmm.SenderIrob.Chunking.{Chunked, sent_at, get_bytes_lem}
use libcmm.SenderIrob.Advance.{get_new_bytes_lem}
use libcmm.SenderIrob.Record.{Extends}

-- A chunk that was cut.
abbrev pub IsCut : List Chunk → Chunk → Type 0
IsCut sent c = (c.seqno < length sent) × (get_or sent c.seqno zero_chunk ≡ c)

pub record Sound (p : SenderIrob) : Type 0 where
  pub chunked : Chunked p
  pub counted : p.ext.num_bytes ≡ sum_chunks p.chunks
  pub resends : All (IsCut p.ext.sent_chunks) p.ext.resend_chunks

-- What was handed out is a chunk that was cut, with the application's bytes of its place.
pub record Handed (p : SenderIrob) (r : Ready) : Type 0 where
  pub bytes : joined r.iovecs ≡ take r.bytes_requested (drop r.offset (data_of p.chunks))
  pub within : r.offset + r.bytes_requested ≤ sum_chunks p.chunks
  pub recorded :
      0 < r.bytes_requested
      → (r.seqno < length p.ext.sent_chunks)
        × ((get_or p.ext.sent_chunks r.seqno zero_chunk).offset ≡ r.offset)
        × ((get_or p.ext.sent_chunks r.seqno zero_chunk).datalen ≡ r.bytes_requested)

resend_lem :
    (p : SenderIrob) (c : Chunk) (others : List Chunk)
    → Sound p
    → p.ext.resend_chunks ≡ c ∷ others
    → (r : Ready) × (get_resend_bytes p c others ≡ some r)
      × Sound r.next
      × Handed r.next r
      × Extends p r.next
      × (r.next.chunks ≡ p.chunks)
unfolding get_resend_bytes
resend_lem p c others s e =
    let q : SenderIrob = record p { ext = record (p.ext) { resend_chunks = others } } in
    let h : Chunked q = record {
      app = s.chunked.app;
      solid = s.chunked.solid;
      sent = s.chunked.sent;
      numbered = s.chunked.numbered;
      within = s.chunked.within;
      reached = s.chunked.reached;
      offsets = s.chunked.offsets;
    } in
    let cuts : IsCut p.ext.sent_chunks c × All (IsCut p.ext.sent_chunks) others =
      subst (All (IsCut p.ext.sent_chunks)) e s.resends in
    let at = sent_at 0 0 c.seqno p.ext.sent_chunks h.sent h.numbered cuts.0.0 in
    let g =
      get_bytes_lem q c.seqno c.offset c.datalen h (ground (arith, cuts))
        (ground (arith, cuts, at)) in
    let count : g.result.1 ≡ c.datalen = ground (arith, g.again, cuts) in
    (
      record {
        iovecs = g.result.0;
        bytes_requested = g.result.1;
        seqno = c.seqno;
        offset = c.offset;
        next = q;
      },
      ground (arith, g.gets, count, ==_refl c.datalen),
      record { chunked = h; counted = s.counted; resends = cuts.1 },
      record {
        bytes = g.bytes;
        within = ground (arith, count, at, cuts, s.chunked.within);
        recorded = λ lt. (cuts.0.0, ground (arith, cuts), ground (arith, cuts, count));
      },
      record { longer = omega arith; kept = λ j lt. refl },
      refl,
    )

sum-take-le : (k : ℕ) (cs : List Chunk) → sum_chunks (take k cs) ≤ sum_chunks cs
unfolding sum_chunks
sum-take-le zero cs = ground arith
sum-take-le (suc k) [] = ground arith
sum-take-le (suc k) (c ∷ cs) = ground (arith, sum-take-le k cs)

List-cases : (cs : List Chunk) → (cs ≡ []) ⊎ ((c : Chunk) × (rest : List Chunk) × (cs ≡ c ∷ rest))
List-cases [] = inl refl
List-cases (c ∷ cs) = inr (c, cs, refl)

offset-le : (p : SenderIrob) (s : Socket) → Chunked p → p.ext.irob_offsets s ≤ sum_chunks p.chunks
offset-le p s h =
    omega
      (arith, h.offsets s, sum-take-le (p.ext.next_seqnos_to_send s) p.ext.sent_chunks, h.within)

new_lem :
    (p : SenderIrob) (csock : Socket) (requested : ℕ)
    → Sound p
    → p.ext.resend_chunks ≡ []
    → (get_irob_offset p csock < sum_chunks p.chunks → 0 < requested)
    → (r : Ready) × (get_new_bytes p csock requested ≡ some r)
      × Sound r.next
      × Handed r.next r
      × Extends p r.next
      × (r.next.chunks ≡ p.chunks)
      × (r.bytes_requested ≡ 0 → r.offset ≡ sum_chunks p.chunks)
new_lem p csock requested s none_left pos =
    let (r, e, c) = get_new_bytes_lem p csock s.chunked requested pos in
    (
      r,
      e,
      record {
        chunked = c.chunked;
        counted = ground (arith, c.same_bytes, s.counted, c.same_app);
        resends = subst (All (IsCut r.next.ext.sent_chunks)) (sym (c.same_resends ∙ none_left)) tt;
      },
      record {
        bytes = ground (arith, c.bytes, c.same_app);
        within = elim (Bool-cases (r.bytes_requested == 0)) [
          | inl z ↦ ground (
            arith,
            offset-le p (null_index_if_single_sending p csock) s.chunked,
            c.offset,
            c.same_app,
          )
          | inr pos' ↦
              let rec = c.recorded (ground arith) in
              let at =
                sent_at 0 0 r.seqno r.next.ext.sent_chunks c.chunked.sent c.chunked.numbered
                  rec.0 in
              ground (arith, rec, at, c.chunked.within)
        ];
        recorded = λ lt. let rec = c.recorded lt in (rec.0, rec.2, rec.3);
      },
      c.extends,
      c.same_app,
      c.finished,
    )

-- `get_ready_bytes` of a sound IROB fails no ASSERT, whatever socket asks and for however many bytes.
pub ready_lem :
    (p : SenderIrob) (csock : Socket) (requested : ℕ)
    → Sound p
    → (r : Ready) × (get_ready_bytes p csock requested ≡ some r)
      × Sound r.next
      × Handed r.next r
      × Extends p r.next
      × (r.next.chunks ≡ p.chunks)
unfolding get_ready_bytes
ready_lem p csock requested s = elim (List-cases p.ext.resend_chunks) [
  | inl e ↦
      let asked = if requested == 0 then p.ext.num_bytes - get_irob_offset p csock else requested in
      let (r, f, s', h, x, a, z) = new_lem p csock asked s e (λ lt. ground (arith, s.counted)) in
      (r, rw (e, get_ready_bytes) f, s', h, x, a)
  | inr (c, cs, e) ↦
      let (r, f, s', h, x, a) = resend_lem p c cs s e in (r, rw (e, get_ready_bytes) f, s', h, x, a)
]
