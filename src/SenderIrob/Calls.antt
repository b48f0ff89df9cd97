-- ===== src/SenderIrob/Calls.antt =====
-- What each call leaves of an IROB at the sender and of what was handed out.
use libcmm.Prelude.{
  ℕ, ◌+◌, ◌<◌, ◌≡◌, refl, sym, ap, subst, inl, inr, true, some, List, [], ◌∷◌, ◌++◌, arith, ltb,
  ◌==◌, ==_iff, length, get_or, Bool-cases,
}
use mathlib.Core.List.{append-nil}
use libcmm.StdSet.{set_insert}
use libcmm.Irob.{Chunk, bytes_of}
use libcmm.Irob
use libcmm.Irob.Data.{data_of}
use libcmm.SenderIrob.{SenderIrob, sum_chunks, zero_chunk, new_sender_irob, add_chunk}
use libcmm.SenderIrob.Marks.{mark_send_on_all_networks, mark_not_received, chunk_less}
use libcmm.SenderIrob.Record.{Consecutive-with_last, sum-with_last, seqno_at}
use libcmm.SenderIrob.Serve.{IsCut, Sound}
use libcmm.SenderIrob.Grown.{data_of-append, Solid-append, set_insert-All, Grown, Grown-refl}

pub start-Sound :
    (id : ℕ) (deps bytes : List ℕ) (labels : ℕ) → Sound (new_sender_irob id deps bytes labels)
unfolding new_sender_irob sum_chunks
start-Sound id deps bytes labels = elim (Bool-cases (length bytes == 0)) [
  | inl no_data ↦ record {
    chunked = record {
      app = rw no_data tt;
      solid = rw no_data tt;
      sent = tt;
      numbered = tt;
      within = ground arith;
      reached = λ s. ground arith;
      offsets = λ s. refl;
    };
    counted = rw no_data (ground arith);
    resends = tt;
  }
  | inr whole ↦ record {
    chunked = record {
      app = rw whole (refl, tt);
      solid = rw whole (refl, tt);
      sent = tt;
      numbered = tt;
      within = ground arith;
      reached = λ s. ground arith;
      offsets = λ s. refl;
    };
    counted = rw whole (ground arith);
    resends = tt;
  }
]

pub add-Sound :
    (p : SenderIrob) (c : Chunk)
    → Sound p
    → c.datalen ≡ length (bytes_of c)
    → Sound (add_chunk p c).0 × Grown p (add_chunk p c).0
unfolding add_chunk
add-Sound p c s e = elim (Bool-cases p.complete) [
  | inl full ↦
      let same : p ≡ (add_chunk p c).0 = ground arith in
      subst (λ x. Sound x × Grown p x) same (s, Grown-refl p)
  | inr open_ ↦
      let d : Chunk = record c { seqno = length p.chunks; offset = p.ext.num_bytes } in
      let q : SenderIrob = record p {
        chunks = p.chunks ++ d ∷ [];
        ext = record (p.ext) { num_bytes = p.ext.num_bytes + c.datalen };
      } in
      let same : q ≡ (add_chunk p c).0 = ground arith in
      subst (λ x. Sound x × Grown p x) same
        (
          record {
            chunked = record {
              app = Consecutive-with_last 0 p.chunks d s.chunked.app (ground (arith, s.counted));
              solid = Solid-append p.chunks d s.chunked.solid e;
              sent = s.chunked.sent;
              numbered = s.chunked.numbered;
              within = omega (arith, s.chunked.within, sum-with_last p.chunks d);
              reached = s.chunked.reached;
              offsets = s.chunked.offsets;
            };
            counted = omega (arith, s.counted, sum-with_last p.chunks d);
            resends = s.resends;
          },
          record {
            extends = record { longer = omega arith; kept = λ j lt. refl };
            more = data_of (d ∷ []);
            same_data = data_of-append p.chunks (d ∷ []);
            longer = omega (arith, sum-with_last p.chunks d);
          },
        )
]

pub again-Sound :
    (p q : SenderIrob) (seqno : ℕ)
    → Sound p
    → mark_not_received p seqno ≡ some q
    → Sound q × Grown p q
unfolding mark_not_received
again-Sound p q seqno s e = elim (Bool-cases (ltb (length p.ext.sent_chunks) seqno)) [
  | inl beyond ↦
      let same : p ≡ q = ground arith in subst (λ x. Sound x × Grown p x) same (s, Grown-refl p)
  | inr known ↦ elim (Bool-cases (seqno == length p.ext.sent_chunks)) [
    | inl outside ↦ absurd (ground arith)
    | inr inside ↦
        let c = get_or p.ext.sent_chunks seqno zero_chunk in
        let lt : seqno < length p.ext.sent_chunks =
          ground (arith, ==_iff seqno (length p.ext.sent_chunks)) in
        let own : c.seqno ≡ seqno =
          ground (arith, seqno_at 0 seqno p.ext.sent_chunks s.chunked.numbered lt) in
        let same : record p {
          ext = record (p.ext) { resend_chunks = set_insert chunk_less c p.ext.resend_chunks };
        }
            ≡ q =
          ground arith in
        subst (λ x. Sound x × Grown p x) same
          (
            record {
              chunked = record {
                app = s.chunked.app;
                solid = s.chunked.solid;
                sent = s.chunked.sent;
                numbered = s.chunked.numbered;
                within = s.chunked.within;
                reached = s.chunked.reached;
                offsets = s.chunked.offsets;
              };
              counted = s.counted;
              resends =
                  set_insert-All (IsCut p.ext.sent_chunks) c p.ext.resend_chunks
                    (ground (arith, own), ap (λ k. get_or p.ext.sent_chunks k zero_chunk) own)
                    s.resends;
            },
            record {
              extends = record { longer = omega arith; kept = λ j lt. refl };
              more = [];
              same_data = sym (append-nil (data_of p.chunks));
              longer = omega arith;
            },
          )
  ]
]

pub finish-Sound : (p : SenderIrob) → Sound p → Sound (Irob.finish p).0 × Grown p (Irob.finish p).0
unfolding Irob.finish
finish-Sound p s = elim (Bool-cases p.complete) [
  | inl full ↦
      let same : p ≡ (Irob.finish p).0 = ground arith in
      subst (λ x. Sound x × Grown p x) same (s, Grown-refl p)
  | inr open_ ↦
      let same : record p { complete = true } ≡ (Irob.finish p).0 = ground arith in
      subst (λ x. Sound x × Grown p x) same
        (
          record {
            chunked = record {
              app = s.chunked.app;
              solid = s.chunked.solid;
              sent = s.chunked.sent;
              numbered = s.chunked.numbered;
              within = s.chunked.within;
              reached = s.chunked.reached;
              offsets = s.chunked.offsets;
            };
            counted = s.counted;
            resends = s.resends;
          },
          record {
            extends = record { longer = omega arith; kept = λ j lt. refl };
            more = [];
            same_data = sym (append-nil (data_of p.chunks));
            longer = omega arith;
          },
        )
]

pub wide-Sound :
    (p : SenderIrob)
    → Sound p
    → Sound (mark_send_on_all_networks p) × Grown p (mark_send_on_all_networks p)
wide-Sound p s = (
  record {
    chunked = record {
      app = s.chunked.app;
      solid = s.chunked.solid;
      sent = s.chunked.sent;
      numbered = s.chunked.numbered;
      within = s.chunked.within;
      reached = s.chunked.reached;
      offsets = s.chunked.offsets;
    };
    counted = s.counted;
    resends = s.resends;
  },
  record {
    extends = record { longer = omega arith; kept = λ j lt. refl };
    more = [];
    same_data = sym (append-nil (data_of p.chunks));
    longer = omega arith;
  },
)
