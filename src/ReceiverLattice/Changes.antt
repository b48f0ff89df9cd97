-- ===== src/ReceiverLattice/Changes.antt =====
-- The changes that messages make to an IROB keep it sound.
use libcmm.Prelude.{
  ℕ, ◌<◌, ◌≡◌, ◌⊎◌, refl, sym, subst, inl, inr, Bool, true, false, some, arith, ◌==◌, Bool-cases,
  Option-cases,
}
use libcmm.Irob.{Chunk}
use libcmm.ReceiverIrob.{
  ReceiverIrob, is_complete, add_chunk, accept_chunk, reach_seqno, finish, beyond,
}
use libcmm.ReceiverLattice.Sound.{
  Untouched, Sound, IsWhole, accept_chunk-Untouched, accept_chunk-released,
}

-- The same IROB, sound again, with more of its data or its end.
pub record Fed (p q : ReceiverIrob) : Type 0 where
  pub sound : Sound q
  pub same_released : q.ext.released ≡ p.ext.released
  pub same_id : q.id ≡ p.id
  pub same_deps : q.deps ≡ p.deps
  pub same_dependents : q.dependents ≡ p.dependents
  pub same_placeholder : q.placeholder ≡ p.placeholder
  pub same_labels : q.send_labels ≡ p.send_labels
  pub idle : p.ext.released ≡ true → q ≡ p

Fed-refl : (p : ReceiverIrob) → Sound p → Fed p p
Fed-refl p s = record {
  sound = s;
  same_released = refl;
  same_id = refl;
  same_deps = refl;
  same_dependents = refl;
  same_placeholder = refl;
  same_labels = refl;
  idle = λ h. refl;
}

accept_chunk-Fed :
    (p : ReceiverIrob) (c : Chunk)
    → IsWhole c
    → Sound p
    → p.ext.released ≡ false
    → Fed p (accept_chunk p (reach_seqno p.chunks c.seqno) c).0
unfolding accept_chunk
accept_chunk-Fed p c w s held =
    let cs = reach_seqno p.chunks c.seqno in
    let same = accept_chunk-released p cs c in
    record {
      sound = record {
        untouched = λ h. accept_chunk-Untouched p c w (s.untouched held);
        deliverable = λ h. absurd (ground arith);
      };
      same_released = same;
      same_id = ground arith;
      same_deps = ground arith;
      same_dependents = ground arith;
      same_placeholder = ground arith;
      same_labels = ground arith;
      idle = λ h. absurd (ground arith);
    }

add_chunk_released :
    (p : ReceiverIrob) (c : Chunk) (q : ReceiverIrob) (b : Bool)
    → p.ext.released ≡ true
    → Sound p
    → add_chunk p c ≡ some (q, b)
    → p ≡ q
unfolding add_chunk
add_chunk_released p c q b out s e = ground (arith, (s.deliverable out).complete)

finish_released :
    (p : ReceiverIrob) (bytes chunks : ℕ) (q : ReceiverIrob) (b : Bool)
    → p.ext.released ≡ true
    → Sound p
    → finish p bytes chunks ≡ some (q, b)
    → p ≡ q
unfolding finish
finish_released p bytes chunks q b out s e = ground (arith, (s.deliverable out).complete)

add_chunk_cases :
    (p : ReceiverIrob) (c : Chunk) (q : ReceiverIrob) (b : Bool)
    → add_chunk p c ≡ some (q, b)
    → (p ≡ q) ⊎ ((accept_chunk p (reach_seqno p.chunks c.seqno) c).0 ≡ q)
unfolding add_chunk
add_chunk_cases p c q b e = elim (Option-cases (is_complete p)) [
  | inl fails ↦ absurd (ground arith)
  | inr (done, ed) ↦ elim (Bool-cases done) [
    | inl over ↦ inl (ground arith)
    | inr open_ ↦ elim (Bool-cases (p.ext.num_bytes == p.ext.recvd_bytes)) [
      | inr off ↦ absurd (ground arith)
      | inl level ↦ elim (Bool-cases (beyond c.seqno p.ext.expected_chunks)) [
        | inl far ↦ inl (ground arith)
        | inr near ↦ inr (ground arith)
      ]
    ]
  ]
]

pub add_chunk-Fed :
    (p : ReceiverIrob) (c : Chunk)
    → IsWhole c
    → Sound p
    → (q : ReceiverIrob) (b : Bool) → add_chunk p c ≡ some (q, b)
    → Fed p q
add_chunk-Fed p c w s q b e = elim (Bool-cases p.ext.released) [
  | inl out ↦ subst (Fed p) (add_chunk_released p c q b out s e) (Fed-refl p s)
  | inr held ↦ elim (add_chunk_cases p c q b e) [
    | inl same ↦ subst (Fed p) same (Fed-refl p s)
    | inr same ↦ subst (Fed p) same (accept_chunk-Fed p c w s held)
  ]
]

ended :
    (p : ReceiverIrob) → Untouched p → p.ext.released ≡ false → Fed p (record p { complete = true })
ended p u held = record {
  sound = record {
    untouched = λ h. record {
      slots = u.slots;
      unread = u.unread;
      recvd = u.recvd;
      left = u.left;
      wanted = u.wanted;
    };
    deliverable = λ h. absurd (ground arith);
  };
  same_released = refl;
  same_id = refl;
  same_deps = refl;
  same_dependents = refl;
  same_placeholder = refl;
  same_labels = refl;
  idle = λ h. absurd (ground arith);
}

ended_with :
    (p : ReceiverIrob) (bytes chunks : ℕ)
    → 0 < bytes
    → Untouched p
    → p.ext.released ≡ false
    → Fed p (record p {
      complete = true;
      ext = record (p.ext) { expected_bytes = some bytes; expected_chunks = some chunks };
    })
ended_with p bytes chunks pos u held = record {
  sound = record {
    untouched = λ h. record {
      slots = u.slots;
      unread = u.unread;
      recvd = u.recvd;
      left = u.left;
      wanted = λ e. absurd (ground arith);
    };
    deliverable = λ h. absurd (ground arith);
  };
  same_released = refl;
  same_id = refl;
  same_deps = refl;
  same_dependents = refl;
  same_placeholder = refl;
  same_labels = refl;
  idle = λ h. absurd (ground arith);
}

-- The rest of a finished IROB as `finish` leaves it.
finish_cases :
    (p : ReceiverIrob) (bytes chunks : ℕ) (q : ReceiverIrob) (b : Bool)
    → finish p bytes chunks ≡ some (q, b)
    → (p ≡ q)
      ⊎ (q ≡ record p { complete = true })
      ⊎ (q ≡ record p {
        complete = true;
        ext = record (p.ext) { expected_bytes = some bytes; expected_chunks = some chunks };
      })
unfolding finish
finish_cases p bytes chunks q b e = elim (Option-cases (is_complete p)) [
  | inl fails ↦ absurd (ground arith)
  | inr (done, ed) ↦ elim (Bool-cases done) [
    | inl over ↦ inl (ground arith)
    | inr open_ ↦ elim (Option-cases p.ext.expected_bytes) [
      | inl eb ↦ elim (Option-cases p.ext.expected_chunks) [
        | inl ec ↦ inr (inr (ground arith))
        | inr (n, ec) ↦ absurd (ground arith)
      ]
      | inr (m, eb) ↦ elim (Option-cases p.ext.expected_chunks) [
        | inl ec ↦ absurd (ground arith)
        | inr (n, ec) ↦ inr (inl (ground arith))
      ]
    ]
  ]
]

pub finish-Fed :
    (p : ReceiverIrob) (bytes chunks : ℕ)
    → 0 < bytes
    → Sound p
    → (q : ReceiverIrob) (b : Bool) → finish p bytes chunks ≡ some (q, b)
    → Fed p q
finish-Fed p bytes chunks pos s q b e = elim (Bool-cases p.ext.released) [
  | inl out ↦ subst (Fed p) (finish_released p bytes chunks q b out s e) (Fed-refl p s)
  | inr held ↦ elim (finish_cases p bytes chunks q b e) [
    | inl same ↦ subst (Fed p) same (Fed-refl p s)
    | inr (inl same) ↦ subst (Fed p) (sym same) (ended p (s.untouched held) held)
    | inr (inr same) ↦
        subst (Fed p) (sym same) (ended_with p bytes chunks pos (s.untouched held) held)
  ]
]
