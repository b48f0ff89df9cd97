-- ===== src/Lattice/Tracking.antt =====
-- Changes to the receiver's lattice that are no insertion of a real IROB and no erasure.
use libcmm.Prelude.{
  ℕ, ◌≡◌, refl, sym, ◌∙◌, subst, inl, inr, false, some, arith, ◌==◌, Bool-cases, Option-cases,
  ==_iff,
}
use libcmm.IdSet.{IdSet}
use libcmm.Irob.{Irob}
use libcmm.Lattice.{Lattice, find_locked, modify}
use libcmm.Lattice.View.{find-modify}
use libcmm.Lattice.Place.{modify-SameRest}
use libcmm.Lattice.Growth.{Grows, is_past-same}
use libcmm.Lattice.Invariant.{Grows-ValidBut}
use libcmm.Lattice.Tracks.{Tracks}

module _ {E : Type 0} where
  -- The same node of the lattice.
  pub record SameNode (p q : Irob E) : Type 0 where
    pub same_id : q.id ≡ p.id
    pub same_deps : q.deps ≡ p.deps
    pub same_dependents : q.dependents ≡ p.dependents
    pub same_placeholder : q.placeholder ≡ p.placeholder

  SameNode-refl : (p : Irob E) → SameNode p p
  SameNode-refl p = record {
    same_id = refl;
    same_deps = refl;
    same_dependents = refl;
    same_placeholder = refl;
  }

  module _ (l : Lattice E) (id : ℕ) (f : Irob E → Irob E)
      (same : (p : Irob E) → find_locked l id ≡ some p → SameNode p (f p)) where
    pub modify-back :
        (j : ℕ) (q : Irob E)
        → find_locked (modify l id f) j ≡ some q
        → (p : Irob E) × (find_locked l j ≡ some p) × SameNode p q
    modify-back j q e = elim (Option-cases (find_locked l j)) [
      | inl en ↦ absurd (ground (arith, find-modify l id j f))
      | inr (p, ep) ↦ elim (Bool-cases (id == j)) [
        | inl hit ↦
            let fp_q : f p ≡ q = ground (arith, find-modify l id j f) in
            let here : find_locked l id ≡ some p = ground (arith, ==_iff id j) in
            (p, ep, subst (SameNode p) fp_q (same p here))
        | inr miss ↦ (q, ground (arith, find-modify l id j f), SameNode-refl q)
      ]
    ]

    modify-forth :
        (j : ℕ) (p : Irob E)
        → find_locked l j ≡ some p
        → (q : Irob E) × (find_locked (modify l id f) j ≡ some q) × SameNode p q
    modify-forth j p e = elim (Bool-cases (id == j)) [
      | inl hit ↦
          let here : find_locked l id ≡ some p = ground (arith, ==_iff id j) in
          (f p, ground (arith, find-modify l id j f), same p here)
      | inr miss ↦ (p, ground (arith, find-modify l id j f), SameNode-refl p)
    ]

    pub modify-Tracks : (a : ℕ → IdSet) → Tracks l a → Tracks (modify l id f) a
    modify-Tracks a t =
        let gone = λ (j : ℕ). is_past-same l (modify l id f) j (modify-SameRest l id f) in
        record {
          valid = record {
            keyed = λ j q e. let (p, ep, s) = modify-back j q e in s.same_id ∙ t.valid.keyed j p ep;
            fresh = λ j q e. let (p, ep, s) = modify-back j q e in gone j ∙ t.valid.fresh j p ep;
            linked = λ j d q e real out h.
                let (p, ep, s) = modify-back j q e in
                elim (t.valid.linked j d p ep (sym s.same_placeholder ∙ real) out
                  (rw (← s.same_deps) h)) [
                    | inl past ↦ inl (gone d ∙ past)
                    | inr (o, eo, knows) ↦
                        let (o', eo', so) = modify-forth d o eo in
                        inr (o', eo', rw so.same_dependents knows)
                  ];
          };
          remaining = λ j q e real d.
              let (p, ep, s) = modify-back j q e in
              rw (s.same_deps, gone d) (t.remaining j p ep (sym s.same_placeholder ∙ real) d);
        }

  pub Grows-Tracks :
      {o : E} (l l' : Lattice E) (a : ℕ → IdSet) → Grows o l l' → Tracks l a → Tracks l' a
  Grows-Tracks {o} l l' a g t = record {
    valid = Grows-ValidBut l l' (λ _. false) g t.valid;
    remaining = λ j q e real d. elim (g.new j q e) [
      | inl (p, ep, s) ↦
          rw (s.same_deps, is_past-same l l' d g.rest)
            (t.remaining j p ep (sym s.same_placeholder ∙ real) d)
      | inr (en, pl, i, open_, mk) ↦ absurd (ground arith)
    ];
  }
