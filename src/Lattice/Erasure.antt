-- ===== src/Lattice/Erasure.antt =====
-- An erasure keeps the lattice valid.
use libcmm.Prelude.{
  ℕ, ◌≡◌, refl, sym, ◌∙◌, subst, ◌≢◌, inl, inr, Bool, true, false, not, ◌&&◌, some, arith, ◌==◌,
  if◌then◌else◌, Bool-cases, Option-cases, ==_iff,
}
use libcmm.IdSet.{IdSet, has, has-erase}
use libcmm.Irob.{Irob, dep_satisfied}
use libcmm.Lattice.{Lattice, find_locked}
use libcmm.Lattice.Invariant.{IsValid}
use libcmm.Lattice.Erase.{Erased}

abbrev pub announce : (ℕ → IdSet) → ℕ → IdSet → ℕ → IdSet
announce a id ds j = if id == j then ds else a j

module _ {E : Type 0} where
  -- An IROB that stays is the one that was there, with at most the erased id out of its dependencies.
  pub record Left (id : ℕ) (told : Bool) (p q : Irob E) : Type 0 where
    pub same_id : q.id ≡ p.id
    pub same_placeholder : q.placeholder ≡ p.placeholder
    pub same_dependents : q.dependents ≡ p.dependents
    pub same_labels : q.send_labels ≡ p.send_labels
    pub same_chunks : q.chunks ≡ p.chunks
    pub same_complete : q.complete ≡ p.complete
    pub same_ext : q.ext ≡ p.ext
    pub deps : (b : ℕ) → has q.deps b ≡ (not (told && (id == b)) && has p.deps b)

  pub dep_satisfied-Left : (id : ℕ) (p : Irob E) → Left id true p (dep_satisfied id p)
  unfolding dep_satisfied
  dep_satisfied-Left id p = record {
    same_id = refl;
    same_placeholder = refl;
    same_dependents = refl;
    same_labels = refl;
    same_chunks = refl;
    same_complete = refl;
    same_ext = refl;
    deps = λ b. ground (arith, has-erase id p.deps b, ==_iff id b, ==_iff b id);
  }

  pub Left-refl : (id : ℕ) (p : Irob E) → Left id false p p
  Left-refl id p = record {
    same_id = refl;
    same_placeholder = refl;
    same_dependents = refl;
    same_labels = refl;
    same_chunks = refl;
    same_complete = refl;
    same_ext = refl;
    deps = λ b. refl;
  }

  abbrev pub told_of : Bool → Irob E → ℕ → Bool
  told_of r victim j = r && has victim.dependents j

  pub Erased-Left :
      (l l' : Lattice E) (id : ℕ) (r : Bool) (victim : Irob E) (j : ℕ) (q : Irob E)
      → Erased l id r victim l'
      → find_locked l' j ≡ some q
      → (j ≢ id) × (p : Irob E) × (find_locked l j ≡ some p) × Left id (told_of r victim j) p q
  Erased-Left l l' id r victim j q d e =
      let other : j ≢ id = λ h. absurd (ground (arith, d.gone)) in
      elim (Bool-cases (told_of r victim j)) [
        | inl told ↦ elim (Option-cases (find_locked l j)) [
          | inl en ↦ absurd (ground (arith, d.others j other))
          | inr (p, ep) ↦
              let same : dep_satisfied id p ≡ q = ground (arith, d.others j other) in
              (other, p, ep, rw told (subst (Left id true p) same (dep_satisfied-Left id p)))
        ]
        | inr quiet ↦ (other, q, ground (arith, d.others j other), rw quiet (Left-refl id q))
      ]

  pub Erased-keeps :
      (l l' : Lattice E) (id : ℕ) (r : Bool) (victim : Irob E) (j : ℕ) (p : Irob E)
      → Erased l id r victim l'
      → j ≢ id
      → find_locked l j ≡ some p
      → (q : Irob E) × (find_locked l' j ≡ some q) × Left id (told_of r victim j) p q
  Erased-keeps l l' id r victim j p d other ep = elim (Bool-cases (told_of r victim j)) [
    | inl told ↦
        (dep_satisfied id p, ground (arith, d.others j other), rw told (dep_satisfied-Left id p))
    | inr quiet ↦ (p, ground (arith, d.others j other), rw quiet (Left-refl id p))
  ]

  -- An erasure keeps the lattice valid.
  pub Erased-IsValid :
      (l l' : Lattice E) (id : ℕ) (r : Bool) (victim : Irob E)
      → IsValid l
      → Erased l id r victim l'
      → IsValid l'
  Erased-IsValid l l' id r victim w d = record {
    keyed = λ j q e.
        let (other, p, ep, k) = Erased-Left l l' id r victim j q d e in k.same_id ∙ w.keyed j p ep;
    fresh = λ j q e.
        let (other, p, ep, k) = Erased-Left l l' id r victim j q d e in
        ground (arith, d.past j, w.fresh j p ep, ==_iff id j);
    linked = λ j c q e real out h.
        let (other, p, ep, k) = Erased-Left l l' id r victim j q d e in
        elim (Bool-cases (id == c)) [
          | inl hit ↦ inl (ground (arith, d.past c))
          | inr miss ↦
              elim (w.linked j c p ep (sym k.same_placeholder ∙ real) refl
                (ground (arith, k.deps c))) [
                  | inl past ↦ inl (ground (arith, d.past c))
                  | inr (o, eo, knows) ↦
                      let (o', eo', ko) =
                        Erased-keeps l l' id r victim c o d
                          (λ h. absurd (ground (arith, ==_iff id c))) eo in
                      inr (o', eo', rw ko.same_dependents knows)
                ]
        ];
  }
