-- ===== src/Lattice/Tracks.antt =====
-- An IROB's remaining dependencies are those announced for it that the application has not read yet.
use libcmm.Prelude.{
  ℕ, ◌≡◌, refl, sym, ◌∙◌, subst, ◌↔◌, inl, inr, true, false, not, ◌&&◌, none, some, arith, ◌==◌,
  Bool-cases, ==_iff,
}
use libcmm.IdSet.{IdSet, has, keep_if, has-keep_if}
use libcmm.Irob.{Irob, Virtuals, remove_deps_if, is_ready, is_ready_iff}
use libcmm.Lattice.{
  Lattice, new_lattice, find_locked, is_past, erase_locked, insert_locked, correct_deps,
}
use libcmm.Lattice.Invariant.{IsValid}
use libcmm.Lattice.Outcome.{Inserted, insert_locked_outcome}
use libcmm.Lattice.Erase.{Erased, erase_locked_outcome}
use libcmm.Lattice.Erasure.{announce, Erased-Left, Erased-IsValid}

module _ {E : Type 0} where
  -- `announced j` are the dependencies that the sender gave for the IROB `j`.
  pub record Tracks (l : Lattice E) (announced : ℕ → IdSet) : Type 0 where
    pub valid : IsValid l
    pub remaining :
        (j : ℕ) (p : Irob E)
        → find_locked l j ≡ some p
        → p.placeholder ≡ false
        → (d : ℕ) → has p.deps d ≡ (not (is_past l d) && has (announced j) d)

  received_deps :
      (l : Lattice E) (p : Irob E) (d : ℕ)
      → has (correct_deps l p false).1.deps d ≡ (not (is_past l d) && has p.deps d)
  unfolding correct_deps remove_deps_if
  received_deps l p d =
      let open_ = λ (c : ℕ). not (is_past l c) in
      ground (arith, has-keep_if open_ (keep_if open_ p.deps) d, has-keep_if open_ p.deps d)

  past_is : (l l' : Lattice E) (j : ℕ) → l'.past_irobs ≡ l.past_irobs → is_past l' j ≡ is_past l j
  past_is l l' j e = ground arith

  pub Inserted-Tracks :
      (l l' : Lattice E) (p : Irob E) (a : ℕ → IdSet)
      → Tracks l a
      → Inserted l p false l'
      → Tracks l' (announce a p.id p.deps)
  Inserted-Tracks l l' p a t n = record {
    valid = n.valid;
    remaining = λ j q e real d. elim (Bool-cases (p.id == j)) [
      | inl hit ↦
          let (q', e', deps', real') = n.there in
          let same : q ≡ q' = ground (arith, ==_iff p.id j) in
          ground (arith, received_deps l p d, past_is l l' d n.past)
      | inr miss ↦ elim (n.origin j q e (λ h. absurd (ground (arith, ==_iff p.id j)))) [
        | inl (o, eo, g) ↦
            let before = t.remaining j o eo (sym g.same_placeholder ∙ real) d in
            ground (arith, before, g.same_deps, past_is l l' d n.past)
        | inr pl ↦ absurd (ground arith)
      ]
    ];
  }

  pub Erased-Tracks :
      (l l' : Lattice E) (id : ℕ) (victim : Irob E) (a : ℕ → IdSet)
      → Tracks l a
      → find_locked l id ≡ some victim
      → Erased l id true victim l'
      → Tracks l' a
  Erased-Tracks l l' id victim a t there n = record {
    valid = Erased-IsValid l l' id true victim t.valid n;
    remaining = λ j q e real d.
        let (other, p, ep, k) = Erased-Left l l' id true victim j q n e in
        let real' = sym k.same_placeholder ∙ real in
        let before = t.remaining j p ep real' d in
        elim (Bool-cases (id == d)) [
          | inr miss ↦ ground (arith, k.deps d, n.past d)
          | inl hit ↦ elim (Bool-cases (has p.deps d)) [
            | inr free ↦ ground (arith, k.deps d, n.past d)
            | inl waits ↦ elim (t.valid.linked j d p ep real' refl waits) [
              | inl past ↦ absurd (ground arith)
              | inr (o, eo, knows) ↦
                  let id_d : id ≡ d = (==_iff id d).0 hit in
                  let same : o ≡ victim = ground arith in
                  let tells : has victim.dependents j ≡ true = rw (← same) knows in
                  ground (arith, k.deps d, n.past d)
            ]
          ]
        ];
  }

  pub ready_of_Tracks :
      (l : Lattice E) (a : ℕ → IdSet)
      → Tracks l a
      → (j : ℕ) (p : Irob E) → find_locked l j ≡ some p
      → p.placeholder ≡ false
      → (is_ready p ≡ true) ↔ ((d : ℕ) → has (a j) d ≡ true → is_past l d ≡ true)
  ready_of_Tracks l a t j p e real =
      let left = t.remaining j p e real in
      (
        λ r d waits. ground (arith, (is_ready_iff p real).0 r d, left d),
        λ all_past. (is_ready_iff p real).1 (λ d. elim (Bool-cases (has (a j) d)) [
          | inl waits ↦ ground (arith, left d, all_past d waits)
          | inr free ↦ ground (arith, left d)
        ]),
      )

module _ {E : Type 0} (v : Virtuals E) where
  pub nothing_pending : (j : ℕ) → find_locked (new_lattice {E = E}) j ≡ none
  unfolding find_locked
  nothing_pending j = ground arith

  pub new_lattice-Tracks : (a : ℕ → IdSet) → Tracks (new_lattice {E = E}) a
  unfolding find_locked
  new_lattice-Tracks a = record {
    valid = record {
      keyed = λ j p e. absurd (ground arith);
      fresh = λ j p e. absurd (ground arith);
      linked = λ j d p e real out h. absurd (ground arith);
    };
    remaining = λ j p e real d. absurd (ground arith);
  }

  pub arrive-Tracks :
      (l l' : Lattice E) (a : ℕ → IdSet) (p : Irob E)
      → Tracks l a
      → p.placeholder ≡ false
      → insert_locked v l p false ≡ some (l', true)
      → Tracks l' (announce a p.id p.deps)
  arrive-Tracks l l' a p t real e = elim (insert_locked_outcome v l p false t.valid real) [
    | inl (away, e') ↦ absurd (ground arith)
    | inr (m, e', n) ↦
        let same : m ≡ l' = ground arith in
        subst (λ x. Tracks x (announce a p.id p.deps)) same (Inserted-Tracks l m p a t n)
  ]

  pub consume-Tracks :
      (l : Lattice E) (a : ℕ → IdSet) (id : ℕ) → Tracks l a → Tracks (erase_locked l id true).0 a
  consume-Tracks l a id t = elim (erase_locked_outcome l id true) [
    | inl (free, e) ↦ rw e t
    | inr (victim, l', there, e, n) ↦ rw e (Erased-Tracks l l' id victim a t there n)
  ]
