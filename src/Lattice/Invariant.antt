-- ===== src/Lattice/Invariant.antt =====
-- The invariant of the lattice, and that an insertion keeps it.
use libcmm.Prelude.{
  ℕ, ◌≡◌, sym, ap, ◌∙◌, subst, inl, inr, Bool, true, false, Option, none, some, [], pos, ◌∷◌, arith,
  ◌==◌, Bool-cases, Option-cases, ==_iff,
}
use libcmm.IntSet
use libcmm.IdSet.{IdSet, has, intersection}
use libcmm.Irob.{Irob, add_dep, remove_deps_if}
use libcmm.Lattice.{
  Lattice, find_locked, modify, is_past, correct_deps, dominate, follow_anon, infer_anonymous,
  infer_labelled,
}
use libcmm.Lattice.View.{find-modify}
use libcmm.Lattice.Place.{modify-SameRest}
use libcmm.Lattice.Growth.{Grows, Linked, Linked-Grows, is_past-same}

-- Every pending IROB stands under its own id; no pending id is past; and each dependency of a real
-- one, save of `id`, is past or pending with the IROB among its dependents.
pub record ValidBut {E : Type 0} (l : Lattice E) (skip : ℕ → Bool) : Type 0 where
  pub keyed : (j : ℕ) (p : Irob E) → find_locked l j ≡ some p → p.id ≡ j
  pub fresh : (j : ℕ) (p : Irob E) → find_locked l j ≡ some p → is_past l j ≡ false
  pub linked :
      (j d : ℕ) (p : Irob E)
      → find_locked l j ≡ some p
      → p.placeholder ≡ false
      → skip j ≡ false
      → has p.deps d ≡ true
      → Linked l j d

abbrev pub IsValid : {E : Type 0} → Lattice E → Type 0
IsValid l = ValidBut l (λ _. false)

-- The test for one id.
abbrev pub skip_only : ℕ → ℕ → Bool
skip_only id j = id == j

module _ {E : Type 0} where
  pub Grows-ValidBut :
      {o : E} (l l' : Lattice E) (skip : ℕ → Bool)
      → Grows o l l'
      → ValidBut l skip
      → ValidBut l' skip
  Grows-ValidBut {o} l l' skip g w = record {
    keyed = λ j p' e. elim (g.new j p' e) [
      | inl (p, ep, grown) ↦ grown.same_id ∙ w.keyed j p ep
      | inr (free, pl, id', past, mk) ↦ id'
    ];
    fresh = λ j p' e. is_past-same l l' j g.rest ∙ elim (g.new j p' e) [
      | inl (p, ep, grown) ↦ w.fresh j p ep
      | inr (free, pl, id', past, mk) ↦ past
    ];
    linked = λ j d p' e real out h. elim (g.new j p' e) [
      | inl (p, ep, grown) ↦
          Linked-Grows l l' j d g
            (w.linked j d p ep (sym grown.same_placeholder ∙ real) out (rw (← grown.same_deps) h))
      | inr (free, pl, id', past, mk) ↦ absurd (ground arith)
    ];
  }

  -- The IROB of `id` may be given other dependencies while they are not looked at.
  pub replace-ValidBut :
      (l : Lattice E) (p p' : Irob E) (skip : ℕ → Bool)
      → find_locked l p.id ≡ some p
      → skip p.id ≡ true
      → p'.id ≡ p.id
      → p'.dependents ≡ p.dependents
      → ValidBut l skip
      → ValidBut (modify l p.id (λ _. p')) skip
  replace-ValidBut l p p' skip found out same_id same_dependents w =
      let l' = modify l p.id (λ _. p') in
      let at = λ (j : ℕ). find-modify l p.id j (λ _. p') in
      record {
        keyed = λ j q e. elim (Bool-cases (p.id == j)) [
          | inl hit ↦ ground (arith, at j, ==_iff p.id j, Option-cases (find_locked l j))
          | inr miss ↦ w.keyed j q (ground (arith, at j))
        ];
        fresh = λ j q e.
            is_past-same l l' j (modify-SameRest l p.id (λ _. p')) ∙ elim (Bool-cases (p.id == j)) [
              | inl hit ↦ w.fresh j p (ground (arith, ==_iff p.id j))
              | inr miss ↦ w.fresh j q (ground (arith, at j))
            ];
        linked = λ j d q e real here h. elim (Bool-cases (p.id == j)) [
          | inl hit ↦ absurd (ground (arith, ==_iff p.id j))
          | inr miss ↦ elim (w.linked j d q (ground (arith, at j)) real here h) [
            | inl past ↦ inl (is_past-same l l' d (modify-SameRest l p.id (λ _. p')) ∙ past)
            | inr (r, er, knows) ↦ elim (Bool-cases (p.id == d)) [
              | inl self ↦
                  inr (p', ground (arith, at d, ==_iff p.id d), ground (arith, ==_iff p.id d))
              | inr other ↦ inr (r, ground (arith, at d), knows)
            ]
          ]
        ];
      }

  -- What inference leaves alone: all of the lattice but the dominators and the last anonymous id,
  -- and all of the IROB but its dependencies.
  pub record Corrected (l : Lattice E) (p : Irob E) (r : Lattice E × Irob E) : Type 0 where
    pub same_slots : r.0.pending_irobs ≡ l.pending_irobs
    pub same_offset : r.0.offset ≡ l.offset
    pub same_past : r.0.past_irobs ≡ l.past_irobs
    pub same_dropped : r.0.dropped_irobs ≡ l.dropped_irobs
    pub same_count : r.0.count ≡ l.count
    pub same_id : r.1.id ≡ p.id
    pub same_dependents : r.1.dependents ≡ p.dependents
    pub same_placeholder : r.1.placeholder ≡ p.placeholder
    pub same_anonymous : r.1.anonymous ≡ p.anonymous

  record SameBut (p q : Irob E) : Type 0 where
    same_id : q.id ≡ p.id
    same_dependents : q.dependents ≡ p.dependents
    same_placeholder : q.placeholder ≡ p.placeholder
    same_anonymous : q.anonymous ≡ p.anonymous

  dominate-SameBut : (a : Option ℕ) (ds : IdSet) (p : Irob E) → SameBut p (dominate a ds p)
  unfolding dominate add_dep
  dominate-SameBut (some a) [] p = ground arith
  dominate-SameBut (some a) (d ∷ ds) p = ground arith
  dominate-SameBut none ds p = ground arith

  follow_anon-SameBut : (a : Option ℕ) (ds : IdSet) (p : Irob E) → SameBut p (follow_anon a ds p)
  unfolding follow_anon add_dep
  follow_anon-SameBut (some a) [] p = ground arith
  follow_anon-SameBut (some a) (d ∷ ds) p = ground arith
  follow_anon-SameBut none ds p = ground arith

  pub correct_deps-Corrected :
      (l : Lattice E) (p : Irob E) (infer : Bool) → Corrected l p (correct_deps l p infer)
  unfolding correct_deps infer_anonymous infer_labelled remove_deps_if
  correct_deps-Corrected l p infer = ground (
    arith,
    dominate-SameBut l.last_anon_irob_id l.min_dominator_set p,
    follow_anon-SameBut l.last_anon_irob_id (intersection p.deps l.min_dominator_set) p,
  )

  pub Corrected-find :
      (l : Lattice E) (p : Irob E) (r : Lattice E × Irob E) (j : ℕ)
      → Corrected l p r
      → find_locked r.0 j ≡ find_locked l j
  unfolding find_locked
  Corrected-find l p r j c = ground arith

  pub transfer-ValidBut :
      (l l' : Lattice E) (skip : ℕ → Bool)
      → ((j : ℕ) → find_locked l' j ≡ find_locked l j)
      → l'.past_irobs ≡ l.past_irobs
      → ValidBut l skip
      → ValidBut l' skip
  transfer-ValidBut l l' skip same past w =
      let gone = λ (j : ℕ). ap (λ (t : IntSet.IntSet). IntSet.contains t (pos j)) past in
      record {
        keyed = λ j p e. w.keyed j p (sym (same j) ∙ e);
        fresh = λ j p e. gone j ∙ w.fresh j p (sym (same j) ∙ e);
        linked = λ j d p e real out h. elim (w.linked j d p (sym (same j) ∙ e) real out h) [
          | inl g ↦ inl (gone d ∙ g)
          | inr (q, eq, knows) ↦ inr (q, same d ∙ eq, knows)
        ];
      }

  pub link-IsValid :
      {o : E} (l l' : Lattice E) (id : ℕ) (p : Irob E)
      → ValidBut l (skip_only id)
      → Grows o l l'
      → find_locked l id ≡ some p
      → ((d : ℕ) → has p.deps d ≡ true → Linked l' id d)
      → IsValid l'
  link-IsValid {o} l l' id p w g found links =
      let w' = Grows-ValidBut l l' (skip_only id) g w in
      let (p', found', grown) = g.old id p found in
      record {
        keyed = w'.keyed;
        fresh = w'.fresh;
        linked = λ j d q e real out h. elim (Bool-cases (id == j)) [
          | inl hit ↦
              let id_j : id ≡ j = (==_iff id j).0 hit in
              let same : q ≡ p' = ground arith in
              subst (λ k. Linked l' k d) id_j (links d (rw (← grown.same_deps, ← same) h))
          | inr miss ↦ w'.linked j d q e real miss h
        ];
      }
