-- ===== src/Lattice/Insert.antt =====
-- What an insertion comes to, on every branch.
use libcmm.Prelude.{
  ℕ, ◌≡◌, refl, ◌∙◌, subst, inl, inr, Bool, true, false, Option, none, some, [], ◌∷◌, arith, ◌==◌,
  if◌then◌else◌, Bool-cases, ==_iff, ==_refl,
}
use libcmm.IdSet.{IdSet, has, has-insert_all, intersection}
use libcmm.Irob.{Irob, Virtuals, add_dep, remove_deps_if}
use libcmm.Lattice.{
  Lattice, find_locked, modify, is_past, correct_deps, settle, increment, dominate, follow_anon,
  infer_anonymous, infer_labelled,
}
use libcmm.Lattice.View.{find-modify}
use libcmm.Lattice.Place.{SameRest, merged, Fits, placed, find-placed, placed-SameRest}
use libcmm.Lattice.Growth.{Grows, Linked, link_lem, is_past-same}
use libcmm.Lattice.Invariant.{
  ValidBut, IsValid, skip_only, replace-ValidBut, correct_deps-Corrected, Corrected-find,
  transfer-ValidBut, link-IsValid,
}

module _ {E : Type 0} where
  -- The IROB takes up the dependencies that were inferred for it.
  abbrev pub resolved : Lattice E → Irob E → Bool → Lattice E
  resolved l p infer = modify (correct_deps l p infer).0 p.id (λ _. (correct_deps l p infer).1)

  pub find-resolved :
      (l : Lattice E) (p : Irob E) (infer : Bool) (j : ℕ)
      → find_locked l p.id ≡ some p
      → find_locked (resolved l p infer) j
        ≡ (if p.id == j then some (correct_deps l p infer).1 else find_locked l j)
  find-resolved l p infer j found = ground (
    arith,
    find-modify (correct_deps l p infer).0 p.id j (λ _. (correct_deps l p infer).1),
    Corrected-find l p (correct_deps l p infer) j (correct_deps-Corrected l p infer),
    ==_iff p.id j,
  )

  pub resolved-ValidBut :
      (l : Lattice E) (p : Irob E) (infer : Bool)
      → find_locked l p.id ≡ some p
      → ValidBut l (skip_only p.id)
      → ValidBut (resolved l p infer) (skip_only p.id)
  resolved-ValidBut l p infer found w =
      let r = correct_deps l p infer in
      let c = correct_deps-Corrected l p infer in
      let same = λ (j : ℕ). Corrected-find l p r j c in
      replace-ValidBut r.0 p r.1 (skip_only p.id) (same p.id ∙ found) (==_refl p.id) c.same_id
        c.same_dependents (transfer-ValidBut l r.0 (skip_only p.id) same c.same_past w)

  pub find-count :
      (l : Lattice E) (n j : ℕ) → find_locked (record l { count = n }) j ≡ find_locked l j
  unfolding find_locked
  find-count l n j = refl

  dominate-deps :
      (a : Option ℕ) (ds : IdSet) (p q : Irob E)
      → q.deps ≡ p.deps
      → (dominate a ds q).deps ≡ (dominate a ds p).deps
  unfolding dominate add_dep
  dominate-deps (some a) [] p q e = ground arith
  dominate-deps (some a) (d ∷ ds) p q e = ground arith
  dominate-deps none ds p q e = ground arith

  follow_anon-deps :
      (a : Option ℕ) (ds : IdSet) (p q : Irob E)
      → q.deps ≡ p.deps
      → (follow_anon a ds q).deps ≡ (follow_anon a ds p).deps
  unfolding follow_anon add_dep
  follow_anon-deps (some a) [] p q e = ground arith
  follow_anon-deps (some a) (d ∷ ds) p q e = ground arith
  follow_anon-deps none ds p q e = ground arith

  -- Two lattices and IROBs of which inference sees the same.
  pub record Alike (l m : Lattice E) (p q : Irob E) : Type 0 where
    pub rest : SameRest l m
    pub same_id : q.id ≡ p.id
    pub same_deps : q.deps ≡ p.deps
    pub same_anonymous : q.anonymous ≡ p.anonymous

  pub record Agree (r t : Lattice E × Irob E) : Type 0 where
    pub deps : t.1.deps ≡ r.1.deps
    pub doms : t.0.min_dominator_set ≡ r.0.min_dominator_set
    pub anon : t.0.last_anon_irob_id ≡ r.0.last_anon_irob_id

  pub correct_deps-Agree :
      (l m : Lattice E) (p q : Irob E) (infer : Bool)
      → Alike l m p q
      → Agree (correct_deps l p infer) (correct_deps m q infer)
  unfolding correct_deps infer_anonymous infer_labelled remove_deps_if
  correct_deps-Agree l m p q infer a = ground (
    arith,
    dominate-deps l.last_anon_irob_id l.min_dominator_set p q,
    follow_anon-deps l.last_anon_irob_id (intersection p.deps l.min_dominator_set) p q,
  )

module _ {E : Type 0} (v : Virtuals E) where
  pub merged-id : (p : Irob E) (o : Option (Irob E)) → (merged v p o).id ≡ p.id
  merged-id p none = refl
  merged-id p (some old) = v.absorb-id p old

  pub merged-deps : (p : Irob E) (o : Option (Irob E)) → (merged v p o).deps ≡ p.deps
  merged-deps p none = refl
  merged-deps p (some old) = v.absorb-deps p old

  pub merged-anonymous : (p : Irob E) (o : Option (Irob E)) → (merged v p o).anonymous ≡ p.anonymous
  merged-anonymous p none = refl
  merged-anonymous p (some old) = v.absorb-anonymous p old

  pub merged-placeholder :
      (p : Irob E) (o : Option (Irob E)) → (merged v p o).placeholder ≡ p.placeholder
  merged-placeholder p none = refl
  merged-placeholder p (some old) = v.absorb-placeholder p old

  absorb-knows :
      (p old : Irob E) (b : ℕ)
      → has old.dependents b ≡ true
      → has (v.absorb p old).dependents b ≡ true
  absorb-knows p old b h =
      rw (v.absorb-dependents p old) (ground (arith, has-insert_all p.dependents old.dependents b))

  pub placed-ValidBut :
      (l : Lattice E) (p : Irob E)
      → Fits v l p
      → IsValid l
      → ValidBut (placed v l p) (skip_only p.id)
  placed-ValidBut l p f w =
      let l' = placed v l p in
      let at = λ (j : ℕ). find-placed v l p j in
      let gone = λ (j : ℕ). is_past-same l l' j (placed-SameRest v l p) in
      record {
        keyed = λ j q e. elim (Bool-cases (p.id == j)) [
          | inl hit ↦ ground (arith, at j, ==_iff p.id j, merged-id p (find_locked l p.id))
          | inr miss ↦ w.keyed j q (ground (arith, at j))
        ];
        fresh = λ j q e. gone j ∙ elim (Bool-cases (p.id == j)) [
          | inl hit ↦ subst (λ k. is_past l k ≡ false) ((==_iff p.id j).0 hit) f.not_past
          | inr miss ↦ w.fresh j q (ground (arith, at j))
        ];
        linked = λ j d q e real out h. elim (w.linked j d q (ground (arith, at j)) real refl h) [
          | inl past ↦ inl (gone d ∙ past)
          | inr (r, er, knows) ↦ elim (Bool-cases (p.id == d)) [
            | inl self ↦
                let r_at : find_locked l p.id ≡ some r = ground (arith, ==_iff p.id d) in
                inr (v.absorb p r, ground (arith, at d), absorb-knows p r j knows)
            | inr other ↦ inr (r, ground (arith, at d), knows)
          ]
        ];
      }

  -- The second part of an insertion meets no failed ASSERT.
  pub settle_lem :
      (l : Lattice E) (p : Irob E) (infer : Bool)
      → find_locked l p.id ≡ some p
      → (m : Lattice E) × (settle v l p.id infer
          ≡ some (record m { count = increment m.count }, true))
        × Grows v.fresh (resolved l p infer) m
        × ((d : ℕ) → has (correct_deps l p infer).1.deps d ≡ true → Linked m p.id d)
  unfolding settle
  settle_lem l p infer found =
      let (m, em, g, links) =
        link_lem v (resolved l p infer) p.id (correct_deps l p infer).1.deps in
      (m, rw (found, em), g, links)

  pub settle-IsValid :
      (l m : Lattice E) (p : Irob E) (infer : Bool)
      → find_locked l p.id ≡ some p
      → ValidBut l (skip_only p.id)
      → Grows v.fresh (resolved l p infer) m
      → ((d : ℕ) → has (correct_deps l p infer).1.deps d ≡ true → Linked m p.id d)
      → IsValid (record m { count = increment m.count })
  settle-IsValid l m p infer found w g links =
      let r = correct_deps l p infer in
      let w' = resolved-ValidBut l p infer found w in
      let here : find_locked (resolved l p infer) p.id ≡ some r.1 =
        ground (arith, find-resolved l p infer p.id found, ==_refl p.id) in
      transfer-ValidBut m (record m { count = increment m.count }) (λ _. false)
        (λ j. find-count m (increment m.count) j) refl
        (link-IsValid (resolved l p infer) m p.id r.1 w' g here links)
