-- ===== src/Lattice/Every.antt =====
-- What holds of every pending IROB, through the changes of the receiver's lattice.
use libcmm.Prelude.{
  none, ℕ, ◌≡◌, ◌≢◌, sym, ◌∙◌, subst, inl, inr, Bool, true, false, some, [], ◌∷◌, arith, ◌==◌,
  Bool-cases, Option-cases, ==_iff,
}
use libcmm.IdSet.{IdSet, has}
use libcmm.Irob.{Irob, Virtuals, placeholder_irob, add_dependent, dep_satisfied, remove_deps_if}
use libcmm.Lattice.{
  Lattice, find_locked, modify, is_past, correct_deps, settle, insert_locked, link_one, link,
  increment,
}
use libcmm.Lattice.View.{find-modify}
use libcmm.Lattice.Place.{merged, placed, find-placed, place_lem, place_refused}
use libcmm.Lattice.Growth.{placeholder-Fits, link_one_lem, link_lem}
use libcmm.Lattice.Insert.{find-count, resolved, merged-id}
use libcmm.Lattice.Invariant.{IsValid}
use libcmm.Lattice.Outcome.{Fits-of_not, placed-found_self}
use libcmm.Lattice.Erase.{Erased}

module _ {E : Type 0} (P : Irob E → Type 0) where
  abbrev pub Every : Lattice E → Type 0
  Every l = (j : ℕ) (p : Irob E) → find_locked l j ≡ some p → P p

  pub modify-Every :
      (l : Lattice E) (id : ℕ) (f : Irob E → Irob E)
      → ((p : Irob E) → find_locked l id ≡ some p → P (f p))
      → Every l
      → Every (modify l id f)
  modify-Every l id f h all j q e = elim (Option-cases (find_locked l j)) [
    | inl en ↦ absurd (ground (arith, find-modify l id j f))
    | inr (p, ep) ↦ elim (Bool-cases (id == j)) [
      | inl hit ↦
          let same : f p ≡ q = ground (arith, find-modify l id j f) in
          let here : find_locked l id ≡ some p = ground (arith, ==_iff id j) in
          subst P same (h p here)
      | inr miss ↦ all j q (ground (arith, find-modify l id j f))
    ]
  ]

  module _ (v : Virtuals E) where
    -- Kept by what happens to an IROB in the lattice, and true of a placeholder.
    pub record Closed : Type 0 where
      pub dependent : (a : ℕ) (p : Irob E) → P p → P (add_dependent a p)
      pub satisfied : (a : ℕ) (p : Irob E) → P p → P (dep_satisfied a p)
      pub removed : (f : ℕ → Bool) (p : Irob E) → P p → P (remove_deps_if f p)
      pub fresh : (d : ℕ) → P (placeholder_irob d v.fresh)

    pub placed-Every :
        (l : Lattice E) (p : Irob E)
        → P (merged v p (find_locked l p.id))
        → Every l
        → Every (placed v l p)
    placed-Every l p h all j q e = elim (Bool-cases (p.id == j)) [
      | inl hit ↦
          let same : merged v p (find_locked l p.id) ≡ q = ground (arith, find-placed v l p j) in
          subst P same h
      | inr miss ↦ all j q (ground (arith, find-placed v l p j))
    ]

    module _ (c : Closed) where
      placeholder-alone :
          (l : Lattice E) (d : ℕ)
          → find_locked l d ≡ none
          → find_locked l (placeholder_irob d v.fresh).id ≡ none
      unfolding placeholder_irob
      placeholder-alone l d h = h

      link_one-Every :
          (l : Lattice E) (id d : ℕ)
          → Every l
          → (m : Lattice E) → link_one v l id d ≡ some m
          → Every m
      unfolding link_one
      link_one-Every l id d all m e = elim (Bool-cases (is_past l d)) [
        | inl past ↦ let same : l ≡ m = ground arith in subst Every same all
        | inr open_ ↦ elim (Option-cases (find_locked l d)) [
          | inr (q, found) ↦
              let same : modify l d (add_dependent id) ≡ m = ground arith in
              subst Every same
                (modify-Every l d (add_dependent id) (λ p ep. c.dependent id p (all d p ep)) all)
          | inl free ↦
              let p = placeholder_irob d v.fresh in
              let l' = placed v l p in
              let same : modify l' d (add_dependent id) ≡ m =
                ground (arith, place_lem v l p (placeholder-Fits v l d open_ free)) in
              let alone : find_locked l p.id ≡ none = placeholder-alone l d free in
              let all' = placed-Every l p (rw alone (c.fresh d)) all in
              subst Every same
                (modify-Every l' d (add_dependent id) (λ q eq. c.dependent id q (all' d q eq)) all')
        ]
      ]

      link-Every :
          (l : Lattice E) (id : ℕ) (ds : IdSet)
          → Every l
          → (m : Lattice E) → link v l id ds ≡ some m
          → Every m
      unfolding link
      link-Every l id [] all m e = let same : l ≡ m = ground arith in subst Every same all
      link-Every l id (d ∷ ds) all m e =
          let (l', e', g, h) = link_one_lem v l id d in
          link-Every l' id ds (link_one-Every l id d all l' e') m (ground arith)

      resolved-Every : (l : Lattice E) (p : Irob E) → Every l → P p → Every (resolved l p false)
      unfolding correct_deps
      resolved-Every l p all h =
          modify-Every l p.id (λ _. remove_deps_if (is_past l) (remove_deps_if (is_past l) p))
            (λ _ _.
              c.removed (is_past l) (remove_deps_if (is_past l) p) (c.removed (is_past l) p h))
            all

      pub insert-Every :
          (l : Lattice E) (p : Irob E)
          → IsValid l
          → p.placeholder ≡ false
          → P (merged v p (find_locked l p.id))
          → Every l
          → (l' : Lattice E) → insert_locked v l p false ≡ some (l', true)
          → Every l'
      unfolding insert_locked settle
      insert-Every l p w real h all l' e = elim (Fits-of_not v l p false w real) [
        | inl away ↦ absurd (ground (arith, place_refused v l p away))
        | inr f ↦
            let l1 = placed v l p in
            let q = merged v p (find_locked l p.id) in
            let found = placed-found_self v l p false in
            let r = correct_deps l1 q false in
            let (m, em, g, links) = link_lem v (resolved l1 q false) q.id r.1.deps in
            let same : record m { count = increment m.count } ≡ l' =
              ground (arith, place_lem v l p f, em, found, merged-id v p (find_locked l p.id)) in
            let all_m =
              link-Every (resolved l1 q false) q.id r.1.deps
                (resolved-Every l1 q (placed-Every l p h all) h) m em in
            subst Every same (λ j x ex. all_m j x (sym (find-count m (increment m.count) j) ∙ ex))
      ]

      pub erase-Every :
          (l l' : Lattice E) (id : ℕ) (victim : Irob E)
          → Erased l id true victim l'
          → ((j : ℕ) (p : Irob E) → j ≢ id → find_locked l j ≡ some p → P p)
          → Every l'
      erase-Every l l' id victim n all j q e = elim (Bool-cases (id == j)) [
        | inl hit ↦ absurd (ground (arith, n.gone, ==_iff id j))
        | inr miss ↦ elim (Option-cases (find_locked l j)) [
          | inl en ↦ absurd (ground (arith, n.others j (λ h. absurd (ground (arith, ==_iff id j)))))
          | inr (p, ep) ↦
              let other : j ≢ id = λ h. absurd (ground (arith, ==_iff id j)) in
              let at = n.others j other in
              elim (Bool-cases (has victim.dependents j)) [
                | inl told ↦
                    let same : dep_satisfied id p ≡ q = ground arith in
                    subst P same (c.satisfied id p (all j p other ep))
                | inr quiet ↦ all j q other (ground arith)
              ]
        ]
      ]
