-- ===== src/Lattice/Arrival.antt =====
-- What an insertion without inference, as at the receiver, leaves of the data of the IROBs.
use libcmm.Prelude.{
  ℕ, ◌≡◌, ◌≢◌, refl, sym, ap, ◌∙◌, ◌⊎◌, inl, inr, true, false, none, some, arith, ◌==◌, Bool-cases,
  Option-cases, ==_iff, ==_refl,
}
use libcmm.Irob.{Irob, Virtuals, placeholder_irob, remove_deps_if}
use libcmm.Lattice.{Lattice, find_locked, is_past, correct_deps, insert_locked, settle, increment}
use libcmm.Lattice.Place.{
  modify-SameRest, merged, placed, placed-SameRest, place_lem, place_refused,
}
use libcmm.Lattice.Growth.{placeholder-Fits, Grown, link_lem, is_past-same}
use libcmm.Lattice.Insert.{find-count, find-resolved, resolved, merged-id}
use libcmm.Lattice.Invariant.{IsValid}
use libcmm.Lattice.Outcome.{Fits-of_not, placed-found_self, find-resolved-placed}

module _ {E : Type 0} (v : Virtuals E) where
  pub record Arrival (l : Lattice E) (p : Irob E) (l' : Lattice E) : Type 0 where
    pub there : Irob E
    pub found : find_locked l' p.id ≡ some there
    pub its_chunks : there.chunks ≡ (merged v p (find_locked l p.id)).chunks
    pub its_complete : there.complete ≡ (merged v p (find_locked l p.id)).complete
    pub its_ext : there.ext ≡ (merged v p (find_locked l p.id)).ext
    pub others :
        (j : ℕ) (q : Irob E)
        → find_locked l' j ≡ some q
        → j ≢ p.id
        → ((x : Irob E) × (find_locked l j ≡ some x) × Grown x q)
          ⊎ ((find_locked l j ≡ none)
              × (is_past l j ≡ false)
              × Grown (placeholder_irob j v.fresh) q)
    pub stay : (j : ℕ) → find_locked l' j ≡ none → find_locked l j ≡ none

  correct_deps-data :
      (l : Lattice E) (p : Irob E)
      → ((correct_deps l p false).1.chunks ≡ p.chunks)
        × ((correct_deps l p false).1.complete ≡ p.complete)
        × ((correct_deps l p false).1.ext ≡ p.ext)
        × ((correct_deps l p false).0 ≡ l)
  unfolding correct_deps remove_deps_if
  correct_deps-data l p = (refl, refl, refl, refl)

  pub insert-Arrival :
      (l l' : Lattice E) (p : Irob E)
      → IsValid l
      → p.placeholder ≡ false
      → insert_locked v l p false ≡ some (l', true)
      → Arrival l p l'
  unfolding insert_locked settle correct_deps
  insert-Arrival l l' p w real e = elim (Fits-of_not v l p false w real) [
    | inl away ↦ absurd (ground (arith, place_refused v l p away))
    | inr f ↦
        let l1 = placed v l p in
        let q = merged v p (find_locked l p.id) in
        let found = placed-found_self v l p false in
        let r = correct_deps l1 q false in
        let (m, em, g, links) = link_lem v (resolved l1 q false) q.id r.1.deps in
        let same : record m { count = increment m.count } ≡ l' =
          ground (arith, place_lem v l p f, em, found, merged-id v p (find_locked l p.id)) in
        let here : find_locked (resolved l1 q false) p.id ≡ some r.1 = ground (
          arith,
          find-resolved l1 q false p.id found,
          ==_refl p.id,
          merged-id v p (find_locked l p.id),
        ) in
        let (x, ex, gx) = g.old p.id r.1 here in
        let at =
          λ (j : ℕ). ap (λ z. find_locked z j) (sym same) ∙ find-count m (increment m.count) j in
        let d = correct_deps-data l1 q in
        let gone = λ (j : ℕ).
          is_past-same l1 (resolved l1 q false) j (modify-SameRest l1 q.id (λ _. r.1))
          ∙ is_past-same l l1 j (placed-SameRest v l p) in
        record {
          there = x;
          found = at p.id ∙ ex;
          its_chunks = gx.same_chunks ∙ d.0;
          its_complete = gx.same_complete ∙ d.1;
          its_ext = gx.same_ext ∙ d.2;
          others = λ j y ey other.
              let back = find-resolved-placed v l p false j other in
              elim (g.new j y (sym (at j) ∙ ey)) [
                | inl (z, ez, gz) ↦ inl (z, sym back ∙ ez, gz)
                | inr (free, pl, id', open_, gz) ↦ inr (sym back ∙ free, sym (gone j) ∙ open_, gz)
              ];
          stay = λ j ey. elim (Option-cases (find_locked l j)) [
            | inl free ↦ free
            | inr (y, ey') ↦ elim (Bool-cases (p.id == j)) [
              | inl hit ↦ absurd (ground (arith, at p.id, ==_iff p.id j))
              | inr miss ↦
                  let other : j ≢ p.id = λ h. absurd (ground (arith, ==_iff p.id j)) in
                  let (z, ez, gz) = g.old j y (find-resolved-placed v l p false j other ∙ ey') in
                  absurd (ground (arith, at j))
            ]
          ];
        }
  ]

  -- A placeholder fits where nothing is pending or past.
  pub insert_placeholder_lem :
      (l : Lattice E) (id : ℕ)
      → is_past l id ≡ false
      → find_locked l id ≡ none
      → insert_locked v l (placeholder_irob id v.fresh) false
        ≡ some (placed v l (placeholder_irob id v.fresh), true)
  unfolding insert_locked placeholder_irob
  insert_placeholder_lem l id open_ free =
      ground
        (arith, place_lem v l (placeholder_irob id v.fresh) (placeholder-Fits v l id open_ free))
