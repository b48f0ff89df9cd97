-- ===== src/Lattice/Dominance.antt =====
-- What `correct_deps` keeps of the order at the sender.
use libcmm.Prelude.{
  ℕ, ◌≡◌, refl, sym, ap, subst, inl, inr, true, false, Option, some, List, [], ◌∷◌, arith, ◌==◌,
  Bool-cases, ==_iff, ==_refl,
}
use libcmm.IdSet.{
  IdSet, has, has-nil, insert, has-insert, intersection, has-intersection, erase_all, has-erase_all,
}
use libcmm.Irob.{Irob}
use libcmm.Lattice.{dominate, follow_anon}
use libcmm.Lattice.Ordering.{
  Sent, IsIn, Depends, direct, older, Reaches, older-Reaches, then-Reaches, Dominated,
  anonymous-Depends, labelled-Depends, follow_anon-deps,
}

module _ {E : Type 0} (hs : List Sent) (p : Irob E) where
  pub anonymous-Dominated :
      (doms : IdSet) (last : Option ℕ) (q : Sent)
      → Dominated doms last hs
      → q.deps ≡ (dominate last doms p).deps
      → Dominated [] (some q.id) (q ∷ hs)
  anonymous-Dominated doms last q d e =
      let all = anonymous-Depends hs p doms last q d e in
      record {
        covered = λ s i. inr (q.id, refl, reach s i);
        anchored = λ a m is_last h. absurd (ground (arith, has-nil m));
        barrier = λ s i anon. (q.id, refl, reach s i);
        barriers = (λ s i which. all s i, d.barriers);
      }
    where
      reach : (s : Sent) → IsIn s (q ∷ hs) → Reaches (q ∷ hs) q.id s.id
      reach s (inl e) = inl (ap (λ (t : Sent). t.id) (sym e))
      reach s (inr i) = inr (anonymous-Depends hs p doms last q d e s i)

  pub labelled-Dominated :
      (doms : IdSet) (last : Option ℕ) (q : Sent)
      → Dominated doms last hs
      → q.id ≡ p.id
      → q.anonymous ≡ false
      → q.deps ≡ (follow_anon last (intersection p.deps doms) p).deps
      → Dominated (insert p.id (erase_all (intersection p.deps doms) doms)) last (q ∷ hs)
  labelled-Dominated doms last q d same_id quiet e =
      let isect = intersection p.deps doms in
      let doms' = insert p.id (erase_all isect doms) in
      let own : has doms' p.id ≡ true =
        ground (arith, has-insert p.id (erase_all isect doms) p.id, ==_refl p.id) in
      let to_last : (a : ℕ) → last ≡ some a → Depends (q ∷ hs) p.id a = λ a is_last.
        subst (λ k. Depends (q ∷ hs) k a) same_id
          (labelled-Depends hs p doms a last isect q d is_last (has-intersection p.deps doms) e) in
      record {
        covered = λ s i. elim i [
          | inl s_q ↦ inl (p.id, own, inl (ground arith))
          | inr i' ↦ elim (d.covered s i') [
            | inr (a, is_last, r) ↦ inr (a, is_last, older-Reaches q r)
            | inl (m, dom, r) ↦ elim (Bool-cases (has isect m)) [
              | inr out ↦ inl (
                m,
                ground
                    (arith, has-insert p.id (erase_all isect doms) m, has-erase_all isect doms m),
                older-Reaches q r,
              )
              | inl both ↦
                  let dep : has p.deps m ≡ true = ground (arith, has-intersection p.deps doms m) in
                  let step : Depends (q ∷ hs) q.id m =
                    direct q m (inl refl) (rw e (follow_anon-deps last isect p m dep)) in
                  inl (
                    p.id,
                    own,
                    inr (
                        subst (λ k. Depends (q ∷ hs) k s.id) same_id
                          (then-Reaches step (older-Reaches q r))),
                  )
            ]
          ]
        ];
        anchored = λ a m is_last h. elim (Bool-cases (p.id == m)) [
          | inl self ↦
              subst (λ k. Depends (q ∷ hs) k a) ((==_iff p.id m).0 self) (to_last a is_last)
          | inr other ↦ older q (
              d.anchored a m is_last (
                ground
                  (arith, has-insert p.id (erase_all isect doms) m, has-erase_all isect doms m)))
        ];
        barrier = λ s i anon. elim i [
          | inl s_q ↦ absurd (ground arith)
          | inr i' ↦ let (a, is_last, r) = d.barrier s i' anon in (a, is_last, older-Reaches q r)
        ];
        barriers = (
          λ s i which. elim which [
            | inl anon ↦ absurd (ground arith)
            | inr anon ↦
                let (a, is_last, r) = d.barrier s i anon in
                subst (λ k. Depends (q ∷ hs) k s.id) (sym same_id)
                  (then-Reaches (to_last a is_last) (older-Reaches q r))
          ],
          d.barriers,
        );
      }
