-- ===== src/Lattice/Outcome.antt =====
-- The outcome of `insert_locked` for a real IROB.
use libcmm.Prelude.{
  ℕ, ◌≡◌, refl, sym, ◌∙◌, ◌≢◌, ◌⊎◌, inl, inr, Bool, true, false, some, arith, Bool-cases,
  Option-cases, ==_iff, ==_refl,
}
use libcmm.IdSet.{has}
use libcmm.Irob.{Irob, Virtuals}
use libcmm.Lattice.{Lattice, find_locked, is_past, correct_deps, insert_locked, increment}
use libcmm.Lattice.Place.{
  modify-SameRest, merged, Fits, placed, find-placed, placed-SameRest, place_lem, place_refused,
}
use libcmm.Lattice.Growth.{Grown, Grows, Linked}
use libcmm.Lattice.Insert.{
  resolved, find-resolved, find-count, Alike, correct_deps-Agree, merged-id, merged-deps,
  merged-anonymous, merged-placeholder, placed-ValidBut, settle_lem, settle-IsValid,
}
use libcmm.Lattice.Invariant.{IsValid, correct_deps-Corrected}

module _ {E : Type 0} where
  -- The outcome of a successful insertion.
  pub record Inserted (l : Lattice E) (p : Irob E) (infer : Bool) (l' : Lattice E) : Type 0 where
    pub valid : IsValid l'
    pub there :
        (q : Irob E) × (find_locked l' p.id ≡ some q)
        × (q.deps ≡ (correct_deps l p infer).1.deps)
        × (q.placeholder ≡ false)
    pub kept :
        (j : ℕ) (q : Irob E)
        → find_locked l j ≡ some q
        → j ≢ p.id
        → (q' : Irob E) × (find_locked l' j ≡ some q') × Grown q q'
    pub origin :
        (j : ℕ) (q' : Irob E)
        → find_locked l' j ≡ some q'
        → j ≢ p.id
        → ((q : Irob E) × (find_locked l j ≡ some q) × Grown q q') ⊎ (q'.placeholder ≡ true)
    pub doms : l'.min_dominator_set ≡ (correct_deps l p infer).0.min_dominator_set
    pub anon : l'.last_anon_irob_id ≡ (correct_deps l p infer).0.last_anon_irob_id
    pub past : l'.past_irobs ≡ l.past_irobs
    pub dropped : l'.dropped_irobs ≡ l.dropped_irobs

module _ {E : Type 0} (v : Virtuals E) (l : Lattice E) (p : Irob E) (infer : Bool) where
  abbrev real_of : Irob E
  real_of = merged v p (find_locked l p.id)

  pub placed-found : find_locked (placed v l p) p.id ≡ some real_of
  placed-found = ground (arith, find-placed v l p p.id, ==_refl p.id)

  pub placed-found_self : find_locked (placed v l p) real_of.id ≡ some real_of
  placed-found_self = rw (merged-id v p (find_locked l p.id)) placed-found

  placed-Alike : Alike l (placed v l p) p real_of
  placed-Alike = record {
    rest = placed-SameRest v l p;
    same_id = merged-id v p (find_locked l p.id);
    same_deps = merged-deps v p (find_locked l p.id);
    same_anonymous = merged-anonymous v p (find_locked l p.id);
  }

  pub find-resolved-placed :
      (j : ℕ) → j ≢ p.id → find_locked (resolved (placed v l p) real_of infer) j ≡ find_locked l j
  find-resolved-placed j other = ground (
    arith,
    find-resolved (placed v l p) real_of infer j placed-found_self,
    find-placed v l p j,
    merged-id v p (find_locked l p.id),
    ==_iff p.id j,
  )

  -- The lattice after `place` and `settle`, read back.
  settled-Inserted :
      (m : Lattice E)
      → Fits v l p
      → IsValid l
      → p.placeholder ≡ false
      → Grows v.fresh (resolved (placed v l p) real_of infer) m
      → ((d : ℕ)
          → has (correct_deps (placed v l p) real_of infer).1.deps d ≡ true
          → Linked m real_of.id d)
      → Inserted l p infer (record m { count = increment m.count })
  settled-Inserted m f w real g links =
      let r = correct_deps (placed v l p) real_of infer in
      let c = correct_deps-Corrected (placed v l p) real_of infer in
      let a = correct_deps-Agree l (placed v l p) p real_of infer placed-Alike in
      let id' = merged-id v p (find_locked l p.id) in
      let here : find_locked (resolved (placed v l p) real_of infer) p.id ≡ some r.1 = ground (
        arith,
        find-resolved (placed v l p) real_of infer p.id placed-found_self,
        ==_refl p.id,
        id',
      ) in
      let (q, eq, grown) = g.old p.id r.1 here in
      let count' = λ (j : ℕ). find-count m (increment m.count) j in
      record {
        valid =
            settle-IsValid v (placed v l p) m real_of infer placed-found_self
              (rw id' (placed-ValidBut v l p f w)) g links;
        there = (
          q,
          count' p.id ∙ eq,
          grown.same_deps ∙ a.deps,
          grown.same_placeholder
              ∙ c.same_placeholder
              ∙ merged-placeholder v p (find_locked l p.id)
              ∙ real,
        );
        kept = λ j q e other.
            let (q', e', grown') = g.old j q (find-resolved-placed j other ∙ e) in
            (q', count' j ∙ e', grown');
        origin = λ j q' e other. elim (g.new j q' (sym (count' j) ∙ e)) [
          | inl (q, eq', grown') ↦ inl (q, sym (find-resolved-placed j other) ∙ eq', grown')
          | inr (free, pl, at, open_, made) ↦ inr pl
        ];
        doms = g.rest.same_doms ∙ (modify-SameRest r.0 real_of.id (λ _. r.1)).same_doms ∙ a.doms;
        anon = g.rest.same_anon ∙ (modify-SameRest r.0 real_of.id (λ _. r.1)).same_anon ∙ a.anon;
        past =
            g.rest.same_past
            ∙ (modify-SameRest r.0 real_of.id (λ _. r.1)).same_past
            ∙ c.same_past
            ∙ (placed-SameRest v l p).same_past;
        dropped =
            g.rest.same_dropped
            ∙ (modify-SameRest r.0 real_of.id (λ _. r.1)).same_dropped
            ∙ c.same_dropped
            ∙ (placed-SameRest v l p).same_dropped;
      }

  -- An IROB is turned away if its id is past or a real IROB of that id is pending.
  abbrev pub TurnedAway : Type 0
  TurnedAway =
      (is_past l p.id ≡ true)
      ⊎ ((old : Irob E) × (find_locked l p.id ≡ some old) × (old.placeholder ≡ false))

  pub Fits-of_not : IsValid l → p.placeholder ≡ false → TurnedAway ⊎ Fits v l p
  Fits-of_not w real = elim (Bool-cases (is_past l p.id)) [
    | inl past ↦ inl (inl past)
    | inr open_ ↦ elim (Option-cases (find_locked l p.id)) [
      | inl free ↦
          inr (record {
            not_past = open_;
            vacant = λ old e. absurd (ground arith);
            alone = λ _. free;
          })
      | inr (old, e) ↦ elim (Bool-cases old.placeholder) [
        | inr there ↦ inl (inr (old, e, there))
        | inl pl ↦ inr (record {
          not_past = open_;
          vacant = λ o eo.
              let same : old ≡ o = ground arith in (ground arith, rw (← same) (w.keyed p.id old e));
          alone = λ h. absurd (ground arith);
        })
      ]
    ]
  ]

  pub insert_refused : TurnedAway → insert_locked v l p infer ≡ some (l, false)
  unfolding insert_locked
  insert_refused away = rw (place_refused v l p away) refl

  -- Inserting a real IROB into a valid lattice meets no failed ASSERT. It returns false, and changes
  -- nothing, if the id is past or a real IROB of that id is pending. In any other case it returns
  -- true: the lattice is valid again, the IROB stands under its id with the dependencies that
  -- `correct_deps` gives, every other pending IROB keeps its dependencies and its dependents, and
  -- nothing else is new but placeholders.
  pub insert_locked_outcome :
      IsValid l
      → p.placeholder ≡ false
      → (TurnedAway × (insert_locked v l p infer ≡ some (l, false)))
        ⊎ ((l' : Lattice E) × (insert_locked v l p infer ≡ some (l', true)) × Inserted l p infer l')
  unfolding insert_locked
  insert_locked_outcome w real = elim (Fits-of_not w real) [
    | inl away ↦ inl (away, insert_refused away)
    | inr f ↦
        let (m, em, g, links) = settle_lem v (placed v l p) real_of infer placed-found_self in
        inr (
          record m { count = increment m.count },
          ground (arith, place_lem v l p f, em, merged-id v p (find_locked l p.id)),
          settled-Inserted m f w real g links,
        )
  ]
