-- ===== src/ReceiverLattice/Arriving.antt =====
-- The invariant of the receiver's lattice when an IROB takes data or its end.
use libcmm.Prelude.{
  ℕ, ◌≡◌, refl, sym, ap, ◌∙◌, subst, ◌⊎◌, inl, inr, Bool, false, none, some, arith, ◌==◌, ==_iff,
  Bool-cases, Option-cases,
}
use libcmm.IdSet.{IdSet}
use libcmm.Irob.{is_ready, placeholder_irob}
use libcmm.Lattice.{Lattice, find_locked, modify, is_past}
use libcmm.Lattice.View.{find-modify}
use libcmm.Lattice.Place.{modify-SameRest}
use libcmm.Lattice.Growth.{Grown, is_past-same}
use libcmm.Lattice.Every.{modify-Every}
use libcmm.Lattice.Tracking.{SameNode, modify-Tracks}
use libcmm.ReceiverIrob.{Receiving, ReceiverIrob, fresh_receiving, is_complete}
use libcmm.ReceiverLattice.{ReceiverLattice}
use libcmm.ReceiverLattice.Sound.{Sound, is_complete-Same}
use libcmm.ReceiverLattice.Changes.{Fed}
use libcmm.ReceiverLattice.Serving.{
  nobody, only, either, ServesBut, Serves, Was, Moves, Moves-ServesBut, Held,
}
use libcmm.ReceiverLattice.Releasing.{change-ServesBut}

pub Grown-ready : (p q : ReceiverIrob) → Grown p q → is_ready q ≡ is_ready p
unfolding is_ready
Grown-ready p q g = rw (g.same_deps, g.same_placeholder) refl

placeholder_complete : (j : ℕ) → is_complete (placeholder_irob j fresh_receiving) ≡ some false
unfolding is_complete placeholder_irob
placeholder_complete j = refl

placeholder-held : (j : ℕ) → (placeholder_irob j fresh_receiving).ext.released ≡ false
unfolding placeholder_irob
placeholder-held j = refl

-- An IROB that has only grown, or a placeholder that is new.
pub Was-of_Grown :
    (l : Lattice Receiving) (fed later : Bool) (j : ℕ) (q : ReceiverIrob)
    → ((x : ReceiverIrob) × (find_locked l j ≡ some x) × Grown x q)
      ⊎ ((find_locked l j ≡ none)
          × (is_past l j ≡ false)
          × Grown (placeholder_irob j fresh_receiving) q)
    → Was l fed later j q
Was-of_Grown l fed later j q (inl (x, e, g)) = inl (
  x,
  e,
  ap (λ (t : Receiving). t.released) g.same_ext,
  (λ h. is_complete-Same x q g.same_chunks g.same_complete g.same_ext),
  λ h. Grown-ready x q g,
)
Was-of_Grown l fed later j q (inr (free, open_, g)) = inr (
  free,
  open_,
  ap (λ (t : Receiving). t.released) g.same_ext ∙ placeholder-held j,
  λ h.
      is_complete-Same (placeholder_irob j fresh_receiving) q g.same_chunks g.same_complete
        g.same_ext
      ∙ placeholder_complete j,
)

-- An IROB that is not released yet takes data or its end.
pub fed-ServesBut :
    (a : ℕ → IdSet) (i : ReceiverLattice) (id : ℕ) (p q : ReceiverIrob)
    → Serves a i
    → find_locked i.irobs id ≡ some p
    → Fed p q
    → ServesBut a (only id) (only id) nobody (record i { irobs = modify i.irobs id (λ _. q) })
fed-ServesBut a i id p q s found f =
    let l1 = modify i.irobs id (λ _. q) in
    let tracks =
      modify-Tracks i.irobs id (λ _. q)
        (λ x e.
          let same : p ≡ x = ground arith in
          subst (λ y. SameNode y q) same
            (record {
              same_id = f.same_id;
              same_deps = f.same_deps;
              same_dependents = f.same_dependents;
              same_placeholder = f.same_placeholder;
            }))
        a s.tracks in
    let sound = modify-Every Sound i.irobs id (λ _. q) (λ _ _. f.sound) s.sound in
    let at = λ (j : ℕ). find-modify i.irobs id j (λ _. q) in
    let moves : Moves i.irobs l1 (only id) (only id) = record {
      back = λ j x e. elim (Option-cases (find_locked i.irobs j)) [
        | inl en ↦ absurd (ground (arith, at j))
        | inr (y, ey) ↦ elim (Bool-cases (id == j)) [
          | inl hit ↦
              let q_x : q ≡ x = ground (arith, at j) in
              let p_y : p ≡ y = ground (arith, ==_iff id j) in
              inl (
                y,
                ey,
                ap (λ (t : ReceiverIrob). t.ext.released) (sym q_x)
                    ∙ f.same_released
                    ∙ ap (λ (t : ReceiverIrob). t.ext.released) p_y,
                (λ h. absurd (ground arith)),
                λ h. absurd (ground arith),
              )
          | inr miss ↦ inl (x, ground (arith, at j), refl, (λ h. refl), λ h. refl)
        ]
      ];
      gone = λ j e. inl (ground (arith, at j, Option-cases (find_locked i.irobs j)));
      past = λ j h. is_past-same i.irobs l1 j (modify-SameRest i.irobs id (λ _. q)) ∙ h;
    } in
    let held : Held l1 i.partially_read_irob = λ j e.
      let (y, ey, rel) = s.partial j e in
      elim (Bool-cases (id == j)) [
        | inl hit ↦
            let p_y : p ≡ y = ground (arith, ==_iff id j) in
            (
              q,
              ground (arith, at j),
              f.same_released ∙ ap (λ (t : ReceiverIrob). t.ext.released) p_y ∙ rel,
            )
        | inr miss ↦ (y, ground (arith, at j), rel)
      ] in
    let m =
      Moves-ServesBut a a nobody nobody nobody (only id) (only id) i l1 s tracks sound moves held in
    change-ServesBut a (only id) (either nobody (either (only id) (only id))) nobody (only id)
      (only id) nobody (record i { irobs = l1 }) (λ j x e. ((λ h. h), (λ h. ground arith), λ h. h))
      m
