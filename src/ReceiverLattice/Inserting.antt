-- ===== src/ReceiverLattice/Inserting.antt =====
-- The invariant of the receiver's lattice through an insertion.
use libcmm.Prelude.{
  pos, [], ℕ, ◌≡◌, refl, sym, ap, ◌∙◌, subst, inl, inr, true, false, none, some, List, arith, ◌==◌,
  ==_iff, Bool-cases, Option-cases,
}
use libcmm.IntSet
use libcmm.IdSet.{IdSet, insert_all}
use libcmm.Irob.{placeholder_irob}
use libcmm.Lattice.{Lattice, find_locked, is_past, insert_locked}
use libcmm.Lattice.Erasure.{announce}
use libcmm.Lattice.Place.{merged, placed}
use libcmm.Lattice.Growth.{is_past-same, placeholder-Grows}
use libcmm.Lattice.Outcome.{Fits-of_not, insert_refused, Inserted, insert_locked_outcome}
use libcmm.Lattice.Every.{Every, placed-Every, insert-Every}
use libcmm.Lattice.Tracking.{Grows-Tracks}
use libcmm.Lattice.Tracks.{Tracks, arrive-Tracks}
use libcmm.Lattice.Arrival.{insert_placeholder_lem, Arrival, insert-Arrival}
use libcmm.ReceiverIrob.{Receiving, ReceiverIrob, new_receiver_irob}
use libcmm.ReceiverIrob.Virtual.{receiver_virtuals}
use libcmm.ReceiverLattice.{ReceiverLattice, make_placeholder}
use libcmm.ReceiverLattice.Sound.{Sound, Sound-Closed, placeholder-Sound, real_of_ready}
use libcmm.ReceiverLattice.Absorb.{absorb-Sound}
use libcmm.ReceiverLattice.Serving.{
  nobody, only, either, ServesBut, Serves, Moves, Moves-ServesBut, Held,
}
use libcmm.ReceiverLattice.Releasing.{change-ServesBut}
use libcmm.ReceiverLattice.Arriving.{Was-of_Grown}

merged-fresh :
    (l : Lattice Receiving) (id : ℕ)
    → find_locked l id ≡ none
    → Sound
        (merged receiver_virtuals (make_placeholder id) (find_locked l (make_placeholder id).id))
unfolding placeholder_irob
merged-fresh l id free = rw free (placeholder-Sound id)

pub placeholder-Serves :
    (a : ℕ → IdSet) (i : ReceiverLattice) (id : ℕ)
    → Serves a i
    → is_past i.irobs id ≡ false
    → find_locked i.irobs id ≡ none
    → (l : Lattice Receiving) × (insert_locked receiver_virtuals i.irobs (make_placeholder id) false
        ≡ some (l, true))
      × Serves a (record i { irobs = l })
placeholder-Serves a i id s open_ free =
    let l = placed receiver_virtuals i.irobs (make_placeholder id) in
    let g = placeholder-Grows receiver_virtuals i.irobs id open_ free in
    let sound =
      placed-Every Sound receiver_virtuals i.irobs (make_placeholder id)
        (merged-fresh i.irobs id free) s.sound in
    let moves : Moves i.irobs l nobody nobody = record {
      back = λ j q e. Was-of_Grown i.irobs false false j q (elim (g.new j q e) [
        | inl old ↦ inl old
        | inr (en, pl, same, open_, made) ↦ inr (en, open_, made)
      ]);
      gone = λ j e. elim (Option-cases (find_locked i.irobs j)) [
        | inl en ↦ inl en
        | inr (y, ey) ↦ let (z, ez, gz) = g.old j y ey in absurd (ground arith)
      ];
      past = λ j h. is_past-same i.irobs l j g.rest ∙ h;
    } in
    let held : Held l i.partially_read_irob = λ j e.
      let (y, ey, rel) = s.partial j e in
      let (z, ez, gz) = g.old j y ey in
      (z, ez, ap (λ (t : Receiving). t.released) gz.same_ext ∙ rel) in
    (
      l,
      insert_placeholder_lem receiver_virtuals i.irobs id open_ free,
      Moves-ServesBut a a nobody nobody nobody nobody nobody i l s
          (Grows-Tracks i.irobs l a g s.tracks) sound moves held,
    )

-- A placeholder is not released.
placeholder-Untouched : (p : ReceiverIrob) → Sound p → p.placeholder ≡ true → p.ext.released ≡ false
placeholder-Untouched p s pl = elim (Bool-cases p.ext.released) [
  | inr h ↦ h
  | inl h ↦ absurd (ground (arith, real_of_ready p (s.deliverable h).ready))
]

new-Sound : (id : ℕ) (deps : List ℕ) (labels : ℕ) → Sound (new_receiver_irob id deps labels)
unfolding new_receiver_irob
new-Sound id deps labels = record {
  untouched = λ e. record {
    slots = tt;
    unread = (refl, refl);
    recvd = refl;
    left = refl;
    wanted = λ h. absurd (ground arith);
  };
  deliverable = λ e. absurd (ground arith);
}

new-parts :
    (id : ℕ) (deps : List ℕ) (labels : ℕ)
    → ((new_receiver_irob id deps labels).id ≡ id)
      × ((new_receiver_irob id deps labels).placeholder ≡ false)
      × ((new_receiver_irob id deps labels).deps ≡ insert_all [] deps)
      × ((new_receiver_irob id deps labels).ext.released ≡ false)
unfolding new_receiver_irob
new-parts id deps labels = (refl, refl, refl, refl)

-- What the placeholder of a new IROB has gathered goes into it.
merged-Sound :
    (l : Lattice Receiving) (id : ℕ) (deps : List ℕ) (labels : ℕ)
    → Every Sound l
    → ((old : ReceiverIrob) → find_locked l id ≡ some old → old.placeholder ≡ true)
    → Sound (merged receiver_virtuals (new_receiver_irob id deps labels) (find_locked l id))
      × ((merged receiver_virtuals
            (new_receiver_irob id deps labels)
            (find_locked l id)).ext.released
          ≡ false)
merged-Sound l id deps labels sound only_placeholder = elim (Option-cases (find_locked l id)) [
  | inl free ↦ rw free (new-Sound id deps labels, (new-parts id deps labels).3)
  | inr (old, e) ↦
      let held = placeholder-Untouched old (sound id old e) (only_placeholder old e) in
      let u = (sound id old e).untouched held in rw e (absorb-Sound id deps labels old u)
]

announced-Tracks :
    (a : ℕ → IdSet) (p : ReceiverIrob) (id : ℕ) (ds : IdSet) (l : Lattice Receiving)
    → p.id ≡ id
    → p.deps ≡ ds
    → Tracks l (announce a p.id p.deps)
    → Tracks l (announce a id ds)
announced-Tracks a p id ds l e f t =
    subst (λ x. Tracks l (announce a id x)) f (subst (λ x. Tracks l (announce a x p.deps)) e t)

module _ (a : ℕ → IdSet) (i : ReceiverLattice) (s : Serves a i) (id : ℕ) (deps : List ℕ)
    (labels : ℕ) (l : Lattice Receiving)
    (inserts : insert_locked receiver_virtuals i.irobs (new_receiver_irob id deps labels) false
      ≡ some (l, true)) where
  abbrev p : ReceiverIrob
  p = new_receiver_irob id deps labels

  parts :
      (p.id ≡ id)
      × (p.placeholder ≡ false)
      × (p.deps ≡ insert_all [] deps)
      × (p.ext.released ≡ false)
  parts = new-parts id deps labels

  was_free :
      (is_past i.irobs id ≡ false)
      × ((old : ReceiverIrob) → find_locked i.irobs id ≡ some old → old.placeholder ≡ true)
  was_free = elim (Fits-of_not receiver_virtuals i.irobs p false s.tracks.valid parts.1) [
    | inl away ↦ absurd (ground (arith, insert_refused receiver_virtuals i.irobs p false away))
    | inr f ↦ (
      ap (λ j. is_past i.irobs j) (sym parts.0) ∙ f.not_past,
      λ old e. (f.vacant old (ap (λ j. find_locked i.irobs j) parts.0 ∙ e)).0,
    )
  ]

  grown : Inserted i.irobs p false l
  grown = elim (insert_locked_outcome receiver_virtuals i.irobs p false s.tracks.valid parts.1) [
    | inl (away, e) ↦ absurd (ground arith)
    | inr (m, e, n) ↦ let same : m ≡ l = ground arith in subst (Inserted i.irobs p false) same n
  ]

  arrival : Arrival receiver_virtuals i.irobs p l
  arrival = insert-Arrival receiver_virtuals i.irobs l p s.tracks.valid parts.1 inserts

  abbrev merged_irob : ReceiverIrob
  merged_irob = merged receiver_virtuals p (find_locked i.irobs p.id)

  merged_parts : Sound merged_irob × (merged_irob.ext.released ≡ false)
  merged_parts =
      subst
        (λ j.
          Sound (merged receiver_virtuals p (find_locked i.irobs j))
          × ((merged receiver_virtuals p (find_locked i.irobs j)).ext.released ≡ false))
        (sym parts.0) (merged-Sound i.irobs id deps labels s.sound was_free.1)

  inserted-Moves : Moves i.irobs l (only id) (only id)
  inserted-Moves = record {
    back = λ j q e. elim (Bool-cases (id == j)) [
      | inr miss ↦
          Was-of_Grown i.irobs (id == j) (id == j) j q
            (arrival.others j q e (λ h. absurd (ground (arith, parts.0, ==_iff id j))))
      | inl hit ↦
          let q_there : arrival.there ≡ q = ground (arith, arrival.found, parts.0, ==_iff id j) in
          let rel : q.ext.released ≡ false =
            ap (λ (t : ReceiverIrob). t.ext.released) (sym q_there)
            ∙ ap (λ (t : Receiving). t.released) arrival.its_ext
            ∙ merged_parts.1 in
          elim (Option-cases (find_locked i.irobs j)) [
            | inl free ↦
                inr (free, ground (arith, was_free.0, ==_iff id j), rel, λ h. absurd (ground arith))
            | inr (old, eo) ↦
                let here : find_locked i.irobs id ≡ some old = ground (arith, ==_iff id j) in
                let held = placeholder-Untouched old (s.sound j old eo) (was_free.1 old here) in
                inl (
                  old,
                  eo,
                  rel ∙ sym held,
                  (λ h. absurd (ground arith)),
                  λ h. absurd (ground arith),
                )
          ]
    ];
    gone = λ j e. inl (arrival.stay j e);
    past = λ j h. ap (λ t. IntSet.contains t (pos j)) grown.past ∙ h;
  }

  inserted-Held : Held l i.partially_read_irob
  inserted-Held j e =
      let (y, ey, rel) = s.partial j e in
      elim (Bool-cases (id == j)) [
        | inl hit ↦
            let here : find_locked i.irobs id ≡ some y = ground (arith, ==_iff id j) in
            absurd (ground (arith, placeholder-Untouched y (s.sound j y ey) (was_free.1 y here)))
        | inr miss ↦
            let (z, ez, gz) =
              grown.kept j y ey (λ h. absurd (ground (arith, parts.0, ==_iff id j))) in
            (z, ez, ap (λ (t : Receiving). t.released) gz.same_ext ∙ rel)
      ]

  -- All is in order but the new IROB, which may be due for release.
  pub inserted-ServesBut :
      ServesBut
        (announce a id (insert_all [] deps))
        (only id)
        (only id)
        nobody
        (record i { irobs = l })
  inserted-ServesBut =
      let a' = announce a id (insert_all [] deps) in
      let tracks = arrive-Tracks receiver_virtuals i.irobs l a p s.tracks parts.1 inserts in
      let tracks' : Tracks l a' =
        announced-Tracks a p id (insert_all [] deps) l parts.0 parts.2 tracks in
      let sound =
        insert-Every Sound receiver_virtuals Sound-Closed i.irobs p s.tracks.valid parts.1
          merged_parts.0 s.sound l inserts in
      let m =
        Moves-ServesBut a a' nobody nobody nobody (only id) (only id) i l s tracks' sound
          inserted-Moves inserted-Held in
      change-ServesBut a' (only id) (either nobody (either (only id) (only id))) nobody (only id)
        (only id) nobody (record i { irobs = l }) (λ j x e. ((λ h. h), (λ h. ground arith), λ h. h))
        m
