-- ===== src/Lattice/Place.antt =====
-- `place`, the first part of an insertion: when it succeeds, and what `find` answers then.
use libcmm.Prelude.{
  ℕ, zero, suc, ◌-◌, ◌≡◌, refl, ◌∙◌, ◌⊎◌, inl, inr, true, false, Option, none, some, [], ◌∷◌, arith,
  ◌==◌, if◌then◌else◌, get_or, Option-cases, ==_iff,
}
use libcmm.Irob.{Irob, Virtuals}
use libcmm.Lattice.{
  Lattice, find_locked, put_slot, modify, rebase, is_nil, occupied, push_nulls, grow_to, make_room,
  store, place, is_past,
}
use libcmm.Lattice.View.{
  InRange, find_locked-get_or, find-put_slot, find-make_room, make_room-InRange, find-rebase,
}

-- All of a lattice but its deque.
pub record SameRest {E : Type 0} (l l' : Lattice E) : Type 0 where
  pub same_anon : l'.last_anon_irob_id ≡ l.last_anon_irob_id
  pub same_count : l'.count ≡ l.count
  pub same_doms : l'.min_dominator_set ≡ l.min_dominator_set
  pub same_past : l'.past_irobs ≡ l.past_irobs
  pub same_dropped : l'.dropped_irobs ≡ l.dropped_irobs

module _ {E : Type 0} where
  push_nulls-SameRest : (n : ℕ) (l : Lattice E) → SameRest l (push_nulls n l)
  unfolding push_nulls
  push_nulls-SameRest zero l = ground arith
  push_nulls-SameRest (suc n) l =
      let l' : Lattice E = record l {
        pending_irobs = none ∷ l.pending_irobs;
        offset = l.offset - 1;
      } in
      ground (arith, push_nulls-SameRest n l')

  rebase-SameRest : (l : Lattice E) (id : ℕ) → SameRest l (rebase l id)
  unfolding rebase
  rebase-SameRest l id = ground arith

  pub modify-SameRest : (l : Lattice E) (id : ℕ) (f : Irob E → Irob E) → SameRest l (modify l id f)
  unfolding modify put_slot
  modify-SameRest l id f = ground arith

  rebase_of_found :
      (l : Lattice E) (id : ℕ) {p : Irob E} → find_locked l id ≡ some p → rebase l id ≡ l
  unfolding rebase find_locked is_nil
  rebase_of_found l id h =
      elim (l.pending_irobs) as (λ ss. ss ≡ l.pending_irobs → rebase l id ≡ l) [
        | [] ↦ λ e. absurd (ground arith)
        | s ∷ ss ↦ λ e. ground arith
      ]
        refl

module _ {E : Type 0} (v : Virtuals E) where
  -- The IROB that stands in a slot after `place`.
  abbrev pub merged : Irob E → Option (Irob E) → Irob E
  merged p none = p
  merged p (some old) = v.absorb p old

  -- `p` may take its slot: the id is not past, and only a placeholder of that id stands there.
  pub record Fits (l : Lattice E) (p : Irob E) : Type 0 where
    pub not_past : is_past l p.id ≡ false
    pub vacant :
        (old : Irob E) → find_locked l p.id ≡ some old → (old.placeholder ≡ true) × (old.id ≡ p.id)
    pub alone : p.placeholder ≡ true → find_locked l p.id ≡ none

  pub placed : Lattice E → Irob E → Lattice E
  placed l p = put_slot (make_room (rebase l p.id) p.id) p.id (merged p (find_locked l p.id))

  pub find-placed :
      (l : Lattice E) (p : Irob E) (j : ℕ)
      → find_locked (placed l p) j
        ≡ (if p.id == j then some (merged p (find_locked l p.id)) else find_locked l j)
  unfolding placed
  find-placed l p j =
      let l' = rebase l p.id in
      ground (
        arith,
        find-put_slot (make_room l' p.id) p.id j (merged p (find_locked l p.id))
            (make_room-InRange l' p.id),
        find-make_room l' p.id j,
        find-rebase l p.id j,
      )

  pub placed-SameRest : (l : Lattice E) (p : Irob E) → SameRest l (placed l p)
  unfolding placed put_slot make_room grow_to
  placed-SameRest l p =
      let l' = rebase l p.id in
      ground (arith, rebase-SameRest l p.id, push_nulls-SameRest (l'.offset - p.id) l')

  get_or_of_InRange :
      (l : Lattice E) (id : ℕ)
      → InRange l id
      → get_or l.pending_irobs (id - l.offset) none ≡ find_locked l id
  get_or_of_InRange l id (lo, hi) = ground (arith, find_locked-get_or l id)

  store_lem :
      (l : Lattice E) (p : Irob E)
      → InRange l p.id
      → ((old : Irob E)
          → find_locked l p.id ≡ some old
          → (old.placeholder ≡ true) × (old.id ≡ p.id))
      → (p.placeholder ≡ true → find_locked l p.id ≡ none)
      → store v l p ≡ some (put_slot l p.id (merged p (find_locked l p.id)), true)
  unfolding store
  store_lem l p range vacant alone = elim (Option-cases (find_locked l p.id)) [
    | inl e ↦ ground (arith, get_or_of_InRange l p.id range)
    | inr (old, e) ↦
        ground (arith, get_or_of_InRange l p.id range, vacant old e, ==_iff old.id p.id)
  ]

  -- The insertion of an IROB that fits succeeds.
  pub place_lem : (l : Lattice E) (p : Irob E) → Fits l p → place v l p ≡ some (placed l p, true)
  unfolding place placed occupied
  place_lem l p f =
      let l' = rebase l p.id in
      let room = make_room l' p.id in
      let same : find_locked room p.id ≡ find_locked l p.id =
        find-make_room l' p.id p.id ∙ find-rebase l p.id p.id in
      let stored =
        store_lem room p (make_room-InRange l' p.id) (λ old e. f.vacant old (rw (← same) e))
          (λ e. rw same (f.alone e)) in
      elim (Option-cases (find_locked l p.id)) [
        | inl e ↦ ground (arith, f.not_past, find-rebase l p.id p.id, stored, same)
        | inr (old, e) ↦
            ground (arith, f.not_past, find-rebase l p.id p.id, stored, same, f.vacant old e)
      ]

  -- An IROB that is past or is there already is refused, and nothing changes.
  pub place_refused :
      (l : Lattice E) (p : Irob E)
      → (is_past l p.id ≡ true)
        ⊎ ((old : Irob E) × (find_locked l p.id ≡ some old) × (old.placeholder ≡ false))
      → place v l p ≡ some (l, false)
  unfolding place occupied
  place_refused l p (inl h) = ground arith
  place_refused l p (inr (old, e, real)) = ground (arith, rebase_of_found l p.id e)
