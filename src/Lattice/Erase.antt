-- ===== src/Lattice/Erase.antt =====
-- What `erase_locked` comes to, at the sender and at the receiver.
use libcmm.Prelude.{
  ℕ, ◌≡◌, refl, ap, ◌∙◌, ◌≢◌, ◌⊎◌, inl, inr, Bool, true, false, ◌||◌, ◌&&◌, Option, none, some, [],
  pos, ◌∷◌, arith, ◌==◌, if◌then◌else◌, Option-cases, ==_iff, ==_refl,
}
use mathlib.Core.Option
use libcmm.IntSet
use libcmm.IntSet.Laws.{contains-insert}
use libcmm.IdSet.{IdSet, has, has-nil, has-cons, erase, erase-erase}
use libcmm.Irob.{Irob, dep_satisfied}
use libcmm.Lattice.{Lattice, find_locked, modify, is_past, unlink, notify, erase_locked, decrement}
use libcmm.Lattice.View.{find-modify, find-unlink}
use libcmm.Lattice.Place.{SameRest, modify-SameRest}
use libcmm.Lattice.Insert.{find-count}

module _ {E : Type 0} where
  dep_satisfied_twice :
      (a : ℕ) (p : Irob E) → dep_satisfied a (dep_satisfied a p) ≡ dep_satisfied a p
  unfolding dep_satisfied
  dep_satisfied_twice a p = ground (arith, erase-erase a p.deps)

  map-map_satisfied :
      (a : ℕ) (o : Option (Irob E))
      → Option.map (dep_satisfied a) (Option.map (dep_satisfied a) o)
        ≡ Option.map (dep_satisfied a) o
  map-map_satisfied a none = refl
  map-map_satisfied a (some p) = ap some (dep_satisfied_twice a p)

  -- The dependents that are told lose the dependency, and no other IROB changes.
  find-notify :
      (l : Lattice E) (id : ℕ) (ds : IdSet) (j : ℕ)
      → find_locked (notify l id ds) j
        ≡ (if has ds j then Option.map (dep_satisfied id) (find_locked l j) else find_locked l j)
  unfolding notify
  find-notify l id [] j = ground (arith, has-nil j)
  find-notify l id (d ∷ ds) j = ground (
    arith,
    find-notify (modify l d (dep_satisfied id)) id ds j,
    find-modify l d j (dep_satisfied id),
    has-cons d ds j,
    map-map_satisfied id (find_locked l j),
  )

  notify-SameRest : (l : Lattice E) (id : ℕ) (ds : IdSet) → SameRest l (notify l id ds)
  unfolding notify
  notify-SameRest l id [] = ground arith
  notify-SameRest l id (d ∷ ds) = ground (
    arith,
    modify-SameRest l d (dep_satisfied id),
    notify-SameRest (modify l d (dep_satisfied id)) id ds,
  )

  -- The outcome of a successful `erase_locked`.
  pub record Erased (l : Lattice E) (id : ℕ) (at_receiver : Bool) (victim : Irob E) (l' : Lattice E)
      : Type 0 where
    pub gone : find_locked l' id ≡ none
    pub others :
        (j : ℕ)
        → j ≢ id
        → find_locked l' j ≡ (
            if at_receiver && has victim.dependents j
            then Option.map (dep_satisfied id) (find_locked l j)
            else find_locked l j)
    pub past : (j : ℕ) → is_past l' j ≡ ((id == j) || is_past l j)
    pub doms :
        l'.min_dominator_set
        ≡ (if at_receiver then erase id l.min_dominator_set else l.min_dominator_set)
    pub anon : l'.last_anon_irob_id ≡ l.last_anon_irob_id
    pub dropped : l'.dropped_irobs ≡ l.dropped_irobs
    pub counted : l'.count ≡ decrement l.count

  unlink-past :
      (l : Lattice E) (id : ℕ) (r : Bool) (j : ℕ)
      → is_past (unlink l id r) j ≡ ((id == j) || is_past l j)
  unfolding unlink
  unlink-past l id r j = ground (arith, contains-insert l.past_irobs (pos id) (pos j))

  past_of_same :
      (l l' : Lattice E) (j : ℕ) → l'.past_irobs ≡ l.past_irobs → is_past l' j ≡ is_past l j
  past_of_same l l' j e = ap (λ (t : IntSet.IntSet). IntSet.contains t (pos j)) e

  told : Lattice E → ℕ → Bool → Irob E → Lattice E
  told l id r victim = if r then notify (unlink l id r) id victim.dependents else unlink l id r

  told-SameRest :
      (l : Lattice E) (id : ℕ) (r : Bool) (victim : Irob E)
      → SameRest (unlink l id r) (told l id r victim)
  unfolding told
  told-SameRest l id r victim = ground (arith, notify-SameRest (unlink l id r) id victim.dependents)

  find-told :
      (l : Lattice E) (id : ℕ) (r : Bool) (victim : Irob E) (j : ℕ)
      → find_locked l id ≡ some victim
      → find_locked (told l id r victim) j ≡ (
          if id == j
          then none
          else if r && has victim.dependents j
          then Option.map (dep_satisfied id) (find_locked l j)
          else find_locked l j)
  unfolding told
  find-told l id r victim j e =
      ground (arith, find-notify (unlink l id r) id victim.dependents j, find-unlink l id j r e)

  unlink-rest :
      (l : Lattice E) (id : ℕ) (r : Bool)
      → ((unlink l id r).min_dominator_set
          ≡ (if r then erase id l.min_dominator_set else l.min_dominator_set))
        × ((unlink l id r).last_anon_irob_id ≡ l.last_anon_irob_id)
        × ((unlink l id r).dropped_irobs ≡ l.dropped_irobs)
  unfolding unlink
  unlink-rest l id r = (refl, refl, refl)

  -- Erasing an id that is not pending returns false and changes nothing. Otherwise the call returns
  -- true, the id is past and no longer pending, every other id is past exactly if it was, and the
  -- other IROBs stay as they are, but that at the receiver those listed as dependents lose this one
  -- dependency.
  pub erase_locked_outcome :
      (l : Lattice E) (id : ℕ) (at_receiver : Bool)
      → ((find_locked l id ≡ none) × (erase_locked l id at_receiver ≡ (l, false)))
        ⊎ ((victim : Irob E) × (l' : Lattice E) × (find_locked l id ≡ some victim)
            × (erase_locked l id at_receiver ≡ (l', true))
            × Erased l id at_receiver victim l')
  unfolding erase_locked told
  erase_locked_outcome l id r = elim (Option-cases (find_locked l id)) [
    | inl e ↦ inl (e, ground arith)
    | inr (victim, e) ↦
        let m = told l id r victim in
        let n = decrement l.count in
        let s = told-SameRest l id r victim in
        let u = unlink-rest l id r in
        inr (
          victim,
          record m { count = n },
          e,
          ground arith,
          record {
            gone = find-count m n id ∙ ground (arith, find-told l id r victim id e, ==_refl id);
            others = λ j other.
                find-count m n j ∙ ground (arith, find-told l id r victim j e, ==_iff id j);
            past = λ j. past_of_same (unlink l id r) m j s.same_past ∙ unlink-past l id r j;
            doms = s.same_doms ∙ u.0;
            anon = s.same_anon ∙ u.1;
            dropped = s.same_dropped ∙ u.2;
            counted = refl;
          },
        )
  ]
