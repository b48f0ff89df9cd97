-- ===== src/Lattice/View.antt =====
-- The deque and its offset as a map from ids to IROBs: what `find` answers after each change.
use libcmm.Prelude.{
  ℕ, zero, suc, ◌+◌, ◌-◌, ◌≤◌, ◌<◌, ◌≡◌, refl, ◌∙◌, inl, inr, Bool, true, Option, none, some, List,
  [], ◌∷◌, ◌++◌, arith, ltb, ◌==◌, if◌then◌else◌, length, get_or, set, replicate, get_or-set,
  get_or-beyond, get_or-cons, get_or-append-replicate, length-append, length-replicate,
  Option-cases, ==_iff,
}
use mathlib.Core.Option
use libcmm.Irob.{Irob}
use libcmm.Lattice.{
  Lattice, find_locked, put_slot, modify, rebase, is_nil, push_nulls, grow_to, make_room, pop_nulls,
  unlink,
}

module _ {E : Type 0} where
  pub find_locked-get_or :
      (l : Lattice E) (id : ℕ)
      → find_locked l id
        ≡ (if ltb id l.offset then none else get_or l.pending_irobs (id - l.offset) none)
  unfolding find_locked
  find_locked-get_or l id = ground (arith, get_or-beyond l.pending_irobs (id - l.offset) none)

  -- The slot of an id that `find` finds exists.
  abbrev pub InRange : Lattice E → ℕ → Type 0
  InRange l id = (l.offset ≤ id) × (id - l.offset < length l.pending_irobs)

  find-InRange : (l : Lattice E) (id : ℕ) {p : Irob E} → find_locked l id ≡ some p → InRange l id
  unfolding find_locked
  find-InRange l id h = (ground arith, ground arith)

  pub find-put_slot :
      (l : Lattice E) (id j : ℕ) (p : Irob E)
      → InRange l id
      → find_locked (put_slot l id p) j ≡ (if id == j then some p else find_locked l j)
  unfolding put_slot
  find-put_slot l id j p (lo, hi) = ground (
    arith,
    find_locked-get_or (record l { pending_irobs = set l.pending_irobs (id - l.offset) (some p) })
        j,
    find_locked-get_or l j,
    get_or-set l.pending_irobs (id - l.offset) (j - l.offset) (some p) none hi,
  )

  find-modify-some :
      (l : Lattice E) (id j : ℕ) (f : Irob E → Irob E) (p : Irob E)
      → find_locked l id ≡ some p
      → find_locked (modify l id f) j ≡ (if id == j then some (f p) else find_locked l j)
  unfolding modify
  find-modify-some l id j f p h = rw (h, modify) (find-put_slot l id j (f p) (find-InRange l id h))

  -- A change through a pointer shows at that id alone, and nowhere if the id is not pending.
  pub find-modify :
      (l : Lattice E) (id j : ℕ) (f : Irob E → Irob E)
      → find_locked (modify l id f) j
        ≡ (if id == j then Option.map f (find_locked l j) else find_locked l j)
  unfolding modify
  find-modify l id j f = elim (Option-cases (find_locked l id)) [
    | inl e ↦ rw (e, modify) (ground (arith, ==_iff id j))
    | inr (p, e) ↦ ground (arith, find-modify-some l id j f p e, ==_iff id j)
  ]

  -- Null slots in front and behind change no answer.
  find-push_nulls :
      (n : ℕ) (l : Lattice E) (j : ℕ)
      → n ≤ l.offset
      → find_locked (push_nulls n l) j ≡ find_locked l j
  unfolding push_nulls
  find-push_nulls zero l j h = refl
  find-push_nulls (suc n) l j h =
      let l' : Lattice E = record l {
        pending_irobs = none ∷ l.pending_irobs;
        offset = l.offset - 1;
      } in
      find-push_nulls n l' j (omega arith)
      ∙ ground (
        arith,
        find_locked-get_or l' j,
        find_locked-get_or l j,
        get_or-cons none l.pending_irobs (j - l'.offset) none,
      )

  offset-push_nulls : (n : ℕ) (l : Lattice E) → (push_nulls n l).offset ≡ l.offset - n
  unfolding push_nulls
  offset-push_nulls zero l = omega arith
  offset-push_nulls (suc n) l = omega (
    arith,
    offset-push_nulls n
        (record l { pending_irobs = none ∷ l.pending_irobs; offset = l.offset - 1 }),
  )

  find-grow_to : (l : Lattice E) (i j : ℕ) → find_locked (grow_to l i) j ≡ find_locked l j
  unfolding grow_to
  find-grow_to l i j = ground (
    arith,
    find_locked-get_or
        (record l {
          pending_irobs = l.pending_irobs ++ replicate (i + 1 - length l.pending_irobs) none;
        })
        j,
    find_locked-get_or l j,
    get_or-append-replicate l.pending_irobs (i + 1 - length l.pending_irobs) (j - l.offset) none,
  )

  lt-length-grow_to : (l : Lattice E) (i : ℕ) → i < length (grow_to l i).pending_irobs
  unfolding grow_to
  lt-length-grow_to l i = ground (
    arith,
    length-append l.pending_irobs (replicate (i + 1 - length l.pending_irobs) none),
    length-replicate {A = Option (Irob E)} (i + 1 - length l.pending_irobs) none,
  )

  offset-grow_to : (l : Lattice E) (i : ℕ) → (grow_to l i).offset ≡ l.offset
  unfolding grow_to
  offset-grow_to l i = ground arith

  pub find-make_room : (l : Lattice E) (id j : ℕ) → find_locked (make_room l id) j ≡ find_locked l j
  unfolding make_room
  find-make_room l id j =
      find-grow_to (push_nulls (l.offset - id) l) _ j
      ∙ find-push_nulls (l.offset - id) l j (omega arith)

  pub make_room-InRange : (l : Lattice E) (id : ℕ) → InRange (make_room l id) id
  unfolding make_room
  make_room-InRange l id =
      let l' = push_nulls (l.offset - id) l in
      (
        omega (arith, offset-push_nulls (l.offset - id) l, offset-grow_to l' (id - l'.offset)),
        omega (arith, offset-grow_to l' (id - l'.offset), lt-length-grow_to l' (id - l'.offset)),
      )

  get_or_of_nil : (ss : List (Option (Irob E))) (i : ℕ) → is_nil ss ≡ true → get_or ss i none ≡ none
  unfolding is_nil
  get_or_of_nil [] i h = refl
  get_or_of_nil (s ∷ ss) i h = absurd (ground arith)

  pub find-rebase : (l : Lattice E) (id j : ℕ) → find_locked (rebase l id) j ≡ find_locked l j
  unfolding rebase
  find-rebase l id j = ground (
    arith,
    find_locked-get_or (record l { offset = id }) j,
    find_locked-get_or l j,
    get_or_of_nil l.pending_irobs (j - id),
    get_or_of_nil l.pending_irobs (j - l.offset),
  )

  find-pop_nulls :
      (ss : List (Option (Irob E))) (o j : ℕ)
      → (if ltb j (pop_nulls ss o).1
          then none
          else get_or (pop_nulls ss o).0 (j - (pop_nulls ss o).1) none)
        ≡ (if ltb j o then none else get_or ss (j - o) none)
  unfolding pop_nulls
  find-pop_nulls [] o j = refl
  find-pop_nulls (some p ∷ ss) o j = refl
  find-pop_nulls (none ∷ ss) o j =
      find-pop_nulls ss (o + 1) j ∙ ground (arith, get_or-cons none ss (j - o) none)

  -- Taking an IROB out empties its slot and no other, whatever null slots go with it.
  pub find-unlink :
      (l : Lattice E) (id j : ℕ) (r : Bool) {p : Irob E}
      → find_locked l id ≡ some p
      → find_locked (unlink l id r) j ≡ (if id == j then none else find_locked l j)
  unfolding unlink
  find-unlink l id j r h =
      let ss = set l.pending_irobs (id - l.offset) none in
      let range = find-InRange l id h in
      find_locked-get_or (unlink l id r) j
      ∙ find-pop_nulls ss l.offset j
      ∙ ground (
        arith,
        find_locked-get_or l j,
        get_or-set l.pending_irobs (id - l.offset) (j - l.offset) none none range.1,
      )
