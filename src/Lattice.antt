-- ===== src/Lattice.antt =====
-- PendingIROBLattice (pending_irob.h, pending_irob.cpp). A null slot of the deque is `none`; the
-- result of a call that may fail an ASSERT is an Option, `none` for the failure. The mutex is held
-- by every public call, so a call is one step. Ids lie within the range of `int` of one another,
-- which the cast of an index to `int` needs.
pub mod View
pub mod Place
pub mod Growth
pub mod Invariant
pub mod Insert
pub mod Outcome
pub mod Erase
pub mod Erasure
pub mod Tracks
pub mod Readiness
pub mod Chain
pub mod Drop
pub mod Ordering
pub mod Dominance
pub mod Sender
pub mod Every
pub mod Tracking
pub mod Arrival
mod Tests
use libcmm.Prelude.{
  ℕ, zero, suc, ◌+◌, ◌-◌, ◌%◌, ◌^◌, Bool, true, false, not, ◌||◌, Option, none, some, List, [], ◌∷◌,
  ◌++◌, pos, ltb, leb, ◌==◌, if◌then◌else◌, ◌>>=◌, length, get_or, set, replicate,
}
use libcmm.IntSet.{IntSet, empty_set}
use libcmm.IntSet
use libcmm.IdSet.{IdSet, insert, erase, insert_all, intersection, erase_all}
use libcmm.Irob.{
  Irob, Virtuals, placeholder_irob, add_dep, dep_satisfied, remove_deps_if, add_dependent,
}

-- The id -1 of "no anonymous IROB yet" is `none`.
pub record Lattice (E : Type 0) : Type 0 where
  pub pending_irobs : List (Option (Irob E))
  pub offset : ℕ
  pub last_anon_irob_id : Option ℕ
  pub count : ℕ
  pub min_dominator_set : IdSet
  pub past_irobs : IntSet
  pub dropped_irobs : IntSet

-- `++count` and `--count` on size_t
abbrev pub increment : ℕ → ℕ
increment n = (n + 1) % 2 ^ 64

abbrev pub decrement : ℕ → ℕ
decrement n = (n + 2 ^ 64 - 1) % 2 ^ 64

module _ {E : Type 0} where
  abbrev pub new_lattice : Lattice E
  new_lattice = record {
    pending_irobs = [];
    offset = 0;
    last_anon_irob_id = none;
    count = 0;
    min_dominator_set = [];
    past_irobs = empty_set;
    dropped_irobs = empty_set;
  }

  -- `past_irob_exists`
  abbrev pub is_past : Lattice E → ℕ → Bool
  is_past l id = IntSet.contains l.past_irobs (pos id)

  abbrev pub irob_was_dropped : Lattice E → ℕ → Bool
  irob_was_dropped l id = IntSet.contains l.dropped_irobs (pos id)

  unfoldable pub find_locked : Lattice E → ℕ → Option (Irob E)
  find_locked l id =
      if ltb id l.offset
      then none
      else if leb (length l.pending_irobs) (id - l.offset)
      then none
      else get_or l.pending_irobs (id - l.offset) none

  pub put_slot : Lattice E → ℕ → Irob E → Lattice E
  put_slot l id p = record l { pending_irobs = set l.pending_irobs (id - l.offset) (some p) }

  -- A change made to an IROB through a pointer to it.
  unfoldable pub modify : Lattice E → ℕ → (Irob E → Irob E) → Lattice E
  unfolding put_slot
  modify l id f = elim (find_locked l id) [ none ↦ l | some p ↦ put_slot l id (f p) ]

  pub is_nil : List (Option (Irob E)) → Bool
  is_nil [] = true
  is_nil (s ∷ ss) = false

  pub rebase : Lattice E → ℕ → Lattice E
  unfolding is_nil
  rebase l id = if is_nil l.pending_irobs then record l { offset = id } else l

  pub occupied : Option (Irob E) → Bool
  occupied none = false
  occupied (some q) = not q.placeholder

  -- `push_front` of a null and `--offset`, so many times
  pub push_nulls : ℕ → Lattice E → Lattice E
  push_nulls zero l = l
  push_nulls (suc n) l =
      push_nulls n (record l { pending_irobs = none ∷ l.pending_irobs; offset = l.offset - 1 })

  pub grow_to : Lattice E → ℕ → Lattice E
  grow_to l index =
      if leb (length l.pending_irobs) index
      then record l {
        pending_irobs = l.pending_irobs ++ replicate (index + 1 - length l.pending_irobs) none;
      }
      else l

  -- Both loops that make the slot of `id` exist.
  pub make_room : Lattice E → ℕ → Lattice E
  unfolding push_nulls grow_to
  make_room l id = let l' = push_nulls (l.offset - id) l in grow_to l' (id - l'.offset)

  -- With an anonymous IROB and nothing behind it the set is empty already, so its `clear` is moot.
  pub dominate : Option ℕ → IdSet → Irob E → Irob E
  dominate (some a) [] p = add_dep p a
  dominate (some a) (d ∷ ds) p = record p { deps = insert_all p.deps (d ∷ ds) }
  dominate none doms p = record p { deps = insert_all p.deps doms }

  -- What `p` depends on of the dominators depends on the last anonymous IROB already.
  pub follow_anon : Option ℕ → IdSet → Irob E → Irob E
  follow_anon (some a) [] p = add_dep p a
  follow_anon (some a) (d ∷ ds) p = p
  follow_anon none isect p = p

  pub infer_anonymous : Lattice E → Irob E → Lattice E × Irob E
  unfolding dominate
  infer_anonymous l p = (
    record l { min_dominator_set = []; last_anon_irob_id = some p.id },
    dominate l.last_anon_irob_id l.min_dominator_set p,
  )

  pub infer_labelled : Lattice E → Irob E → Lattice E × Irob E
  unfolding follow_anon
  infer_labelled l p =
      let isect = intersection p.deps l.min_dominator_set in
      (
        record l { min_dominator_set = insert p.id (erase_all isect l.min_dominator_set) },
        follow_anon l.last_anon_irob_id isect p,
      )

  -- At the receiver, `infer_deps` false, the satisfied dependencies go, twice over.
  unfoldable pub correct_deps : Lattice E → Irob E → Bool → Lattice E × Irob E
  unfolding infer_anonymous infer_labelled
  correct_deps l p infer_deps =
      if infer_deps
      then if p.anonymous then infer_anonymous l p else infer_labelled l p
      else (l, remove_deps_if (is_past l) (remove_deps_if (is_past l) p))

  pub pop_nulls : List (Option (Irob E)) → ℕ → List (Option (Irob E)) × ℕ
  pop_nulls [] offset = ([], offset)
  pop_nulls (none ∷ ss) offset = pop_nulls ss (offset + 1)
  pop_nulls (some p ∷ ss) offset = (some p ∷ ss, offset)

  -- The part of `erase_locked` before the dependents are told.
  pub unlink : Lattice E → ℕ → Bool → Lattice E
  unfolding pop_nulls
  unlink l id at_receiver =
      let (slots, offset) = pop_nulls (set l.pending_irobs (id - l.offset) none) l.offset in
      record l {
        pending_irobs = slots;
        offset = offset;
        past_irobs = IntSet.insert l.past_irobs (pos id);
        min_dominator_set =
            if at_receiver then erase id l.min_dominator_set else l.min_dominator_set;
      }

  pub notify : Lattice E → ℕ → IdSet → Lattice E
  notify l id [] = l
  notify l id (d ∷ ds) = notify (modify l d (dep_satisfied id)) id ds

  unfoldable pub erase_locked : Lattice E → ℕ → Bool → Lattice E × Bool
  unfolding unlink notify
  erase_locked l id at_receiver = elim (find_locked l id) [
    | none ↦ (l, false)
    | some victim ↦
        let l' = unlink l id at_receiver in
        let told = if at_receiver then notify l' id victim.dependents else l' in
        (record told { count = decrement l.count }, true)
  ]

  -- The loop of `drop_irob_and_dependents` over the queue of victims; `none` if the fuel runs out.
  pub drop_victims : ℕ → Lattice E → List ℕ → Option (Lattice E)
  drop_victims fuel l [] = some l
  drop_victims zero l (v ∷ vs) = none
  drop_victims (suc fuel) l (v ∷ vs) = elim (find_locked l v) [
    | none ↦ drop_victims fuel l vs
    | some p ↦
        let l' = (erase_locked l v false).0 in
        drop_victims fuel (record l' { dropped_irobs = IntSet.insert l'.dropped_irobs (pos v) })
          (vs ++ p.dependents)
  ]

  unfoldable pub slot_dependents : List (Option (Irob E)) → ℕ
  slot_dependents [] = 0
  slot_dependents (none ∷ ss) = slot_dependents ss
  slot_dependents (some p ∷ ss) = length p.dependents + slot_dependents ss

  pub drop_irob_and_dependents : Lattice E → ℕ → Option (Lattice E)
  unfolding drop_victims
  drop_irob_and_dependents l id = drop_victims (1 + slot_dependents l.pending_irobs) l (id ∷ [])

  pub get_oldest : Lattice E → Option (Option (Irob E))
  get_oldest l = elim l.pending_irobs [
    | [] ↦ some none
    | s ∷ ss ↦ elim s [ none ↦ none | some p ↦ some (some p) ]
  ]

  -- `get_all_ids`, by `for_each_by_ref`
  ids_of : List (Option (Irob E)) → List ℕ
  ids_of [] = []
  ids_of (none ∷ ss) = ids_of ss
  ids_of (some p ∷ ss) = p.id ∷ ids_of ss

  pub get_all_ids : Lattice E → List ℕ
  unfolding ids_of
  get_all_ids l = ids_of l.pending_irobs

  any_dropped : Lattice E → List ℕ → Bool
  any_dropped l [] = false
  any_dropped l (d ∷ ds) = irob_was_dropped l d || any_dropped l ds

  pub irob_is_undeliverable : Lattice E → Irob E → Bool
  unfolding any_dropped
  irob_is_undeliverable l p = any_dropped l p.deps

  -- `dropped_irobs` keeps its members.
  pub clear : Lattice E → Lattice E
  clear l = record l {
    pending_irobs = [];
    offset = 0;
    min_dominator_set = [];
    past_irobs = IntSet.clear l.past_irobs;
    last_anon_irob_id = none;
    count = 0;
  }

module _ {E : Type 0} (v : Virtuals E) where
  -- The slot of `p` exists. The test is that of the three ASSERTs.
  pub store : Lattice E → Irob E → Option (Lattice E × Bool)
  unfolding put_slot
  store l p = elim (get_or l.pending_irobs (p.id - l.offset) none) [
    | none ↦ some (put_slot l p.id p, true)
    | some old ↦
        if p.placeholder || (not old.placeholder || not (old.id == p.id))
        then none
        else some (put_slot l p.id (v.absorb p old), true)
  ]

  -- `insert_locked` up to the return for placeholders.
  pub place : Lattice E → Irob E → Option (Lattice E × Bool)
  unfolding rebase occupied make_room store
  place l p =
      if is_past l p.id
      then some (l, false)
      else let l' = rebase l p.id in
        if occupied (find_locked l' p.id) then some (l', false) else store (make_room l' p.id) p

  pub link_one : Lattice E → ℕ → ℕ → Option (Lattice E)
  link_one l id d = if is_past l d then some l else elim (find_locked l d) [
    | some _ ↦ some (modify l d (add_dependent id))
    | none ↦ place l (placeholder_irob d v.fresh) >>= λ (l', ret).
        if ret then some (modify l' d (add_dependent id)) else none
  ]

  pub link : Lattice E → ℕ → IdSet → Option (Lattice E)
  unfolding link_one
  link l id [] = some l
  link l id (d ∷ ds) = link_one l id d >>= λ l'. link l' id ds

  -- The rest of `insert_locked`, for the real IROB that stands in the slot of `id`.
  pub settle : Lattice E → ℕ → Bool → Option (Lattice E × Bool)
  unfolding link
  settle l id infer_deps = find_locked l id >>= λ p.
      let (l', p') = correct_deps l p infer_deps in
      link (modify l' id (λ _. p')) id p'.deps >>= λ l''.
      some (record l'' { count = increment l''.count }, true)

  unfoldable pub insert_locked : Lattice E → Irob E → Bool → Option (Lattice E × Bool)
  unfolding place settle
  insert_locked l p infer_deps = place l p >>= λ (l', ret).
      if not ret
      then some (l', false)
      else if p.placeholder
      then some (l', true)
      else settle l' p.id infer_deps
