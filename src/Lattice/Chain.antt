-- ===== src/Lattice/Chain.antt =====
-- Chains of dependents, and how many dependents the pending IROBs list.
use libcmm.Prelude.{
  ℕ, zero, suc, ◌+◌, ◌-◌, ◌≡◌, refl, true, false, ◌||◌, Option, none, some, List, [], ◌++◌, ◌∷◌,
  arith, length, get_or, set,
}
use libcmm.IdSet.{IdSet, has, has-nil, has-cons}
use libcmm.Irob.{Irob}
use libcmm.Lattice.{Lattice, find_locked, unlink, pop_nulls, erase_locked, slot_dependents}

pub has-append : (xs ys : IdSet) (b : ℕ) → has (xs ++ ys) b ≡ (has xs b || has ys b)
has-append [] ys b = ground (arith, has-nil b)
has-append (x ∷ xs) ys b =
    ground (arith, has-append xs ys b, has-cons x (xs ++ ys) b, has-cons x xs b)

module _ {E : Type 0} where
  -- `Chain l a b`: `b` is `a`, or a dependent of a pending member of the chain.
  pub data Chain (l : Lattice E) (a : ℕ) : ℕ → Type 0 where
    root : Chain l a a
    next :
        {j : ℕ} (d : ℕ) (p : Irob E)
        → Chain l a j
        → find_locked l j ≡ some p
        → has p.dependents d ≡ true
        → Chain l a d

  pub Chain-trans : {l : Lattice E} {a b c : ℕ} → Chain l a b → Chain l b c → Chain l a c
  Chain-trans x root = x
  Chain-trans x (next d p y e h) = next d p (Chain-trans x y) e h

  pub Chain-mono :
      {l m : Lattice E} {a b : ℕ}
      → ((j : ℕ) (p : Irob E) → find_locked m j ≡ some p → find_locked l j ≡ some p)
      → Chain m a b
      → Chain l a b
  Chain-mono f root = root
  Chain-mono f (next {j} d p y e h) = next d p (Chain-mono f y) (f j p e) h

  pub slot_dependents-set :
      (ss : List (Option (Irob E))) (i : ℕ) (p : Irob E)
      → get_or ss i none ≡ some p
      → slot_dependents (set ss i none) + length p.dependents ≡ slot_dependents ss
  unfolding slot_dependents
  slot_dependents-set [] i p e = absurd (ground arith)
  slot_dependents-set (none ∷ ss) zero p e = absurd (ground arith)
  slot_dependents-set (some q ∷ ss) zero p e = ground arith
  slot_dependents-set (none ∷ ss) (suc i) p e = slot_dependents-set ss i p e
  slot_dependents-set (some q ∷ ss) (suc i) p e = omega (arith, slot_dependents-set ss i p e)

  pub slot_dependents-pop_nulls :
      (ss : List (Option (Irob E))) (o : ℕ)
      → slot_dependents (pop_nulls ss o).0 ≡ slot_dependents ss
  unfolding slot_dependents pop_nulls
  slot_dependents-pop_nulls [] o = refl
  slot_dependents-pop_nulls (none ∷ ss) o = slot_dependents-pop_nulls ss (o + 1)
  slot_dependents-pop_nulls (some p ∷ ss) o = refl

  pub slot_dependents-erase :
      (l : Lattice E) (id : ℕ) (p : Irob E)
      → find_locked l id ≡ some p
      → slot_dependents (erase_locked l id false).0.pending_irobs + length p.dependents
        ≡ slot_dependents l.pending_irobs
  unfolding erase_locked unlink find_locked
  slot_dependents-erase l id p e = ground (
    arith,
    slot_dependents-pop_nulls (set l.pending_irobs (id - l.offset) none) l.offset,
    slot_dependents-set l.pending_irobs (id - l.offset) p,
  )
