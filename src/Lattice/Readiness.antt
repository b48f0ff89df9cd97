-- ===== src/Lattice/Readiness.antt =====
-- The lattice at the receiver: when an IROB is ready.
use libcmm.Prelude.{ℕ, ◌≡◌, subst, ◌↔◌, true, false, none, some, arith}
use libcmm.IdSet.{IdSet, has}
use libcmm.Irob.{Irob, Virtuals, placeholder_irob, is_ready}
use libcmm.Lattice.{Lattice, new_lattice, find_locked, modify, is_past, erase_locked, insert_locked}
use libcmm.Lattice.Place.{placed}
use libcmm.Lattice.Growth.{placeholder-Grows}
use libcmm.Lattice.Erasure.{announce}
use libcmm.Lattice.Arrival.{insert_placeholder_lem}
use libcmm.Lattice.Tracks.{
  Tracks, ready_of_Tracks, new_lattice-Tracks, arrive-Tracks, consume-Tracks,
}
use libcmm.Lattice.Tracking.{SameNode, modify-Tracks, Grows-Tracks}

-- A history of the lattice at the receiver, with the dependencies announced so far: Begin_IROB
-- messages arrive, a placeholder is made for an IROB of which something else comes first, data comes to
-- IROBs or is read from them, and IROBs that the application has read are erased. A call that is
-- refused changes nothing.
pub data Received {E : Type 0} (v : Virtuals E) : Lattice E → (ℕ → IdSet) → Type 0 where
  start : (a : ℕ → IdSet) → Received v new_lattice a
  arrive :
      {l l' : Lattice E} {a : ℕ → IdSet} (p : Irob E)
      → Received v l a
      → p.placeholder ≡ false
      → insert_locked v l p false ≡ some (l', true)
      → Received v l' (announce a p.id p.deps)
  consume :
      {l : Lattice E} {a : ℕ → IdSet} (id : ℕ)
      → Received v l a
      → Received v (erase_locked l id true).0 a
  hold_place :
      {l l' : Lattice E} {a : ℕ → IdSet} (id : ℕ)
      → Received v l a
      → find_locked l id ≡ none
      → is_past l id ≡ false
      → insert_locked v l (placeholder_irob id v.fresh) false ≡ some (l', true)
      → Received v l' a
  handle :
      {l : Lattice E} {a : ℕ → IdSet} (id : ℕ) (f : Irob E → Irob E)
      → Received v l a
      → ((p : Irob E) → find_locked l id ≡ some p → SameNode p (f p))
      → Received v (modify l id f) a

module _ {E : Type 0} (v : Virtuals E) where
  pub Received-Tracks : {l : Lattice E} {a : ℕ → IdSet} → Received v l a → Tracks l a
  Received-Tracks (start a) = new_lattice-Tracks v a
  Received-Tracks (arrive {l} {l'} {a} p h real e) =
      arrive-Tracks v l l' a p (Received-Tracks h) real e
  Received-Tracks (consume {l} {a} id h) = consume-Tracks v l a id (Received-Tracks h)
  Received-Tracks (hold_place {l} {l'} {a} id h free open_ e) =
      let made = insert_placeholder_lem v l id open_ free in
      let same : placed v l (placeholder_irob id v.fresh) ≡ l' = ground arith in
      subst (λ m. Tracks m a) same
        (Grows-Tracks l (placed v l (placeholder_irob id v.fresh)) a
          (placeholder-Grows v l id open_ free) (Received-Tracks h))
  Received-Tracks (handle {l} {a} id f h same) = modify-Tracks l id f same a (Received-Tracks h)

  -- After any history at the receiver, in which Begin_IROB messages come, placeholders are made, data
  -- comes or is read, and IROBs are erased, a pending IROB that has arrived is ready exactly when every
  -- dependency announced for it is past, that is, was erased because the application has read it.
  pub ready_when_past :
      {l : Lattice E} {a : ℕ → IdSet} (h : Received v l a) (j : ℕ) (p : Irob E)
      → find_locked l j ≡ some p
      → p.placeholder ≡ false
      → (is_ready p ≡ true) ↔ ((d : ℕ) → has (a j) d ≡ true → is_past l d ≡ true)
  ready_when_past {l} {a} h = ready_of_Tracks l a (Received-Tracks h)
