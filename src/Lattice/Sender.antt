-- ===== src/Lattice/Sender.antt =====
-- Every history of a sender keeps the dominators sound, so anonymous IROBs are barriers.
use libcmm.Prelude.{
  ℕ, ◌+◌, ◌≡◌, refl, ◌∙◌, subst, inl, inr, true, false, some, List, [], ◌∷◌, arith, Bool-cases,
}
use libcmm.Irob.{Irob, Virtuals}
use libcmm.Lattice.{
  Lattice, new_lattice, find_locked, correct_deps, infer_anonymous, infer_labelled, insert_locked,
  erase_locked, drop_irob_and_dependents, slot_dependents,
}
use libcmm.Lattice.Invariant.{IsValid, transfer-ValidBut}
use libcmm.Lattice.Outcome.{insert_locked_outcome}
use libcmm.Lattice.Erase.{erase_locked_outcome}
use libcmm.Lattice.Erasure.{Erased-IsValid}
use libcmm.Lattice.Drop.{drop_one, find-dropped, drop_victims_keeps}
use libcmm.Lattice.Ordering.{Sent, Barriers, Dominated}
use libcmm.Lattice.Dominance.{anonymous-Dominated, labelled-Dominated}

-- A history of the lattice at the sender: IROBs are handed over, acknowledged, or dropped with all
-- that depends on them. A call that is refused changes nothing.
pub data Sending {E : Type 0} (v : Virtuals E) : Lattice E → List Sent → Type 0 where
  none_sent : Sending v new_lattice []
  hand_over :
      {l l' : Lattice E} {hs : List Sent} (p q : Irob E)
      → Sending v l hs
      → p.placeholder ≡ false
      → insert_locked v l p true ≡ some (l', true)
      → find_locked l' p.id ≡ some q
      → Sending v l' (record { id = p.id; deps = q.deps; anonymous = p.anonymous } ∷ hs)
  acknowledge :
      {l : Lattice E} {hs : List Sent} (id : ℕ)
      → Sending v l hs
      → Sending v (erase_locked l id false).0 hs
  drop_all :
      {l l' : Lattice E} {hs : List Sent} (id : ℕ)
      → Sending v l hs
      → drop_irob_and_dependents l id ≡ some l'
      → Sending v l' hs

record Sound {E : Type 0} (l : Lattice E) (hs : List Sent) : Type 0 where
  valid : IsValid l
  dominated : Dominated l.min_dominator_set l.last_anon_irob_id hs

module _ {E : Type 0} where
  erase-Sound :
      (l : Lattice E) (hs : List Sent) (id : ℕ) → Sound l hs → Sound (erase_locked l id false).0 hs
  erase-Sound l hs id s = elim (erase_locked_outcome l id false) [
    | inl (free, e) ↦ rw e s
    | inr (victim, l', there, e, n) ↦ rw e (record {
      valid = Erased-IsValid l l' id false victim s.valid n;
      dominated = rw (n.doms, n.anon) s.dominated;
    })
  ]

  drop_one-Sound : (l : Lattice E) (hs : List Sent) (x : ℕ) → Sound l hs → Sound (drop_one l x) hs
  unfolding drop_one
  drop_one-Sound l hs x s =
      let l' = (erase_locked l x false).0 in
      let s' = erase-Sound l hs x s in
      record {
        valid =
            transfer-ValidBut l' (drop_one l x) (λ _. false)
              (λ j. find-dropped l' (drop_one l x).dropped_irobs j) refl s'.valid;
        dominated = s'.dominated;
      }

  drop_all-Sound :
      (l m : Lattice E) (hs : List Sent) (id : ℕ)
      → Sound l hs
      → drop_irob_and_dependents l id ≡ some m
      → Sound m hs
  unfolding drop_irob_and_dependents
  drop_all-Sound l m hs id s e =
      drop_victims_keeps (λ x. Sound x hs) (λ x a k. drop_one-Sound x hs a k)
        (1 + slot_dependents l.pending_irobs) l m (id ∷ []) s e

  correct_deps_anonymous :
      (l : Lattice E) (p : Irob E)
      → p.anonymous ≡ true
      → correct_deps l p true ≡ infer_anonymous l p
  unfolding correct_deps
  correct_deps_anonymous l p h = ground arith

  correct_deps_labelled :
      (l : Lattice E) (p : Irob E)
      → p.anonymous ≡ false
      → correct_deps l p true ≡ infer_labelled l p
  unfolding correct_deps
  correct_deps_labelled l p h = ground arith

  correct_deps-Dominated :
      (l : Lattice E) (p : Irob E) (q : Sent) (hs : List Sent)
      → Dominated l.min_dominator_set l.last_anon_irob_id hs
      → q.id ≡ p.id
      → q.anonymous ≡ p.anonymous
      → q.deps ≡ (correct_deps l p true).1.deps
      → Dominated
          (correct_deps l p true).0.min_dominator_set
          (correct_deps l p true).0.last_anon_irob_id
          (q ∷ hs)
  unfolding infer_anonymous infer_labelled
  correct_deps-Dominated l p q hs d same_id same_anon e = elim (Bool-cases p.anonymous) [
    | inl anon ↦
        let c = correct_deps_anonymous l p anon in
        rw (c, ← same_id)
          (anonymous-Dominated hs p l.min_dominator_set l.last_anon_irob_id q d (rw c at e))
    | inr quiet ↦
        let c = correct_deps_labelled l p quiet in
        rw c (
          labelled-Dominated hs p l.min_dominator_set l.last_anon_irob_id q d same_id
            (same_anon ∙ quiet) (rw c at e))
  ]

module _ {E : Type 0} (v : Virtuals E) where
  insert-Sound :
      (l l' : Lattice E) (hs : List Sent) (p q : Irob E)
      → Sound l hs
      → p.placeholder ≡ false
      → insert_locked v l p true ≡ some (l', true)
      → find_locked l' p.id ≡ some q
      → Sound l' (record { id = p.id; deps = q.deps; anonymous = p.anonymous } ∷ hs)
  insert-Sound l l' hs p q s real e there = elim (insert_locked_outcome v l p true s.valid real) [
    | inl (away, e') ↦ absurd (ground arith)
    | inr (m, e', n) ↦
        let same : m ≡ l' = ground arith in
        let (q', found, deps', real') = n.there in
        let deps_q : q.deps ≡ (correct_deps l p true).1.deps = ground arith in
        record {
          valid = subst IsValid same n.valid;
          dominated =
              rw (← same, n.doms, n.anon)
                (correct_deps-Dominated l p
                  (record { id = p.id; deps = q.deps; anonymous = p.anonymous }) hs s.dominated refl
                  refl deps_q);
        }
  ]

  new_lattice-Sound : Sound (new_lattice {E = E}) []
  unfolding find_locked
  new_lattice-Sound = record {
    valid = record {
      keyed = λ j p e. absurd (ground arith);
      fresh = λ j p e. absurd (ground arith);
      linked = λ j d p e real out h. absurd (ground arith);
    };
    dominated = record {
      covered = λ s i. absurd i;
      anchored = λ a m is_last h. absurd (ground arith);
      barrier = λ s i anon. absurd i;
      barriers = tt;
    };
  }

  Sending-Sound : {l : Lattice E} {hs : List Sent} → Sending v l hs → Sound l hs
  Sending-Sound none_sent = new_lattice-Sound
  Sending-Sound (hand_over {l} {l'} {hs} p q h real e there) =
      insert-Sound l l' hs p q (Sending-Sound h) real e there
  Sending-Sound (acknowledge {l} {hs} id h) = erase-Sound l hs id (Sending-Sound h)
  Sending-Sound (drop_all {l} {l'} {hs} id h e) = drop_all-Sound l l' hs id (Sending-Sound h) e

  -- In every history of a sender, with acknowledgements and drops anywhere between, an anonymous IROB
  -- is a barrier: it depends, directly or through others, on every IROB handed over before it, those
  -- that were acknowledged or dropped included, and every IROB handed over after it depends on it so.
  pub Sending-Barriers : {l : Lattice E} {hs : List Sent} → Sending v l hs → Barriers hs
  Sending-Barriers h = (Sending-Sound h).dominated.barriers

  -- Every history keeps the lattice valid.
  pub Sending-IsValid : {l : Lattice E} {hs : List Sent} → Sending v l hs → IsValid l
  Sending-IsValid h = (Sending-Sound h).valid
