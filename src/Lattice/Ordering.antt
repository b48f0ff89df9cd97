-- ===== src/Lattice/Ordering.antt =====
-- The order that inference gives the IROBs of one sender: an anonymous IROB is a barrier.
use libcmm.Prelude.{
  ℕ, ◌≡◌, refl, sym, ◌∙◌, subst, ◌⊎◌, inl, inr, Bool, true, ◌&&◌, Option, none, some, List, [], ◌∷◌,
  arith, ==_refl,
}
use libcmm.IdSet.{IdSet, has, has-nil, has-cons, has-insert, has-insert_all}
use libcmm.Irob.{Irob, add_dep}
use libcmm.Lattice.{Lattice, correct_deps, dominate, follow_anon}

-- What is remembered of an IROB that was handed over for sending, its inferred dependencies included.
pub record Sent : Type 0 where
  pub id : ℕ
  pub deps : IdSet
  pub anonymous : Bool

-- Newest first.
abbrev pub IsIn : Sent → List Sent → Type 0
IsIn s [] = ⊥
IsIn s (x ∷ xs) = (s ≡ x) ⊎ IsIn s xs

-- Transitive dependency among what was sent.
pub data Depends (hs : List Sent) : ℕ → ℕ → Type 0 where
  direct : (s : Sent) (b : ℕ) → IsIn s hs → has s.deps b ≡ true → Depends hs s.id b
  via : {a b c : ℕ} → Depends hs a b → Depends hs b c → Depends hs a c

-- Of two IROBs of which one is anonymous the later depends on the earlier.
abbrev pub Barriers : List Sent → Type 0
Barriers [] = Unit {0}
Barriers (q ∷ hs) =
    ((s : Sent)
      → IsIn s hs
      → (q.anonymous ≡ true) ⊎ (s.anonymous ≡ true)
      → Depends (q ∷ hs) q.id s.id)
    × Barriers hs

pub older : {hs : List Sent} {a b : ℕ} (q : Sent) → Depends hs a b → Depends (q ∷ hs) a b
older q (direct s b i h) = direct s b (inr i) h
older q (via x y) = via (older q x) (older q y)

abbrev pub Reaches : List Sent → ℕ → ℕ → Type 0
Reaches hs a b = (a ≡ b) ⊎ Depends hs a b

pub older-Reaches : {hs : List Sent} {a b : ℕ} (q : Sent) → Reaches hs a b → Reaches (q ∷ hs) a b
older-Reaches q (inl e) = inl e
older-Reaches q (inr d) = inr (older q d)

pub then-Reaches : {hs : List Sent} {a b c : ℕ} → Depends hs a b → Reaches hs b c → Depends hs a c
then-Reaches {hs} {a} d (inl e) = subst (Depends hs a) e d
then-Reaches d (inr d') = via d d'

-- Every IROB sent is behind a dominator or behind the last anonymous one.
abbrev pub Behind : List Sent → IdSet → Option ℕ → ℕ → Type 0
Behind hs doms last x =
    ((m : ℕ) × (has doms m ≡ true) × Reaches hs m x) ⊎ ((a : ℕ) × (last ≡ some a) × Reaches hs a x)

-- The comment on `min_dominator_set`, made precise.
pub record Dominated (doms : IdSet) (last : Option ℕ) (hs : List Sent) : Type 0 where
  pub covered : (s : Sent) → IsIn s hs → Behind hs doms last s.id
  pub anchored : (a m : ℕ) → last ≡ some a → has doms m ≡ true → Depends hs m a
  pub barrier :
      (s : Sent) → IsIn s hs → s.anonymous ≡ true → (a : ℕ) × (last ≡ some a) × Reaches hs a s.id
  pub barriers : Barriers hs

module _ {E : Type 0} where
  dominate-doms :
      (o : Option ℕ) (ds : IdSet) (p : Irob E) (b : ℕ)
      → has ds b ≡ true
      → has (dominate o ds p).deps b ≡ true
  unfolding dominate
  dominate-doms (some a) [] p b h = absurd (ground (arith, has-nil b))
  dominate-doms (some a) (d ∷ ds) p b h = ground (arith, has-insert_all p.deps (d ∷ ds) b)
  dominate-doms none ds p b h = ground (arith, has-insert_all p.deps ds b)

  dominate-last : (a : ℕ) (p : Irob E) → has (dominate (some a) [] p).deps a ≡ true
  unfolding dominate add_dep
  dominate-last a p = ground (arith, has-insert a p.deps a, ==_refl a)

  pub follow_anon-deps :
      (o : Option ℕ) (ds : IdSet) (p : Irob E) (b : ℕ)
      → has p.deps b ≡ true
      → has (follow_anon o ds p).deps b ≡ true
  unfolding follow_anon add_dep
  follow_anon-deps (some a) [] p b h = ground (arith, has-insert a p.deps b)
  follow_anon-deps (some a) (d ∷ ds) p b h = h
  follow_anon-deps none ds p b h = h

  follow_anon-last : (a : ℕ) (p : Irob E) → has (follow_anon (some a) [] p).deps a ≡ true
  unfolding follow_anon add_dep
  follow_anon-last a p = ground (arith, has-insert a p.deps a, ==_refl a)

  -- The record of `p` once its dependencies are inferred.
  abbrev pub sent : Lattice E → Irob E → Sent
  sent l p = record { id = p.id; deps = (correct_deps l p true).1.deps; anonymous = p.anonymous }

  module _ (hs : List Sent) (p : Irob E) where
    -- A new anonymous IROB depends on all before it.
    pub anonymous-Depends :
        (doms : IdSet) (last : Option ℕ) (q : Sent)
        → Dominated doms last hs
        → q.deps ≡ (dominate last doms p).deps
        → (s : Sent) → IsIn s hs
        → Depends (q ∷ hs) q.id s.id
    anonymous-Depends doms last q d e s i = elim (d.covered s i) [
      | inl (m, dom, r) ↦
          then-Reaches (direct q m (inl refl) (rw e (dominate-doms last doms p m dom)))
            (older-Reaches q r)
      | inr (a, is_last, r) ↦ then-Reaches (to_last a is_last doms d e) (older-Reaches q r)
    ]
      where
        to_last :
            (a : ℕ)
            → last ≡ some a
            → (ds : IdSet) → Dominated ds last hs
            → q.deps ≡ (dominate last ds p).deps
            → Depends (q ∷ hs) q.id a
        to_last a is_last [] d' e' = direct q a (inl refl) (rw (e', is_last) (dominate-last a p))
        to_last a is_last (c ∷ ds) d' e' =
            let dom : has (c ∷ ds) c ≡ true = ground (arith, has-cons c ds c, ==_refl c) in
            via (direct q c (inl refl) (rw e' (dominate-doms last (c ∷ ds) p c dom)))
              (older q (d'.anchored a c is_last dom))

    -- A new labelled IROB depends on the last anonymous one.
    pub labelled-Depends :
        (doms : IdSet) (a : ℕ) (last : Option ℕ) (isect : IdSet) (q : Sent)
        → Dominated doms last hs
        → last ≡ some a
        → ((b : ℕ) → has isect b ≡ (has doms b && has p.deps b))
        → q.deps ≡ (follow_anon last isect p).deps
        → Depends (q ∷ hs) q.id a
    labelled-Depends doms a last [] q d is_last both e =
        direct q a (inl refl) (rw (e, is_last) (follow_anon-last a p))
    labelled-Depends doms a last (c ∷ cs) q d is_last both e =
        let in_both : (has doms c && has p.deps c) ≡ true =
          sym (both c) ∙ ground (arith, has-cons c cs c, ==_refl c) in
        let dom : has doms c ≡ true = ground arith in
        let dep : has p.deps c ≡ true = ground arith in
        via (direct q c (inl refl) (rw e (follow_anon-deps last (c ∷ cs) p c dep)))
          (older q (d.anchored a c is_last dom))
