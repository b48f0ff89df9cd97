-- ===== src/Lattice/Drop.antt =====
-- `drop_irob_and_dependents`: the queue always empties, and what goes is exactly what depends on the
-- dropped IROB.
use libcmm.Prelude.{
  ℕ, zero, suc, ◌+◌, ◌≤◌, ◌≡◌, refl, ◌∙◌, subst, ◌≢◌, ◌↔◌, inl, inr, true, false, ◌||◌, none, some,
  List, [], ◌++◌, pos, ◌∷◌, arith, ◌==◌, if◌then◌else◌, Bool-cases, Option-cases, ==_iff, ==_refl,
  length, length-append,
}
use libcmm.IntSet
use libcmm.IntSet.Laws.{contains-insert}
use libcmm.IdSet.{has, has-nil, has-cons}
use libcmm.Irob.{Irob}
use libcmm.Lattice.{
  Lattice, find_locked, is_past, irob_was_dropped, erase_locked, drop_victims, slot_dependents,
  drop_irob_and_dependents,
}
use libcmm.Lattice.Erase.{erase_locked_outcome}
use libcmm.Lattice.Chain.{
  has-append, Chain, root, next, Chain-trans, Chain-mono, slot_dependents-erase,
}

module _ {E : Type 0} where
  -- How the lattice `m` differs from `l` once the victims `vs` are gone.
  record Purged (l : Lattice E) (vs : List ℕ) (m : Lattice E) : Type 0 where
    starts : (a : ℕ) → has vs a ≡ true → find_locked m a ≡ none
    survivors : (j : ℕ) (q : Irob E) → find_locked m j ≡ some q → find_locked l j ≡ some q
    dropped : (j : ℕ) → irob_was_dropped l j ≡ true → irob_was_dropped m j ≡ true
    past : (j : ℕ) → is_past l j ≡ true → is_past m j ≡ true
    victims :
        (j : ℕ) (p : Irob E)
        → find_locked l j ≡ some p
        → find_locked m j ≡ none
        → (irob_was_dropped m j ≡ true)
          × (is_past m j ≡ true)
          × ((d : ℕ) → has p.dependents d ≡ true → find_locked m d ≡ none)
          × (a : ℕ) × (has vs a ≡ true)
          × Chain l a j

  Purged-nil : (l : Lattice E) → Purged l [] l
  Purged-nil l = record {
    starts = λ a h. absurd (ground (arith, has-nil a));
    survivors = λ j q e. e;
    dropped = λ j h. h;
    past = λ j h. h;
    victims = λ j p e g. absurd (ground arith);
  }

  Purged-skip :
      (l m : Lattice E) (x : ℕ) (vs : List ℕ)
      → find_locked l x ≡ none
      → Purged l vs m
      → Purged l (x ∷ vs) m
  Purged-skip l m x vs free g = record {
    starts = λ a h. elim (Bool-cases (x == a)) [
      | inl hit ↦ elim (Option-cases (find_locked m a)) [
        | inl e ↦ e
        | inr (q, e) ↦ absurd (ground (arith, g.survivors a q e, ==_iff x a))
      ]
      | inr miss ↦ g.starts a (ground (arith, has-cons x vs a))
    ];
    survivors = g.survivors;
    dropped = g.dropped;
    past = g.past;
    victims = λ j p e n.
        let (h1, h2, h3, a, h4, c) = g.victims j p e n in
        (h1, h2, h3, a, ground (arith, has-cons x vs a), c);
  }

  unfoldable pub drop_one : Lattice E → ℕ → Lattice E
  drop_one l x =
      let l' = (erase_locked l x false).0 in
      record l' { dropped_irobs = IntSet.insert l'.dropped_irobs (pos x) }

  record Removed (l : Lattice E) (x : ℕ) (m : Lattice E) : Type 0 where
    finds : (j : ℕ) → find_locked m j ≡ (if x == j then none else find_locked l j)
    drops : (j : ℕ) → irob_was_dropped m j ≡ ((x == j) || irob_was_dropped l j)
    passes : (j : ℕ) → is_past m j ≡ ((x == j) || is_past l j)

  pub find-dropped :
      (l : Lattice E) (s : IntSet.IntSet) (j : ℕ)
      → find_locked (record l { dropped_irobs = s }) j ≡ find_locked l j
  unfolding find_locked
  find-dropped l s j = refl

  drop_one-Removed :
      (l : Lattice E) (x : ℕ) (p : Irob E) → find_locked l x ≡ some p → Removed l x (drop_one l x)
  unfolding drop_one
  drop_one-Removed l x p e = elim (erase_locked_outcome l x false) [
    | inl (free, e') ↦ absurd (ground arith)
    | inr (victim, l', there, e', n) ↦ rw e' (record {
      finds = λ j.
          find-dropped l' (IntSet.insert l'.dropped_irobs (pos x)) j ∙ elim (Bool-cases (x == j)) [
            | inl hit ↦ ground (arith, ==_iff x j)
            | inr miss ↦ ground (arith, n.others j (λ h. absurd (ground (arith, ==_iff x j))))
          ];
      drops = λ j. ground (arith, contains-insert l'.dropped_irobs (pos x) (pos j), n.dropped);
      passes = λ j. n.past j;
    })
  ]

  Purged-victim :
      (l n m : Lattice E) (x : ℕ) (p : Irob E) (vs : List ℕ)
      → find_locked l x ≡ some p
      → Removed l x n
      → Purged n (vs ++ p.dependents) m
      → Purged l (x ∷ vs) m
  Purged-victim l n m x p vs there r g =
      let back : (j : ℕ) (q : Irob E) → find_locked n j ≡ some q → find_locked l j ≡ some q =
        λ j q e. ground (arith, r.finds j) in
      let gone : find_locked m x ≡ none = elim (Option-cases (find_locked m x)) [
        | inl e ↦ e
        | inr (q, e) ↦ absurd (ground (arith, g.survivors x q e, r.finds x, ==_refl x))
      ] in
      record {
        starts = λ a h. elim (Bool-cases (x == a)) [
          | inl hit ↦ subst (λ k. find_locked m k ≡ none) ((==_iff x a).0 hit) gone
          | inr miss ↦ g.starts a (ground (arith, has-cons x vs a, has-append vs p.dependents a))
        ];
        survivors = λ j q e. back j q (g.survivors j q e);
        dropped = λ j h. g.dropped j (ground (arith, r.drops j));
        past = λ j h. g.past j (ground (arith, r.passes j));
        victims = λ j q e out. elim (Bool-cases (x == j)) [
          | inl hit ↦
              let x_j : x ≡ j = (==_iff x j).0 hit in
              (
                g.dropped j (ground (arith, r.drops j)),
                g.past j (ground (arith, r.passes j)),
                λ d h.
                    let same : p ≡ q = ground arith in
                    g.starts d (ground (arith, has-append vs p.dependents d)),
                x,
                ground (arith, has-cons x vs x, ==_refl x),
                subst (Chain l x) x_j root,
              )
          | inr miss ↦
              let (h1, h2, h3, a, h4, c) = g.victims j q (ground (arith, r.finds j)) out in
              let c' = Chain-mono back c in
              elim (Bool-cases (has vs a)) [
                | inl queued ↦ (h1, h2, h3, a, ground (arith, has-cons x vs a), c')
                | inr new ↦
                    let dep : has p.dependents a ≡ true =
                      ground (arith, has-append vs p.dependents a) in
                    (
                      h1,
                      h2,
                      h3,
                      x,
                      ground (arith, has-cons x vs x, ==_refl x),
                      Chain-trans (next a p root there dep) c',
                    )
              ]
        ];
      }

  slot_dependents-drop_one :
      (l : Lattice E) (x : ℕ) (p : Irob E)
      → find_locked l x ≡ some p
      → slot_dependents (drop_one l x).pending_irobs + length p.dependents
        ≡ slot_dependents l.pending_irobs
  unfolding drop_one
  slot_dependents-drop_one l x p e = slot_dependents-erase l x p e

  -- Each round takes one victim off the queue, and adds no more than it removes dependents.
  drop_victims_lem :
      (fuel : ℕ) (l : Lattice E) (vs : List ℕ)
      → length vs + slot_dependents l.pending_irobs ≤ fuel
      → (m : Lattice E) × (drop_victims fuel l vs ≡ some m) × Purged l vs m
  unfolding drop_victims drop_one
  drop_victims_lem zero l [] h = (l, refl, Purged-nil l)
  drop_victims_lem (suc fuel) l [] h = (l, refl, Purged-nil l)
  drop_victims_lem zero l (x ∷ vs) h = absurd (omega arith)
  drop_victims_lem (suc fuel) l (x ∷ vs) h = elim (Option-cases (find_locked l x)) [
    | inl free ↦
        let (m, e, g) = drop_victims_lem fuel l vs (omega arith) in
        (m, rw (free, drop_victims) e, Purged-skip l m x vs free g)
    | inr (p, there) ↦
        let n = drop_one l x in
        let (m, e, g) =
          drop_victims_lem fuel n (vs ++ p.dependents)
            (omega (arith, length-append vs p.dependents, slot_dependents-drop_one l x p there)) in
        (
          m,
          rw (there, drop_victims) e,
          Purged-victim l n m x p vs there (drop_one-Removed l x p there) g,
        )
  ]

  -- What each removal keeps, the whole call keeps.
  pub drop_victims_keeps {ℓ} :
      (P : Lattice E → Type ℓ)
      → ((l : Lattice E) (x : ℕ) → P l → P (drop_one l x))
      → (fuel : ℕ) (l m : Lattice E) (vs : List ℕ) → P l
      → drop_victims fuel l vs ≡ some m
      → P m
  unfolding drop_victims drop_one
  drop_victims_keeps P keep zero l m [] h e = subst P (ground arith) h
  drop_victims_keeps P keep (suc fuel) l m [] h e = subst P (ground arith) h
  drop_victims_keeps P keep zero l m (x ∷ vs) h e = absurd (ground arith)
  drop_victims_keeps P keep (suc fuel) l m (x ∷ vs) h e = elim (Option-cases (find_locked l x)) [
    | inl free ↦ drop_victims_keeps P keep fuel l m vs h (rw (free, drop_victims) at e)
    | inr (p, there) ↦
        drop_victims_keeps P keep fuel (drop_one l x) m (vs ++ p.dependents) (keep l x h)
          (rw (there, drop_victims) at e)
  ]

  Chain-gone :
      {l m : Lattice E} {id j : ℕ} → Purged l (id ∷ []) m → Chain l id j → find_locked m j ≡ none
  Chain-gone {l} {m} {id} g root = g.starts id (ground (arith, has-cons id [] id, ==_refl id))
  Chain-gone {l} {m} {id} g (next {j} d p c e h) = (g.victims j p e (Chain-gone g c)).2 d h

  -- What dropping `id` does to a pending IROB.
  pub record Fate (l : Lattice E) (id : ℕ) (m : Lattice E) (j : ℕ) (p : Irob E) : Type 0 where
    pub gone_iff : (find_locked m j ≡ none) ↔ Chain l id j
    pub marked : find_locked m j ≡ none → (irob_was_dropped m j ≡ true) × (is_past m j ≡ true)
    pub spared : find_locked m j ≢ none → find_locked m j ≡ some p

  -- Dropping an IROB always ends, in any state of the lattice. A pending IROB is gone afterwards
  -- exactly if it is the dropped one or a chain of dependents leads to it from there; it is then
  -- recorded as dropped and as past. Every other pending IROB stays as it was.
  pub drop_irob_and_dependents_outcome :
      (l : Lattice E) (id : ℕ)
      → (m : Lattice E) × (drop_irob_and_dependents l id ≡ some m)
        × ((j : ℕ) (p : Irob E) → find_locked l j ≡ some p → Fate l id m j p)
  unfolding drop_irob_and_dependents
  drop_irob_and_dependents_outcome l id =
      let (m, e, g) =
        drop_victims_lem (1 + slot_dependents l.pending_irobs) l (id ∷ []) (omega arith) in
      (
        m,
        e,
        λ j p there. record {
          gone_iff = (
            λ out.
                let (h1, h2, h3, a, h4, c) = g.victims j p there out in
                let id_a : id ≡ a = ground (arith, has-cons id [] a, has-nil a, ==_iff id a) in
                rw id_a c,
            λ c. Chain-gone g c,
          );
          marked = λ out. ((g.victims j p there out).0, (g.victims j p there out).1);
          spared = λ stays. elim (Option-cases (find_locked m j)) [
            | inl out ↦ absurd (stays out)
            | inr (q, eq) ↦ ground (arith, g.survivors j q eq)
          ];
        },
      )
