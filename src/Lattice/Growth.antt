-- ===== src/Lattice/Growth.antt =====
-- Linking an IROB to its dependencies only adds: dependents to IROBs, and placeholders.
use libcmm.Prelude.{
  ℕ, ◌≡◌, refl, sym, ap, ◌∙◌, subst, ◌⊎◌, inl, inr, true, false, Option, none, some, [], pos, ◌∷◌,
  arith, ◌==◌, Bool-cases, Option-cases, ==_iff, ==_refl,
}
use libcmm.IntSet
use libcmm.IdSet.{IdSet, has, has-insert, has-nil, has-cons}
use libcmm.Irob.{Irob, Virtuals, placeholder_irob, add_dependent}
use libcmm.Lattice.{Lattice, find_locked, modify, is_past, link_one, link}
use libcmm.Lattice.View.{find-modify}
use libcmm.Lattice.Place.{
  SameRest, modify-SameRest, Fits, placed, find-placed, placed-SameRest, place_lem,
}

module _ {E : Type 0} where
  -- The same IROB, with dependents added.
  pub record Grown (p p' : Irob E) : Type 0 where
    pub same_id : p'.id ≡ p.id
    pub same_deps : p'.deps ≡ p.deps
    pub same_placeholder : p'.placeholder ≡ p.placeholder
    pub same_anonymous : p'.anonymous ≡ p.anonymous
    pub same_labels : p'.send_labels ≡ p.send_labels
    pub same_chunks : p'.chunks ≡ p.chunks
    pub same_complete : p'.complete ≡ p.complete
    pub same_ext : p'.ext ≡ p.ext
    pub more : (b : ℕ) → has p.dependents b ≡ true → has p'.dependents b ≡ true

  -- `e` is what a subclass adds to a placeholder.
  pub record Grows (e : E) (l l' : Lattice E) : Type 0 where
    pub rest : SameRest l l'
    pub old :
        (j : ℕ) (p : Irob E)
        → find_locked l j ≡ some p
        → (p' : Irob E) × (find_locked l' j ≡ some p') × Grown p p'
    pub new :
        (j : ℕ) (p' : Irob E)
        → find_locked l' j ≡ some p'
        → ((p : Irob E) × (find_locked l j ≡ some p) × Grown p p')
          ⊎ ((find_locked l j ≡ none)
              × (p'.placeholder ≡ true)
              × (p'.id ≡ j)
              × (is_past l j ≡ false)
              × Grown (placeholder_irob j e) p')

  pub Grown-refl : (p : Irob E) → Grown p p
  Grown-refl p = record {
    same_id = refl;
    same_deps = refl;
    same_placeholder = refl;
    same_anonymous = refl;
    same_labels = refl;
    same_chunks = refl;
    same_complete = refl;
    same_ext = refl;
    more = λ b h. h;
  }

  Grown-trans : {p q r : Irob E} → Grown p q → Grown q r → Grown p r
  Grown-trans g h = record {
    same_id = h.same_id ∙ g.same_id;
    same_deps = h.same_deps ∙ g.same_deps;
    same_placeholder = h.same_placeholder ∙ g.same_placeholder;
    same_anonymous = h.same_anonymous ∙ g.same_anonymous;
    same_labels = h.same_labels ∙ g.same_labels;
    same_chunks = h.same_chunks ∙ g.same_chunks;
    same_complete = h.same_complete ∙ g.same_complete;
    same_ext = h.same_ext ∙ g.same_ext;
    more = λ b e. h.more b (g.more b e);
  }

  SameRest-trans : {l m n : Lattice E} → SameRest l m → SameRest m n → SameRest l n
  SameRest-trans a b = ground arith

  pub Grows-refl : {e : E} (l : Lattice E) → Grows e l l
  Grows-refl l = record {
    rest = ground arith;
    old = λ j p e. (p, e, Grown-refl p);
    new = λ j p e. inl (p, e, Grown-refl p);
  }

  pub is_past-same : (l l' : Lattice E) (j : ℕ) → SameRest l l' → is_past l' j ≡ is_past l j
  is_past-same l l' j s = ap (λ (t : IntSet.IntSet). IntSet.contains t (pos j)) s.same_past

  pub Grows-trans : {o : E} {l m n : Lattice E} → Grows o l m → Grows o m n → Grows o l n
  Grows-trans {o} {l} {m} {n} g h = record {
    rest = SameRest-trans g.rest h.rest;
    old = λ j p e.
        let (q, eq, gq) = g.old j p e in
        let (r, er, gr) = h.old j q eq in (r, er, Grown-trans gq gr);
    new = λ j r e. elim (h.new j r e) [
      | inl (q, eq, gr) ↦ elim (g.new j q eq) [
        | inl (p, ep, gq) ↦ inl (p, ep, Grown-trans gq gr)
        | inr (en, pl, idq, past, mk) ↦
            inr (en, gr.same_placeholder ∙ pl, gr.same_id ∙ idq, past, Grown-trans mk gr)
      ]
      | inr (en, pl, idr, past, mk) ↦ elim (Option-cases (find_locked l j)) [
        | inl none_l ↦ inr (none_l, pl, idr, sym (is_past-same l m j g.rest) ∙ past, mk)
        | inr (p, ep) ↦ let (q, eq, gq) = g.old j p ep in absurd (ground arith)
      ]
    ];
  }

  add_dependent-Grown : (a : ℕ) (p : Irob E) → Grown p (add_dependent a p)
  unfolding add_dependent
  add_dependent-Grown a p = record {
    same_id = refl;
    same_deps = refl;
    same_placeholder = refl;
    same_anonymous = refl;
    same_labels = refl;
    same_chunks = refl;
    same_complete = refl;
    same_ext = refl;
    more = λ b h. ground (arith, has-insert a p.dependents b);
  }

  pub modify-Grows :
      {o : E} (l : Lattice E) (d : ℕ) (f : Irob E → Irob E)
      → ((p : Irob E) → Grown p (f p))
      → Grows o l (modify l d f)
  modify-Grows {o} l d f grown = record {
    rest = modify-SameRest l d f;
    old = λ j p e. elim (Bool-cases (d == j)) [
      | inl hit ↦ (f p, ground (arith, find-modify l d j f), grown p)
      | inr miss ↦ (p, ground (arith, find-modify l d j f), Grown-refl p)
    ];
    new = λ j p' e. elim (Option-cases (find_locked l j)) [
      | inl en ↦ absurd (ground (arith, find-modify l d j f))
      | inr (p, ep) ↦ elim (Bool-cases (d == j)) [
        | inl hit ↦
            let same : f p ≡ p' = ground (arith, find-modify l d j f) in
            inl (p, ep, subst (Grown p) same (grown p))
        | inr miss ↦
            let same : p ≡ p' = ground (arith, find-modify l d j f) in
            inl (p, ep, subst (Grown p) same (Grown-refl p))
      ]
    ];
  }

  -- What a link is, seen from the IROB `id`: the dependency is past, or it is pending and knows `id`.
  abbrev pub Linked : Lattice E → ℕ → ℕ → Type 0
  Linked l id d =
      (is_past l d ≡ true)
      ⊎ ((q : Irob E) × (find_locked l d ≡ some q) × (has q.dependents id ≡ true))

  pub Linked-Grows :
      {o : E} (l l' : Lattice E) (id d : ℕ) → Grows o l l' → Linked l id d → Linked l' id d
  Linked-Grows {o} l l' id d g (inl past) = inl (is_past-same l l' d g.rest ∙ past)
  Linked-Grows {o} l l' id d g (inr (q, e, knows)) =
      let (q', e', grown) = g.old d q e in inr (q', e', grown.more id knows)

  modify-Linked :
      (l : Lattice E) (id d : ℕ) {q : Irob E}
      → find_locked l d ≡ some q
      → Linked (modify l d (add_dependent id)) id d
  unfolding add_dependent
  modify-Linked l id d {q} e = inr (
    add_dependent id q,
    ground (arith, find-modify l d d (add_dependent id), ==_refl d),
    ground (arith, has-insert id q.dependents id, ==_refl id),
  )

module _ {E : Type 0} (v : Virtuals E) where
  pub placeholder-Fits :
      (l : Lattice E) (d : ℕ)
      → is_past l d ≡ false
      → find_locked l d ≡ none
      → Fits v l (placeholder_irob d v.fresh)
  unfolding placeholder_irob
  placeholder-Fits l d past free = record {
    not_past = past;
    vacant = λ old e. absurd (ground arith);
    alone = λ _. free;
  }

  pub placeholder-Grows :
      (l : Lattice E) (d : ℕ)
      → is_past l d ≡ false
      → find_locked l d ≡ none
      → Grows v.fresh l (placed v l (placeholder_irob d v.fresh))
  unfolding placeholder_irob
  placeholder-Grows l d past free =
      let q = placeholder_irob d v.fresh in
      let at = find-placed v l q in
      record {
        rest = placed-SameRest v l q;
        old = λ j p e. (p, ground (arith, at j, ==_iff d j), Grown-refl p);
        new = λ j p' e. elim (Bool-cases (d == j)) [
          | inl hit ↦
              let d_j : d ≡ j = (==_iff d j).0 hit in
              let same : q ≡ p' = ground (arith, at j) in
              inr (
                rw (← d_j) free,
                ground arith,
                ground arith,
                rw (← d_j) past,
                subst (λ x. Grown x p') (ap (λ i. placeholder_irob i v.fresh) d_j)
                    (subst (Grown q) same (Grown-refl q)),
              )
          | inr miss ↦ inl (p', ground (arith, at j), Grown-refl p')
        ];
      }

  placeholder-found :
      (l : Lattice E) (d : ℕ)
      → find_locked l d ≡ none
      → find_locked (placed v l (placeholder_irob d v.fresh)) d ≡ some (placeholder_irob d v.fresh)
  unfolding placeholder_irob
  placeholder-found l d free =
      ground (arith, find-placed v l (placeholder_irob d v.fresh) d, ==_refl d)

  abbrev Links : Lattice E → ℕ → ℕ → Option (Lattice E) → Type 0
  Links l id d r = (l' : Lattice E) × (r ≡ some l') × Grows v.fresh l l' × Linked l' id d

  -- One turn of the loop meets no failed ASSERT, only adds, and links the dependency.
  pub link_one_lem : (l : Lattice E) (id d : ℕ) → Links l id d (link_one v l id d)
  unfolding link_one
  link_one_lem l id d = elim (Bool-cases (is_past l d)) [
    | inl past ↦ (l, ground arith, Grows-refl l, inl past)
    | inr open_ ↦ elim (Option-cases (find_locked l d)) [
      | inr (q, e) ↦ (
        modify l d (add_dependent id),
        ground arith,
        modify-Grows l d (add_dependent id) (add_dependent-Grown id),
        modify-Linked l id d e,
      )
      | inl free ↦
          let q = placeholder_irob d v.fresh in
          let l' = placed v l q in
          (
            modify l' d (add_dependent id),
            ground (arith, place_lem v l q (placeholder-Fits l d open_ free)),
            Grows-trans (placeholder-Grows l d open_ free)
                (modify-Grows l' d (add_dependent id) (add_dependent-Grown id)),
            modify-Linked l' id d (placeholder-found l d free),
          )
    ]
  ]

  -- The whole loop: no failed ASSERT, only additions, and every dependency is linked.
  pub link_lem :
      (l : Lattice E) (id : ℕ) (ds : IdSet)
      → (l' : Lattice E) × (link v l id ds ≡ some l')
        × Grows v.fresh l l'
        × ((d : ℕ) → has ds d ≡ true → Linked l' id d)
  unfolding link
  link_lem l id [] = (l, refl, Grows-refl l, λ d h. absurd (ground (arith, has-nil d)))
  link_lem l id (d ∷ ds) =
      let (m, em, gm, first) = link_one_lem l id d in
      let (n, en, gn, others) = link_lem m id ds in
      (
        n,
        ground arith,
        Grows-trans gm gn,
        λ c h. elim (Bool-cases (d == c)) [
          | inl hit ↦ subst (Linked n id) ((==_iff d c).0 hit) (Linked-Grows m n id d gn first)
          | inr miss ↦ others c (ground (arith, has-cons d ds c))
        ],
      )
