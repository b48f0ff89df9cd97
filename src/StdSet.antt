-- ===== src/StdSet.antt =====
-- `std::set` with a comparator: the ascending sequence of its elements. An element that compares
-- neither way with a present one is not inserted, and a search finds the one that compares neither
-- way. This is what the standard promises if the comparator is a strict weak order.
use libcmm.Prelude.{
  ◌≡◌, inl, inr, Bool, true, false, not, ◌||◌, ◌&&◌, Option, none, some, List, [], ◌∷◌, arith,
  if◌then◌else◌, All, is_some, Bool-cases,
}

module _ {A : Type 0} (lt : A → A → Bool) where
  unfoldable pub set_insert : A → List A → List A
  set_insert x [] = x ∷ []
  set_insert x (y ∷ ys) =
      let rest = set_insert x ys in
      if lt y x then y ∷ rest else if lt x y then x ∷ y ∷ ys else y ∷ ys

  unfoldable pub set_find : A → List A → Option A
  set_find x [] = none
  set_find x (y ∷ ys) =
      let rest = set_find x ys in if lt y x then rest else if lt x y then none else some y

  unfoldable pub set_erase : A → List A → List A
  set_erase x [] = []
  set_erase x (y ∷ ys) =
      let rest = set_erase x ys in if lt y x then y ∷ rest else if lt x y then y ∷ ys else ys

  abbrev pub IsSorted : List A → Type 0
  IsSorted [] = Unit {0}
  IsSorted (x ∷ xs) = All (λ y. lt x y ≡ true) xs × IsSorted xs

  -- Compares neither way.
  abbrev pub same : A → A → Bool
  same a b = not (lt a b) && not (lt b a)

  -- The comparator is a strict weak order on the elements of interest.
  pub record StrictWeakOrder (Good : A → Type 0) : Type 0 where
    pub irrefl : (a : A) → Good a → lt a a ≡ false
    pub trans :
        (a b c : A) → Good a → Good b → Good c → lt a b ≡ true → lt b c ≡ true → lt a c ≡ true
    pub same_left : (a b c : A) → Good a → Good b → Good c → same a b ≡ true → lt a c ≡ lt b c
    pub same_right : (a b c : A) → Good a → Good b → Good c → same a b ≡ true → lt c a ≡ lt c b

  module _ {Good : A → Type 0} (o : StrictWeakOrder Good) where
    insert-All : (P : A → Type 0) (x : A) (ys : List A) → P x → All P ys → All P (set_insert x ys)
    unfolding set_insert
    insert-All P x [] px h = (px, tt)
    insert-All P x (y ∷ ys) px h = ground (arith, insert-All P x ys)

    all_above :
        (x y : A) (ys : List A)
        → Good x
        → Good y
        → All Good ys
        → lt x y ≡ true
        → All (λ z. lt y z ≡ true) ys
        → All (λ z. lt x z ≡ true) ys
    all_above x y [] gx gy g h a = tt
    all_above x y (z ∷ zs) gx gy g h a =
        (o.trans x y z gx gy g.0 h a.0, all_above x y zs gx gy g.1 h a.1)

    pub insert-Good : (x : A) (ys : List A) → Good x → All Good ys → All Good (set_insert x ys)
    insert-Good x ys = insert-All Good x ys

    -- An insertion keeps the sequence ascending.
    pub insert-IsSorted :
        (x : A) (ys : List A) → Good x → All Good ys → IsSorted ys → IsSorted (set_insert x ys)
    unfolding set_insert
    insert-IsSorted x [] gx g s = (tt, tt)
    insert-IsSorted x (y ∷ ys) gx g s = elim (Bool-cases (lt y x)) [
      | inl above ↦
          rw above (insert-All (λ z. lt y z ≡ true) x ys above s.0, insert-IsSorted x ys gx g.1 s.1)
      | inr below ↦ elim (Bool-cases (lt x y)) [
        | inl strict ↦ rw (below, strict) ((strict, all_above x y ys gx g.0 g.1 strict s.0), s)
        | inr equal ↦ rw (below, equal) s
      ]
    ]

    abbrev pub found : A → List A → Bool
    found x ys = is_some (set_find x ys)

    pub asym : (a b : A) → Good a → Good b → lt a b ≡ true → lt b a ≡ false
    asym a b ga gb h = ground (arith, o.trans a b a ga gb ga h, o.irrefl a ga)

    -- What a search finds after an insertion.
    pub found-insert :
        (x y : A) (zs : List A)
        → Good x
        → Good y
        → All Good zs
        → found x (set_insert y zs) ≡ (same x y || found x zs)
    unfolding set_insert set_find
    found-insert x y [] gx gy g = ground (arith)
    found-insert x y (z ∷ zs) gx gy g = ground (
      arith,
      found-insert x y zs gx gy g.1,
      o.trans x z y gx g.0 gy,
      o.trans x y z gx gy g.0,
      asym x z gx g.0,
      asym z y g.0 gy,
      o.same_left x y z gx gy g.0,
      o.same_right x y z gx gy g.0,
    )
