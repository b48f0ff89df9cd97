-- ===== src/IdSet.antt =====
-- `irob_id_set`, a std::set<irob_id_t> (pending_irob.h): an ascending list of ids with the calls of
-- it that the lattice makes. An iteration visits the ids in this order.
use libcmm.Prelude.{
  ℕ, ◌+◌, ◌≤◌, ◌≡◌, refl, ◌⊎◌, inl, inr, Bool, true, false, not, ◌&&◌, ◌||◌, List, [], ◌∷◌, arith,
  ltb, ◌==◌, if◌then◌else◌, ==_iff,
}

abbrev pub IdSet : Type 0
IdSet = List ℕ

-- `count(id) == 1`
unfoldable pub has : IdSet → ℕ → Bool
has [] a = false
has (x ∷ xs) a = (x == a) || has xs a

unfoldable pub insert : ℕ → IdSet → IdSet
insert a [] = a ∷ []
insert a (x ∷ xs) =
    let rest = insert a xs in if ltb x a then x ∷ rest else if x == a then x ∷ xs else a ∷ x ∷ xs

-- The elements that pass a test stay: `erase` in a loop.
unfoldable pub keep_if : (ℕ → Bool) → IdSet → IdSet
keep_if p [] = []
keep_if p (x ∷ xs) = if p x then x ∷ keep_if p xs else keep_if p xs

unfoldable pub erase : ℕ → IdSet → IdSet
unfolding keep_if
erase a xs = keep_if (λ x. not (x == a)) xs

-- `insert(first, last)`
unfoldable pub insert_all : IdSet → IdSet → IdSet
insert_all xs [] = xs
insert_all xs (y ∷ ys) = insert_all (insert y xs) ys

-- `set_intersection`
unfoldable pub intersection : IdSet → IdSet → IdSet
unfolding keep_if has
intersection xs ys = keep_if (has ys) xs

-- `erase` of each element of a range
unfoldable pub erase_all : IdSet → IdSet → IdSet
unfolding keep_if erase
erase_all [] xs = xs
erase_all (y ∷ ys) xs = erase_all ys (erase y xs)

pub has-nil : (a : ℕ) → has [] a ≡ false
unfolding has
has-nil a = refl

pub has-cons : (x : ℕ) (xs : IdSet) (a : ℕ) → has (x ∷ xs) a ≡ ((x == a) || has xs a)
unfolding has
has-cons x xs a = refl

pub has-insert : (a : ℕ) (xs : IdSet) (b : ℕ) → has (insert a xs) b ≡ ((a == b) || has xs b)
unfolding has insert
has-insert a [] b = refl
has-insert a (x ∷ xs) b = ground (arith, has-insert a xs b)

pub has-keep_if : (p : ℕ → Bool) (xs : IdSet) (b : ℕ) → has (keep_if p xs) b ≡ (p b && has xs b)
unfolding has keep_if
has-keep_if p [] b = ground arith
has-keep_if p (x ∷ xs) b = ground (arith, has-keep_if p xs b, ==_iff x b)

pub has-erase : (a : ℕ) (xs : IdSet) (b : ℕ) → has (erase a xs) b ≡ (not (b == a) && has xs b)
unfolding erase
has-erase a xs b = has-keep_if (λ x. not (x == a)) xs b

pub has-insert_all : (xs ys : IdSet) (b : ℕ) → has (insert_all xs ys) b ≡ (has xs b || has ys b)
unfolding insert_all has
has-insert_all xs [] b = ground arith
has-insert_all xs (y ∷ ys) b = ground (arith, has-insert_all (insert y xs) ys b, has-insert y xs b)

pub has-intersection : (xs ys : IdSet) (b : ℕ) → has (intersection xs ys) b ≡ (has ys b && has xs b)
unfolding intersection
has-intersection xs ys b = has-keep_if (has ys) xs b

pub has-erase_all : (ys xs : IdSet) (b : ℕ) → has (erase_all ys xs) b ≡ (not (has ys b) && has xs b)
unfolding erase_all has
has-erase_all [] xs b = refl
has-erase_all (y ∷ ys) xs b =
    ground (arith, has-erase_all ys (erase y xs) b, has-erase y xs b, ==_iff y b, ==_iff b y)

-- Ascending, with no id twice.
abbrev pub Above : ℕ → IdSet → Type 0
Above n [] = Unit {0}
Above n (x ∷ xs) = (n ≤ x) × Above (x + 1) xs

Above-weaken : (m n : ℕ) (xs : IdSet) → m ≤ n → Above n xs → Above m xs
Above-weaken m n [] h s = tt
Above-weaken m n (x ∷ xs) h s = (omega arith, s.1)

insert-Above : (n a : ℕ) (xs : IdSet) → n ≤ a → Above n xs → Above n (insert a xs)
unfolding insert
insert-Above n a [] h s = (h, tt)
insert-Above n a (x ∷ xs) h s = ground (arith, insert-Above (x + 1) a xs, Above-weaken (a + 1) x)

-- The first element, if any, is in the set.
pub has_first : (xs : IdSet) → xs ≡ [] ⊎ ((a : ℕ) × (has xs a ≡ true))
unfolding has
has_first [] = inl refl
has_first (x ∷ xs) = inr (x, ground arith)

keep_if_twice : (p : ℕ → Bool) (xs : IdSet) → keep_if p (keep_if p xs) ≡ keep_if p xs
unfolding keep_if
keep_if_twice p [] = refl
keep_if_twice p (x ∷ xs) = ground (arith, keep_if_twice p xs)

pub erase-erase : (a : ℕ) (xs : IdSet) → erase a (erase a xs) ≡ erase a xs
unfolding erase
erase-erase a xs = keep_if_twice (λ x. not (x == a)) xs
