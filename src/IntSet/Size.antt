-- ===== src/IntSet/Size.antt =====
-- The count that the integer set keeps beside its bits.
use libcmm.Prelude.{
  ℕ, zero, suc, ◌+◌, ◌-◌, ◌<◌, ◌≡◌, refl, Bool, true, false, List, [], ◌∷◌, ◌++◌, ℤ, pos, negsuc,
  arith, if◌then◌else◌, length, get_or, set, replicate,
}
use libcmm.IntSet.Laws.{get_or-insert_vec}
use libcmm.IntSet.{
  IntSet, empty_set, contains_vec, insert_vec, contains, insert_absent, insert, erase_present,
  erase, clear, empty, Op, inserts, erases, clears, step, run,
}

-- How many bits are set.
pub ones : List Bool → ℕ
ones [] = 0
ones (b ∷ v) = (if b then 1 else 0) + ones v

-- The count is the number of set bits, and the bit of "minus zero" stays clear.
pub record IsCounted (s : IntSet) : Type 0 where
  pub counted : s.size ≡ ones s.pos_vec + ones s.neg_vec
  pub no_neg_zero : get_or s.neg_vec 0 false ≡ false

ones-grow : (v : List Bool) (k : ℕ) → ones (v ++ (replicate k false ++ true ∷ [])) ≡ ones v + 1
unfolding ones
ones-grow [] zero = refl
ones-grow [] (suc k) = omega (arith, ones-grow [] k)
ones-grow (x ∷ v) k = omega (arith, ones-grow v k)

ones-set :
    (v : List Bool) (n : ℕ)
    → n < length v
    → get_or v n false ≡ false
    → ones (set v n true) ≡ ones v + 1
unfolding ones
ones-set [] n h e = elim h [ ]
ones-set (x ∷ v) zero h e = ground arith
ones-set (x ∷ v) (suc n) h e = omega (arith, ones-set v n (omega arith) e)

ones-unset : (v : List Bool) (n : ℕ) → get_or v n false ≡ true → ones v ≡ ones (set v n false) + 1
unfolding ones
ones-unset [] n e = absurd (ground arith)
ones-unset (x ∷ v) zero e = ground arith
ones-unset (x ∷ v) (suc n) e = omega (arith, ones-unset v n e)

ones-insert_vec :
    (v : List Bool) (n : ℕ) → contains_vec v n ≡ false → ones (insert_vec v n) ≡ ones v + 1
unfolding contains_vec insert_vec
ones-insert_vec v n h = ground (arith, ones-grow v (n - length v), ones-set v n)

ones-erase_vec :
    (v : List Bool) (n : ℕ) → contains_vec v n ≡ true → ones v ≡ ones (set v n false) + 1
unfolding contains_vec
ones-erase_vec v n h = ground (arith, ones-unset v n)

zero-insert_vec :
    (v : List Bool) (n : ℕ)
    → get_or v 0 false ≡ false
    → get_or (insert_vec v (suc n)) 0 false ≡ false
zero-insert_vec v n h = ground (arith, get_or-insert_vec v (suc n) 0)

zero-unset :
    (v : List Bool) (n : ℕ)
    → get_or v 0 false ≡ false
    → get_or (set v (suc n) false) 0 false ≡ false
zero-unset [] n h = refl
zero-unset (x ∷ v) n h = h

insert_absent-IsCounted :
    (s : IntSet) (a : ℤ) → contains s a ≡ false → IsCounted s → IsCounted (insert_absent s a)
unfolding contains insert_absent
insert_absent-IsCounted s (pos n) h c = ground (arith, ones-insert_vec s.pos_vec n)
insert_absent-IsCounted s (negsuc n) h c =
    ground (arith, ones-insert_vec s.neg_vec (suc n), zero-insert_vec s.neg_vec n)

erase_present-IsCounted :
    (s : IntSet) (a : ℤ) → contains s a ≡ true → IsCounted s → IsCounted (erase_present s a)
unfolding contains erase_present
erase_present-IsCounted s (pos n) h c = ground (arith, ones-erase_vec s.pos_vec n)
erase_present-IsCounted s (negsuc n) h c =
    ground (arith, ones-erase_vec s.neg_vec (suc n), zero-unset s.neg_vec n)

step-IsCounted : (s : IntSet) (o : Op) → IsCounted s → IsCounted (step s o)
unfolding step insert erase clear ones
step-IsCounted s (inserts a) c = ground (arith, insert_absent-IsCounted s a)
step-IsCounted s (erases a) c = ground (arith, erase_present-IsCounted s a)
step-IsCounted s clears c = record { counted = refl; no_neg_zero = refl }

run-IsCounted : (os : List Op) (s : IntSet) → IsCounted s → IsCounted (run s os)
unfolding run
run-IsCounted [] s c = c
run-IsCounted (o ∷ os) s c = run-IsCounted os (step s o) (step-IsCounted s o c)

-- After any sequence of calls on a new set the count is the number of bits that are set, and no
-- call sets the bit that would stand for minus zero.
pub run-empty_set-IsCounted : (os : List Op) → IsCounted (run empty_set os)
unfolding ones
run-empty_set-IsCounted os =
    run-IsCounted os empty_set (record { counted = refl; no_neg_zero = refl })

get_or_of_ones : (v : List Bool) → ones v ≡ 0 → (n : ℕ) → get_or v n false ≡ false
unfolding ones
get_or_of_ones [] h n = refl
get_or_of_ones (x ∷ v) h zero = ground arith
get_or_of_ones (x ∷ v) h (suc n) = get_or_of_ones v (omega arith) n

contains_of_size : (s : IntSet) → IsCounted s → s.size ≡ 0 → (a : ℤ) → contains s a ≡ false
unfolding contains contains_vec
contains_of_size s c h (pos n) = ground (arith, get_or_of_ones s.pos_vec (omega arith) n)
contains_of_size s c h (negsuc n) = ground (arith, get_or_of_ones s.neg_vec (omega arith) (suc n))

-- A set that a sequence of calls leaves `empty` contains no integer.
pub contains_of_empty :
    (os : List Op)
    → empty (run empty_set os) ≡ true
    → (a : ℤ) → contains (run empty_set os) a ≡ false
unfolding empty
contains_of_empty os h a =
    contains_of_size (run empty_set os) (run-empty_set-IsCounted os) (ground arith) a
