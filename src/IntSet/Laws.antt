-- ===== src/IntSet/Laws.antt =====
-- Laws of the integer set: what it contains after each call, its count, and a run of calls against
-- the plain description of a set.
use libcmm.Prelude.{
  ℕ, zero, suc, ◌-◌, ◌≤◌, ◌<◌, ◌≡◌, refl, ◌∙◌, Bool, true, false, List, [], ◌∷◌, ◌++◌, ℤ, pos,
  negsuc, arith, ◌==◌, if◌then◌else◌, length, get_or, set, replicate, get_or-set, get_or-beyond,
  eqb_ℤ, eqb_ℤ_iff,
}
use libcmm.IntSet.{
  IntSet, empty_set, contains_vec, insert_vec, contains, insert_absent, insert, erase_present,
  erase, clear, Op, inserts, erases, clears, step, run,
}

contains_vec-get_or : (v : List Bool) (n : ℕ) → contains_vec v n ≡ get_or v n false
unfolding contains_vec
contains_vec-get_or v n = ground (arith, get_or-beyond v n false)

-- The bit that `push_back` appends behind `resize`.
get_or-grow :
    (v : List Bool) (n m : ℕ)
    → length v ≤ n
    → get_or (v ++ (replicate (n - length v) false ++ true ∷ [])) m false
      ≡ (if n == m then true else get_or v m false)
get_or-grow [] zero zero h = refl
get_or-grow [] zero (suc m) h = ground arith
get_or-grow [] (suc n) zero h = ground arith
get_or-grow [] (suc n) (suc m) h = ground (arith, get_or-grow [] n m)
get_or-grow (x ∷ v) zero m h = absurd (omega arith)
get_or-grow (x ∷ v) (suc n) zero h = ground arith
get_or-grow (x ∷ v) (suc n) (suc m) h = ground (arith, get_or-grow v n m)

pub get_or-insert_vec :
    (v : List Bool) (n m : ℕ)
    → get_or (insert_vec v n) m false ≡ (if n == m then true else get_or v m false)
unfolding insert_vec
get_or-insert_vec v n m = ground (arith, get_or-grow v n m, get_or-set v n m true false)

contains_vec-insert_vec :
    (v : List Bool) (n m : ℕ)
    → contains_vec (insert_vec v n) m ≡ (if n == m then true else contains_vec v m)
contains_vec-insert_vec v n m = ground (
  arith,
  contains_vec-get_or (insert_vec v n) m,
  contains_vec-get_or v m,
  get_or-insert_vec v n m,
)

lt-length_of_get_or : (v : List Bool) (n : ℕ) → get_or v n false ≡ true → n < length v
lt-length_of_get_or [] n h = absurd (ground arith)
lt-length_of_get_or (x ∷ v) zero h = omega arith
lt-length_of_get_or (x ∷ v) (suc n) h = omega (arith, lt-length_of_get_or v n h)

contains_vec-unset :
    (v : List Bool) (n m : ℕ)
    → contains_vec v n ≡ true
    → contains_vec (set v n false) m ≡ (if n == m then false else contains_vec v m)
contains_vec-unset v n m h = ground (
  arith,
  contains_vec-get_or (set v n false) m,
  contains_vec-get_or v m,
  contains_vec-get_or v n,
  get_or-set v n m false false,
  lt-length_of_get_or v n,
)

contains-insert_absent :
    (s : IntSet) (a b : ℤ)
    → contains (insert_absent s a) b ≡ (if eqb_ℤ a b then true else contains s b)
unfolding contains insert_absent
contains-insert_absent s (pos n) (pos m) = ground (arith, contains_vec-insert_vec s.pos_vec n m)
contains-insert_absent s (pos n) (negsuc m) = refl
contains-insert_absent s (negsuc n) (pos m) = refl
contains-insert_absent s (negsuc n) (negsuc m) =
    ground (arith, contains_vec-insert_vec s.neg_vec (suc n) (suc m))

-- After `insert` a number is in the set exactly when it was or is the one inserted.
pub contains-insert :
    (s : IntSet) (a b : ℤ) → contains (insert s a) b ≡ (if eqb_ℤ a b then true else contains s b)
unfolding insert
contains-insert s a b = ground (arith, contains-insert_absent s a b, eqb_ℤ_iff a b)

contains-erase_present :
    (s : IntSet) (a b : ℤ)
    → contains s a ≡ true
    → contains (erase_present s a) b ≡ (if eqb_ℤ a b then false else contains s b)
unfolding contains erase_present
contains-erase_present s (pos n) (pos m) h = ground (arith, contains_vec-unset s.pos_vec n m)
contains-erase_present s (pos n) (negsuc m) h = refl
contains-erase_present s (negsuc n) (pos m) h = refl
contains-erase_present s (negsuc n) (negsuc m) h =
    ground (arith, contains_vec-unset s.neg_vec (suc n) (suc m))

pub contains-erase :
    (s : IntSet) (a b : ℤ) → contains (erase s a) b ≡ (if eqb_ℤ a b then false else contains s b)
unfolding erase
contains-erase s a b = ground (arith, contains-erase_present s a b, eqb_ℤ_iff a b)

pub contains-empty_set : (a : ℤ) → contains empty_set a ≡ false
unfolding contains contains_vec
contains-empty_set (pos n) = ground arith
contains-empty_set (negsuc n) = ground arith

-- A set of integers, described as its membership test.
abbrev pub spec_step : (ℤ → Bool) → Op → ℤ → Bool
spec_step p (inserts a) b = if eqb_ℤ a b then true else p b
spec_step p (erases a) b = if eqb_ℤ a b then false else p b
spec_step p clears b = false

abbrev pub spec_run : (ℤ → Bool) → List Op → ℤ → Bool
spec_run p [] = p
spec_run p (o ∷ os) = spec_run (spec_step p o) os

contains-step : (s : IntSet) (o : Op) (b : ℤ) → contains (step s o) b ≡ spec_step (contains s) o b
unfolding step clear
contains-step s (inserts a) b = contains-insert s a b
contains-step s (erases a) b = contains-erase s a b
contains-step s clears b = contains-empty_set b

spec_step-ext :
    (p q : ℤ → Bool) (o : Op) → ((b : ℤ) → p b ≡ q b) → (b : ℤ) → spec_step p o b ≡ spec_step q o b
spec_step-ext p q (inserts a) h b = ground (arith, h b)
spec_step-ext p q (erases a) h b = ground (arith, h b)
spec_step-ext p q clears h b = refl

contains-run_from :
    (os : List Op) (s : IntSet) (p : ℤ → Bool)
    → ((b : ℤ) → contains s b ≡ p b)
    → (b : ℤ) → contains (run s os) b ≡ spec_run p os b
unfolding run
contains-run_from [] s p h b = h b
contains-run_from (o ∷ os) s p h b =
    contains-run_from os (step s o) (spec_step p o)
      (λ c. contains-step s o c ∙ spec_step-ext (contains s) p o h c) b

-- After any sequence of `insert`, `erase` and `clear` on a new set, `contains` answers for every
-- integer, negative ones too, as the membership test that the same sequence describes.
pub contains-run :
    (os : List Op) (b : ℤ) → contains (run empty_set os) b ≡ spec_run (λ _. false) os b
contains-run os b = contains-run_from os empty_set (λ _. false) contains-empty_set b
