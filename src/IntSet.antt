-- ===== src/IntSet.antt =====
-- intset.h and intset.cpp: a set of integers as two bit vectors and a count of its members.
-- The least `long`, which has no opposite, is never a member.
pub mod Laws
pub mod Size
mod Tests
use libcmm.Prelude.{
  ℕ, zero, suc, ◌+◌, ◌-◌, Bool, true, false, List, [], ◌∷◌, ◌++◌, ℤ, pos, negsuc, leb, ◌==◌,
  if◌then◌else◌, length, get_or, set, replicate,
}

-- A bit vector is a list of its bits, the lowest index first.
pub record IntSet : Type 0 where
  pub pos_vec : List Bool
  pub neg_vec : List Bool
  pub size : ℕ

abbrev pub empty_set : IntSet
empty_set = record { pos_vec = []; neg_vec = []; size = 0 }

pub contains_vec : List Bool → ℕ → Bool
contains_vec vec num = if leb (length vec) num then false else get_or vec num false

-- `resize` fills with zeros; the bit behind them is pushed on.
pub insert_vec : List Bool → ℕ → List Bool
insert_vec vec num =
    if leb (length vec) num
    then vec ++ (replicate (num - length vec) false ++ true ∷ [])
    else set vec num true

-- A negative number -m, which is `negsuc (m - 1)`, has the bit m of `neg_vec`.
unfoldable pub contains : IntSet → ℤ → Bool
unfolding contains_vec
contains s (pos n) = contains_vec s.pos_vec n
contains s (negsuc n) = contains_vec s.neg_vec (suc n)

insert_absent : IntSet → ℤ → IntSet
unfolding insert_vec
insert_absent s (pos n) = record s { pos_vec = insert_vec s.pos_vec n; size = s.size + 1 }
insert_absent s (negsuc n) = record s { neg_vec = insert_vec s.neg_vec (suc n); size = s.size + 1 }

unfoldable pub insert : IntSet → ℤ → IntSet
unfolding insert_absent contains
insert s num = if contains s num then s else insert_absent s num

erase_present : IntSet → ℤ → IntSet
erase_present s (pos n) = record s { pos_vec = set s.pos_vec n false; size = s.size - 1 }
erase_present s (negsuc n) = record s { neg_vec = set s.neg_vec (suc n) false; size = s.size - 1 }

pub erase : IntSet → ℤ → IntSet
unfolding erase_present contains
erase s num = if contains s num then erase_present s num else s

pub clear : IntSet → IntSet
clear s = record { pos_vec = []; neg_vec = []; size = 0 }

pub empty : IntSet → Bool
empty s = s.size == 0

-- The calls that change a set.
pub data Op : Type 0 where
  inserts : ℤ → Op
  erases : ℤ → Op
  clears : Op

pub step : IntSet → Op → IntSet
step s (inserts z) = insert s z
step s (erases z) = erase s z
step s clears = clear s

pub run : IntSet → List Op → IntSet
run s [] = s
run s (o ∷ os) = run (step s o) os
