-- ===== src/ReceiverIrob/Parts.antt =====
-- A chunk list with holes against the chunks that the sender made.
use libcmm.Prelude.{
  ℕ, zero, suc, ◌+◌, ◌-◌, ◌≤◌, ◌<◌, ◌≡◌, refl, ◌⊎◌, inl, inr, Bool, true, List, [], ◌∷◌, ◌++◌,
  arith, ltb, leb, ◌||◌, if◌then◌else◌, length, get_or, set, replicate, is_some,
  get_or-append-replicate, length-append, length-replicate, Bool-cases,
}
use libcmm.Irob.{Chunk}
use libcmm.ReceiverIrob.{empty_chunk, all_chunks_complete, reach_seqno}

-- The chunks of an IROB in order: each has data, and its place for its seqno.
abbrev pub IsTarget : ℕ → List Chunk → Type 0
IsTarget i [] = Unit {0}
IsTarget i (c ∷ cs) = (c.seqno ≡ i) × (is_some c.datas ≡ true) × IsTarget (i + 1) cs

-- Every slot holds the right chunk or none.
abbrev pub Partial : List Chunk → List Chunk → Type 0
Partial [] ts = Unit {0}
Partial (c ∷ cs) [] = ⊥
Partial (c ∷ cs) (t ∷ ts) = ((c ≡ t) ⊎ (c ≡ empty_chunk)) × Partial cs ts

unfoldable pub bytes : List Chunk → ℕ
bytes [] = 0
bytes (c ∷ cs) = c.datalen + bytes cs

unfoldable pub filled : List Chunk → ℕ
filled [] = 0
filled (c ∷ cs) = (if is_some c.datas then 1 else 0) + filled cs

abbrev pub holds : List Chunk → ℕ → Bool
holds cs j = is_some (get_or cs j empty_chunk).datas

pub bytes-le : (cs ts : List Chunk) → Partial cs ts → bytes cs ≤ bytes ts
unfolding bytes
bytes-le [] ts h = omega arith
bytes-le (c ∷ cs) [] h = absurd h
bytes-le (c ∷ cs) (t ∷ ts) h = ground (arith, bytes-le cs ts h.1)

pub length-le : (cs ts : List Chunk) → Partial cs ts → length cs ≤ length ts
length-le [] ts h = omega arith
length-le (c ∷ cs) [] h = absurd h
length-le (c ∷ cs) (t ∷ ts) h = omega (arith, length-le cs ts h.1)

pub filled-le : (cs : List Chunk) → filled cs ≤ length cs
unfolding filled
filled-le [] = omega arith
filled-le (c ∷ cs) = ground (arith, filled-le cs)

-- With as many chunks as the sender made there is no hole.
pub full_eq : (cs ts : List Chunk) → Partial cs ts → filled cs ≡ length ts → cs ≡ ts
unfolding filled
full_eq [] [] h e = refl
full_eq [] (t ∷ ts) h e = absurd (omega arith)
full_eq (c ∷ cs) [] h e = absurd h
full_eq (c ∷ cs) (t ∷ ts) h e = ground (arith, full_eq cs ts h.1, filled-le cs, length-le cs ts h.1)

pub filled-target : (i : ℕ) (ts : List Chunk) → IsTarget i ts → filled ts ≡ length ts
unfolding filled
filled-target i [] h = refl
filled-target i (t ∷ ts) h = ground (arith, filled-target (i + 1) ts h.2)

pub complete-target : (i : ℕ) (ts : List Chunk) → IsTarget i ts → all_chunks_complete ts ≡ true
unfolding all_chunks_complete
complete-target i [] h = refl
complete-target i (t ∷ ts) h = ground (arith, complete-target (i + 1) ts h.2)

holds_of_filled :
    (cs ts : List Chunk) (j : ℕ)
    → Partial cs ts
    → filled cs ≡ length ts
    → j < length ts
    → holds cs j ≡ true
unfolding filled
holds_of_filled [] ts j h e lt = absurd (omega arith)
holds_of_filled (c ∷ cs) [] j h e lt = absurd h
holds_of_filled (c ∷ cs) (t ∷ ts) zero h e lt = ground (arith, filled-le cs, length-le cs ts h.1)
holds_of_filled (c ∷ cs) (t ∷ ts) (suc j) h e lt =
    holds_of_filled cs ts j h.1 (ground (arith, filled-le cs, length-le cs ts h.1)) (omega arith)

filled_of_holds :
    (cs ts : List Chunk)
    → Partial cs ts
    → ((j : ℕ) → j < length ts → holds cs j ≡ true)
    → filled cs ≡ length ts
unfolding filled
filled_of_holds [] [] h all = refl
filled_of_holds [] (t ∷ ts) h all = absurd (ground (arith, all 0 (omega arith)))
filled_of_holds (c ∷ cs) [] h all = absurd h
filled_of_holds (c ∷ cs) (t ∷ ts) h all =
    ground
      (arith, all 0 (omega arith), filled_of_holds cs ts h.1 (λ j lt. all (suc j) (omega arith)))

-- All chunks are there exactly if every seqno below their number is.
pub filled_iff :
    (cs ts : List Chunk)
    → Partial cs ts
    → ((filled cs ≡ length ts) → (j : ℕ) → j < length ts → holds cs j ≡ true)
      × (((j : ℕ) → j < length ts → holds cs j ≡ true) → filled cs ≡ length ts)
filled_iff cs ts h = (λ e j. holds_of_filled cs ts j h e, filled_of_holds cs ts h)

Partial-replicate : (n : ℕ) (ts : List Chunk) → n ≤ length ts → Partial (replicate n empty_chunk) ts
Partial-replicate zero ts h = tt
Partial-replicate (suc n) [] h = absurd (omega arith)
Partial-replicate (suc n) (t ∷ ts) h = (inr refl, Partial-replicate n ts (omega arith))

Partial-grow :
    (cs ts : List Chunk) (n : ℕ)
    → Partial cs ts
    → length cs + n ≤ length ts
    → Partial (cs ++ replicate n empty_chunk) ts
Partial-grow [] ts n h lt = Partial-replicate n ts (omega arith)
Partial-grow (c ∷ cs) [] n h lt = absurd h
Partial-grow (c ∷ cs) (t ∷ ts) n h lt = (h.0, Partial-grow cs ts n h.1 (omega arith))

sums-grow :
    (cs : List Chunk) (n : ℕ)
    → (bytes (cs ++ replicate n empty_chunk) ≡ bytes cs)
      × (filled (cs ++ replicate n empty_chunk) ≡ filled cs)
unfolding bytes filled
sums-grow [] zero = (refl, refl)
sums-grow [] (suc n) = ground (arith, sums-grow [] n)
sums-grow (c ∷ cs) n = ground (arith, sums-grow cs n)

-- `resize` adds holes only.
pub record Reached (cs ts : List Chunk) (k : ℕ) (ds : List Chunk) : Type 0 where
  pub part : Partial ds ts
  pub same_bytes : bytes ds ≡ bytes cs
  pub same_filled : filled ds ≡ filled cs
  pub long : k < length ds
  pub reach : (j : ℕ) → ltb j (length ds) ≡ (leb j k || ltb j (length cs))
  pub same_slot : (j : ℕ) → get_or ds j empty_chunk ≡ get_or cs j empty_chunk

pub reach_seqno-Reached :
    (cs ts : List Chunk) (k : ℕ)
    → Partial cs ts
    → k < length ts
    → Reached cs ts k (reach_seqno cs k)
unfolding reach_seqno
reach_seqno-Reached cs ts k h lt = elim (Bool-cases (leb (length cs) k)) [
  | inl short ↦
      let n = k + 1 - length cs in
      rw short (record {
        part = Partial-grow cs ts n h (ground arith);
        same_bytes = (sums-grow cs n).0;
        same_filled = (sums-grow cs n).1;
        long =
            ground
              (arith, length-append cs (replicate n empty_chunk), length-replicate n empty_chunk);
        reach = λ j.
            ground
              (arith, length-append cs (replicate n empty_chunk), length-replicate n empty_chunk);
        same_slot = λ j. get_or-append-replicate cs n j empty_chunk;
      })
  | inr long ↦ rw long (record {
    part = h;
    same_bytes = refl;
    same_filled = refl;
    long = ground arith;
    reach = λ j. ground arith;
    same_slot = λ j. refl;
  })
]

pub slot_cases :
    (cs ts : List Chunk) (k : ℕ)
    → Partial cs ts
    → k < length cs
    → (get_or cs k empty_chunk ≡ get_or ts k empty_chunk) ⊎ (get_or cs k empty_chunk ≡ empty_chunk)
slot_cases [] ts k h lt = absurd (omega arith)
slot_cases (c ∷ cs) [] k h lt = absurd h
slot_cases (c ∷ cs) (t ∷ ts) zero h lt = h.0
slot_cases (c ∷ cs) (t ∷ ts) (suc k) h lt = slot_cases cs ts k h.1 (omega arith)

-- A hole is filled with the chunk that belongs there.
pub fill_hole :
    (cs ts : List Chunk) (k : ℕ)
    → Partial cs ts
    → k < length cs
    → get_or cs k empty_chunk ≡ empty_chunk
    → is_some (get_or ts k empty_chunk).datas ≡ true
    → Partial (set cs k (get_or ts k empty_chunk)) ts
      × (bytes (set cs k (get_or ts k empty_chunk)) ≡ bytes cs + (get_or ts k empty_chunk).datalen)
      × (filled (set cs k (get_or ts k empty_chunk)) ≡ filled cs + 1)
unfolding bytes filled
fill_hole [] ts k h lt e d = absurd (omega arith)
fill_hole (c ∷ cs) [] k h lt e d = absurd h
fill_hole (c ∷ cs) (t ∷ ts) zero h lt e d = ((inl refl, h.1), ground arith, ground arith)
fill_hole (c ∷ cs) (t ∷ ts) (suc k) h lt e d =
    let (part, b, f) = fill_hole cs ts k h.1 (omega arith) e d in
    ((h.0, part), omega arith, omega arith)

pub target_at :
    (i : ℕ) (ts : List Chunk) (k : ℕ)
    → IsTarget i ts
    → k < length ts
    → ((get_or ts k empty_chunk).seqno ≡ i + k) × (is_some (get_or ts k empty_chunk).datas ≡ true)
target_at i [] k h lt = absurd (omega arith)
target_at i (t ∷ ts) zero h lt = (omega arith, h.1)
target_at i (t ∷ ts) (suc k) h lt =
    let (s, d) = target_at (i + 1) ts k h.2 (omega arith) in (omega arith, d)
