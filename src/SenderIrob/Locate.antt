-- ===== src/SenderIrob/Locate.antt =====
-- Where `find_app_chunk` looks in consecutive chunks, and what is gathered from there.
use libcmm.Prelude.{
  ℕ, zero, suc, ◌+◌, ◌-◌, ◌≤◌, ◌<◌, ◌≡◌, refl, sym, ap, ◌∙◌, inl, inr, min, some, List, [], ◌∷◌,
  ◌++◌, arith, ltb, length, get_or, take, drop, Bool-cases, take-append, drop-past, drop-nil,
  take-nil, drop-within, length-drop,
}
use libcmm.Irob.{Chunk, bytes_of}
use libcmm.Irob.Data.{Solid, data_of, take-min}
use libcmm.SenderIrob.{sum_chunks, upper_bound, zero_chunk, find_app_chunk, gather}

-- Each chunk starts where the one before it ends.
abbrev pub Consecutive : ℕ → List Chunk → Type 0
Consecutive o [] = Unit {0}
Consecutive o (c ∷ cs) = (c.offset ≡ o) × Consecutive (o + c.datalen) cs

-- The `k`th chunk is the last that starts at `x` or before.
pub record Located (o : ℕ) (cs : List Chunk) (x k : ℕ) : Type 0 where
  pub at : upper_bound cs x ≡ suc k
  pub within : k < length cs
  pub starts : (get_or cs k zero_chunk).offset ≤ x
  pub inside :
      x < o + sum_chunks cs → x < (get_or cs k zero_chunk).offset + (get_or cs k zero_chunk).datalen
  pub behind :
      o + sum_chunks cs ≤ x
      → (suc k ≡ length cs)
        × ((get_or cs k zero_chunk).offset + (get_or cs k zero_chunk).datalen ≤ x)

pub locate :
    (o : ℕ) (c : Chunk) (cs : List Chunk) (x : ℕ)
    → Consecutive o (c ∷ cs)
    → o ≤ x
    → (k : ℕ) × Located o (c ∷ cs) x k
unfolding upper_bound sum_chunks
locate o c [] x h le = (
  0,
  record {
    at = ground arith;
    within = ground arith;
    starts = ground arith;
    inside = λ lt. ground arith;
    behind = λ lt. (refl, ground arith);
  },
)
locate o c (d ∷ ds) x h le = elim (Bool-cases (ltb x (o + c.datalen))) [
  | inl here ↦ (
    0,
    record {
      at = ground arith;
      within = ground arith;
      starts = ground arith;
      inside = λ lt. ground arith;
      behind = λ lt. absurd (ground arith);
    },
  )
  | inr later ↦
      let (k, l) = locate (o + c.datalen) d ds x h.1 (ground arith) in
      (
        suc k,
        record {
          at = ground (arith, l.at, l.starts);
          within = ground (arith, l.within);
          starts = l.starts;
          inside = λ lt. l.inside (ground arith);
          behind = λ lt. (ground (arith, l.behind), (l.behind (ground arith)).1);
        },
      )
]

starts_after :
    (o k : ℕ) (cs : List Chunk)
    → Consecutive o cs
    → k < length cs
    → o ≤ (get_or cs k zero_chunk).offset
starts_after o k [] h lt = absurd (omega arith)
starts_after o zero (c ∷ cs) h lt = ground (arith, h.0)
starts_after o (suc k) (c ∷ cs) h lt =
    ground (arith, starts_after (o + c.datalen) k cs h.1 (omega arith))

pub data_from :
    (o k x : ℕ) (cs : List Chunk)
    → Consecutive o cs
    → Solid cs
    → k < length cs
    → (get_or cs k zero_chunk).offset ≤ x
    → drop (x - (get_or cs k zero_chunk).offset) (data_of (drop k cs)) ≡ drop (x - o) (data_of cs)
data_from o k x [] h s lt le = absurd (omega arith)
data_from o zero x (c ∷ cs) h s lt le = ap (λ y. drop (x - y) (data_of (c ∷ cs))) h.0
data_from o (suc k) x (c ∷ cs) h s lt le =
    let after = starts_after (o + c.datalen) k cs h.1 (omega arith) in
    data_from (o + c.datalen) k x cs h.1 s.1 (omega arith) le
    ∙ sym (
        drop-past (x - o) (x - (o + c.datalen)) (bytes_of c) (data_of cs) (ground (arith, s.0))
          (ground (arith, s.0)))

-- Inside the chunks the search finds the one that holds `x`.
pub find_inside :
    (cs : List Chunk) (x : ℕ)
    → Consecutive 0 cs
    → x < sum_chunks cs
    → (k : ℕ) × (find_app_chunk cs x ≡ some k) × Located 0 cs x k
unfolding find_app_chunk sum_chunks
find_inside [] x h lt = absurd (ground arith)
find_inside (c ∷ cs) x h lt =
    let (k, l) = locate 0 c cs x h (ground arith) in
    (k, ground (arith, l.at, l.starts, l.inside), l)

-- Behind them it finds the end.
pub find_behind :
    (cs : List Chunk) (x : ℕ)
    → Consecutive 0 cs
    → sum_chunks cs ≤ x
    → find_app_chunk cs x ≡ some (length cs)
unfolding find_app_chunk sum_chunks
find_behind [] x h le = refl
find_behind (c ∷ cs) x h le =
    let (k, l) = locate 0 c cs x h (ground arith) in ground (arith, l.at, l.starts, l.behind)

-- The offset lies within the first chunk.
abbrev pub Fits : ℕ → List Chunk → Type 0
Fits a [] = Unit {0}
Fits a (c ∷ cs) = a ≤ c.datalen

Fits-zero : (cs : List Chunk) → Fits 0 cs
Fits-zero [] = tt
Fits-zero (c ∷ cs) = ground arith

abbrev pub joined : List (List ℕ) → List ℕ
joined [] = []
joined (xs ∷ xss) = xs ++ joined xss

pub gather-joined :
    (cs : List Chunk) (a len : ℕ)
    → Solid cs
    → Fits a cs
    → joined (gather cs a len).0 ≡ take len (drop a (data_of cs))
unfolding gather
gather-joined [] a len s f = sym (ap (λ xs. take len xs) (drop-nil a) ∙ take-nil len)
gather-joined (c ∷ cs) a zero s f = ground arith
gather-joined (c ∷ cs) a (suc len) s f =
    let n = min (c.datalen - a) (suc len) in
    let bs = drop a (bytes_of c) in
    ground (
      arith,
      gather-joined cs 0 (suc len - n) s.1 (Fits-zero cs),
      drop-within a (bytes_of c) (data_of cs),
      take-append (suc len) bs (data_of cs),
      take-min (suc len) bs,
      length-drop a (bytes_of c),
      s.0,
    )

pub gather-count :
    (cs : List Chunk) (a len : ℕ) → Fits a cs → (gather cs a len).1 ≡ min len (sum_chunks cs - a)
unfolding gather sum_chunks
gather-count [] a len f = ground arith
gather-count (c ∷ cs) a len f =
    let n = min (c.datalen - a) len in ground (arith, gather-count cs 0 (len - n) (Fits-zero cs))

pub sum-drop :
    (cs : List Chunk) (o k : ℕ)
    → Consecutive o cs
    → k < length cs
    → o + sum_chunks cs ≡ (get_or cs k zero_chunk).offset + sum_chunks (drop k cs)
unfolding sum_chunks
sum-drop [] o k h lt = absurd (omega arith)
sum-drop (c ∷ cs) o zero h lt = ground (arith, h.0)
sum-drop (c ∷ cs) o (suc k) h lt = ground (arith, sum-drop cs (o + c.datalen) k h.1 (omega arith))
