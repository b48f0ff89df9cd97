-- ===== src/ReceiverLattice/Slots.antt =====
-- The chunk list of an IROB that may get anything from the network.
use libcmm.Prelude.{
  ℕ, zero, suc, ◌+◌, ◌-◌, ◌≤◌, ◌<◌, ◌≡◌, refl, ◌⊎◌, inl, inr, true, false, List, [], ◌∷◌, ◌++◌,
  arith, leb, length, get_or, set, replicate, is_some, length-append, length-replicate,
  get_or-append-replicate, Bool-cases,
}
use libcmm.Irob.{Chunk, bytes_of}
use libcmm.Irob.Data.{Solid, data_of}
use libcmm.ReceiverIrob.{empty_chunk, reach_seqno}

-- A slot is empty, or holds the chunk of its seqno with the data that its length says.
abbrev pub Slotted : ℕ → List Chunk → Type 0
Slotted i [] = Unit {0}
Slotted i (c ∷ cs) =
    ((c ≡ empty_chunk)
      ⊎ ((c.seqno ≡ i) × (is_some c.datas ≡ true) × (c.datalen ≡ length (bytes_of c))))
    × Slotted (i + 1) cs

abbrev pub size_of : List Chunk → ℕ
size_of cs = length (data_of cs)

pub Slotted-Solid : (i : ℕ) (cs : List Chunk) → Slotted i cs → Solid cs
Slotted-Solid i [] h = tt
Slotted-Solid i (c ∷ cs) (inl e, h) = (ground arith, Slotted-Solid (i + 1) cs h)
Slotted-Solid i (c ∷ cs) (inr t, h) = (t.2, Slotted-Solid (i + 1) cs h)

Slotted-replicate : (i n : ℕ) → Slotted i (replicate n empty_chunk)
Slotted-replicate i zero = tt
Slotted-replicate i (suc n) = (inl refl, Slotted-replicate (i + 1) n)

Slotted-append :
    (i : ℕ) (cs : List Chunk) (n : ℕ) → Slotted i cs → Slotted i (cs ++ replicate n empty_chunk)
Slotted-append i [] n h = Slotted-replicate i n
Slotted-append i (c ∷ cs) n h = (h.0, Slotted-append (i + 1) cs n h.1)

size-append : (cs : List Chunk) (n : ℕ) → size_of (cs ++ replicate n empty_chunk) ≡ size_of cs
size-append [] zero = refl
size-append [] (suc n) = size-append [] n
size-append (c ∷ cs) n = ground (
  arith,
  size-append cs n,
  length-append (bytes_of c) (data_of cs),
  length-append (bytes_of c) (data_of (cs ++ replicate n empty_chunk)),
)

-- What `resize` leaves.
pub record Reaches (cs : List Chunk) (k : ℕ) (ds : List Chunk) : Type 0 where
  pub slots : Slotted 0 ds
  pub same_size : size_of ds ≡ size_of cs
  pub long : k < length ds
  pub same_slot : (j : ℕ) → get_or ds j empty_chunk ≡ get_or cs j empty_chunk
  pub bounded : length cs ≤ k → length ds ≡ k + 1
  pub kept : k < length cs → length ds ≡ length cs

pub reach_seqno-Reaches : (cs : List Chunk) (k : ℕ) → Slotted 0 cs → Reaches cs k (reach_seqno cs k)
unfolding reach_seqno
reach_seqno-Reaches cs k h = elim (Bool-cases (leb (length cs) k)) [
  | inl short ↦
      let n = k + 1 - length cs in
      rw short (record {
        slots = Slotted-append 0 cs n h;
        same_size = size-append cs n;
        long =
            ground
              (arith, length-append cs (replicate n empty_chunk), length-replicate n empty_chunk);
        same_slot = λ j. get_or-append-replicate cs n j empty_chunk;
        bounded = λ lt.
            ground
              (arith, length-append cs (replicate n empty_chunk), length-replicate n empty_chunk);
        kept = λ lt. absurd (ground arith);
      })
  | inr long ↦ rw long (record {
    slots = h;
    same_size = refl;
    long = ground arith;
    same_slot = λ j. refl;
    bounded = λ lt. absurd (ground arith);
    kept = λ lt. refl;
  })
]

-- An empty slot takes a chunk.
pub set-Slotted :
    (i : ℕ) (cs : List Chunk) (k : ℕ) (c : Chunk)
    → Slotted i cs
    → k < length cs
    → is_some (get_or cs k empty_chunk).datas ≡ false
    → c.seqno ≡ i + k
    → is_some c.datas ≡ true
    → c.datalen ≡ length (bytes_of c)
    → Slotted i (set cs k c) × (size_of (set cs k c) ≡ size_of cs + c.datalen)
set-Slotted i [] k c h lt free s d len = absurd (omega arith)
set-Slotted i (x ∷ xs) zero c (inl e, h) lt free s d len =
    ((inr (ground arith, d, len), h), ground (arith, length-append (bytes_of c) (data_of xs)))
set-Slotted i (x ∷ xs) zero c (inr t, h) lt free s d len = absurd (ground arith)
set-Slotted i (x ∷ xs) (suc k) c h lt free s d len =
    let (slots, size) = set-Slotted (i + 1) xs k c h.1 (omega arith) free (omega arith) d len in
    (
      (h.0, slots),
      ground (
        arith,
        length-append (bytes_of x) (data_of xs),
        length-append (bytes_of x) (data_of (set xs k c)),
      ),
    )

-- An empty slot is what `resize` makes.
pub set-empty :
    (cs : List Chunk) (i k : ℕ)
    → Slotted i cs
    → is_some (get_or cs k empty_chunk).datas ≡ false
    → set cs k empty_chunk ≡ cs
set-empty [] i k h free = refl
set-empty (x ∷ xs) i zero (inl e, h) free = ground arith
set-empty (x ∷ xs) i zero (inr t, h) free = absurd (ground arith)
set-empty (x ∷ xs) i (suc k) h free = ground (arith, set-empty xs (i + 1) k h.1 free)
