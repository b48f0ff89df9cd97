-- ===== src/Irob/Data.antt =====
-- The data that a list of chunks carries.
use libcmm.Prelude.{ℕ, zero, suc, min, arith, ◌≡◌, List, [], ◌∷◌, ◌++◌, length, take}
use libcmm.Irob.{Chunk, bytes_of}

-- Each chunk has the data that its length says.
abbrev pub Solid : List Chunk → Type 0
Solid [] = Unit {0}
Solid (c ∷ cs) = (c.datalen ≡ length (bytes_of c)) × Solid cs

abbrev pub data_of : List Chunk → List ℕ
data_of [] = []
data_of (c ∷ cs) = bytes_of c ++ data_of cs

pub take-min : (len : ℕ) (xs : List ℕ) → take (min len (length xs)) xs ≡ take len xs
take-min zero [] = ground arith
take-min zero (x ∷ xs) = ground arith
take-min (suc n) [] = ground arith
take-min (suc n) (x ∷ xs) = ground (arith, take-min n xs)
