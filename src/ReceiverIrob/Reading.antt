-- ===== src/ReceiverIrob/Reading.antt =====
-- Reading an IROB that has all its bytes: a queue of bytes, read and removed from the front.
use libcmm.Prelude.{
  ℕ, zero, suc, ◌-◌, ◌<◌, ◌≡◌, refl, min, true, some, List, [], ◌∷◌, ◌++◌, arith, length, take,
  drop, is_some, take-append, length-drop,
}
use libcmm.Irob.{Chunk, bytes_of}
use libcmm.Irob.Data.{Solid, data_of, take-min}
use libcmm.ReceiverIrob.{ReceiverIrob, bytes_of, read_chunks, read_data}

-- The bytes that are still to be read.
abbrev pub contents : ReceiverIrob → List ℕ
contents p = drop p.ext.offset (bytes_of p.ext.partial_chunk) ++ data_of p.chunks

pub record IsReadable (p : ReceiverIrob) : Type 0 where
  pub solid : Solid p.chunks
  pub partial_len : p.ext.partial_chunk.datalen ≡ length (bytes_of p.ext.partial_chunk)
  pub partial_left :
      is_some p.ext.partial_chunk.datas ≡ true → p.ext.offset < p.ext.partial_chunk.datalen
  pub counted : p.ext.num_bytes ≡ length (contents p)

read_chunks_lem :
    (cs : List Chunk) (len : ℕ) → Solid cs → read_chunks cs len ≡ take len (data_of cs)
unfolding read_chunks
read_chunks_lem [] zero h = refl
read_chunks_lem [] (suc len) h = refl
read_chunks_lem (c ∷ cs) len h = ground (
  arith,
  take-append len (bytes_of c) (data_of cs),
  take-min len (bytes_of c),
  read_chunks_lem cs (len - min len c.datalen),
)

-- Of an IROB with enough bytes, a read returns the next ones in order.
pub read_data_lem :
    (p : ReceiverIrob) (len : ℕ)
    → IsReadable p
    → 0 < len
    → read_data p len ≡ some (take len (contents p))
unfolding read_data
read_data_lem p len h l = ground (
  arith,
  h,
  take-append len (drop p.ext.offset (bytes_of p.ext.partial_chunk)) (data_of p.chunks),
  take-min len (drop p.ext.offset (bytes_of p.ext.partial_chunk)),
  length-drop p.ext.offset (bytes_of p.ext.partial_chunk),
  read_chunks_lem p.chunks (len - min len (p.ext.partial_chunk.datalen - p.ext.offset)) h.solid,
  read_chunks_lem p.chunks len h.solid,
)
