-- ===== src/ReceiverIrob.antt =====
-- PendingReceiverIROB (pending_receiver_irob.h, pending_receiver_irob.cpp): an IROB at the receiver,
-- gathered from chunks and read from the front. A call that fails an ASSERT is `none`. The counts of
-- an End_IROB message are below 2 ^ 31, from where on the handler would make a negative int of them.
pub mod Virtual
pub mod Parts
pub mod Gather
pub mod Messages
pub mod Reading
pub mod Removing
pub mod Trimming
pub mod Delivery
pub mod Missing
mod Tests
use libcmm.Prelude.{
  ℕ, zero, suc, ◌+◌, ◌-◌, ◌≤◌, ◌<◌, ◌≡◌, min, Bool, true, false, not, ◌||◌, ◌&&◌, Option, none,
  some, List, [], ◌∷◌, ◌++◌, ltb, leb, ◌==◌, if◌then◌else◌, ◌>>=◌, length, get_or, set, replicate,
  take, drop, is_some,
}
use libcmm.IdSet.{IdSet}
use libcmm.Irob.{Chunk, bytes_of, Irob, Virtuals, placeholder_irob, new_irob, subsume}

-- The -1 of a count that no End_IROB message has set yet is `none`.
pub record Receiving : Type 0 where
  pub offset : ℕ
  pub partial_chunk : Chunk
  pub num_bytes : ℕ
  pub expected_bytes : Option ℕ
  pub expected_chunks : Option ℕ
  pub recvd_bytes : ℕ
  pub recvd_chunks : ℕ
  pub released : Bool

abbrev pub ReceiverIrob : Type 0
ReceiverIrob = Irob Receiving

-- The zeroed chunk of a seqno that has not arrived.
abbrev pub empty_chunk : Chunk
empty_chunk = record { id = 0; seqno = 0; offset = 0; datalen = 0; datas = none }

abbrev pub fresh_receiving : Receiving
fresh_receiving = record {
  offset = 0;
  partial_chunk = empty_chunk;
  num_bytes = 0;
  expected_bytes = none;
  expected_chunks = none;
  recvd_bytes = 0;
  recvd_chunks = 0;
  released = false;
}

-- The constructor for a Begin_IROB message, which carries no data.
unfoldable pub new_receiver_irob : ℕ → List ℕ → ℕ → ReceiverIrob
unfolding new_irob
new_receiver_irob id deps labels = new_irob id deps [] labels fresh_receiving

abbrev pub matches : Option ℕ → ℕ → Bool
matches none n = false
matches (some m) n = m == n

abbrev pub at_most : ℕ → Option ℕ → Bool
at_most n none = true
at_most n (some m) = leb n m

unfoldable pub all_chunks_complete : List Chunk → Bool
all_chunks_complete [] = true
all_chunks_complete (c ∷ cs) = is_some c.datas && all_chunks_complete cs

unfoldable pub is_complete : ReceiverIrob → Option Bool
unfolding all_chunks_complete
is_complete p =
    if at_most p.ext.recvd_bytes p.ext.expected_bytes
      && at_most p.ext.recvd_chunks p.ext.expected_chunks
    then some (
        matches p.ext.expected_bytes p.ext.recvd_bytes
        && matches p.ext.expected_chunks p.ext.recvd_chunks
        && all_chunks_complete p.chunks
        && p.complete)
    else none

-- `chunks.resize(seqno + 1, empty)` if the seqno lies beyond the end.
unfoldable pub reach_seqno : List Chunk → ℕ → List Chunk
reach_seqno cs seqno =
    if leb (length cs) seqno then cs ++ replicate (seqno + 1 - length cs) empty_chunk else cs

unfoldable pub accept_chunk : ReceiverIrob → List Chunk → Chunk → ReceiverIrob × Bool
accept_chunk p cs c =
    let slot = get_or cs c.seqno empty_chunk in
    if is_some slot.datas
    then (record p { chunks = cs }, c.offset == slot.offset && c.datalen == slot.datalen)
    else (
      record p {
        chunks = set cs c.seqno c;
        ext = record (p.ext) {
          num_bytes = p.ext.num_bytes + c.datalen;
          recvd_bytes = p.ext.recvd_bytes + c.datalen;
          recvd_chunks = p.ext.recvd_chunks + 1;
        };
      },
      true,
    )

abbrev pub beyond : ℕ → Option ℕ → Bool
beyond seqno none = false
beyond seqno (some m) = leb m seqno

unfoldable pub add_chunk : ReceiverIrob → Chunk → Option (ReceiverIrob × Bool)
unfolding is_complete reach_seqno accept_chunk
add_chunk p c = is_complete p >>= λ done.
    if done
    then some (p, false)
    else if not (p.ext.num_bytes == p.ext.recvd_bytes)
    then none
    else if beyond c.seqno p.ext.expected_chunks
    then some (p, false)
    else some (accept_chunk p (reach_seqno p.chunks c.seqno) c)

-- `finish`, with the flag that the IROB is complete set on every path that goes on.
expect : ReceiverIrob → ℕ → ℕ → Option ℕ → Option ℕ → Option (ReceiverIrob × Bool)
expect p bytes chunks none none = some (
  record p { ext = record (p.ext) { expected_bytes = some bytes; expected_chunks = some chunks } },
  leb (length p.chunks) chunks,
)
expect p bytes chunks (some b) (some c) =
    if b == bytes && c == chunks then some (p, false) else none
expect p bytes chunks _ _ = none

unfoldable pub finish : ReceiverIrob → ℕ → ℕ → Option (ReceiverIrob × Bool)
unfolding is_complete expect
finish p bytes chunks = is_complete p >>= λ done.
    if done
    then some (p, false)
    else expect (record p { complete = true }) bytes chunks p.ext.expected_bytes
        p.ext.expected_chunks

-- The seqnos that are missing: the holes, then those up to the expected count.
holes_from : ℕ → List Chunk → List ℕ
holes_from i [] = []
holes_from i (c ∷ cs) = if is_some c.datas then holes_from (i + 1) cs else i ∷ holes_from (i + 1) cs

up_from : ℕ → ℕ → List ℕ
up_from i zero = []
up_from i (suc n) = i ∷ up_from (i + 1) n

unfoldable pub get_missing_chunks : ReceiverIrob → List ℕ
unfolding holes_from up_from
get_missing_chunks p = holes_from 0 p.chunks ++ elim (p.ext.expected_chunks) [
  | none ↦ []
  | some n ↦ up_from (length p.chunks) (n - length p.chunks)
]

abbrev pub next_chunk_seqno : ReceiverIrob → ℕ
next_chunk_seqno p = length p.chunks

abbrev pub release : ReceiverIrob → ReceiverIrob
release p = record p { ext = record (p.ext) { released = true } }

read_chunks : List Chunk → ℕ → List ℕ
read_chunks [] len = []
read_chunks (c ∷ cs) len =
    let n = min len c.datalen in take n (bytes_of c) ++ read_chunks cs (len - n)

-- `read_data`: the bytes copied. The ASSERT on a partial chunk wants something to copy.
unfoldable pub read_data : ReceiverIrob → ℕ → Option (List ℕ)
unfolding read_chunks
read_data p len =
    let part = p.ext.partial_chunk in
    let n = min len (part.datalen - p.ext.offset) in
    if is_some part.datas
    then if n == 0
      then none
      else some (take n (drop p.ext.offset (bytes_of part)) ++ read_chunks p.chunks (len - n))
    else some (read_chunks p.chunks len)

-- The loop of `remove_bytes`: what is left, the partial chunk with its offset, and the bytes removed.
pub record Cut : Type 0 where
  pub chunks : List Chunk
  pub partial : Chunk
  pub offset : ℕ
  pub removed : ℕ

remove_chunks : List Chunk → ℕ → Cut → Cut
remove_chunks [] len r = record r { chunks = [] }
remove_chunks (c ∷ cs) len r =
    let n = min len c.datalen in
    let rest = remove_chunks cs (len - n) (record r { removed = r.removed + n }) in
    if len == 0
    then record r { chunks = c ∷ cs }
    else if ltb len c.datalen
    then record { chunks = cs; partial = c; offset = n; removed = r.removed + n }
    else rest

cut_partial : Chunk → ℕ → ℕ → Cut
cut_partial part offset len =
    let n = min len (part.datalen - offset) in
    if leb (part.datalen - offset) len
    then record {
      chunks = [];
      partial = record part { datas = none; datalen = 0 };
      offset = 0;
      removed = n;
    }
    else record { chunks = []; partial = part; offset = offset + n; removed = n }

cut_chunks : ReceiverIrob → ℕ → Cut → ReceiverIrob
unfolding remove_chunks
cut_chunks p len r =
    let t = remove_chunks p.chunks len r in
    record p {
      chunks = t.chunks;
      ext = record (p.ext) {
        offset = t.offset;
        partial_chunk = t.partial;
        num_bytes = p.ext.num_bytes - t.removed;
      };
    }

unfoldable pub remove_bytes : ReceiverIrob → ℕ → Option ReceiverIrob
unfolding cut_partial cut_chunks
remove_bytes p len =
    let part = p.ext.partial_chunk in
    let n = min len (part.datalen - p.ext.offset) in
    if is_some part.datas
    then if n == 0 then none else some (cut_chunks p (len - n) (cut_partial part p.ext.offset len))
    else some (
        cut_chunks p len
          (record { chunks = []; partial = part; offset = p.ext.offset; removed = 0 }))

-- The virtual `add_chunk` as `PendingIROB::subsume` calls it, its result unused; a failed ASSERT
-- would end the program there.
abbrev pub virtual_add : ReceiverIrob → Chunk → ReceiverIrob × Bool
virtual_add p c = elim (add_chunk p c) [ none ↦ (p, false) | some r ↦ r ]

-- `PendingReceiverIROB::subsume`: all but `released` comes from the placeholder.
unfoldable pub absorb : ReceiverIrob → ReceiverIrob → ReceiverIrob
absorb p other =
    let q = subsume virtual_add p other in
    record q { ext = record (other.ext) { released = q.ext.released } }
