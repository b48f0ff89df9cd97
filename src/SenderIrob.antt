-- ===== src/SenderIrob.antt =====
-- PendingSenderIROB (pending_sender_irob.h, pending_sender_irob.cpp): an IROB at the sender, cut into
-- chunks for the network as sending threads ask for bytes. A call that fails an ASSERT, or reads
-- outside a deque, is `none`. A CSocket pointer is its number, NULL is `none`.
pub mod Sends
pub mod Marks
pub mod Locate
pub mod Chunking
pub mod Record
pub mod Advance
pub mod Serve
pub mod Grown
pub mod Calls
pub mod History
pub mod Serving
pub mod Announce
pub mod Virtual
pub mod Tests
use libcmm.Prelude.{
  ℕ, zero, suc, ◌+◌, ◌*◌, ◌-◌, min, Bool, true, false, not, ◌||◌, ◌&&◌, Option, none, some, List,
  [], ◌∷◌, ◌++◌, ltb, leb, ◌==◌, if◌then◌else◌, ◌>>=◌, length, get_or, take, drop,
}
use libcmm.StdSet.{set_insert}
use libcmm.Irob.{Chunk, bytes_of, Irob, Virtuals, new_irob}

abbrev pub Socket : Type 0
Socket = Option ℕ

-- A std::map that holds a default until a key is written is a function. The thunk, the handle of a
-- scheduled reevaluation and the time of the last send are left out.
pub record Sending : Type 0 where
  pub announcements : Socket → Bool
  pub end_announcements : Socket → Bool
  pub acked : Bool
  pub next_seqnos_to_send : Socket → ℕ
  pub sent_chunks : List Chunk
  pub resend_chunks : List Chunk
  pub num_bytes : ℕ
  pub irob_offsets : Socket → ℕ
  pub send_on_all_networks : Bool
  pub sending_ifaces : List (ℕ × ℕ)
  pub reevaluated : Bool

abbrev pub SenderIrob : Type 0
SenderIrob = Irob Sending

abbrev pub same_socket : Socket → Socket → Bool
same_socket none none = true
same_socket none (some j) = false
same_socket (some i) none = false
same_socket (some i) (some j) = i == j

-- `m[key] = v`
abbrev pub assign : {A : Type 0} → (Socket → A) → Socket → A → Socket → A
assign m key v other = if same_socket key other then v else m other

abbrev pub fresh_sending : ℕ → Sending
fresh_sending datalen = record {
  announcements = λ s. false;
  end_announcements = λ s. false;
  acked = false;
  next_seqnos_to_send = λ s. 0;
  sent_chunks = [];
  resend_chunks = [];
  num_bytes = datalen;
  irob_offsets = λ s. 0;
  send_on_all_networks = false;
  sending_ifaces = [];
  reevaluated = false;
}

-- The constructor, without the thunk and the time.
unfoldable pub new_sender_irob : ℕ → List ℕ → List ℕ → ℕ → SenderIrob
unfolding new_irob
new_sender_irob id deps bytes labels = new_irob id deps bytes labels (fresh_sending (length bytes))

-- The seqno and offset of the argument are set here.
unfoldable pub add_chunk : SenderIrob → Chunk → SenderIrob × Bool
add_chunk p c = if p.complete then (p, false) else (
  record p {
    chunks = p.chunks ++ record c { seqno = length p.chunks; offset = p.ext.num_bytes } ∷ [];
    ext = record (p.ext) { num_bytes = p.ext.num_bytes + c.datalen };
  },
  true,
)

abbrev pub ack : SenderIrob → SenderIrob
ack p = record p { ext = record (p.ext) { acked = true } }

-- The sum by SumChunkFunctor.
unfoldable pub sum_chunks : List Chunk → ℕ
sum_chunks [] = 0
sum_chunks (c ∷ cs) = c.datalen + sum_chunks cs

abbrev pub expected_bytes : SenderIrob → ℕ
expected_bytes p = sum_chunks p.chunks

abbrev pub all_bytes_chunked : SenderIrob → Bool
all_bytes_chunked p = sum_chunks p.ext.sent_chunks == expected_bytes p

abbrev pub num_sender_chunks : SenderIrob → ℕ
num_sender_chunks p = length p.ext.sent_chunks

-- `upper_bound` by offset in a list that ascends.
unfoldable pub upper_bound : List Chunk → ℕ → ℕ
upper_bound [] offset = 0
upper_bound (c ∷ cs) offset =
    let rest = upper_bound cs offset in if ltb offset c.offset then 0 else suc rest

abbrev pub zero_chunk : Chunk
zero_chunk = record { id = 0; seqno = 0; offset = 0; datalen = 0; datas = none }

-- The iterator is an index. Of a list that starts behind `offset` the code reads the element before
-- the first.
unfoldable pub find_app_chunk : List Chunk → ℕ → Option ℕ
unfolding upper_bound
find_app_chunk [] offset = some 0
find_app_chunk (c ∷ cs) offset =
    let i = upper_bound (c ∷ cs) offset in
    let target = get_or (c ∷ cs) (i - 1) zero_chunk in
    if i == 0
    then none
    else if leb target.offset offset && ltb offset (target.offset + target.datalen)
    then some (i - 1)
    else some i

-- The loop that fills the iovecs, and the number of bytes gathered.
unfoldable pub gather : List Chunk → ℕ → ℕ → List (List ℕ) × ℕ
gather [] at_offset len = ([], 0)
gather (c ∷ cs) at_offset len =
    let n = min (c.datalen - at_offset) len in
    let rest = gather cs 0 (len - n) in
    if len == 0 then ([], 0) else (take n (drop at_offset (bytes_of c)) ∷ rest.0, n + rest.1)

-- The bytes, and `len` as it is set.
unfoldable pub get_bytes_internal : SenderIrob → ℕ → ℕ → Option (List (List ℕ) × ℕ)
unfolding find_app_chunk gather
get_bytes_internal p offset len = find_app_chunk p.chunks offset >>= λ i.
    if i == length p.chunks
    then some ([], 0)
    else find_app_chunk p.ext.sent_chunks offset >>= λ s.
        let sent = get_or p.ext.sent_chunks s zero_chunk in
        let at_offset = offset - (get_or p.chunks i zero_chunk).offset in
        if s == length p.ext.sent_chunks
        then some (gather (drop i p.chunks) at_offset len)
        else if offset == sent.offset
        then some (gather (drop i p.chunks) at_offset sent.datalen)
        else none

abbrev pub null_index_if_single_sending : SenderIrob → Socket → Socket
null_index_if_single_sending p csock = if p.ext.send_on_all_networks then csock else none

abbrev pub get_irob_offset : SenderIrob → Socket → ℕ
get_irob_offset p csock = p.ext.irob_offsets (null_index_if_single_sending p csock)

unfoldable pub increment_irob_offset : SenderIrob → Socket → ℕ → SenderIrob
increment_irob_offset p csock n =
    let key = null_index_if_single_sending p csock in
    record p {
      ext = record (p.ext) {
        irob_offsets = assign p.ext.irob_offsets key (p.ext.irob_offsets key + n);
      };
    }

unfoldable pub get_next_seqno_to_send : SenderIrob → Socket → Option ℕ
get_next_seqno_to_send p csock =
    let seqno = p.ext.next_seqnos_to_send (null_index_if_single_sending p csock) in
    if leb seqno (length p.ext.sent_chunks) then some seqno else none

unfoldable pub increment_seqno : SenderIrob → Socket → SenderIrob
increment_seqno p csock =
    let key = null_index_if_single_sending p csock in
    record p {
      ext = record (p.ext) {
        next_seqnos_to_send =
            assign p.ext.next_seqnos_to_send key (p.ext.next_seqnos_to_send key + 1);
      };
    }
