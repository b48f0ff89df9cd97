-- ===== src/SenderIrob/Sends.antt =====
-- PendingSenderIROB (pending_sender_irob.cpp): the bytes that a sending thread asks for.
use libcmm.Prelude.{
  ℕ, ◌-◌, ◌&&◌, Option, none, some, List, [], ◌∷◌, ◌++◌, ◌==◌, if◌then◌else◌, ◌>>=◌, length, get_or,
}
use libcmm.Irob.{Chunk}
use libcmm.SenderIrob.{
  Socket, SenderIrob, expected_bytes, zero_chunk, get_bytes_internal, get_irob_offset,
  increment_irob_offset, get_next_seqno_to_send, increment_seqno,
}

-- `sent` is at least `seqno` long by the ASSERT of `get_next_seqno_to_send`.
unfoldable pub record_sent : SenderIrob → ℕ → ℕ → ℕ → Option SenderIrob
record_sent p seqno offset len =
    let sent = p.ext.sent_chunks in
    let already = get_or sent seqno zero_chunk in
    let chunk : Chunk = record {
      id = p.id;
      seqno = seqno;
      offset = offset;
      datalen = len;
      datas = none;
    } in
    if seqno == length sent
    then some (record p { ext = record (p.ext) { sent_chunks = sent ++ chunk ∷ [] } })
    else if already.offset == offset && already.datalen == len
    then some p
    else none

unfoldable pub add_sent_chunk : SenderIrob → Socket → ℕ → Option SenderIrob
unfolding get_next_seqno_to_send increment_seqno increment_irob_offset record_sent
add_sent_chunk p csock len = get_next_seqno_to_send p csock >>= λ seqno.
    let offset = get_irob_offset p csock in
    record_sent (increment_irob_offset (increment_seqno p csock) csock len) seqno offset len

-- What `get_ready_bytes` returns and writes to its arguments, with the IROB after the call.
pub record Ready : Type 0 where
  pub iovecs : List (List ℕ)
  pub bytes_requested : ℕ
  pub seqno : ℕ
  pub offset : ℕ
  pub next : SenderIrob

-- The chunk at the front of the set goes out again.
unfoldable pub get_resend_bytes : SenderIrob → Chunk → List Chunk → Option Ready
unfolding get_bytes_internal
get_resend_bytes p chunk others =
    let q = record p { ext = record (p.ext) { resend_chunks = others } } in
    get_bytes_internal q chunk.offset chunk.datalen >>= λ r.
    if r.1 == chunk.datalen
    then some (record {
      iovecs = r.0;
      bytes_requested = r.1;
      seqno = chunk.seqno;
      offset = chunk.offset;
      next = q;
    })
    else none

unfoldable pub get_new_bytes : SenderIrob → Socket → ℕ → Option Ready
unfolding get_next_seqno_to_send get_bytes_internal add_sent_chunk
get_new_bytes p csock requested = get_next_seqno_to_send p csock >>= λ seqno.
    let offset = get_irob_offset p csock in
    get_bytes_internal p offset requested >>= λ r.
    if r.1 == 0
    then some
        (record { iovecs = r.0; bytes_requested = 0; seqno = seqno; offset = offset; next = p })
    else add_sent_chunk p csock r.1 >>= λ q.
        some
          (record { iovecs = r.0; bytes_requested = r.1; seqno = seqno; offset = offset; next = q })

-- A request of no bytes, or of a negative number, is one for all that is unsent.
unfoldable pub get_ready_bytes : SenderIrob → Socket → ℕ → Option Ready
unfolding get_resend_bytes get_new_bytes
get_ready_bytes p csock requested =
    let asked = if requested == 0 then p.ext.num_bytes - get_irob_offset p csock else requested in
    elim (p.ext.resend_chunks) [
      | [] ↦ get_new_bytes p csock asked
      | chunk ∷ others ↦ get_resend_bytes p chunk others
    ]

abbrev pub num_ready_bytes : SenderIrob → Socket → ℕ
num_ready_bytes p csock = expected_bytes p - get_irob_offset p csock

-- `get_last_sent_chunk_htonl` before the conversion to network order: the chunk, if any, and its bytes.
unfoldable pub get_last_sent_chunk : SenderIrob → Socket → Option (Option Chunk × List (List ℕ))
unfolding get_next_seqno_to_send get_bytes_internal
get_last_sent_chunk p csock = get_next_seqno_to_send p csock >>= λ seqno.
    let last = get_or p.ext.sent_chunks (seqno - 1) zero_chunk in
    if seqno == 0
    then some (none, [])
    else get_bytes_internal p last.offset last.datalen >>= λ r.
        some (some (record last { datas = none }), r.0)
