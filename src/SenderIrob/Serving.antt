-- ===== src/SenderIrob/Serving.antt =====
-- What the sockets of a sender are served.
use libcmm.Prelude.{
  ℕ, ◌<◌, ◌≡◌, sym, ap, ◌∙◌, subst, ◌⊎◌, inl, inr, some, List, [], ◌∷◌, get_or, take, drop, All,
}
use libcmm.Irob.Data.{data_of}
use libcmm.SenderIrob.{Socket, SenderIrob, zero_chunk}
use libcmm.SenderIrob.Sends.{Ready, get_ready_bytes}
use libcmm.SenderIrob.Locate.{joined}
use libcmm.SenderIrob.Serve.{Handed}
use libcmm.SenderIrob.History.{asks-Kept, History-Kept}
use libcmm.SenderIrob.Grown.{History}

-- In any history of an IROB, whatever socket asks next and for however many bytes, no ASSERT fails and
-- no deque is read outside. What the socket gets are the application's bytes of the offset that is
-- returned, and if there are any they are recorded as the chunk of the returned seqno.
pub get_ready_bytes_outcome :
    {p : SenderIrob} {rs : List Ready}
    → History p rs
    → (csock : Socket) (requested : ℕ)
    → (r : Ready) × (get_ready_bytes p csock requested ≡ some r) × Handed r.next r
get_ready_bytes_outcome {p} {rs} h csock requested =
    let (r, e, k) = asks-Kept p rs csock requested (History-Kept h) in (r, e, k.handed.0)

abbrev pub IsIn : Ready → List Ready → Type 0
IsIn r [] = ⊥
IsIn r (x ∷ xs) = (r ≡ x) ⊎ IsIn r xs

pub Handed-of :
    (p : SenderIrob) (rs : List Ready) (r : Ready) → All (Handed p) rs → IsIn r rs → Handed p r
Handed-of p [] r h i = absurd i
Handed-of p (x ∷ xs) r h (inl e) = subst (Handed p) (sym e) h.0
Handed-of p (x ∷ xs) r h (inr i) = Handed-of p xs r h.1 i

-- Two sockets that are served a chunk of one seqno, at any times in a history, are served the same
-- bytes of the same offset.
pub same_seqno_same_bytes :
    {p : SenderIrob} {rs : List Ready}
    → History p rs
    → (r r' : Ready) → IsIn r rs
    → IsIn r' rs
    → 0 < r.bytes_requested
    → 0 < r'.bytes_requested
    → r.seqno ≡ r'.seqno
    → (r.offset ≡ r'.offset) × (joined r.iovecs ≡ joined r'.iovecs)
same_seqno_same_bytes {p} {rs} h r r' i i' lt lt' e =
    let all = (History-Kept h).handed in
    let a = Handed-of p rs r all i in
    let b = Handed-of p rs r' all i' in
    let (a0, a1, a2) = a.recorded lt in
    let (b0, b1, b2) = b.recorded lt' in
    let off : r.offset ≡ r'.offset =
      sym a1 ∙ ap (λ k. (get_or p.ext.sent_chunks k zero_chunk).offset) e ∙ b1 in
    let len : r.bytes_requested ≡ r'.bytes_requested =
      sym a2 ∙ ap (λ k. (get_or p.ext.sent_chunks k zero_chunk).datalen) e ∙ b2 in
    (
      off,
      a.bytes
          ∙ ap (λ n. take n (drop r.offset (data_of p.chunks))) len
          ∙ ap (λ o. take r'.bytes_requested (drop o (data_of p.chunks))) off
          ∙ sym b.bytes,
    )
