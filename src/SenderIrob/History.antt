-- ===== src/SenderIrob/History.antt =====
-- Histories of an IROB at the sender: the application adds chunks, sockets ask for bytes, and the
-- receiver asks for chunks again.
use libcmm.Prelude.{ℕ, ◌≡◌, sym, ap, ◌∙◌, subst, some, List, [], ◌∷◌, arith, All}
use mathlib.Core.List.{append-nil}
use libcmm.Irob.{Chunk, bytes_of}
use libcmm.Irob
use libcmm.Irob.Data.{data_of}
use libcmm.SenderIrob.{Socket, SenderIrob, add_chunk}
use libcmm.SenderIrob.Sends.{Ready, get_ready_bytes}
use libcmm.SenderIrob.Marks.{mark_send_on_all_networks}
use libcmm.SenderIrob.Serve.{Sound, Handed, ready_lem}
use libcmm.SenderIrob.Calls.{start-Sound, add-Sound, again-Sound, finish-Sound, wide-Sound}
use libcmm.SenderIrob.Grown.{
  History, start, adds, finishes, widens, asks, asked_again, Grown, keep_all,
}

-- What holds throughout a history.
pub record Kept (p : SenderIrob) (rs : List Ready) : Type 0 where
  pub sound : Sound p
  pub handed : All (Handed p) rs

then-Kept : (p q : SenderIrob) (rs : List Ready) → Kept p rs → Sound q × Grown p q → Kept q rs
then-Kept p q rs k (s, g) = record {
  sound = s;
  handed = keep_all p q rs k.sound.chunked.solid g k.handed;
}

pub asks-Kept :
    (p : SenderIrob) (rs : List Ready) (csock : Socket) (requested : ℕ)
    → Kept p rs
    → (r : Ready) × (get_ready_bytes p csock requested ≡ some r) × Kept r.next (r ∷ rs)
asks-Kept p rs csock requested k =
    let (r, e, s, h, x, a) = ready_lem p csock requested k.sound in
    let g : Grown p r.next = record {
      extends = x;
      more = [];
      same_data = ap data_of a ∙ sym (append-nil (data_of p.chunks));
      longer = ground (arith, a);
    } in
    (
      r,
      e,
      record { sound = s; handed = (h, keep_all p r.next rs k.sound.chunked.solid g k.handed) },
    )

pub History-Kept : {p : SenderIrob} {rs : List Ready} → History p rs → Kept p rs
History-Kept (start id deps bytes labels) = record {
  sound = start-Sound id deps bytes labels;
  handed = tt;
}
History-Kept (adds {p} {rs} c h e) =
    let k = History-Kept h in then-Kept p (add_chunk p c).0 rs k (add-Sound p c k.sound e)
History-Kept (finishes {p} {rs} h) =
    let k = History-Kept h in then-Kept p (Irob.finish p).0 rs k (finish-Sound p k.sound)
History-Kept (widens {p} {rs} h) =
    let k = History-Kept h in then-Kept p (mark_send_on_all_networks p) rs k (wide-Sound p k.sound)
History-Kept (asks {p} {rs} csock requested r h e) =
    let k = History-Kept h in
    let (r', e', k') = asks-Kept p rs csock requested k in
    let same : r' ≡ r = ground arith in subst (λ x. Kept x.next (x ∷ rs)) same k'
History-Kept (asked_again {p} {q} {rs} seqno h e) =
    let k = History-Kept h in then-Kept p q rs k (again-Sound p q seqno k.sound e)
