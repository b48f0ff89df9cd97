-- ===== src/SenderIrob/Tests.antt =====
-- An IROB of three bytes, cut into two chunks, the first of which goes out again.
use libcmm.Prelude.{◌<◌, ◌≡◌, refl, inl, inr, true, Option, none, some, List, [], ◌∷◌, arith}
use libcmm.Irob.{Chunk, new_irob}
use libcmm.IdSet
use libcmm.SenderIrob.{same_socket, SenderIrob, new_sender_irob, add_chunk}
use libcmm.SenderIrob.Sends.{Ready, get_ready_bytes}
use libcmm.SenderIrob.Locate.{joined}
use libcmm.SenderIrob.Serve.{Handed}
use libcmm.SenderIrob.Grown.{History, start, adds, widens, asks}
use libcmm.SenderIrob.Marks.{
  was_announced, end_was_announced, mark_announcement_sent, mark_end_announcement_sent,
}
use libcmm.SenderIrob.Announce.{announce_outcome}
use mathlib.Core.Bool.{not, ◌||◌}
use libcmm.SenderIrob.Serving.{get_ready_bytes_outcome, same_seqno_same_bytes}

abbrev given : Chunk
given = record { id = 5; seqno = 0; offset = 0; datalen = 3; datas = some (10 ∷ 11 ∷ 12 ∷ []) }

abbrev pub filled : SenderIrob
filled = (add_chunk (new_sender_irob 5 [] [] 8) given).0

abbrev pub wide : SenderIrob
wide = record filled { ext = record (filled.ext) { send_on_all_networks = true } }

abbrev ready_of : Option Ready → Ready
ready_of none = record { iovecs = []; bytes_requested = 0; seqno = 0; offset = 0; next = filled }
ready_of (some r) = r

-- One socket takes two bytes and the rest, another takes what the first was served.
abbrev pub first_ready : Ready
first_ready = ready_of (get_ready_bytes wide (some 1) 2)

abbrev pub second_ready : Ready
second_ready = ready_of (get_ready_bytes first_ready.next (some 1) 0)

abbrev pub other_ready : Ready
other_ready = ready_of (get_ready_bytes second_ready.next (some 2) 3)

first_served : get_ready_bytes wide (some 1) 2 ≡ some first_ready
unfolding get_ready_bytes add_chunk new_sender_irob new_irob IdSet.insert_all
first_served = refl

second_served : get_ready_bytes first_ready.next (some 1) 0 ≡ some second_ready
unfolding get_ready_bytes add_chunk new_sender_irob new_irob IdSet.insert_all
second_served = refl

other_served : get_ready_bytes second_ready.next (some 2) 3 ≡ some other_ready
unfolding get_ready_bytes add_chunk new_sender_irob new_irob IdSet.insert_all
other_served = refl

abbrev pub served : List Ready
served = other_ready ∷ second_ready ∷ first_ready ∷ []

pub served-History : History other_ready.next served
served-History =
    asks (some 2) 3 other_ready
      (asks (some 1) 0 second_ready
        (asks (some 1) 2 first_ready (widens (adds given (start 5 [] [] 8) refl)) first_served)
        second_served)
      other_served

first_bytes : 0 < first_ready.bytes_requested
unfolding get_ready_bytes add_chunk new_sender_irob new_irob IdSet.insert_all
first_bytes = ground arith

other_bytes : 0 < other_ready.bytes_requested
unfolding get_ready_bytes add_chunk new_sender_irob new_irob IdSet.insert_all
other_bytes = ground arith

one_seqno : first_ready.seqno ≡ other_ready.seqno
unfolding get_ready_bytes add_chunk new_sender_irob new_irob IdSet.insert_all
one_seqno = refl

get_ready_bytes_outcome_example :
    (r : Ready) × (get_ready_bytes other_ready.next (some 2) 7 ≡ some r) × Handed r.next r
get_ready_bytes_outcome_example = get_ready_bytes_outcome served-History (some 2) 7

same_seqno_same_bytes_example :
    (first_ready.offset ≡ other_ready.offset)
    × (joined first_ready.iovecs ≡ joined other_ready.iovecs)
same_seqno_same_bytes_example =
    same_seqno_same_bytes served-History first_ready other_ready (inr (inr (inl refl))) (inl refl)
      first_bytes other_bytes one_seqno

announce_outcome_example :
    (was_announced (mark_announcement_sent wide (some 1)) (some 2)
      ≡ ((not true || same_socket (some 1) (some 2)) || was_announced wide (some 2)))
    × (end_was_announced (mark_end_announcement_sent wide (some 1)) (some 2)
        ≡ ((not true || same_socket (some 1) (some 2)) || end_was_announced wide (some 2)))
    × (end_was_announced (mark_announcement_sent wide (some 1)) (some 2)
        ≡ end_was_announced wide (some 2))
    × (was_announced (mark_end_announcement_sent wide (some 1)) (some 2)
        ≡ was_announced wide (some 2))
announce_outcome_example = announce_outcome wide (some 1) (some 2)
