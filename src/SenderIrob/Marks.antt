-- ===== src/SenderIrob/Marks.antt =====
-- PendingSenderIROB (pending_sender_irob.cpp): what is marked at an IROB, to be sent again or as announced.
use libcmm.Prelude.{
  ℕ, zero, suc, ◌+◌, ◌*◌, ◌-◌, Bool, true, false, ◌||◌, ◌&&◌, Option, none, some, List, [], ◌∷◌,
  ltb, ◌==◌, if◌then◌else◌, ◌>>=◌, length, get_or,
}
use libcmm.StdSet.{set_insert}
use libcmm.Irob.{Chunk}
use libcmm.SenderIrob.{Socket, SenderIrob, assign, zero_chunk, null_index_if_single_sending}

-- `irob_chunk_data::operator<`
abbrev pub chunk_less : Chunk → Chunk → Bool
chunk_less a b = ltb a.id b.id || (a.id == b.id && ltb a.seqno b.seqno)

-- A seqno that is as large as the number of chunks passes the test, and the read is outside.
unfoldable pub mark_not_received : SenderIrob → ℕ → Option SenderIrob
mark_not_received p seqno =
    let sent = p.ext.sent_chunks in
    if ltb (length sent) seqno
    then some p
    else if seqno == length sent
    then none
    else some (record p {
      ext = record (p.ext) {
        resend_chunks = set_insert chunk_less (get_or sent seqno zero_chunk) p.ext.resend_chunks;
      };
    })

-- The loop from `i` over `n` seqnos.
unfoldable pub mark_from : SenderIrob → ℕ → ℕ → Option SenderIrob
unfolding mark_not_received
mark_from p i zero = some p
mark_from p i (suc n) = mark_not_received p i >>= λ q. mark_from q (i + 1) n

unfoldable pub mark_drop_point : SenderIrob → ℕ → Option SenderIrob
unfolding mark_from
mark_drop_point p next_chunk = mark_from p next_chunk (length p.ext.sent_chunks - next_chunk)

-- The set of pairs of addresses, of which only membership is read.
abbrev pub mark_sent_on : SenderIrob → ℕ → ℕ → SenderIrob
mark_sent_on p local remote = record p {
  ext = record (p.ext) { sending_ifaces = (local, remote) ∷ p.ext.sending_ifaces };
}

abbrev pub matches_addr : ℕ → ℕ → Bool
matches_addr expected actual = expected == 0 || expected == actual

unfoldable pub any_iface : List (ℕ × ℕ) → ℕ → ℕ → Bool
any_iface [] local remote = false
any_iface (i ∷ is) local remote =
    (matches_addr local i.0 && matches_addr remote i.1) || any_iface is local remote

unfoldable pub was_sent_on : SenderIrob → ℕ → ℕ → Bool
unfolding any_iface
was_sent_on p local remote =
    (local == 0 && remote == 0) || any_iface p.ext.sending_ifaces local remote

abbrev pub was_announced : SenderIrob → Socket → Bool
was_announced p csock = p.ext.announcements (null_index_if_single_sending p csock)

abbrev pub end_was_announced : SenderIrob → Socket → Bool
end_was_announced p csock = p.ext.end_announcements (null_index_if_single_sending p csock)

abbrev pub mark_announcement_sent : SenderIrob → Socket → SenderIrob
mark_announcement_sent p csock = record p {
  ext = record (p.ext) {
    announcements = assign p.ext.announcements (null_index_if_single_sending p csock) true;
  };
}

abbrev pub mark_end_announcement_sent : SenderIrob → Socket → SenderIrob
mark_end_announcement_sent p csock = record p {
  ext = record (p.ext) {
    end_announcements = assign p.ext.end_announcements (null_index_if_single_sending p csock) true;
  };
}

abbrev pub mark_send_on_all_networks : SenderIrob → SenderIrob
mark_send_on_all_networks p = record p { ext = record (p.ext) { send_on_all_networks = true } }

-- The arguments are the sizes of a header and of an id in memory.
unfoldable pub sum_network : ℕ → List Chunk → ℕ
sum_network hdr [] = 0
sum_network hdr (c ∷ cs) = c.datalen + hdr + sum_network hdr cs

abbrev pub get_total_network_bytes : ℕ → ℕ → SenderIrob → ℕ
get_total_network_bytes hdr id_size p =
    hdr * 2 + length p.deps * id_size + sum_network hdr p.ext.sent_chunks

-- The handle is left out.
abbrev pub set_scheduled_reevaluation : SenderIrob → SenderIrob
set_scheduled_reevaluation p = record p { ext = record (p.ext) { reevaluated = true } }
