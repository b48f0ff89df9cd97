-- ===== src/SenderIrob/Announce.antt =====
-- Which sockets an announcement counts for.
use libcmm.Prelude.{◌≡◌, refl, inl, inr, not, ◌||◌, arith, Bool-cases}
use libcmm.SenderIrob.{Socket, same_socket, SenderIrob}
use libcmm.SenderIrob.Marks.{
  was_announced, end_was_announced, mark_announcement_sent, mark_end_announcement_sent,
}

-- An announcement through one socket, of the IROB or of its end, is known afterwards for every socket
-- if only one sends the IROB at a time, and for that socket alone if it is sent on all networks; what
-- was known before stays known, and neither announcement is taken for the other.
pub announce_outcome :
    (p : SenderIrob) (csock other : Socket)
    → (was_announced (mark_announcement_sent p csock) other
        ≡ ((not p.ext.send_on_all_networks || same_socket csock other) || was_announced p other))
      × (end_was_announced (mark_end_announcement_sent p csock) other ≡ (
          (not p.ext.send_on_all_networks || same_socket csock other) || end_was_announced p other))
      × (end_was_announced (mark_announcement_sent p csock) other ≡ end_was_announced p other)
      × (was_announced (mark_end_announcement_sent p csock) other ≡ was_announced p other)
announce_outcome p csock other = elim (Bool-cases p.ext.send_on_all_networks) [
  | inl all ↦ (ground arith, ground arith, refl, refl)
  | inr single ↦ (ground arith, ground arith, refl, refl)
]
