-- ===== src/ReceiverLattice/Reads.antt =====
-- Release, reading and removing keep an IROB sound.
use libcmm.Prelude.{
  ℕ, zero, suc, ◌≤◌, ◌<◌, ◌≡◌, refl, ◌∙◌, inl, inr, true, some, List, [], ◌∷◌, arith, length, take,
  drop, Option-cases, ==_iff,
}
use libcmm.Irob.{is_ready}
use libcmm.ReceiverIrob.{
  ReceiverIrob, empty_chunk, is_complete, all_chunks_complete, at_most, matches, read_data,
  remove_bytes,
}
use libcmm.ReceiverIrob
use libcmm.ReceiverIrob.Reading.{contents, IsReadable, read_data_lem}
use libcmm.ReceiverIrob.Trimming.{Trimmed, remove_bytes-Trimmed}
use libcmm.ReceiverIrob.Removing.{remove_bytes_lem}
use libcmm.ReceiverLattice.Slots.{Slotted-Solid}
use libcmm.ReceiverLattice.Sound.{Untouched, Deliverable}

release_complete : (p : ReceiverIrob) → is_complete (ReceiverIrob.release p) ≡ is_complete p
unfolding is_complete
release_complete p = refl

release-ready : (p : ReceiverIrob) → is_ready (ReceiverIrob.release p) ≡ is_ready p
unfolding is_ready
release-ready p = refl

expects_what_came :
    (p : ReceiverIrob) → is_complete p ≡ some true → p.ext.expected_bytes ≡ some p.ext.recvd_bytes
unfolding is_complete
expects_what_came p h = elim (Option-cases p.ext.expected_bytes) [
  | inl e ↦ absurd (ground arith)
  | inr (n, e) ↦ ground (arith, ==_iff n p.ext.recvd_bytes)
]

-- An IROB that is complete and ready can be read once it is released.
pub release-Deliverable :
    (p : ReceiverIrob)
    → Untouched p
    → is_complete p ≡ some true
    → is_ready p ≡ true
    → Deliverable (ReceiverIrob.release p)
release-Deliverable p u done ready = record {
  readable = record {
    solid = Slotted-Solid 0 p.chunks u.slots;
    partial_len = rw (u.unread.1) refl;
    partial_left = rw (u.unread.1) (ground arith);
    counted = rw (u.unread.0, u.unread.1) (u.left ∙ u.recvd);
  };
  complete = release_complete p ∙ done;
  ready = release-ready p ∙ ready;
  some_left = ground (arith, u.wanted, u.left, expects_what_came p done);
}

-- A read of a deliverable IROB: the next bytes, and what is left of it.
pub record Readout (p : ReceiverIrob) (len : ℕ) : Type 0 where
  pub reads : read_data p len ≡ some (take len (contents p))
  pub after : ReceiverIrob
  pub removes : remove_bytes p (length (take len (contents p))) ≡ some after
  pub readable : IsReadable after
  pub rest : contents after ≡ drop len (contents p)
  pub trimmed : Trimmed p after
  pub some_read : 0 < length (take len (contents p))
  pub within : length (take len (contents p)) ≤ len

take-some : (len : ℕ) (xs : List ℕ) → 0 < len → 0 < length xs → 0 < length (take len xs)
take-some zero xs l m = absurd (omega arith)
take-some (suc len) [] l m = absurd (omega arith)
take-some (suc len) (x ∷ xs) l m = omega arith

length-take-le : (len : ℕ) (xs : List ℕ) → length (take len xs) ≤ len
length-take-le zero xs = omega arith
length-take-le (suc len) [] = omega arith
length-take-le (suc len) (x ∷ xs) = omega (arith, length-take-le len xs)

drop-length-take : (len : ℕ) (xs : List ℕ) → drop (length (take len xs)) xs ≡ drop len xs
drop-length-take zero xs = refl
drop-length-take (suc len) [] = refl
drop-length-take (suc len) (x ∷ xs) = drop-length-take len xs

pub read_lem : (p : ReceiverIrob) (len : ℕ) → Deliverable p → 0 < len → Readout p len
read_lem p len d l =
    let xs = take len (contents p) in
    let there : 0 < length (contents p) = ground (arith, d.some_left, d.readable.counted) in
    let some_read = take-some len (contents p) l there in
    let r = remove_bytes_lem p (length xs) d.readable some_read in
    record {
      reads = read_data_lem p len d.readable l;
      after = r.next;
      removes = r.removes;
      readable = r.readable;
      rest = r.rest ∙ drop-length-take len (contents p);
      trimmed = remove_bytes-Trimmed p (length xs) r.next r.removes;
      some_read = some_read;
      within = length-take-le len (contents p);
    }
