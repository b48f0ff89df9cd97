-- ===== src/ReceiverLattice/Absorb.antt =====
-- An IROB whose Begin_IROB message comes late takes over what its placeholder has gathered.
use libcmm.Prelude.{
  ℕ, ◌+◌, ◌≤◌, ◌≡◌, refl, sym, ◌∙◌, subst, inl, inr, true, false, none, List, [], ◌∷◌, arith,
  length, get_or, is_some, leb, Bool-cases, get_or-beyond, length-append, length-set,
}
use libcmm.Irob.{Chunk, bytes_of, add_chunks, subsume}
use libcmm.IdSet.{IdSet, insert_all}
use libcmm.Irob.Data.{data_of}
use libcmm.ReceiverIrob.{
  ReceiverIrob, empty_chunk, new_receiver_irob, is_complete, add_chunk, accept_chunk, reach_seqno,
  virtual_add, absorb,
}
use libcmm.ReceiverLattice.Slots.{Slotted, size_of, reach_seqno-Reaches, set-Slotted, set-empty}
use libcmm.ReceiverLattice.Sound.{Untouched, Sound}

-- The new IROB while the chunks of the placeholder are added; the next has its place at `i`.
record Taking (i : ℕ) (p : ReceiverIrob) (size : ℕ) : Type 0 where
  pub slots : Slotted 0 p.chunks
  pub short : length p.chunks ≤ i
  pub size_is : size_of p.chunks ≡ size
  pub level : p.ext.num_bytes ≡ p.ext.recvd_bytes
  pub no_end : (p.ext.expected_bytes ≡ none) × (p.ext.expected_chunks ≡ none)
  pub held : p.ext.released ≡ false

virtual_add_lem :
    (p : ReceiverIrob) (c : Chunk)
    → p.ext.num_bytes ≡ p.ext.recvd_bytes
    → p.ext.expected_bytes ≡ none
    → p.ext.expected_chunks ≡ none
    → (virtual_add p c).0 ≡ (accept_chunk p (reach_seqno p.chunks c.seqno) c).0
unfolding add_chunk is_complete
virtual_add_lem p c level eb ec = ground arith

take_hole :
    (i : ℕ) (p : ReceiverIrob) (size : ℕ)
    → Taking i p size
    → Taking (i + 1) (virtual_add p empty_chunk).0 size
unfolding accept_chunk
take_hole i p size t =
    let ds = reach_seqno p.chunks 0 in
    let r = reach_seqno-Reaches p.chunks 0 t.slots in
    let short : length ds ≤ i + 1 = elim (Bool-cases (leb (length p.chunks) 0)) [
      | inl le ↦ ground (arith, r.bounded)
      | inr gt ↦ ground (arith, r.kept, t.short)
    ] in
    rw (virtual_add_lem p empty_chunk t.level t.no_end.0 t.no_end.1)
      (elim (Bool-cases (is_some (get_or ds 0 empty_chunk).datas)) [
        | inl full ↦ rw full (record {
          slots = r.slots;
          short = short;
          size_is = r.same_size ∙ t.size_is;
          level = t.level;
          no_end = t.no_end;
          held = t.held;
        })
        | inr free ↦
            rw (free, set-empty ds 0 0 r.slots free)
              (record {
                slots = r.slots;
                short = short;
                size_is = r.same_size ∙ t.size_is;
                level = ground (arith, t.level);
                no_end = t.no_end;
                held = t.held;
              })
      ])

take_chunk :
    (i : ℕ) (p : ReceiverIrob) (size : ℕ) (c : Chunk)
    → Taking i p size
    → c.seqno ≡ i
    → is_some c.datas ≡ true
    → c.datalen ≡ length (bytes_of c)
    → Taking (i + 1) (virtual_add p c).0 (size + c.datalen)
unfolding accept_chunk
take_chunk i p size c t s d len =
    let ds = reach_seqno p.chunks c.seqno in
    let r = reach_seqno-Reaches p.chunks c.seqno t.slots in
    let free : is_some (get_or ds c.seqno empty_chunk).datas ≡ false =
      ground (arith, r.same_slot c.seqno, t.short, get_or-beyond p.chunks c.seqno empty_chunk) in
    let (slots, size') = set-Slotted 0 ds c.seqno c r.slots r.long free (ground arith) d len in
    rw (virtual_add_lem p c t.level t.no_end.0 t.no_end.1, free)
      (record {
        slots = slots;
        short = ground (arith, r.bounded, t.short, length-set ds c.seqno c);
        size_is = ground (arith, r.same_size, t.size_is);
        level = ground (arith, t.level);
        no_end = t.no_end;
        held = t.held;
      })

take_all :
    (cs : List Chunk) (i : ℕ) (p : ReceiverIrob) (size total : ℕ)
    → Slotted i cs
    → total ≡ size + size_of cs
    → Taking i p size
    → (k : ℕ) × Taking k (add_chunks virtual_add p cs) total
unfolding add_chunks
take_all [] i p size total h e t = (i, subst (Taking i p) (ground arith) t)
take_all (c ∷ cs) i p size total (inl hole, h) e t =
    let taken =
      subst (λ x. Taking (i + 1) (virtual_add p x).0 size) (sym hole) (take_hole i p size t) in
    take_all cs (i + 1) (virtual_add p c).0 size total h (ground arith) taken
take_all (c ∷ cs) i p size total (inr w, h) e t =
    take_all cs (i + 1) (virtual_add p c).0 (size + c.datalen) total h
      (ground (arith, length-append (bytes_of c) (data_of cs)))
      (take_chunk i p size c t w.0 w.1 w.2)

new-Taking :
    (id : ℕ) (deps : List ℕ) (labels : ℕ) (ds : IdSet)
    → Taking 0 (record (new_receiver_irob id deps labels) { dependents = ds }) 0
unfolding new_receiver_irob
new-Taking id deps labels ds = record {
  slots = tt;
  short = ground arith;
  size_is = refl;
  level = refl;
  no_end = (refl, refl);
  held = refl;
}

-- The real IROB has the data of the placeholder, and is not released.
pub absorb-Sound :
    (id : ℕ) (deps : List ℕ) (labels : ℕ) (old : ReceiverIrob)
    → Untouched old
    → Sound (absorb (new_receiver_irob id deps labels) old)
      × ((absorb (new_receiver_irob id deps labels) old).ext.released ≡ false)
unfolding absorb subsume
absorb-Sound id deps labels old u =
    let p = new_receiver_irob id deps labels in
    let start : Taking 0 (record p { dependents = insert_all p.dependents old.dependents }) 0 =
      new-Taking id deps labels (insert_all p.dependents old.dependents) in
    let (k, t) = take_all old.chunks 0 _ 0 (size_of old.chunks) u.slots (ground arith) start in
    (
      record {
        untouched = λ h. record {
          slots = t.slots;
          unread = u.unread;
          recvd = u.recvd ∙ sym t.size_is;
          left = u.left;
          wanted = u.wanted;
        };
        deliverable = λ h. absurd (ground (arith, t.held));
      },
      t.held,
    )
