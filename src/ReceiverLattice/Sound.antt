-- ===== src/ReceiverLattice/Sound.antt =====
-- What holds of every pending IROB at the receiver, whatever its peer sends: before its release it is
-- untouched by reads, and from its release on it can be read.
use libcmm.Prelude.{
  ℕ, ◌<◌, ◌≡◌, ◌≢◌, refl, sym, ap, ◌∙◌, inl, inr, Bool, true, false, not, some, List, arith, length,
  get_or, is_some, Bool-cases,
}
use libcmm.Irob.{
  Chunk, bytes_of, is_ready, is_ready_iff, placeholder_irob, add_dependent, dep_satisfied,
  remove_deps_if,
}
use libcmm.IdSet.{has, has-erase, has-keep_if}
use libcmm.Lattice.Every.{Closed}
use libcmm.ReceiverIrob.{
  ReceiverIrob, empty_chunk, fresh_receiving, is_complete, accept_chunk, reach_seqno,
}
use libcmm.ReceiverIrob.Virtual.{receiver_virtuals}
use libcmm.ReceiverIrob.Reading.{IsReadable}
use libcmm.ReceiverLattice.Slots.{Slotted, size_of, reach_seqno-Reaches, set-Slotted}

pub record Untouched (p : ReceiverIrob) : Type 0 where
  pub slots : Slotted 0 p.chunks
  pub unread : (p.ext.offset ≡ 0) × (p.ext.partial_chunk ≡ empty_chunk)
  pub recvd : p.ext.recvd_bytes ≡ size_of p.chunks
  pub left : p.ext.num_bytes ≡ p.ext.recvd_bytes
  pub wanted : p.ext.expected_bytes ≢ some 0

pub record Deliverable (p : ReceiverIrob) : Type 0 where
  pub readable : IsReadable p
  pub complete : is_complete p ≡ some true
  pub ready : is_ready p ≡ true
  pub some_left : 0 < p.ext.num_bytes

pub record Sound (p : ReceiverIrob) : Type 0 where
  pub untouched : p.ext.released ≡ false → Untouched p
  pub deliverable : p.ext.released ≡ true → Deliverable p

-- Links and dependencies change nothing of it, save that fewer dependencies remain.
pub record Same (p q : ReceiverIrob) : Type 0 where
  pub same_chunks : q.chunks ≡ p.chunks
  pub same_complete : q.complete ≡ p.complete
  pub same_ext : q.ext ≡ p.ext
  pub still_ready : is_ready p ≡ true → is_ready q ≡ true

pub is_complete-Same :
    (p q : ReceiverIrob)
    → q.chunks ≡ p.chunks
    → q.complete ≡ p.complete
    → q.ext ≡ p.ext
    → is_complete q ≡ is_complete p
unfolding is_complete
is_complete-Same p q a b c = ground arith

pub Same-Sound : (p q : ReceiverIrob) → Same p q → Sound p → Sound q
Same-Sound p q s h = record {
  untouched = λ e.
      let u = h.untouched (sym (ap (λ x. x.released) s.same_ext) ∙ e) in
      record {
        slots = rw s.same_chunks u.slots;
        unread = rw s.same_ext u.unread;
        recvd = rw (s.same_chunks, s.same_ext) u.recvd;
        left = rw s.same_ext u.left;
        wanted = rw s.same_ext u.wanted;
      };
  deliverable = λ e.
      let d = h.deliverable (sym (ap (λ x. x.released) s.same_ext) ∙ e) in
      record {
        readable = record {
          solid = rw s.same_chunks d.readable.solid;
          partial_len = rw s.same_ext d.readable.partial_len;
          partial_left = rw s.same_ext d.readable.partial_left;
          counted = rw (s.same_chunks, s.same_ext) d.readable.counted;
        };
        complete = is_complete-Same p q s.same_chunks s.same_complete s.same_ext ∙ d.complete;
        ready = s.still_ready d.ready;
        some_left = rw s.same_ext d.some_left;
      };
}

pub real_of_ready : (p : ReceiverIrob) → is_ready p ≡ true → p.placeholder ≡ false
unfolding is_ready
real_of_ready p h = ground arith

-- An IROB that is ready stays so with fewer dependencies.
pub is_ready-fewer :
    (p q : ReceiverIrob)
    → q.placeholder ≡ p.placeholder
    → ((d : ℕ) → has p.deps d ≡ false → has q.deps d ≡ false)
    → is_ready p ≡ true
    → is_ready q ≡ true
is_ready-fewer p q same fewer h =
    let real = real_of_ready p h in
    (is_ready_iff q (same ∙ real)).1 (λ d. fewer d ((is_ready_iff p real).0 h d))

Same-of_fewer :
    (p q : ReceiverIrob)
    → q.chunks ≡ p.chunks
    → q.complete ≡ p.complete
    → q.ext ≡ p.ext
    → q.placeholder ≡ p.placeholder
    → ((d : ℕ) → has p.deps d ≡ false → has q.deps d ≡ false)
    → Same p q
Same-of_fewer p q a b c same fewer = record {
  same_chunks = a;
  same_complete = b;
  same_ext = c;
  still_ready = is_ready-fewer p q same fewer;
}

pub add_dependent-Same : (a : ℕ) (p : ReceiverIrob) → Same p (add_dependent a p)
unfolding add_dependent
add_dependent-Same a p = Same-of_fewer p (add_dependent a p) refl refl refl refl (λ d h. h)

dep_satisfied-Same : (a : ℕ) (p : ReceiverIrob) → Same p (dep_satisfied a p)
unfolding dep_satisfied
dep_satisfied-Same a p =
    Same-of_fewer p (dep_satisfied a p) refl refl refl refl
      (λ d h. ground (arith, has-erase a p.deps d))

remove_deps_if-Same : (f : ℕ → Bool) (p : ReceiverIrob) → Same p (remove_deps_if f p)
unfolding remove_deps_if
remove_deps_if-Same f p =
    Same-of_fewer p (remove_deps_if f p) refl refl refl refl
      (λ d h. ground (arith, has-keep_if (λ x. not (f x)) p.deps d))

pub placeholder-Sound : (d : ℕ) → Sound (placeholder_irob d fresh_receiving)
unfolding placeholder_irob
placeholder-Sound d = record {
  untouched = λ e. record {
    slots = tt;
    unread = (refl, refl);
    recvd = refl;
    left = refl;
    wanted = λ h. absurd (ground arith);
  };
  deliverable = λ e. absurd (ground arith);
}

pub Sound-Closed : Closed Sound receiver_virtuals
Sound-Closed = record {
  dependent = λ a p. Same-Sound p (add_dependent a p) (add_dependent-Same a p);
  satisfied = λ a p. Same-Sound p (dep_satisfied a p) (dep_satisfied-Same a p);
  removed = λ f p. Same-Sound p (remove_deps_if f p) (remove_deps_if-Same f p);
  fresh = placeholder-Sound;
}

-- A chunk as the handler makes it: with as many bytes as its header says.
pub record IsWhole (c : Chunk) : Type 0 where
  pub there : is_some c.datas ≡ true
  pub long : c.datalen ≡ length (bytes_of c)

pub accept_chunk-Untouched :
    (p : ReceiverIrob) (c : Chunk)
    → IsWhole c
    → Untouched p
    → Untouched (accept_chunk p (reach_seqno p.chunks c.seqno) c).0
unfolding accept_chunk
accept_chunk-Untouched p c w u =
    let ds = reach_seqno p.chunks c.seqno in
    let r = reach_seqno-Reaches p.chunks c.seqno u.slots in
    elim (Bool-cases (is_some (get_or ds c.seqno empty_chunk).datas)) [
      | inl full ↦ rw full (record {
        slots = r.slots;
        unread = u.unread;
        recvd = u.recvd ∙ sym r.same_size;
        left = u.left;
        wanted = u.wanted;
      })
      | inr free ↦
          let (slots, size) =
            set-Slotted 0 ds c.seqno c r.slots r.long free (ground arith) w.there w.long in
          rw free (record {
            slots = slots;
            unread = u.unread;
            recvd = ground (arith, u.recvd, r.same_size);
            left = ground (arith, u.left);
            wanted = u.wanted;
          })
    ]

pub accept_chunk-released :
    (p : ReceiverIrob) (cs : List Chunk) (c : Chunk)
    → (accept_chunk p cs c).0.ext.released ≡ p.ext.released
unfolding accept_chunk
accept_chunk-released p cs c = ground arith
