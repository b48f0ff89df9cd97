-- ===== src/ReceiverIrob/Missing.antt =====
-- The seqnos that a receiver asks the sender for again.
use libcmm.Prelude.{
  ℕ, zero, suc, ◌+◌, ◌<◌, ◌≡◌, refl, sym, ap, ◌∙◌, Bool, false, not, ◌||◌, ◌&&◌, Option, none, some,
  List, [], ◌∷◌, ◌++◌, arith, ltb, leb, ◌==◌, ==_iff, length, get_or-beyond, All, inl, inr,
  Option-cases,
}
use libcmm.Irob.{Chunk}
use libcmm.ReceiverIrob.{
  ReceiverIrob, empty_chunk, new_receiver_irob, get_missing_chunks, holes_from, up_from,
}
use libcmm.ReceiverIrob.Parts.{IsTarget, holds}
use libcmm.ReceiverIrob.Messages.{
  Message, receive_all, has_chunk, has_end, FromSender, receive_all_lem, has_chunk_from,
  new-Gathering, new-holds, new-length,
}

abbrev pub any_is : List ℕ → ℕ → Bool
any_is [] j = false
any_is (i ∷ is) j = (i == j) || any_is is j

any_is-append : (xs ys : List ℕ) (j : ℕ) → any_is (xs ++ ys) j ≡ (any_is xs j || any_is ys j)
any_is-append [] ys j = refl
any_is-append (x ∷ xs) ys j = ground (arith, any_is-append xs ys j)

any_is-up_from : (i n j : ℕ) → any_is (up_from i n) j ≡ (leb i j && ltb j (i + n))
unfolding up_from
any_is-up_from i zero j = ground arith
any_is-up_from i (suc n) j = ground (arith, any_is-up_from (i + 1) n j, ==_iff i j)

holes_from-above : (i j : ℕ) (cs : List Chunk) → j < i → any_is (holes_from i cs) j ≡ false
unfolding holes_from
holes_from-above i j [] lt = refl
holes_from-above i j (c ∷ cs) lt =
    ground (arith, holes_from-above (i + 1) j cs (omega arith), ==_iff i j)

any_is-holes_from :
    (i : ℕ) (cs : List Chunk) (j : ℕ)
    → any_is (holes_from i cs) (i + j) ≡ (ltb j (length cs) && not (holds cs j))
unfolding holes_from
any_is-holes_from i [] j = ground arith
any_is-holes_from i (c ∷ cs) zero =
    ground (arith, holes_from-above (i + 1) (i + 0) cs (omega arith), ==_iff i (i + 0))
any_is-holes_from i (c ∷ cs) (suc j) =
    ground (arith, any_is-holes_from (i + 1) cs j, ==_iff i (i + suc j))

-- The bound of the seqnos that are known to exist.
abbrev pub below : ℕ → Option ℕ → Bool
below j none = false
below j (some n) = ltb j n

pub get_missing_chunks_lem :
    (p : ReceiverIrob) (j : ℕ)
    → any_is (get_missing_chunks p) j
      ≡ ((ltb j (length p.chunks) || below j p.ext.expected_chunks) && not (holds p.chunks j))
unfolding get_missing_chunks
get_missing_chunks_lem p j =
    let zero_plus : 0 + j ≡ j = omega arith in
    let holes : any_is (holes_from 0 p.chunks) j
        ≡ (ltb j (length p.chunks) && not (holds p.chunks j)) =
      ap (λ k. any_is (holes_from 0 p.chunks) k) (sym zero_plus) ∙ any_is-holes_from 0 p.chunks j in
    elim (Option-cases p.ext.expected_chunks) [
      | inl e ↦ rw (e, any_is-append) (ground (arith, holes, get_or-beyond p.chunks j empty_chunk))
      | inr e ↦
          rw (e.1, any_is-append, any_is-up_from)
            (ground (arith, holes, get_or-beyond p.chunks j empty_chunk))
    ]

module _ (ts : List Chunk) (target : IsTarget 0 ts) where
  -- In whatever order the messages came, the receiver asks for a seqno exactly if its chunk has not come
  -- and it is known to exist: it lies below one that has come, or End_IROB has come and it is one of
  -- the IROB's.
  pub missing_any_order :
      (id labels : ℕ) (deps : List ℕ) (ms : List Message)
      → All (FromSender ts target) ms
      → (q : ReceiverIrob) × (receive_all (new_receiver_irob id deps labels) ms ≡ some q)
        × ((j : ℕ)
            → any_is (get_missing_chunks q) j ≡ (
                (has_chunk_from ms j || (has_end ms && ltb j (length ts))) && not (has_chunk ms j)))
  missing_any_order id labels deps ms h =
      let p = new_receiver_irob id deps labels in
      let (q, e, g, held, same, reach) =
        receive_all_lem ts target ms false p (new-Gathering ts target id labels deps) h in
      (
        q,
        e,
        λ j.
            get_missing_chunks_lem q j
            ∙ ground (
              arith,
              g.expected_chunks,
              held j,
              reach j,
              new-holds ts target id labels deps j,
              new-length ts target id labels deps,
            ),
      )
