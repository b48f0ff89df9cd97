-- ===== src/ReceiverLattice/Peek.antt =====
-- What a read with MSG_PEEK passes: it comes back to the IROB that it has just put back.
use libcmm.Prelude.{
  ℕ, zero, suc, ◌+◌, ◌-◌, ◌≤◌, ◌≡◌, refl, sym, ap, ◌∙◌, inl, inr, Bool, true, ◌||◌, some, List, [],
  ◌∷◌, ◌++◌, arith, ltb, ◌==◌, length, take, Bool-cases, Option-cases, append_assoc,
  take-append_rest, length-append,
}
use libcmm.IdSet.{IdSet}
use libcmm.Irob.{is_ready}
use libcmm.Lattice.{find_locked}
use libcmm.ReceiverIrob.{ReceiverIrob, is_complete}
use libcmm.ReceiverIrob.Reading.{contents}
use libcmm.ReceiverLattice.{
  ReceiverLattice, Socket, next, get_ready_irob, has_flag, msg_peek, msg_waitall, Passed,
  nothing_passed, passed, add_bytes, recv_loop, recv,
}
use libcmm.ReceiverLattice.Serving.{Serves}
use libcmm.ReceiverLattice.Taking.{got, nothing, get_ready_irob_lem}
use libcmm.ReceiverLattice.Turn.{read_turn_lem}
use libcmm.ReceiverLattice.Receive.{loop_zero, loop_full, loop_turns, add_bytes-length}

-- The bytes over and over.
abbrev pub again : ℕ → List ℕ → List ℕ
again zero xs = []
again (suc n) xs = xs ++ again n xs

-- An IROB that is partly read is the one to go on with.
get_partial :
    (sk : Socket) (block : Bool) (r r' : ReceiverLattice) (p q : ReceiverIrob)
    → r.partially_read_irob ≡ some p.id
    → find_locked r.irobs p.id ≡ some p
    → get_ready_irob sk block r ≡ some (r', next q)
    → p ≡ q
unfolding get_ready_irob
get_partial sk block r r' p q part there e = elim (Option-cases (is_complete p)) [
  | inl fails ↦ absurd (ground arith)
  | inr (b, done) ↦ elim (Bool-cases b) [
    | inl whole ↦ ground arith
    | inr short ↦ absurd (ground arith)
  ]
]

add_bytes-bytes :
    (g : Passed) (p : ReceiverIrob) (xs : List ℕ) → (add_bytes g p xs).bytes ≡ g.bytes ++ xs
unfolding add_bytes
add_bytes-bytes g p xs = refl

-- A turn and the turns after it.
joined :
    (len n : ℕ) (got xs got' whole : List ℕ)
    → got' ≡ got ++ take (len - length got) xs
    → whole ≡ got' ++ take (len - length got') (again n xs)
    → whole ≡ got ++ take (len - length got) (again (suc n) xs)
joined len n g xs g' whole e h =
    let room = len - length g in
    let left : len - length g' ≡ room - length (take room xs) =
      ground (arith, length-append g (take room xs)) in
    h
    ∙ ap (λ k. g' ++ take k (again n xs)) left
    ∙ ap (λ ys. ys ++ take (room - length (take room xs)) (again n xs)) e
    ∙ append_assoc g (take room xs) (take (room - length (take room xs)) (again n xs))
    ∙ ap (λ ys. g ++ ys) (sym (take-append_rest room xs (again n xs)))

append_nil : (xs : List ℕ) → xs ++ [] ≡ xs
append_nil [] = refl
append_nil (x ∷ xs) = ap (λ ys. x ∷ ys) (append_nil xs)

append_none : (len : ℕ) (g xs : List ℕ) → len ≤ length g → g ≡ g ++ take (len - length g) xs
append_none len g xs le =
    let none_left : len - length g ≡ 0 = omega arith in
    sym (append_nil g) ∙ ap (λ k. g ++ take k xs) (sym none_left)

peek_again :
    (a : ℕ → IdSet) (fuel : ℕ) (sk : Socket) (len flags : ℕ) (r : ReceiverLattice) (g : Passed)
    → Serves a r
    → has_flag flags msg_peek ≡ true
    → length g.bytes ≤ len
    → len ≤ length g.bytes + fuel
    → (p : ReceiverIrob) → find_locked r.irobs p.id ≡ some p
    → r.partially_read_irob ≡ some p.id
    → p.ext.released ≡ true
    → (r' : ReceiverLattice) × (g' : Passed) × (recv_loop fuel sk len flags r g
        ≡ some (r', passed g'))
      × (length g'.bytes ≡ len)
      × (g'.bytes ≡ g.bytes ++ take (len - length g.bytes) (again fuel (contents p)))
peek_again a zero sk len flags r g s peek le enough p e part rel = (
  r,
  g,
  loop_zero sk len flags r g (ground arith),
  omega arith,
  append_none len g.bytes [] (omega arith),
)
peek_again a (suc fuel) sk len flags r g s peek le enough p e part rel =
    elim (Bool-cases (ltb (length g.bytes) len)) [
      | inr full ↦ (
        r,
        g,
        loop_full fuel sk len flags r g full,
        ground arith,
        append_none len g.bytes (again (suc fuel) (contents p)) (ground arith),
      )
      | inl room ↦
          let block = (length g.bytes == 0) || has_flag flags msg_waitall in
          elim (get_ready_irob_lem a r s sk block) [
            | nothing r1 e1 s1 dry0 dry ↦
                let d = (s.sound p.id p e).deliverable rel in
                absurd (ground (arith, dry0 p.id p e d.complete, d.ready))
            | got r1 q eq same t ↦
                let p_q = get_partial sk block r r1 p q part e eq in
                let u = read_turn_lem a len flags r1 q g t (ground arith) in
                let xs = take (len - length g.bytes) (contents q) in
                let g2 = add_bytes g q xs in
                let more = add_bytes-length g q xs in
                let turns =
                  loop_turns fuel sk len flags r g room r1 u.after q u.used_up g2 eq u.runs in
                let stays = u.stays peek in
                let (r', g', er, whole, bytes) =
                  peek_again a fuel sk len flags u.after g2 u.serves peek (ground (arith, u.within))
                    (ground (arith, u.some_read)) q stays.2 stays.1 t.released in
                (
                  r',
                  g',
                  ground (arith, stays.0),
                  whole,
                  joined len fuel g.bytes (contents q) g2.bytes g'.bytes (add_bytes-bytes g q xs)
                        bytes
                      ∙ ap
                          (λ (x : ReceiverIrob).
                            g.bytes ++ take (len - length g.bytes) (again (suc fuel) (contents x)))
                          (sym p_q),
                )
          ]
    ]

-- What a peek passes: the bytes of one IROB that can be read, over and over, until the buffer is full.
pub record Peeked (len : ℕ) (r : ReceiverLattice) (g : Passed) : Type 0 where
  pub from : ReceiverIrob
  pub pending : find_locked r.irobs from.id ≡ some from
  pub complete : is_complete from ≡ some true
  pub ready : is_ready from ≡ true
  pub full : length g.bytes ≡ len
  pub repeated : g.bytes ≡ take len (again len (contents from))

pub recv_peek :
    (a : ℕ → IdSet) (sk : Socket) (len flags : ℕ) (r : ReceiverLattice)
    → Serves a r
    → has_flag flags msg_peek ≡ true
    → (j : ℕ) (p : ReceiverIrob) → find_locked r.irobs j ≡ some p
    → p.ext.released ≡ true
    → (r' : ReceiverLattice) × (g : Passed) × (recv sk len flags r ≡ some (r', passed g))
      × Peeked len r g
unfolding recv
recv_peek a sk zero flags r s peek j p e rel =
    let d = (s.sound j p e).deliverable rel in
    let keyed : j ≡ p.id = sym (s.tracks.valid.keyed j p e) in
    (
      r,
      nothing_passed,
      loop_zero sk 0 flags r nothing_passed refl,
      record {
        from = p;
        pending = ap (λ k. find_locked r.irobs k) (sym keyed) ∙ e;
        complete = d.complete;
        ready = d.ready;
        full = refl;
        repeated = refl;
      },
    )
recv_peek a sk (suc n) flags r s peek j p e rel =
    let len = suc n in
    elim (get_ready_irob_lem a r s sk true) [
      | nothing r1 e1 s1 dry0 dry ↦
          let d = (s.sound j p e).deliverable rel in
          absurd (ground (arith, dry0 j p e d.complete, d.ready))
      | got r1 q eq same t ↦
          let d = (t.serves.sound q.id q t.found).deliverable t.released in
          let u = read_turn_lem a len flags r1 q nothing_passed t (omega arith) in
          let xs = take (len - length {A = ℕ} []) (contents q) in
          let g2 = add_bytes nothing_passed q xs in
          let more = add_bytes-length nothing_passed q xs in
          let turns =
            loop_turns n sk len flags r nothing_passed (ground arith) r1 u.after q u.used_up g2 eq
              u.runs in
          let stays = u.stays peek in
          let room : len - length {A = ℕ} [] ≡ len = omega arith in
          let (r', g', er, whole, bytes) =
            peek_again a n sk len flags u.after g2 u.serves peek (ground (arith, u.within))
              (ground (arith, u.some_read)) q stays.2 stays.1 t.released in
          (
            r',
            g',
            ground (arith, stays.0),
            record {
              from = q;
              pending = ap (λ l. find_locked l q.id) (sym same) ∙ t.found;
              complete = d.complete;
              ready = d.ready;
              full = whole;
              repeated =
                  joined len n [] (contents q) g2.bytes g'.bytes
                    (add_bytes-bytes nothing_passed q xs) bytes
                  ∙ ap (λ k. take k (again len (contents q))) room;
            },
          )
    ]
