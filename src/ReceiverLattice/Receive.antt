-- ===== src/ReceiverLattice/Receive.antt =====
-- What `recv` comes to.
use libcmm.Prelude.{
  ℕ, zero, suc, ◌+◌, ◌-◌, ◌≤◌, ◌<◌, ◌≡◌, refl, sym, ap, ◌∙◌, inl, inr, Bool, true, false, not, ◌||◌,
  ◌&&◌, some, List, [], arith, ltb, ◌==◌, if◌then◌else◌, length, take, Bool-cases, length-append,
}
use libcmm.IdSet.{IdSet}
use libcmm.Irob.{is_ready}
use libcmm.Lattice.{find_locked}
use libcmm.ReceiverIrob.{ReceiverIrob, is_complete}
use libcmm.ReceiverIrob.Reading.{contents}
use libcmm.ReceiverLattice.{
  ReceiverLattice, Socket, Next, no_more, nothing_ready, waits, next, when_empty, get_ready_irob,
  has_flag, msg_peek, msg_waitall, Passed, nothing_passed, Recv, passed, waiting, would_block, stop,
  read_turn, add_bytes, recv_loop, recv,
}
use libcmm.ReceiverLattice.Serving.{Serves}
use libcmm.ReceiverLattice.Taking.{Dry, got, nothing, get_ready_irob_lem}
use libcmm.ReceiverLattice.Turn.{read_turn_lem}

abbrev pub bytes_passed : Recv → List ℕ
bytes_passed (passed g) = g.bytes
bytes_passed (waiting g) = g.bytes
bytes_passed would_block = []

-- The reader waits, or has got nothing.
abbrev pub stalled : Recv → Bool
stalled (passed g) = length g.bytes == 0
stalled (waiting g) = true
stalled would_block = true

-- The connection is gone only once the socket shuts down.
abbrev pub Coherent : Socket → Type 0
Coherent sk = sk.closing ≡ true → sk.shutting_down ≡ true

pub record Outcome (a : ℕ → IdSet) (len flags : ℕ) (g : Passed) (r' : ReceiverLattice) (out : Recv)
    : Type 0 where
  pub serves : Serves a r'
  pub within : length (bytes_passed out) ≤ len
  pub dry : stalled out ≡ true → Dry r'
  pub going : has_flag flags msg_waitall ≡ false → 0 < length g.bytes → stalled out ≡ false

-- What the loop answers with nothing to read.
stop_lem :
    (a : ℕ → IdSet) (sk : Socket) (len flags : ℕ) (r' : ReceiverLattice) (g : Passed)
    → Coherent sk
    → Serves a r'
    → Dry r'
    → length g.bytes ≤ len
    → (n : Next) → n ≡ when_empty sk ((length g.bytes == 0) || has_flag flags msg_waitall)
    → (out : Recv) × (stop sk n g ≡ some out) × Outcome a len flags g r' out
unfolding stop when_empty
stop_lem a sk len flags r' g co s dry le no_more e = (
  passed g,
  ground arith,
  record { serves = s; within = le; dry = λ _. dry; going = λ w h. ground arith },
)
stop_lem a sk len flags r' g co s dry le waits e = (
  waiting g,
  refl,
  record { serves = s; within = le; dry = λ _. dry; going = λ w h. ground arith },
)
stop_lem a sk len flags r' g co s dry le nothing_ready e = elim (Bool-cases (length g.bytes == 0)) [
  | inr some_bytes ↦ (
    passed g,
    ground arith,
    record { serves = s; within = le; dry = λ _. dry; going = λ w h. ground arith },
  )
  | inl no_bytes ↦ (
    would_block,
    ground arith,
    record { serves = s; within = ground arith; dry = λ _. dry; going = λ w h. ground arith },
  )
]
stop_lem a sk len flags r' g co s dry le (next p) e = absurd (ground arith)

pub add_bytes-length :
    (g : Passed) (p : ReceiverIrob) (xs : List ℕ)
    → length (add_bytes g p xs).bytes ≡ length g.bytes + length xs
unfolding add_bytes
add_bytes-length g p xs = length-append g.bytes xs

pub loop_zero :
    (sk : Socket) (len flags : ℕ) (r : ReceiverLattice) (g : Passed)
    → ltb (length g.bytes) len ≡ false
    → recv_loop zero sk len flags r g ≡ some (r, passed g)
unfolding recv_loop
loop_zero sk len flags r g full = ground arith

module _ (fuel : ℕ) (sk : Socket) (len flags : ℕ) (r : ReceiverLattice) (g : Passed) where
  abbrev may_block : Bool
  may_block = (length g.bytes == 0) || has_flag flags msg_waitall

  pub loop_full :
      ltb (length g.bytes) len ≡ false → recv_loop (suc fuel) sk len flags r g ≡ some (r, passed g)
  unfolding recv_loop
  loop_full full = ground arith

  loop_stops :
      ltb (length g.bytes) len ≡ true
      → (r1 : ReceiverLattice) (n : Next) (out : Recv)
      → get_ready_irob sk may_block r ≡ some (r1, n)
      → stop sk n g ≡ some out
      → recv_loop (suc fuel) sk len flags r g ≡ some (r1, out)
  unfolding recv_loop stop
  loop_stops room r1 no_more out e h = ground arith
  loop_stops room r1 nothing_ready out e h = ground arith
  loop_stops room r1 waits out e h = ground arith
  loop_stops room r1 (next p) out e h = absurd (ground arith)

  pub loop_turns :
      ltb (length g.bytes) len ≡ true
      → (r1 r2 : ReceiverLattice) (p : ReceiverIrob) (used_up : Bool) (g2 : Passed)
      → get_ready_irob sk may_block r ≡ some (r1, next p)
      → read_turn len flags r1 p g ≡ some (r2, used_up, g2)
      → recv_loop (suc fuel) sk len flags r g ≡ (
          if used_up && not (has_flag flags msg_waitall)
          then some (r2, passed g2)
          else recv_loop fuel sk len flags r2 g2)
  unfolding recv_loop
  loop_turns room r1 r2 p used_up g2 e h = ground arith

pub recv_loop_lem :
    (a : ℕ → IdSet) (fuel : ℕ) (sk : Socket) (len flags : ℕ) (r : ReceiverLattice) (g : Passed)
    → Coherent sk
    → Serves a r
    → length g.bytes ≤ len
    → len ≤ length g.bytes + fuel
    → 0 < len
    → (r' : ReceiverLattice) × (out : Recv) × (recv_loop fuel sk len flags r g ≡ some (r', out))
      × Outcome a len flags g r' out
recv_loop_lem a zero sk len flags r g co s le enough pos = (
  r,
  passed g,
  loop_zero sk len flags r g (ground arith),
  record { serves = s; within = le; dry = λ h. absurd (ground arith); going = λ w h. ground arith },
)
recv_loop_lem a (suc fuel) sk len flags r g co s le enough pos =
    elim (Bool-cases (ltb (length g.bytes) len)) [
      | inr full ↦ (
        r,
        passed g,
        loop_full fuel sk len flags r g full,
        record {
          serves = s;
          within = le;
          dry = λ h. absurd (ground arith);
          going = λ w h. ground arith;
        },
      )
      | inl room ↦
          let block = (length g.bytes == 0) || has_flag flags msg_waitall in
          elim (get_ready_irob_lem a r s sk block) [
            | nothing r1 e s1 dry0 dry ↦
                let (out, eo, o) =
                  stop_lem a sk len flags r1 g co s1 dry le (when_empty sk block) refl in
                (
                  r1,
                  out,
                  loop_stops fuel sk len flags r g room r1 (when_empty sk block) out e eo,
                  o,
                )
            | got r1 p e same t ↦
                let u = read_turn_lem a len flags r1 p g t (ground arith) in
                let xs = take (len - length g.bytes) (contents p) in
                let g2 = add_bytes g p xs in
                let more : length g2.bytes ≡ length g.bytes + length xs = add_bytes-length g p xs in
                let turns =
                  loop_turns fuel sk len flags r g room r1 u.after p u.used_up g2 e u.runs in
                elim (Bool-cases (u.used_up && not (has_flag flags msg_waitall))) [
                  | inl over ↦ (
                    u.after,
                    passed g2,
                    ground arith,
                    record {
                      serves = u.serves;
                      within = ground (arith, u.within);
                      dry = λ h. absurd (ground (arith, u.some_read));
                      going = λ w h. ground (arith, u.some_read);
                    },
                  )
                  | inr on ↦
                      let (r', out, er, o) =
                        recv_loop_lem a fuel sk len flags u.after g2 co u.serves
                          (ground (arith, u.within)) (ground (arith, u.some_read)) pos in
                      (
                        r',
                        out,
                        ground arith,
                        record {
                          serves = o.serves;
                          within = o.within;
                          dry = o.dry;
                          going = λ w h. o.going w (ground arith);
                        },
                      )
                ]
          ]
    ]

-- No ASSERT of `recv` fails.
pub recv_lem :
    (a : ℕ → IdSet) (sk : Socket) (len flags : ℕ) (r : ReceiverLattice)
    → Coherent sk
    → Serves a r
    → 0 < len
    → (r' : ReceiverLattice) × (out : Recv) × (recv sk len flags r ≡ some (r', out))
      × Outcome a len flags nothing_passed r' out
unfolding recv
recv_lem a sk len flags r co s pos =
    recv_loop_lem a len sk len flags r nothing_passed co s (omega arith) (omega arith) pos

-- With an IROB that can be read, a read that does not ask for all bytes passes some.
pub recv_passes :
    (a : ℕ → IdSet) (sk : Socket) (len flags : ℕ) (r : ReceiverLattice)
    → Coherent sk
    → Serves a r
    → 0 < len
    → has_flag flags msg_waitall ≡ false
    → (j : ℕ) (p : ReceiverIrob) → find_locked r.irobs j ≡ some p
    → is_complete p ≡ some true
    → is_ready p ≡ true
    → (r' : ReceiverLattice) × (out : Recv) × (recv sk len flags r ≡ some (r', out))
      × (stalled out ≡ false)
unfolding recv
recv_passes a sk zero flags r co s pos wall j p e done ready = absurd (omega arith)
recv_passes a sk (suc n) flags r co s pos wall j p e done ready =
    elim (get_ready_irob_lem a r s sk true) [
      | nothing r1 e1 s1 dry0 dry ↦ absurd (ground (arith, dry0 j p e done))
      | got r1 q eq same t ↦
          let len = suc n in
          let u = read_turn_lem a len flags r1 q nothing_passed t (omega arith) in
          let xs = take (len - length {A = ℕ} []) (contents q) in
          let g2 = add_bytes nothing_passed q xs in
          let turns =
            loop_turns n sk len flags r nothing_passed (ground arith) r1 u.after q u.used_up g2 eq
              u.runs in
          let more = add_bytes-length nothing_passed q xs in
          elim (Bool-cases u.used_up) [
            | inl over ↦ (u.after, passed g2, ground arith, ground (arith, u.some_read))
            | inr on ↦
                let (r', out, er, o) =
                  recv_loop_lem a n sk len flags u.after g2 co u.serves (ground (arith, u.within))
                    (ground (arith, u.some_read)) pos in
                (r', out, ground arith, o.going wall (ground (arith, u.some_read)))
          ]
    ]

-- What a plain read takes: from one IROB that can be read, its next bytes and its labels.
pub record Takes (len : ℕ) (r : ReceiverLattice) (g : Passed) : Type 0 where
  pub from : ReceiverIrob
  pub pending : find_locked r.irobs from.id ≡ some from
  pub complete : is_complete from ≡ some true
  pub ready : is_ready from ≡ true
  pub next_bytes : g.bytes ≡ take len (contents from)
  pub its_labels : g.labels ≡ some from.send_labels

pub add_bytes_first :
    (p : ReceiverIrob) (xs : List ℕ)
    → add_bytes nothing_passed p xs ≡ record { bytes = xs; labels = some p.send_labels }
unfolding add_bytes
add_bytes_first p xs = refl

loop_enough :
    (fuel : ℕ) (sk : Socket) (len flags : ℕ) (r : ReceiverLattice) (g : Passed)
    → ltb (length g.bytes) len ≡ false
    → recv_loop fuel sk len flags r g ≡ some (r, passed g)
loop_enough zero sk len flags r g full = loop_zero sk len flags r g full
loop_enough (suc fuel) sk len flags r g full = loop_full fuel sk len flags r g full

stop_nothing :
    (sk : Socket) (n : Next) (g : Passed)
    → stop sk n nothing_passed ≡ some (passed g)
    → length g.bytes ≡ 0
unfolding stop
stop_nothing sk no_more g e = ground arith
stop_nothing sk nothing_ready g e = ground arith
stop_nothing sk waits g e = absurd (ground arith)
stop_nothing sk (next p) g e = absurd (ground arith)

-- A plain read, one without flags, that passes bytes.
pub recv-Takes :
    (a : ℕ → IdSet) (sk : Socket) (len flags : ℕ) (r r' : ReceiverLattice) (g : Passed)
    → Coherent sk
    → Serves a r
    → has_flag flags msg_waitall ≡ false
    → has_flag flags msg_peek ≡ false
    → recv sk len flags r ≡ some (r', passed g)
    → 0 < length g.bytes
    → Takes len r g
unfolding recv
recv-Takes a sk zero flags r r' g co s wall peek e some_bytes =
    absurd (ground (arith, loop_zero sk 0 flags r nothing_passed refl))
recv-Takes a sk (suc n) flags r r' g co s wall peek e some_bytes =
    let len = suc n in
    elim (get_ready_irob_lem a r s sk true) [
      | nothing r1 e1 s1 dry0 dry ↦
          let (out, eo, o) =
            stop_lem a sk len flags r1 nothing_passed co s1 dry (omega arith) (when_empty sk true)
              refl in
          let stops =
            loop_stops n sk len flags r nothing_passed (ground arith) r1 (when_empty sk true) out e1
              eo in
          absurd (ground (arith, stop_nothing sk (when_empty sk true) g))
      | got r1 q eq same t ↦
          let u = read_turn_lem a len flags r1 q nothing_passed t (omega arith) in
          let d = (t.serves.sound q.id q t.found).deliverable t.released in
          let xs = take (len - length {A = ℕ} []) (contents q) in
          let g2 = add_bytes nothing_passed q xs in
          let turns =
            loop_turns n sk len flags r nothing_passed (ground arith) r1 u.after q u.used_up g2 eq
              u.runs in
          let more = add_bytes-length nothing_passed q xs in
          let full : u.used_up ≡ false → ltb (length g2.bytes) len ≡ false =
            λ h. ground (arith, u.full) in
          let same_g : g2 ≡ g = elim (Bool-cases u.used_up) [
            | inl over ↦ ground arith
            | inr on ↦ ground (arith, loop_enough n sk len flags u.after g2 (full on))
          ] in
          let whole : len - length {A = ℕ} [] ≡ len = omega arith in
          let parts : g ≡ record { bytes = xs; labels = some q.send_labels } =
            sym same_g ∙ add_bytes_first q xs in
          record {
            from = q;
            pending = ap (λ l. find_locked l q.id) (sym same) ∙ t.found;
            complete = d.complete;
            ready = d.ready;
            next_bytes = ap (λ x. x.bytes) parts ∙ ap (λ k. take k (contents q)) whole;
            its_labels = ap (λ x. x.labels) parts;
          }
    ]
