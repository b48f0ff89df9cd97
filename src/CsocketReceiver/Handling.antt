-- ===== src/CsocketReceiver/Handling.antt =====
-- The handlers keep the invariant of the receiver, whatever comes from the network.
use libcmm.Prelude.{
  ℕ, ◌<◌, ◌≡◌, refl, sym, ap, ◌∙◌, subst, ◌⊎◌, inl, inr, Bool, true, false, not, ◌&&◌, Option, none,
  some, List, [], arith, ◌==◌, ==_refl, if◌then◌else◌, ◌>>=◌, length, is_some, Bool-cases,
  Option-cases,
}
use libcmm.IdSet.{IdSet, insert_all}
use libcmm.Irob.{Chunk, bytes_of}
use libcmm.Lattice.{find_locked, modify, is_past, insert_locked}
use libcmm.Lattice.View.{find-modify}
use libcmm.Lattice.Erasure.{announce}
use libcmm.Scheduling.Task.{Timeval}
use libcmm.ReceiverIrob.{ReceiverIrob, new_receiver_irob, is_complete, add_chunk, finish}
use libcmm.ReceiverIrob.Virtual.{receiver_virtuals}
use libcmm.ReceiverLattice.{ReceiverLattice, release_if_ready}
use libcmm.ReceiverLattice.Sound.{IsWhole}
use libcmm.ReceiverLattice.Changes.{Fed, add_chunk-Fed, finish-Fed}
use libcmm.ReceiverLattice.Serving.{nobody, only, ServesBut, Serves}
use libcmm.ReceiverLattice.Releasing.{
  change-ServesBut, except, kept-ServesBut, release_if_ready-ServesBut,
}
use libcmm.ReceiverLattice.Arriving.{fed-ServesBut}
use libcmm.ReceiverLattice.Inserting.{placeholder-Serves, inserted-ServesBut}
use libcmm.CsocketReceiver.{
  Receiver, Ending, returned, fatal_error, schedule_ack, release_and_ack, do_begin_irob,
  find_or_make, put_irob, do_end_irob, do_irob_chunk,
}

release_none :
    (i : ReceiverLattice) (id : ℕ) → find_locked i.irobs id ≡ none → release_if_ready i id ≡ none
unfolding release_if_ready
release_none i id free = ground arith

release_fails :
    (i : ReceiverLattice) (id : ℕ) (p : ReceiverIrob)
    → find_locked i.irobs id ≡ some p
    → is_complete p ≡ none
    → release_if_ready i id ≡ none
unfolding release_if_ready
release_fails i id p found fails = ground arith

-- After the end of a handler all is in order again.
release_and_ack-Serves :
    (a : ℕ → IdSet) (id : ℕ) (now : Timeval) (r r' : Receiver)
    → ServesBut a (only id) (only id) nobody r.incoming_irobs
    → release_and_ack id now r ≡ some r'
    → Serves a r'.incoming_irobs
unfolding release_and_ack schedule_ack
release_and_ack-Serves a id now r r' s e =
    elim (Option-cases (find_locked r.incoming_irobs.irobs id)) [
      | inl free ↦ absurd (ground (arith, release_none r.incoming_irobs id free))
      | inr (p, found) ↦ elim (Option-cases (is_complete p)) [
        | inl fails ↦ absurd (ground (arith, release_fails r.incoming_irobs id p found fails))
        | inr (b, done) ↦
            let (l, el, sl) =
              release_if_ready-ServesBut a (only id) (only id) nobody r.incoming_irobs s id p found
                b done in
            let same : l ≡ r'.incoming_irobs = elim (Option-cases (find_locked l.irobs id)) [
              | inl none_l ↦ absurd (ground arith)
              | inr (q, eq) ↦ elim (Option-cases (is_complete q)) [
                | inl fails ↦ absurd (ground arith)
                | inr (d, ed) ↦ elim (Bool-cases (d && not q.placeholder)) [
                  | inl acks ↦ ground arith
                  | inr quiet ↦ ground arith
                ]
              ]
            ] in
            subst (Serves a) same (
              change-ServesBut a (except id (only id)) (except id (only id)) nobody nobody nobody
                nobody l (λ j q eq. ((λ h. ground arith), (λ h. ground arith), λ h. h)) sl)
      ]
    ]

-- The IROB is past, or is found or made.
find_or_make_lem :
    (a : ℕ → IdSet) (id : ℕ) (r r1 : Receiver) (o : Option ReceiverIrob)
    → Serves a r.incoming_irobs
    → find_or_make id r ≡ some (r1, o)
    → ((r ≡ r1) × (o ≡ none))
      ⊎ ((p : ReceiverIrob) × (o ≡ some p)
          × Serves a r1.incoming_irobs
          × (find_locked r1.incoming_irobs.irobs id ≡ some p))
unfolding find_or_make
find_or_make_lem a id r r1 o s e = elim (Option-cases (find_locked r.incoming_irobs.irobs id)) [
  | inr (p, found) ↦
      let same : r ≡ r1 = ground arith in
      let po : o ≡ some p = ground arith in
      inr (
        p,
        po,
        subst (λ x. Serves a x.incoming_irobs) same s,
        ap (λ x. find_locked x.incoming_irobs.irobs id) (sym same) ∙ found,
      )
  | inl free ↦ elim (Bool-cases (is_past r.incoming_irobs.irobs id)) [
    | inl past ↦ inl (ground arith, ground arith)
    | inr open_ ↦
        let (l, el, sl) = placeholder-Serves a r.incoming_irobs id s open_ free in
        elim (Option-cases (find_locked l id)) [
          | inl none_l ↦ absurd (ground arith)
          | inr (p, ep) ↦
              let r2 : Receiver = record r {
                incoming_irobs = record (r.incoming_irobs) { irobs = l };
              } in
              let same : r2 ≡ r1 = ground arith in
              let po : o ≡ some p = ground arith in
              inr (
                p,
                po,
                subst (λ x. Serves a x.incoming_irobs) same sl,
                ap (λ x. find_locked x.incoming_irobs.irobs id) (sym same) ∙ ep,
              )
        ]
  ]
]

-- The insertion takes the new IROB in.
abbrev pub takes_in : Receiver → ℕ → List ℕ → ℕ → Bool
takes_in r id deps labels =
    elim (insert_locked receiver_virtuals r.incoming_irobs.irobs (new_receiver_irob id deps labels)
      false) [ none ↦ false | some x ↦ x.1 ]

-- The dependencies that a Begin_IROB message announces, if it is the first for its IROB.
abbrev pub after_begin : (ℕ → IdSet) → Receiver → ℕ → Option (List ℕ) → ℕ → ℕ → IdSet
after_begin a r id none labels = a
after_begin a r id (some deps) labels =
    if takes_in r id deps labels then announce a id (insert_all [] deps) else a

pub do_begin_irob-Serves :
    (a : ℕ → IdSet) (id : ℕ) (deps : Option (List ℕ)) (labels : ℕ) (now : Timeval) (r r' : Receiver)
    (e : Ending)
    → Serves a r.incoming_irobs
    → do_begin_irob id deps labels now r ≡ some (r', e)
    → Serves (after_begin a r id deps labels) r'.incoming_irobs
unfolding do_begin_irob
do_begin_irob-Serves a id none labels now r r' e s h =
    let same : r ≡ r' = ground arith in subst (λ x. Serves a x.incoming_irobs) same s
do_begin_irob-Serves a id (some deps) labels now r r' e s h =
    elim (Option-cases (
      insert_locked receiver_virtuals r.incoming_irobs.irobs (new_receiver_irob id deps labels)
        false)) [
          | inl fails ↦ absurd (ground arith)
          | inr (x, ex) ↦ elim (Bool-cases x.1) [
            | inr refused ↦
                let same : r ≡ r' = ground arith in
                let takes : takes_in r id deps labels ≡ false = ground arith in
                subst
                  (λ b.
                    Serves (if b then announce a id (insert_all [] deps) else a) r'.incoming_irobs)
                  (sym takes) (subst (λ y. Serves a y.incoming_irobs) same s)
            | inl taken ↦
                let i = r.incoming_irobs in
                let inserts : insert_locked receiver_virtuals i.irobs
                      (new_receiver_irob id deps labels) false
                    ≡ some (x.0, true) =
                  ground arith in
                let sb = inserted-ServesBut a i s id deps labels x.0 inserts in
                let r1 : Receiver = record r { incoming_irobs = record i { irobs = x.0 } } in
                elim (Option-cases (release_and_ack id now r1)) [
                  | inl fails ↦ absurd (ground arith)
                  | inr (r2, e2) ↦
                      let same : r2 ≡ r' = ground arith in
                      let takes : takes_in r id deps labels ≡ true = ground arith in
                      subst
                        (λ b.
                          Serves (if b then announce a id (insert_all [] deps) else a)
                            r'.incoming_irobs)
                        (sym takes)
                        (subst (λ y. Serves (announce a id (insert_all [] deps)) y.incoming_irobs)
                          same
                          (release_and_ack-Serves (announce a id (insert_all [] deps)) id now r1 r2
                            sb e2))
                ]
          ]
        ]

-- What is found takes data or its end, and is released if it is due.
fed-Serves :
    (a : ℕ → IdSet) (id : ℕ) (now : Timeval) (r1 r2 : Receiver) (p q : ReceiverIrob)
    → Serves a r1.incoming_irobs
    → find_locked r1.incoming_irobs.irobs id ≡ some p
    → Fed p q
    → release_and_ack id now (put_irob r1 id q) ≡ some r2
    → Serves a r2.incoming_irobs
fed-Serves a id now r1 r2 p q s found f e =
    release_and_ack-Serves a id now (put_irob r1 id q) r2
      (fed-ServesBut a r1.incoming_irobs id p q s found f) e

pub do_end_irob-Serves :
    (a : ℕ → IdSet) (id bytes chunks : ℕ) (now : Timeval) (r r' : Receiver) (e : Ending)
    → 0 < bytes
    → Serves a r.incoming_irobs
    → do_end_irob id bytes chunks now r ≡ some (r', e)
    → Serves a r'.incoming_irobs
unfolding do_end_irob schedule_ack
do_end_irob-Serves a id bytes chunks now r r' e pos s h = elim (Option-cases (find_or_make id r)) [
  | inl fails ↦ absurd (ground arith)
  | inr ((r1, o), e1) ↦ elim (find_or_make_lem a id r r1 o s e1) [
    | inl (same, past) ↦
        let same_irobs : r.incoming_irobs ≡ r'.incoming_irobs = ground arith in
        subst (Serves a) same_irobs s
    | inr (p, po, s1, found) ↦ elim (Option-cases (finish p bytes chunks)) [
      | inl fails ↦ absurd (ground arith)
      | inr ((q, b), ef) ↦ elim (Option-cases (release_and_ack id now (put_irob r1 id q))) [
        | inl fails ↦ absurd (ground (arith, Option-cases (is_complete q)))
        | inr (r2, e2) ↦
            let same : r2 ≡ r' = ground (arith, Option-cases (is_complete q)) in
            subst (λ y. Serves a y.incoming_irobs) same
              (fed-Serves a id now r1 r2 p q s1 found
                (finish-Fed p bytes chunks pos ((s1.sound id p found)) q b ef) e2)
      ]
    ]
  ]
]

-- The end of `do_irob_chunk`.
pub after_chunk : ℕ → Timeval → Receiver → ReceiverIrob → Bool → Option (Receiver × Ending)
after_chunk id now r1 q added = (if added then some true else is_complete q) >>= λ accepted.
    if accepted
    then (release_and_ack id now (put_irob r1 id q) >>= λ r''. some (r'', returned))
    else some (put_irob r1 id q, fatal_error)

-- An IROB that is not complete needs no release.
refused-Serves :
    (a : ℕ → IdSet) (i : ReceiverLattice) (id : ℕ) (p q : ReceiverIrob)
    → Serves a i
    → find_locked i.irobs id ≡ some p
    → Fed p q
    → is_complete q ≡ some false
    → Serves a (record i { irobs = modify i.irobs id (λ _. q) })
refused-Serves a i id p q s found f open_ =
    let i' : ReceiverLattice = record i { irobs = modify i.irobs id (λ _. q) } in
    let here : find_locked i'.irobs id ≡ some q =
      ground (arith, find-modify i.irobs id id (λ _. q), ==_refl id) in
    change-ServesBut a (except id (only id)) (except id (only id)) nobody nobody nobody nobody i'
      (λ j x e. ((λ h. ground arith), (λ h. ground arith), λ h. h))
      (kept-ServesBut a (only id) (only id) nobody i' (fed-ServesBut a i id p q s found f) id q here
        false open_ refl)

chunk_put :
    (a : ℕ → IdSet) (c : Chunk) (now : Timeval) (r1 r' : Receiver) (p q : ReceiverIrob) (b : Bool)
    (e : Ending)
    → Serves a r1.incoming_irobs
    → find_locked r1.incoming_irobs.irobs c.id ≡ some p
    → Fed p q
    → after_chunk c.id now r1 q b ≡ some (r', e)
    → Serves a r'.incoming_irobs
unfolding after_chunk
chunk_put a c now r1 r' p q b e s1 found f h =
    let goes_on = λ (e2 : (if b then some true else is_complete q) ≡ some true).
      elim (Option-cases (release_and_ack c.id now (put_irob r1 c.id q)))
        as (λ _. Serves a r'.incoming_irobs) [
          | inl fails ↦ absurd (ground arith)
          | inr (r2, e3) ↦
              let same : r2 ≡ r' = ground arith in
              subst (λ y. Serves a y.incoming_irobs) same
                (fed-Serves a c.id now r1 r2 p q s1 found f e3)
        ] in
    elim (Option-cases (if b then some true else is_complete q)) [
      | inl fails ↦ absurd (ground arith)
      | inr (accepted, ea) ↦ elim (Bool-cases accepted) [
        | inl ok ↦ goes_on (ground arith)
        | inr bad ↦
            let same : put_irob r1 c.id q ≡ r' = ground arith in
            let open_ : is_complete q ≡ some false = ground arith in
            subst (λ y. Serves a y.incoming_irobs) same
              (refused-Serves a r1.incoming_irobs c.id p q s1 found f open_)
      ]
    ]

-- A chunk as the handler reads it: `datas` has as many bytes as the header says, if the read succeeds.
abbrev pub Framed : Chunk → Type 0
Framed c = is_some c.datas ≡ true → c.datalen ≡ length (bytes_of c)

pub do_irob_chunk-Serves :
    (a : ℕ → IdSet) (c : Chunk) (now : Timeval) (r r' : Receiver) (e : Ending)
    → Framed c
    → Serves a r.incoming_irobs
    → do_irob_chunk c now r ≡ some (r', e)
    → Serves a r'.incoming_irobs
unfolding do_irob_chunk after_chunk
do_irob_chunk-Serves a c now r r' e framed s h = elim (Bool-cases (c.datalen == 0)) [
  | inl no_data ↦ let same : r ≡ r' = ground arith in subst (λ x. Serves a x.incoming_irobs) same s
  | inr some_data ↦ elim (Option-cases c.datas) [
    | inl unread ↦ let same : r ≡ r' = ground arith in subst (λ x. Serves a x.incoming_irobs) same s
    | inr (bs, eb) ↦
        let whole : IsWhole c = record { there = ground arith; long = framed (ground arith) } in
        elim (Option-cases (find_or_make c.id r)) [
          | inl fails ↦ absurd (ground arith)
          | inr ((r1, o), e1) ↦ elim (find_or_make_lem a c.id r r1 o s e1) [
            | inl (same, past) ↦
                let same' : r ≡ r' = ground arith in subst (λ x. Serves a x.incoming_irobs) same' s
            | inr (p, po, s1, found) ↦ elim (Option-cases (add_chunk p c)) [
              | inl fails ↦ absurd (ground arith)
              | inr ((q, b), ef) ↦
                  let f = add_chunk-Fed p c whole (s1.sound c.id p found) q b ef in
                  chunk_put a c now r1 r' p q b e s1 found f (ground arith)
            ]
          ]
        ]
  ]
]
