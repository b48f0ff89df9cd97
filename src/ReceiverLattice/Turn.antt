-- ===== src/ReceiverLattice/Turn.antt =====
-- A turn of the loop of `recv`: an IROB is read, and put back or retired.
use libcmm.Prelude.{
  ℕ, ◌-◌, ◌≤◌, ◌<◌, ◌≡◌, ◌≢◌, refl, sym, ap, ◌∙◌, subst, inl, inr, Bool, true, false, some, List,
  [], ◌∷◌, arith, ◌==◌, ==_iff, ==_refl, if◌then◌else◌, zero, suc, length-drop, length, take,
  is_some, Bool-cases, Option-cases,
}
use libcmm.IdSet.{IdSet, has}
use libcmm.Irob.{is_ready, dep_satisfied}
use libcmm.Lattice.{Lattice, find_locked, modify}
use libcmm.Lattice.View.{find-modify}
use libcmm.Lattice.Place.{modify-SameRest}
use libcmm.Lattice.Growth.{is_past-same}
use libcmm.Lattice.Erase.{Erased, erase_locked_outcome}
use libcmm.Lattice.Every.{Every, modify-Every, erase-Every}
use libcmm.Lattice.Tracking.{SameNode, modify-Tracks}
use libcmm.Lattice.Tracks.{Tracks, Erased-Tracks}
use libcmm.ReceiverIrob.{Receiving, ReceiverIrob, is_complete}
use libcmm.ReceiverIrob.Virtual.{receiver_virtuals}
use libcmm.ReceiverIrob.Reading.{contents, IsReadable}
use libcmm.ReceiverIrob.Trimming.{Trimmed}
use libcmm.ReceiverLattice.{
  ReceiverLattice, has_flag, msg_peek, retire, put_back, Passed, add_bytes, read_turn,
}
use libcmm.ReceiverLattice.Sound.{Sound, Deliverable, Sound-Closed}
use libcmm.ReceiverLattice.Reads.{read_lem}
use libcmm.ReceiverLattice.Serving.{nobody, only, Serves, Moves, Moves-ServesBut}
use libcmm.ReceiverLattice.Releasing.{change-ServesBut, release_dependents-Serves}
use libcmm.ReceiverLattice.Taking.{Taken}

Trimmed-SameNode : (p q : ReceiverIrob) → Trimmed p q → SameNode p q
Trimmed-SameNode p q t = record {
  same_id = t.same_id;
  same_deps = t.same_deps;
  same_dependents = t.same_dependents;
  same_placeholder = t.same_placeholder;
}

Trimmed-refl : (p : ReceiverIrob) → Trimmed p p
Trimmed-refl p = record {
  same_id = refl;
  same_deps = refl;
  same_dependents = refl;
  same_placeholder = refl;
  same_labels = refl;
  same_released = refl;
  still_complete = λ h. h;
}

Trimmed-ready : (p q : ReceiverIrob) → Trimmed p q → is_ready q ≡ is_ready p
unfolding is_ready
Trimmed-ready p q t = rw (t.same_deps, t.same_placeholder) refl

dep_satisfied-parts :
    (id : ℕ) (p : ReceiverIrob)
    → ((dep_satisfied id p).ext.released ≡ p.ext.released)
      × (is_complete (dep_satisfied id p) ≡ is_complete p)
unfolding dep_satisfied is_complete
dep_satisfied-parts id p = (refl, refl)

module _ (a : ℕ → IdSet) (r : ReceiverLattice) (p q : ReceiverIrob) (t : Taken a r p)
    (trim : Trimmed p q) where
  abbrev l1 : Lattice Receiving
  l1 = modify r.irobs p.id (λ _. q)

  taken_Deliverable : Deliverable p
  taken_Deliverable = (t.serves.sound p.id p t.found).deliverable t.released

  q_complete : is_complete q ≡ some true
  q_complete = trim.still_complete taken_Deliverable.complete

  find-l1 : (j : ℕ) → find_locked l1 j ≡ (if p.id == j then some q else find_locked r.irobs j)
  find-l1 j = elim (Bool-cases (p.id == j)) [
    | inl hit ↦ ground (arith, find-modify r.irobs p.id j (λ _. q), ==_iff p.id j, t.found)
    | inr miss ↦ ground (arith, find-modify r.irobs p.id j (λ _. q))
  ]

  l1-Tracks : Tracks l1 a
  l1-Tracks =
      modify-Tracks r.irobs p.id (λ _. q)
        (λ x e.
          let same : p ≡ x = ground (arith, t.found) in
          subst (λ y. SameNode y q) same (Trimmed-SameNode p q trim))
        a t.serves.tracks

  -- The IROB stays, with the rest of its bytes.
  put-Serves : Sound q → Serves a (record r { irobs = l1; partially_read_irob = some q.id })
  put-Serves sound =
      let l1-Sound = modify-Every Sound r.irobs p.id (λ _. q) (λ _ _. sound) t.serves.sound in
      let moves : Moves r.irobs l1 nobody nobody = record {
        back = λ j x e. elim (Bool-cases (p.id == j)) [
          | inl hit ↦
              let same : q ≡ x = ground (arith, find-l1 j) in
              let here : find_locked r.irobs j ≡ some p = ground (arith, t.found, ==_iff p.id j) in
              inl (
                p,
                here,
                ap (λ (y : ReceiverIrob). y.ext.released) (sym same) ∙ trim.same_released,
                (λ h. ap is_complete (sym same) ∙ q_complete ∙ sym taken_Deliverable.complete),
                λ h. ap is_ready (sym same) ∙ Trimmed-ready p q trim,
              )
          | inr miss ↦ inl (x, ground (arith, find-l1 j), refl, (λ h. refl), λ h. refl)
        ];
        gone = λ j e. inl (ground (arith, find-l1 j));
        past = λ j h. is_past-same r.irobs l1 j (modify-SameRest r.irobs p.id (λ _. q)) ∙ h;
      } in
      let m =
        Moves-ServesBut a a nobody nobody (only p.id) nobody nobody r l1 t.serves l1-Tracks l1-Sound
          moves (λ j h. absurd (ground (arith, t.no_partial))) in
      record {
        tracks = m.tracks;
        sound = m.sound;
        checked = m.checked;
        prompt = m.prompt;
        queued = λ j x e out rel. elim (Bool-cases (p.id == j)) [
          | inl hit ↦ inl (ground (arith, ==_iff p.id j, trim.same_id))
          | inr miss ↦ elim (m.queued j x e miss rel) [
            | inl part ↦ absurd (ground (arith, t.no_partial))
            | inr has_it ↦ inr has_it
          ]
        ];
        tasked = m.tasked;
        known = m.known;
        partial = λ j h. (
          q,
          ground (arith, find-l1 j, trim.same_id, ==_refl j),
          trim.same_released ∙ t.released,
        );
        level = m.level;
      }

  -- The IROB goes, and what waited for it alone is released.
  Erased-Moves :
      (l2 : Lattice Receiving)
      → Erased l1 p.id true q l2
      → Moves r.irobs l2 nobody (has q.dependents)
  Erased-Moves l2 n = record {
    back = λ j x e. elim (Bool-cases (p.id == j)) [
      | inl hit ↦ absurd (ground (arith, n.gone, ==_iff p.id j))
      | inr miss ↦
          let other : j ≢ p.id = λ h. absurd (ground (arith, ==_iff p.id j)) in
          elim (Bool-cases (has q.dependents j)) [
            | inr quiet ↦
                inl (x, ground (arith, find-l1 j, n.others j other), refl, (λ h. refl), λ h. refl)
            | inl told ↦ elim (Option-cases (find_locked r.irobs j)) [
              | inl en ↦ absurd (ground (arith, find-l1 j, n.others j other))
              | inr (y, ey) ↦
                  let same : dep_satisfied p.id y ≡ x =
                    ground (arith, find-l1 j, n.others j other) in
                  inl (
                    y,
                    ey,
                    ap (λ (z : ReceiverIrob). z.ext.released) (sym same)
                        ∙ (dep_satisfied-parts p.id y).0,
                    (λ h. ap is_complete (sym same) ∙ (dep_satisfied-parts p.id y).1),
                    λ h. absurd (ground arith),
                  )
            ]
          ]
    ];
    gone = λ j e. elim (Bool-cases (p.id == j)) [
      | inl hit ↦ inr (ground (arith, n.past j))
      | inr miss ↦
          let other : j ≢ p.id = λ h. absurd (ground (arith, ==_iff p.id j)) in
          elim (Option-cases (find_locked r.irobs j)) [
            | inl en ↦ inl en
            | inr (y, ey) ↦ absurd (ground (arith, find-l1 j, n.others j other))
          ]
    ];
    past = λ j h.
        ground (arith, n.past j, is_past-same r.irobs l1 j (modify-SameRest r.irobs p.id (λ _. q)));
  }

  Erased-Sound : (l2 : Lattice Receiving) → Erased l1 p.id true q l2 → Every Sound l2
  Erased-Sound l2 n =
      erase-Every Sound receiver_virtuals Sound-Closed l1 l2 p.id q n
        (λ j x other e. t.serves.sound j x (ground (arith, find-l1 j, ==_iff p.id j)))

  retire-Serves :
      (r' : ReceiverLattice) × (retire (record r { irobs = l1 }) q ≡ some r') × Serves a r'
  unfolding retire
  retire-Serves = elim (erase_locked_outcome l1 p.id true) [
    | inl (free, e) ↦ absurd (ground (arith, find-l1 p.id, ==_refl p.id))
    | inr (victim, l2, there, e, n) ↦
        let same : victim ≡ q = ground (arith, find-l1 p.id, ==_refl p.id) in
        let n' = subst (λ x. Erased l1 p.id true x l2) same n in
        let there' : find_locked l1 p.id ≡ some q = ground (arith, find-l1 p.id, ==_refl p.id) in
        let tracks = Erased-Tracks l1 l2 p.id q a l1-Tracks there' n' in
        let m =
          Moves-ServesBut a a nobody nobody (only p.id) nobody (has q.dependents) r l2 t.serves
            tracks (Erased-Sound l2 n') (Erased-Moves l2 n')
            (λ j h. absurd (ground (arith, t.no_partial))) in
        let s =
          change-ServesBut a nobody (has q.dependents) (only p.id) nobody (has q.dependents) nobody
            (record r { irobs = l2 })
            (λ j x ex. (λ h. refl, λ h. h, λ h. ground (arith, n'.gone, ==_iff p.id j))) m in
        let (r', er, sr) =
          release_dependents-Serves a (has q.dependents) (record r { irobs = l2 }) q.dependents
            (λ j h. h) s in
        (r', ground (arith, trim.same_id), sr)
  ]

  -- The IROB as the read left it is put back, or retired if nothing of it is left.
  put_back-Serves :
      ((0 < q.ext.num_bytes) → Sound q)
      → (r' : ReceiverLattice) × (put_back (record r { irobs = l1 }) q
          ≡ some (r', q.ext.num_bytes == 0))
        × Serves a r'
  unfolding put_back
  put_back-Serves sound = elim (Bool-cases (q.ext.num_bytes == 0)) [
    | inl over ↦ let (r', e, s) = retire-Serves in (r', ground (arith, q_complete), s)
    | inr left ↦ (
      record r { irobs = l1; partially_read_irob = some q.id },
      ground (arith, q_complete, t.no_partial),
      put-Serves (sound (ground arith)),
    )
  ]

-- What a turn comes to.
pub record Turned (a : ℕ → IdSet) (len flags : ℕ) (r : ReceiverLattice) (p : ReceiverIrob)
    (got : Passed) : Type 0 where
  pub after : ReceiverLattice
  pub used_up : Bool
  pub runs :
      read_turn len flags r p got
      ≡ some (after, used_up, add_bytes got p (take (len - length got.bytes) (contents p)))
  pub serves : Serves a after
  pub some_read : 0 < length (take (len - length got.bytes) (contents p))
  pub within : length (take (len - length got.bytes) (contents p)) ≤ len - length got.bytes
  pub full :
      used_up ≡ false
      → has_flag flags msg_peek ≡ false
      → length (take (len - length got.bytes) (contents p)) ≡ len - length got.bytes
  pub stays :
      has_flag flags msg_peek ≡ true
      → (used_up ≡ false)
        × (after.partially_read_irob ≡ some p.id)
        × (find_locked after.irobs p.id ≡ some p)

take-full : (n : ℕ) (xs : List ℕ) → n ≤ length xs → length (take n xs) ≡ n
take-full zero xs h = refl
take-full (suc n) [] h = absurd (omega arith)
take-full (suc n) (x ∷ xs) h = ground (arith, take-full n xs (omega arith))

read-Sound :
    (p q : ReceiverIrob)
    → Trimmed p q
    → Deliverable p
    → IsReadable q
    → p.ext.released ≡ true
    → 0 < q.ext.num_bytes
    → Sound q
read-Sound p q trim d readable rel left = record {
  untouched = λ h. absurd (ground (arith, trim.same_released));
  deliverable = λ h. record {
    readable = readable;
    complete = trim.still_complete d.complete;
    ready = Trimmed-ready p q trim ∙ d.ready;
    some_left = left;
  };
}

put_back_partial :
    (r : ReceiverLattice) (p : ReceiverIrob) (r' : ReceiverLattice) {b : Bool}
    → is_complete p ≡ some true
    → 0 < p.ext.num_bytes
    → put_back r p ≡ some (r', b)
    → (r'.partially_read_irob ≡ some p.id) × (r.irobs ≡ r'.irobs)
unfolding put_back
put_back_partial r p r' done left e = elim (Bool-cases (is_some r.partially_read_irob)) [
  | inl taken ↦ absurd (ground arith)
  | inr free ↦
      let same : record r { partially_read_irob = some p.id } ≡ r' = ground arith in
      (
        ap (λ (x : ReceiverLattice). x.partially_read_irob) (sym same),
        ap (λ (x : ReceiverLattice). x.irobs) same,
      )
]

-- A turn meets no failed ASSERT, passes bytes, and no more than there is room for.
pub read_turn_lem :
    (a : ℕ → IdSet) (len flags : ℕ) (r : ReceiverLattice) (p : ReceiverIrob) (got : Passed)
    → Taken a r p
    → length got.bytes < len
    → Turned a len flags r p got
unfolding read_turn
read_turn_lem a len flags r p got t lt =
    let d = (t.serves.sound p.id p t.found).deliverable t.released in
    let n = len - length got.bytes in
    let o = read_lem p n d (omega arith) in
    elim (Bool-cases (has_flag flags msg_peek)) [
      | inl peek ↦
          let (r', e, s) =
            put_back-Serves a r p p t (Trimmed-refl p) (λ _. t.serves.sound p.id p t.found) in
          record {
            after = r';
            used_up = p.ext.num_bytes == 0;
            runs = ground (arith, d.complete, d.ready, d.some_left, o.reads, e);
            serves = s;
            some_read = o.some_read;
            within = o.within;
            full = λ h np. absurd (ground arith);
            stays = λ _.
                let l = modify r.irobs p.id (λ _. p) in
                let kept =
                  put_back_partial (record r { irobs = l }) p r' d.complete d.some_left e in
                let there : find_locked l p.id ≡ some p =
                  ground (arith, find-modify r.irobs p.id p.id (λ _. p), t.found) in
                (
                  ground (arith, d.some_left),
                  kept.0,
                  ap (λ m. find_locked m p.id) (sym kept.1) ∙ there,
                );
          }
      | inr keep ↦
          let (r', e, s) =
            put_back-Serves a r p o.after t o.trimmed
              (read-Sound p o.after o.trimmed d o.readable t.released) in
          record {
            after = r';
            used_up = o.after.ext.num_bytes == 0;
            runs = ground (arith, d.complete, d.ready, d.some_left, o.reads, o.removes, e);
            serves = s;
            some_read = o.some_read;
            within = o.within;
            full = λ h np.
                take-full n (contents p)
                  (ground (arith, o.readable.counted, o.rest, length-drop n (contents p)));
            stays = λ peek. absurd (ground arith);
          }
    ]
