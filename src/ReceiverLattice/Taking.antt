-- ===== src/ReceiverLattice/Taking.antt =====
-- What `get_ready_irob` returns.
use libcmm.Prelude.{
  ℕ, ◌≡◌, ◌≢◌, refl, ap, ◌∙◌, inl, inr, Bool, true, false, none, some, [], ◌∷◌, arith, ==_iff,
  ==_refl, All, Bool-cases, Option-cases,
}
use libcmm.IdSet.{IdSet}
use libcmm.Irob.{is_ready}
use libcmm.Lattice.{Lattice, find_locked}
use libcmm.Scheduling.Task.{no_time}
use libcmm.Scheduling.PrioritySet.{PrioritySet}
use libcmm.Scheduling.Order.{At}
use libcmm.ReceiverIrob.{Receiving, ReceiverIrob, is_complete}
use libcmm.ReceiverLattice.{ReceiverLattice, Socket, next, pop_pending, when_empty, get_ready_irob}
use libcmm.ReceiverLattice.Serving.{has_task, nobody, only, ServesBut, Serves}

-- The pops end with an IROB that is pending, or with all tasks gone and none of them pending.
data Popped (l : Lattice Receiving) (ts : PrioritySet) : Type 0 where
  found :
      (id : ℕ) (p : ReceiverIrob) (rest : PrioritySet)
      → pop_pending l ts ≡ (rest, some p)
      → find_locked l id ≡ some p
      → has_task ts id ≡ true
      → ((j : ℕ) → has_task rest j ≡ true → has_task ts j ≡ true)
      → ((j : ℕ) (q : ReceiverIrob)
          → find_locked l j ≡ some q
          → j ≢ id
          → has_task ts j ≡ true
          → has_task rest j ≡ true)
      → All (At no_time) rest
      → Popped l ts
  emptied :
      pop_pending l ts ≡ ([], none)
      → ((j : ℕ) → has_task ts j ≡ true → find_locked l j ≡ none)
      → Popped l ts

pop_pending_lem : (l : Lattice Receiving) (ts : PrioritySet) → All (At no_time) ts → Popped l ts
unfolding pop_pending
pop_pending_lem l [] h = emptied refl (λ j x. absurd (ground arith))
pop_pending_lem l (t ∷ ts) h = elim (Option-cases (find_locked l t.id)) [
  | inr (p, e) ↦
      found t.id p ts (ground arith) e (ground (arith, ==_refl t.id)) (λ j x. ground arith)
        (λ j q eq other x. ground (arith, ==_iff t.id j)) h.1
  | inl free ↦ elim (pop_pending_lem l ts h.1) [
    | found id p rest e here has sub super level ↦
        found id p rest (ground arith) here (ground arith) (λ j x. ground (arith, sub j x))
          (λ j q eq other x. super j q eq other (ground (arith, ==_iff t.id j))) level
    | emptied e all ↦ emptied (ground arith) (λ j x. ground (arith, ==_iff t.id j, all j))
  ]
]

-- An IROB taken out of the queue to be read.
pub record Taken (a : ℕ → IdSet) (r : ReceiverLattice) (p : ReceiverIrob) : Type 0 where
  pub serves : ServesBut a nobody nobody (only p.id) r
  pub found : find_locked r.irobs p.id ≡ some p
  pub released : p.ext.released ≡ true
  pub no_partial : r.partially_read_irob ≡ none

-- Nothing can be read.
abbrev pub Dry : ReceiverLattice → Type 0
Dry r =
    (j : ℕ) (p : ReceiverIrob)
    → find_locked r.irobs j ≡ some p
    → is_complete p ≡ some true
    → is_ready p ≡ false

pub data Got (a : ℕ → IdSet) (sk : Socket) (block : Bool) (r : ReceiverLattice) : Type 0 where
  got :
      (r' : ReceiverLattice) (p : ReceiverIrob)
      → get_ready_irob sk block r ≡ some (r', next p)
      → r'.irobs ≡ r.irobs
      → Taken a r' p
      → Got a sk block r
  nothing :
      (r' : ReceiverLattice)
      → get_ready_irob sk block r ≡ some (r', when_empty sk block)
      → Serves a r'
      → Dry r
      → Dry r'
      → Got a sk block r

module _ (a : ℕ → IdSet) (r : ReceiverLattice) (s : Serves a r) where
  -- The partially read IROB is taken up again.
  Taken-of_partial :
      (id : ℕ) (p : ReceiverIrob)
      → r.partially_read_irob ≡ some id
      → find_locked r.irobs id ≡ some p
      → p.ext.released ≡ true
      → Taken a (record r { partially_read_irob = none }) p
  Taken-of_partial id p part e rel =
      let key : p.id ≡ id = s.tracks.valid.keyed id p e in
      record {
        serves = record {
          tracks = s.tracks;
          sound = s.sound;
          checked = s.checked;
          prompt = s.prompt;
          queued = λ j q eq out rel'. elim (s.queued j q eq refl rel') [
            | inl same ↦ absurd (ground (arith, ==_iff p.id j))
            | inr has ↦ inr has
          ];
          tasked = s.tasked;
          known = s.known;
          partial = λ j h. absurd (ground arith);
          level = s.level;
        };
        found = ap (λ i. find_locked r.irobs i) key ∙ e;
        released = rel;
        no_partial = refl;
      }

  -- An IROB is popped.
  Taken-of_popped :
      (id : ℕ) (p : ReceiverIrob) (rest : PrioritySet)
      → r.partially_read_irob ≡ none
      → find_locked r.irobs id ≡ some p
      → has_task r.ready_irobs id ≡ true
      → ((j : ℕ) → has_task rest j ≡ true → has_task r.ready_irobs j ≡ true)
      → ((j : ℕ) (q : ReceiverIrob)
          → find_locked r.irobs j ≡ some q
          → j ≢ id
          → has_task r.ready_irobs j ≡ true
          → has_task rest j ≡ true)
      → All (At no_time) rest
      → Taken a (record r { ready_irobs = rest }) p
  Taken-of_popped id p rest no_part e has sub super level =
      let key : p.id ≡ id = s.tracks.valid.keyed id p e in
      record {
        serves = record {
          tracks = s.tracks;
          sound = s.sound;
          checked = s.checked;
          prompt = s.prompt;
          queued = λ j q eq out rel'. elim (s.queued j q eq refl rel') [
            | inl same ↦ absurd (ground arith)
            | inr has' ↦ inr (super j q eq (λ h. absurd (ground (arith, ==_iff p.id j))) has')
          ];
          tasked = λ j q h. s.tasked j q (sub j h);
          known = λ j h. s.known j (sub j h);
          partial = s.partial;
          level = level;
        };
        found = ap (λ i. find_locked r.irobs i) key ∙ e;
        released = s.tasked id p has e;
        no_partial = no_part;
      }

  -- With all tasks gone and none of them pending, nothing can be read.
  emptied-Dry :
      r.partially_read_irob ≡ none
      → ((j : ℕ) → has_task r.ready_irobs j ≡ true → find_locked r.irobs j ≡ none)
      → Dry r
  emptied-Dry no_part all j p e done = elim (Bool-cases (is_ready p)) [
    | inr h ↦ h
    | inl ready ↦ elim (s.queued j p e refl (s.prompt j p e refl done ready)) [
      | inl same ↦ absurd (ground arith)
      | inr has ↦ absurd (ground (arith, all j has))
    ]
  ]

  emptied-Serves :
      r.partially_read_irob ≡ none
      → ((j : ℕ) → has_task r.ready_irobs j ≡ true → find_locked r.irobs j ≡ none)
      → Serves a (record r { ready_irobs = [] })
  emptied-Serves no_part all = record {
    tracks = s.tracks;
    sound = s.sound;
    checked = s.checked;
    prompt = s.prompt;
    queued = λ j q e out rel. elim (s.queued j q e out rel) [
      | inl same ↦ inl same
      | inr has ↦ absurd (ground (arith, all j has))
    ];
    tasked = λ j q h. absurd (ground arith);
    known = λ j h. absurd (ground arith);
    partial = s.partial;
    level = tt;
  }

  -- No ASSERT fails: an IROB that can be read comes out, or there is none.
  pub get_ready_irob_lem : (sk : Socket) (block : Bool) → Got a sk block r
  unfolding get_ready_irob
  get_ready_irob_lem sk block = elim (Option-cases r.partially_read_irob) [
    | inr (id, part) ↦
        let (p, e, rel) = s.partial id part in
        let done = ((s.sound id p e).deliverable rel).complete in
        got (record r { partially_read_irob = none }) p (ground arith) refl
          (Taken-of_partial id p part e rel)
    | inl no_part ↦ elim (pop_pending_lem r.irobs r.ready_irobs s.level) [
      | found id p rest e here has sub super level ↦
          got (record r { ready_irobs = rest }) p (ground arith) refl
            (Taken-of_popped id p rest no_part here has sub super level)
      | emptied e all ↦
          nothing (record r { ready_irobs = [] }) (ground arith) (emptied-Serves no_part all)
            (emptied-Dry no_part all) (emptied-Dry no_part all)
    ]
  ]
