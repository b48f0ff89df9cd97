-- ===== src/ReceiverLattice/Releasing.antt =====
-- Releasing IROBs: each that can be read gets its task.
use libcmm.Prelude.{
  ℕ, ◌≡◌, refl, ◌∙◌, subst, inl, inr, Bool, true, false, not, ◌||◌, ◌&&◌, some, [], ◌∷◌, arith,
  ◌==◌, ==_iff, if◌then◌else◌, All, Bool-cases, Option-cases,
}
use libcmm.IdSet.{IdSet, has, has-cons, has-nil}
use libcmm.Irob.{is_ready}
use libcmm.Lattice.{find_locked, modify}
use libcmm.Lattice.View.{find-modify}
use libcmm.Lattice.Place.{modify-SameRest}
use libcmm.Lattice.Growth.{is_past-same}
use libcmm.Lattice.Every.{modify-Every}
use libcmm.Lattice.Tracking.{SameNode, modify-Tracks}
use libcmm.StdSet.{set_insert, insert-Good}
use libcmm.Scheduling.Task.{SchedulingData, no_time, chunk_task, less}
use libcmm.Scheduling.PrioritySet.{PrioritySet, insert}
use libcmm.Scheduling.Order.{At, less-At, less-StrictWeakOrder}
use libcmm.ReceiverIrob.{ReceiverIrob, is_complete}
use libcmm.ReceiverIrob
use libcmm.ReceiverLattice.{ReceiverLattice, release_if_ready, release_dependents}
use libcmm.ReceiverLattice.Sound.{Sound}
use libcmm.ReceiverLattice.Reads.{release-Deliverable}
use libcmm.ReceiverLattice.Serving.{has_task, nobody, ServesBut, Serves}

has_task-insert :
    (x : SchedulingData) (s : PrioritySet) (j : ℕ)
    → At no_time x
    → All (At no_time) s
    → has_task (set_insert less x s) j ≡ ((x.id == j) || has_task s j)
unfolding set_insert
has_task-insert x [] j hx h = refl
has_task-insert x (y ∷ ys) j hx h =
    ground
      (arith, has_task-insert x ys j hx h.1, less-At no_time x y hx h.0, less-At no_time y x h.0 hx)

abbrev pub except : ℕ → (ℕ → Bool) → ℕ → Bool
except id f j = not (id == j) && f j

release-SameNode : (p : ReceiverIrob) → SameNode p (ReceiverIrob.release p)
release-SameNode p = record {
  same_id = refl;
  same_deps = refl;
  same_dependents = refl;
  same_placeholder = refl;
}

released_complete : (p : ReceiverIrob) → is_complete (ReceiverIrob.release p) ≡ is_complete p
unfolding is_complete
released_complete p = refl

module _ (a : ℕ → IdSet) (u w o : ℕ → Bool) (r : ReceiverLattice) (s : ServesBut a u w o r) (id : ℕ)
    (p : ReceiverIrob) (found : find_locked r.irobs id ≡ some p) where
  -- The IROB needs no release: it cannot be read, or has its task.
  pub kept-ServesBut :
      (b : Bool)
      → is_complete p ≡ some b
      → (b && is_ready p && not p.ext.released) ≡ false
      → ServesBut a (except id u) (except id w) o r
  kept-ServesBut b done stays = record {
    tracks = s.tracks;
    sound = s.sound;
    checked = λ j q e out. elim (Bool-cases (id == j)) [
      | inl hit ↦ ground (arith, ==_iff id j)
      | inr miss ↦ s.checked j q e (ground arith)
    ];
    prompt = λ j q e out done' ready. elim (Bool-cases (id == j)) [
      | inl hit ↦ ground (arith, ==_iff id j)
      | inr miss ↦ s.prompt j q e (ground arith) done' ready
    ];
    queued = s.queued;
    tasked = s.tasked;
    known = s.known;
    partial = s.partial;
    level = s.level;
  }

  abbrev after_release : ReceiverLattice
  after_release = record r {
    irobs = modify r.irobs id (λ q. ReceiverIrob.release q);
    ready_irobs = insert (chunk_task id false p.send_labels) r.ready_irobs;
  }

  find-after :
      (j : ℕ)
      → find_locked after_release.irobs j
        ≡ (if id == j then some (ReceiverIrob.release p) else find_locked r.irobs j)
  find-after j = elim (Bool-cases (id == j)) [
    | inl hit ↦ ground (arith, find-modify r.irobs id j (λ q. ReceiverIrob.release q), ==_iff id j)
    | inr miss ↦ ground (arith, find-modify r.irobs id j (λ q. ReceiverIrob.release q))
  ]

  has_task-after :
      (j : ℕ) → has_task after_release.ready_irobs j ≡ ((id == j) || has_task r.ready_irobs j)
  unfolding insert
  has_task-after j =
      has_task-insert (chunk_task id false p.send_labels) r.ready_irobs j refl s.level

  release-ServesBut :
      is_complete p ≡ some true
      → is_ready p ≡ true
      → p.ext.released ≡ false
      → ServesBut a (except id u) (except id w) o after_release
  unfolding insert
  release-ServesBut done ready held =
      let f = λ (q : ReceiverIrob). ReceiverIrob.release q in
      let rp = ReceiverIrob.release p in
      let d = release-Deliverable p ((s.sound id p found).untouched held) done ready in
      let rp-Sound : Sound rp = record {
        untouched = λ h. absurd (ground arith);
        deliverable = λ h. d;
      } in
      record {
        tracks = modify-Tracks r.irobs id f (λ q e. release-SameNode q) a s.tracks;
        sound =
            modify-Every Sound r.irobs id f
              (λ q e.
                let same : p ≡ q = ground arith in
                subst (λ (x : ReceiverIrob). Sound (ReceiverIrob.release x)) same rp-Sound)
              s.sound;
        checked = λ j q e out. elim (Bool-cases (id == j)) [
          | inl hit ↦ ground (arith, find-after j, d.complete)
          | inr miss ↦ s.checked j q (ground (arith, find-after j)) (ground arith)
        ];
        prompt = λ j q e out done' ready'. elim (Bool-cases (id == j)) [
          | inl hit ↦ ground (arith, find-after j)
          | inr miss ↦ s.prompt j q (ground (arith, find-after j)) (ground arith) done' ready'
        ];
        queued = λ j q e out rel. elim (Bool-cases (id == j)) [
          | inl hit ↦ inr (ground (arith, has_task-after j))
          | inr miss ↦ elim (s.queued j q (ground (arith, find-after j)) out rel) [
            | inl part ↦ inl part
            | inr has ↦ inr (ground (arith, has_task-after j))
          ]
        ];
        tasked = λ j q has e. elim (Bool-cases (id == j)) [
          | inl hit ↦ ground (arith, find-after j)
          | inr miss ↦
              s.tasked j q (ground (arith, has_task-after j)) (ground (arith, find-after j))
        ];
        known = λ j has e. elim (Bool-cases (id == j)) [
          | inl hit ↦ absurd (ground (arith, find-after j))
          | inr miss ↦
              is_past-same r.irobs after_release.irobs j (modify-SameRest r.irobs id f)
              ∙ s.known j (ground (arith, has_task-after j)) (ground (arith, find-after j))
        ];
        partial = λ j e. elim (Bool-cases (id == j)) [
          | inl hit ↦ (rp, ground (arith, find-after j), refl)
          | inr miss ↦ let (q, eq, rel) = s.partial j e in (q, ground (arith, find-after j), rel)
        ];
        level =
            insert-Good less (less-StrictWeakOrder no_time) (chunk_task id false p.send_labels)
              r.ready_irobs refl s.level;
      }

  -- With its counts in order, no ASSERT fails, and the IROB is no exception any more.
  pub release_if_ready-ServesBut :
      (b : Bool)
      → is_complete p ≡ some b
      → (r' : ReceiverLattice) × (release_if_ready r id ≡ some r')
        × ServesBut a (except id u) (except id w) o r'
  unfolding release_if_ready
  release_if_ready-ServesBut b done = elim (Bool-cases (b && is_ready p && not p.ext.released)) [
    | inr stays ↦ (r, ground arith, kept-ServesBut b done stays)
    | inl goes ↦ (
      after_release,
      ground arith,
      release-ServesBut (ground arith) (ground arith) (ground arith),
    )
  ]

-- Fewer exceptions, as far as pending IROBs go.
pub change-ServesBut :
    (a : ℕ → IdSet) (u w o u' w' o' : ℕ → Bool) (r : ReceiverLattice)
    → ((j : ℕ) (p : ReceiverIrob)
        → find_locked r.irobs j ≡ some p
        → (u' j ≡ false → u j ≡ false)
          × (w' j ≡ false → w j ≡ false)
          × (o' j ≡ false → o j ≡ false))
    → ServesBut a u w o r
    → ServesBut a u' w' o' r
change-ServesBut a u w o u' w' o' r h s = record {
  tracks = s.tracks;
  sound = s.sound;
  checked = λ j p e out. s.checked j p e ((h j p e).0 out);
  prompt = λ j p e out. s.prompt j p e ((h j p e).1 out);
  queued = λ j p e out. s.queued j p e ((h j p e).2 out);
  tasked = s.tasked;
  known = s.known;
  partial = s.partial;
  level = s.level;
}

-- The loop over the dependents meets no failed ASSERT and catches up with all of them.
pub release_dependents-Serves :
    (a : ℕ → IdSet) (w : ℕ → Bool) (r : ReceiverLattice) (ds : IdSet)
    → ((j : ℕ) → w j ≡ true → has ds j ≡ true)
    → ServesBut a nobody w nobody r
    → (r' : ReceiverLattice) × (release_dependents r ds ≡ some r') × Serves a r'
unfolding release_dependents
release_dependents-Serves a w r [] h s = (
  r,
  refl,
  change-ServesBut a nobody w nobody nobody nobody nobody r
      (λ j p e. (λ x. x, (λ x. ground (arith, h j, has-nil j)), λ x. x)) s,
)
release_dependents-Serves a w r (d ∷ ds) h s = elim (Option-cases (find_locked r.irobs d)) [
  | inl free ↦
      let s' =
        change-ServesBut a nobody w nobody nobody (except d w) nobody r
          (λ j p e. (λ x. x, (λ x. ground (arith, ==_iff d j)), λ x. x)) s in
      let (r', e', sr) =
        release_dependents-Serves a (except d w) r ds (λ j x. ground (arith, h j, has-cons d ds j))
          s' in
      (r', ground arith, sr)
  | inr (p, found) ↦ elim (Option-cases (is_complete p)) [
    | inl fails ↦ absurd (ground (arith, s.checked d p found refl))
    | inr (b, done) ↦
        let (r1, e1, s1) = release_if_ready-ServesBut a nobody w nobody r s d p found b done in
        let s2 =
          change-ServesBut a (except d nobody) (except d w) nobody nobody (except d w) nobody r1
            (λ j q e. ((λ x. ground arith), (λ x. x), λ x. x)) s1 in
        let (r', e', sr) =
          release_dependents-Serves a (except d w) r1 ds
            (λ j x. ground (arith, h j, has-cons d ds j)) s2 in
        (r', ground arith, sr)
  ]
]
