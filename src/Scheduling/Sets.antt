-- ===== src/Scheduling/Sets.antt =====
-- What the sets of tasks do, for tasks that share a completion time.
use libcmm.Prelude.{
  ℕ, ◌<◌, ◌≡◌, refl, subst, ◌⊎◌, inl, inr, true, false, Option, none, some, List, [], ◌∷◌, ◌++◌,
  arith, ap, All, Bool-cases, Option-cases,
}
use libcmm.StdSet.{IsSorted, set_find, set_erase, insert-Good, insert-IsSorted}
use libcmm.Scheduling.Task.{Timeval, no_time, SchedulingData, chunk_task, is_ondemand, less}
use libcmm.Scheduling.PrioritySet.{PrioritySet, insert, pop, remove, transfer}
use libcmm.Scheduling.Order.{At, less-At, less-StrictWeakOrder}

-- In order, with one completion time throughout.
pub record InOrder (t : Timeval) (s : PrioritySet) : Type 0 where
  pub level : All (At t) s
  pub sorted : IsSorted less s

-- What a call leaves in a set: `insert` the new one with a task added, `pop` one task fewer.
pub data Call : Type 0 where
  inserts : SchedulingData → Call
  pops : Call

after_pop : Option (SchedulingData × PrioritySet) → PrioritySet
after_pop none = []
after_pop (some (d, rest)) = rest

unfoldable pub step : PrioritySet → Call → PrioritySet
unfolding after_pop
step s (inserts d) = insert d s
step s pops = after_pop (pop s)

unfoldable pub run : PrioritySet → List Call → PrioritySet
run s [] = s
run s (c ∷ cs) = run (step s c) cs

abbrev pub CallAt : Timeval → Call → Type 0
CallAt t (inserts d) = At t d
CallAt t pops = Unit {0}

module _ (t : Timeval) where
  step-InOrder : (s : PrioritySet) (c : Call) → CallAt t c → InOrder t s → InOrder t (step s c)
  unfolding step insert pop after_pop
  step-InOrder s (inserts d) h o = record {
    level = insert-Good less (less-StrictWeakOrder t) d s h o.level;
    sorted = insert-IsSorted less (less-StrictWeakOrder t) d s h o.level o.sorted;
  }
  step-InOrder [] pops h o = o
  step-InOrder (d ∷ ds) pops h o = record { level = o.level.1; sorted = o.sorted.1 }

  run-InOrder :
      (s : PrioritySet) (cs : List Call) → All (CallAt t) cs → InOrder t s → InOrder t (run s cs)
  unfolding run
  run-InOrder s [] h o = o
  run-InOrder s (c ∷ cs) h o = run-InOrder (step s c) cs h.1 (step-InOrder s c h.0 o)

  -- `e` may wait for `d`.
  abbrev pub Yields : SchedulingData → SchedulingData → Type 0
  Yields d e =
      (is_ondemand e ≡ true → is_ondemand d ≡ true) × (is_ondemand d ≡ is_ondemand e → d.id < e.id)

  Yields-all :
      (d : SchedulingData) (es : PrioritySet)
      → At t d
      → All (At t) es
      → All (λ e. less d e ≡ true) es
      → All (Yields d) es
  Yields-all d [] hd h o = tt
  Yields-all d (e ∷ es) hd h o = (
    (ground (arith, less-At t d e hd h.0), ground (arith, less-At t d e hd h.0)),
    Yields-all d es hd h.1 o.1,
  )

  -- After any sequence of insertions and pops of tasks with one completion time, `pop` takes a
  -- foreground task while there is one, and among tasks of one kind the one with the least id.
  pub pop_order :
      (cs : List Call)
      → All (CallAt t) cs
      → (d : SchedulingData) (rest : PrioritySet) → pop (run [] cs) ≡ some (d, rest)
      → All (Yields d) rest
  unfolding pop
  pop_order cs h d rest e =
      first (run [] cs) (run-InOrder [] cs h (record { level = tt; sorted = tt })) e
    where
      first : (s : PrioritySet) → InOrder t s → pop s ≡ some (d, rest) → All (Yields d) rest
      first [] o e' = absurd (ground arith)
      first (x ∷ xs) o e' =
          let x_d : x ≡ d = ground arith in
          let xs_rest : xs ≡ rest = ground arith in
          subst (λ r. All (Yields d) r) xs_rest
            (subst (λ y. All (Yields y) xs) x_d (Yields-all x xs o.level.0 o.level.1 o.sorted.0))

-- A task of another id, or a foreground task.
abbrev pub Misses : ℕ → SchedulingData → Type 0
Misses id d = d.id ≡ id → is_ondemand d ≡ true

module _ (id : ℕ) where
  abbrev dummy : SchedulingData
  dummy = chunk_task id false 0

  find-same :
      (s : PrioritySet) (d : SchedulingData)
      → All (At no_time) s
      → set_find less dummy s ≡ some d
      → At no_time d × (less d dummy ≡ false) × (less dummy d ≡ false)
  unfolding set_find
  find-same [] d h e = absurd (ground arith)
  find-same (x ∷ xs) d h e = elim (Bool-cases (less x dummy)) [
    | inl below ↦ find-same xs d h.1 (ground arith)
    | inr other ↦
        let same_x : x ≡ d = ground arith in
        subst (λ y. At no_time y × (less y dummy ≡ false) × (less dummy y ≡ false)) same_x
          (h.0, other, ground arith)
  ]

  above-Misses :
      (x : SchedulingData) (ys : PrioritySet)
      → At no_time x
      → All (At no_time) ys
      → less dummy x ≡ true
      → All (λ y. less x y ≡ true) ys
      → All (Misses id) ys
  above-Misses x [] hx h above o = tt
  above-Misses x (y ∷ ys) hx h above o = (
    λ same_id. ground (arith, less-At no_time dummy x refl hx, less-At no_time x y hx h.0),
    above-Misses x ys hx h.1 above o.1,
  )

  find-none :
      (s : PrioritySet) → InOrder no_time s → set_find less dummy s ≡ none → All (Misses id) s
  unfolding set_find
  find-none [] o e = tt
  find-none (x ∷ xs) o e = elim (Bool-cases (less x dummy)) [
    | inl below ↦ (
      λ same_id. ground (arith, less-At no_time x dummy o.level.0 refl),
      find-none xs (record { level = o.level.1; sorted = o.sorted.1 }) (ground arith),
    )
    | inr other ↦
        let above : less dummy x ≡ true = ground arith in
        (
          λ same_id. ground (arith, less-At no_time dummy x refl o.level.0),
          above-Misses x xs o.level.0 o.level.1 above o.sorted.0,
        )
  ]

  -- What a search finds stands somewhere in the set, and the erasure takes that element only.
  find-erase :
      (s : PrioritySet) (d : SchedulingData)
      → set_find less dummy s ≡ some d
      → (before after : PrioritySet) × (s ≡ before ++ d ∷ after)
        × (set_erase less dummy s ≡ before ++ after)
  unfolding set_find set_erase
  find-erase [] d e = absurd (ground arith)
  find-erase (x ∷ xs) d e = elim (Bool-cases (less x dummy)) [
    | inl below ↦
        let (before, after, whole, left) = find-erase xs d (ground arith) in
        (x ∷ before, after, ap (λ ys. x ∷ ys) whole, rw below (ap (λ ys. x ∷ ys) left))
    | inr other ↦
        let same_x : x ≡ d = ground arith in
        let equal : less dummy x ≡ false = ground arith in
        ([], xs, ap (λ y. y ∷ xs) same_x, rw (other, equal) refl)
  ]

  -- In a set without completion times `remove` takes a background task of the id out of the set, and
  -- leaves all other tasks in their order; it takes none only if every task of that id is a
  -- foreground task.
  pub remove_outcome :
      (s : PrioritySet)
      → InOrder no_time s
      → ((remove id s ≡ none) × All (Misses id) s)
        ⊎ ((d : SchedulingData) × (before after : PrioritySet) × (s ≡ before ++ d ∷ after)
            × (remove id s ≡ some (d, before ++ after))
            × (d.id ≡ id)
            × (is_ondemand d ≡ false))
  unfolding remove
  remove_outcome s o = elim (Option-cases (set_find less dummy s)) [
    | inl e ↦ inl (rw (e, remove), find-none s o e)
    | inr (d, e) ↦
        let (hd, below, above) = find-same s d o.level e in
        let (before, after, whole, left) = find-erase s d e in
        inr (
          d,
          before,
          after,
          whole,
          rw (e, remove) (ap (λ r. some (d, r)) left),
          ground (arith, less-At no_time d dummy hd refl, less-At no_time dummy d refl hd),
          ground (arith, less-At no_time d dummy hd refl, less-At no_time dummy d refl hd),
        )
  ]

  all_foreground :
      (s : PrioritySet)
      → All (Misses id) s
      → (d : SchedulingData) → set_find less dummy s ≡ some d
      → Misses id d
  unfolding set_find
  all_foreground [] h d e = absurd (ground arith)
  all_foreground (x ∷ xs) h d e = elim (Bool-cases (less x dummy)) [
    | inl below ↦ all_foreground xs h.1 d (ground arith)
    | inr other ↦ let same_x : x ≡ d = ground arith in subst (Misses id) same_x h.0
  ]

  -- A foreground task cannot be transferred: if no other task has the id, `transfer` changes nothing,
  -- whatever the labels and the other set.
  pub transfer_foreground :
      (labels : ℕ) (this other : PrioritySet)
      → InOrder no_time this
      → All (Misses id) this
      → transfer id labels this other ≡ (this, other)
  unfolding transfer
  transfer_foreground labels this other o h = elim (Option-cases (set_find less dummy this)) [
    | inl e ↦ rw (e, transfer)
    | inr (d, e) ↦
        let (hd, below, above) = find-same this d o.level e in
        absurd (
          ground (
            arith,
            all_foreground this h d e,
            less-At no_time d dummy hd refl,
            less-At no_time dummy d refl hd,
          ))
  ]
