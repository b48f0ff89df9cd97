-- ===== src/Thunks/Laws.antt =====
-- What becomes of registered thunks.
use libcmm.Prelude.{
  ℕ, zero, suc, ◌+◌, ◌<◌, ◌≡◌, refl, sym, subst, ap, ◌∙◌, inl, inr, Bool, true, false, not, ◌&&◌,
  none, some, List, [], ◌∷◌, arith, ◌==◌, length, take, drop, Bool-cases, Option-cases, All,
}
use libcmm.Thunks.{
  Thunk, Key, key_less, ThunkQueue, Thunks, no_thunks, find, update, enqueue_handler, victims,
  cancel_marks, drop_victims, cancel_thunks, cancel_thunk, run_copy, thunk_thread, fire_thunks,
  cancel_all_thunks,
}

-- Of two keys of which one has the smaller socket and the other the smaller label, each is less than
-- the other, which no strict weak order allows.
pub key_less_both_ways :
    (a b : Key)
    → a.sock < b.sock
    → b.send_label < a.send_label
    → (key_less a b ≡ true) × (key_less b a ≡ true)
key_less_both_ways a b h k = (ground arith, ground arith)

-- What the application calls, and the firing of thunks.
pub data Call : Type 0 where
  enqueues : (sock send_labels fn arg : ℕ) → Call
  cancels : (sock send_labels fn arg : ℕ) → Call
  cancels_all : ℕ → Call
  fires : (ThunkQueue → ℕ → Bool) → Call

unfoldable pub step : Thunks → Call → Thunks
step t (enqueues sock labels fn arg) = enqueue_handler sock labels fn arg t
step t (cancels sock labels fn arg) = (cancel_thunk sock labels fn arg t).0
step t (cancels_all sock) = record t { queues = cancel_all_thunks sock t.queues }
step t (fires available) = record t { queues = (fire_thunks available t.queues).0 }

unfoldable pub run : Thunks → List Call → Thunks
unfolding step
run t [] = t
run t (c ∷ cs) = run (step t c) cs

-- No queue has a map of its thunks.
abbrev Unmapped : Key × ThunkQueue → Type 0
Unmapped (k, q) = q.thunk_map ≡ []

find-Unmapped :
    (qs : List (Key × ThunkQueue)) (k : Key) (q : ThunkQueue)
    → All Unmapped qs
    → find qs k ≡ some q
    → q.thunk_map ≡ []
unfolding find
find-Unmapped [] k q h e = absurd (ground arith)
find-Unmapped ((k', q') ∷ qs) k q h e = elim (Bool-cases (key_less k' k)) [
  | inl below ↦ find-Unmapped qs k q h.1 (ground arith)
  | inr other ↦ ground (arith, h.0)
]

update-Unmapped :
    (qs : List (Key × ThunkQueue)) (k : Key) (q : ThunkQueue)
    → All Unmapped qs
    → q.thunk_map ≡ []
    → All Unmapped (update qs k q)
unfolding update
update-Unmapped [] k q h e = (e, tt)
update-Unmapped ((k', q') ∷ qs) k q h e = elim (Bool-cases (key_less k' k)) [
  | inl below ↦ rw below (h.0, update-Unmapped qs k q h.1 e)
  | inr other ↦ elim (Bool-cases (key_less k k')) [
    | inl above ↦ rw (other, above) (e, h)
    | inr equal ↦ rw (other, equal) (e, h.1)
  ]
]

-- To put back what was found changes nothing.
update-find :
    (qs : List (Key × ThunkQueue)) (k : Key) (q : ThunkQueue)
    → find qs k ≡ some q
    → update qs k q ≡ qs
unfolding find update
update-find [] k q e = absurd (ground arith)
update-find ((k', q') ∷ qs) k q e = elim (Bool-cases (key_less k' k)) [
  | inl below ↦ ground (arith, update-find qs k q)
  | inr other ↦ ground arith
]

cancel_marks-nil : (ths : List Thunk) → cancel_marks [] ths ≡ ths
unfolding cancel_marks
cancel_marks-nil [] = refl
cancel_marks-nil (th ∷ ths) = ap (λ xs. th ∷ xs) (cancel_marks-nil ths)

cancel_thunks_lem :
    (fn arg : ℕ) (q : ThunkQueue) → q.thunk_map ≡ [] → cancel_thunks fn arg q ≡ (q, 0)
unfolding cancel_thunks victims drop_victims
cancel_thunks_lem fn arg q h = ground (arith, cancel_marks-nil q.thunk_queue)

cancel_thunk_lem :
    (sock labels fn arg : ℕ) (t : Thunks)
    → All Unmapped t.queues
    → cancel_thunk sock labels fn arg t ≡ (t, 0)
unfolding cancel_thunk
cancel_thunk_lem sock labels fn arg t h =
    let k : Key = record { sock = sock; send_label = labels } in
    elim (Option-cases (find t.queues k)) [
      | inl free ↦ ground arith
      | inr (q, e) ↦ ground (
        arith,
        cancel_thunks_lem fn arg q (find-Unmapped t.queues k q h e),
        update-find t.queues k q e,
      )
    ]

enqueue-Unmapped :
    (sock labels fn arg : ℕ) (t : Thunks)
    → All Unmapped t.queues
    → All Unmapped (enqueue_handler sock labels fn arg t).queues
unfolding enqueue_handler
enqueue-Unmapped sock labels fn arg t h =
    let k : Key = record { sock = sock; send_label = labels } in
    elim (Option-cases (find t.queues k)) [
      | inl free ↦ rw free (update-Unmapped t.queues k _ h refl)
      | inr (q, e) ↦ rw e (update-Unmapped t.queues k _ h (find-Unmapped t.queues k q h e))
    ]

cancel_all-Unmapped :
    (sock : ℕ) (qs : List (Key × ThunkQueue))
    → All Unmapped qs
    → All Unmapped (cancel_all_thunks sock qs)
unfolding cancel_all_thunks
cancel_all-Unmapped sock [] h = tt
cancel_all-Unmapped sock ((k, q) ∷ qs) h = elim (Bool-cases (q.sock == sock)) [
  | inl hit ↦ rw hit (cancel_all-Unmapped sock qs h.1)
  | inr miss ↦ rw miss (h.0, cancel_all-Unmapped sock qs h.1)
]

fire-Unmapped :
    (available : ThunkQueue → ℕ → Bool) (qs : List (Key × ThunkQueue))
    → All Unmapped qs
    → All Unmapped (fire_thunks available qs).0
unfolding fire_thunks
fire-Unmapped available [] h = tt
fire-Unmapped available ((k, q) ∷ qs) h =
    elim (Bool-cases (available q 0 && not (length q.thunk_queue == 0))) [
      | inl hit ↦ rw hit (h.0, fire-Unmapped available qs h.1)
      | inr miss ↦ rw miss (h.0, fire-Unmapped available qs h.1)
    ]

step-Unmapped : (t : Thunks) (c : Call) → All Unmapped t.queues → All Unmapped (step t c).queues
unfolding step
step-Unmapped t (enqueues sock labels fn arg) h = enqueue-Unmapped sock labels fn arg t h
step-Unmapped t (cancels sock labels fn arg) h =
    subst (λ (r : Thunks × ℕ). All Unmapped (r.0).queues)
      (sym (cancel_thunk_lem sock labels fn arg t h)) h
step-Unmapped t (cancels_all sock) h = cancel_all-Unmapped sock t.queues h
step-Unmapped t (fires available) h = fire-Unmapped available t.queues h

run-Unmapped :
    (t : Thunks) (cs : List Call) → All Unmapped t.queues → All Unmapped (run t cs).queues
unfolding run
run-Unmapped t [] h = h
run-Unmapped t (c ∷ cs) h = run-Unmapped (step t c) cs (step-Unmapped t c h)

-- After any history of registrations, cancellations and firings, `cancel_thunk` cancels nothing: it
-- returns 0 and leaves every queue as it was, also if the handler is waiting.
pub cancel_thunk_does_nothing :
    (cs : List Call) (sock labels fn arg : ℕ)
    → cancel_thunk sock labels fn arg (run no_thunks cs) ≡ (run no_thunks cs, 0)
cancel_thunk_does_nothing cs sock labels fn arg =
    cancel_thunk_lem sock labels fn arg (run no_thunks cs) (run-Unmapped no_thunks cs tt)

-- The handlers of thunks that are not cancelled, with their arguments.
abbrev pub calls_of : List Thunk → List (ℕ × ℕ)
calls_of [] = []
calls_of (th ∷ ths) = elim (th.fn) [ none ↦ calls_of ths | some f ↦ (f, th.arg) ∷ calls_of ths ]

run_copy_prefix :
    (available : ℕ → Bool) (n m : ℕ) (ths : List Thunk)
    → ((i : ℕ) → i < m → available (n + i) ≡ true)
    → available (n + m) ≡ false
    → (run_copy available n ths).0 ≡ calls_of (take (suc m) ths)
      × ((run_copy available n ths).1 ≡ drop (suc m) ths)
unfolding run_copy
run_copy_prefix available n m [] h e = (refl, refl)
run_copy_prefix available n zero (th ∷ ths) h e =
    let here : available n ≡ false = ap available (omega arith) ∙ e in
    elim (Option-cases th.fn) [
      | inl gone ↦ (ground arith, ground arith)
      | inr (f, ef) ↦ (ground arith, ground arith)
    ]
run_copy_prefix available n (suc m) (th ∷ ths) h e =
    let here : available n ≡ true = ap available (omega arith) ∙ h 0 (omega arith) in
    let ih =
      run_copy_prefix available (n + 1) m ths
        (λ i lt. ap available (omega arith) ∙ h (suc i) (omega arith))
        (ap available (omega arith) ∙ e) in
    elim (Option-cases th.fn) [
      | inl gone ↦ (ground (arith, ih), ground (arith, ih))
      | inr (f, ef) ↦ (ground (arith, ih), ground (arith, ih))
    ]

pub run_copy_whole : (n : ℕ) (ths : List Thunk) → run_copy (λ _. true) n ths ≡ (calls_of ths, [])
unfolding run_copy
run_copy_whole n [] = refl
run_copy_whole n (th ∷ ths) = elim (Option-cases th.fn) [
  | inl gone ↦ ground (arith, run_copy_whole (n + 1) ths)
  | inr (f, ef) ↦ ground (arith, run_copy_whole (n + 1) ths)
]

-- If the network goes away once the thunk in place `m` of a queue has been handled, and not before,
-- then the handlers up to that place run in their order, and the thunks behind it neither run nor are
-- in the queue any more.
pub thunk_thread_loses :
    (available : ℕ → Bool) (q : ThunkQueue) (m : ℕ)
    → ((i : ℕ) → i < m → available i ≡ true)
    → available m ≡ false
    → thunk_thread available q ≡ (
      record q { thunk_queue = [] },
      calls_of (take (suc m) q.thunk_queue),
      drop (suc m) q.thunk_queue,
    )
unfolding thunk_thread
thunk_thread_loses available q m h e =
    let r =
      run_copy_prefix available 0 m q.thunk_queue (λ i lt. ap available (omega arith) ∙ h i lt)
        (ap available (omega arith) ∙ e) in
    ground arith
