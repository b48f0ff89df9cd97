-- ===== src/Thunks/Order.antt =====
-- The order in which the handlers of a queue run.
use libcmm.Prelude.{
  ℕ, ◌≡◌, refl, sym, ap, ◌∙◌, inl, inr, Bool, true, false, some, List, [], ◌∷◌, ◌++◌, arith,
  if◌then◌else◌, Bool-cases, Option-cases, append_assoc, ◌==◌, ◌&&◌, ==_iff, false, All,
}
use libcmm.Thunks.{
  Thunk, Key, key_less, ThunkQueue, Thunks, no_thunks, find, update, queue_or_new, enqueue_handler,
  thunk_thread,
}
use libcmm.StdSet.{StrictWeakOrder}
use libcmm.Thunks.Laws.{calls_of, run_copy_whole}

abbrev pub same_key : Key → Key → Bool
same_key a b = a.sock == b.sock && a.send_label == b.send_label

same_key_eq : (a b : Key) → same_key a b ≡ true → a ≡ b
same_key_eq a b h = ground (arith, ==_iff a.sock b.sock, ==_iff a.send_label b.send_label)

-- The comparator does not put the keys both ways.
abbrev pub OneWay : Key → Key → Type 0
OneWay a b = (key_less a b && key_less b a) ≡ false

-- What a search finds after a queue is written, among keys of which no two are less than each other.
find-update :
    (qs : List (Key × ThunkQueue)) (k k' : Key) (q : ThunkQueue)
    → OneWay k k'
    → All (λ x. OneWay x.0 k × OneWay x.0 k') qs
    → find (update qs k q) k' ≡ (if same_key k k' then some q else find qs k')
unfolding find update
find-update [] k k' q one h =
    ground (arith, ==_iff k.sock k'.sock, ==_iff k.send_label k'.send_label)
find-update ((k1, q1) ∷ qs) k k' q one h = elim (Bool-cases (key_less k1 k)) [
  | inl below ↦ ground (
    arith,
    h.0,
    find-update qs k k' q one h.1,
    ==_iff k.sock k'.sock,
    ==_iff k.send_label k'.send_label,
  )
  | inr other ↦ ground (arith, h.0, ==_iff k.sock k'.sock, ==_iff k.send_label k'.send_label)
]

-- A registration: socket, labels, handler and argument.
pub record Registration : Type 0 where
  pub key : Key
  pub fn : ℕ
  pub arg : ℕ

unfoldable pub register_all : List Registration → Thunks → Thunks
register_all [] t = t
register_all (g ∷ gs) t =
    register_all gs (enqueue_handler (g.key).sock (g.key).send_label g.fn g.arg t)

-- The calls registered under a key, in their order.
abbrev pub registered : Key → List Registration → List (ℕ × ℕ)
registered k [] = []
registered k (g ∷ gs) =
    let rest = registered k gs in if same_key g.key k then (g.fn, g.arg) ∷ rest else rest

abbrev waiting_at : Thunks → Key → List (ℕ × ℕ)
waiting_at t k = calls_of (queue_or_new (find t.queues k) k).thunk_queue

calls_of-append : (xs ys : List Thunk) → calls_of (xs ++ ys) ≡ calls_of xs ++ calls_of ys
calls_of-append [] ys = refl
calls_of-append (th ∷ ths) ys = elim (Option-cases th.fn) [
  | inl gone ↦ ground (arith, calls_of-append ths ys)
  | inr (f, ef) ↦ ground (arith, calls_of-append ths ys)
]

append-nil : (xs : List (ℕ × ℕ)) → xs ++ [] ≡ xs
append-nil [] = refl
append-nil (x ∷ xs) = ap (λ ys. x ∷ ys) (append-nil xs)

first_of :
    (b : Bool) (x : ℕ × ℕ) (xs : List (ℕ × ℕ))
    → (if b then x ∷ [] else []) ++ xs ≡ (if b then x ∷ xs else xs)
first_of true x xs = refl
first_of false x xs = refl

-- The keys in use are `Good`, and no two of them are each less than the other.
module _ (Good : Key → Type 0) (one_way : (a b : Key) → Good a → Good b → OneWay a b) where
  -- On such keys the comparator is what a std::map asks for.
  key_less-StrictWeakOrder : StrictWeakOrder key_less Good
  key_less-StrictWeakOrder = record {
    irrefl = λ a ga. ground arith;
    trans = λ a b c ga gb gc h k. ground (arith, one_way a b ga gb, one_way b c gb gc);
    same_left = λ a b c ga gb gc h. ground arith;
    same_right = λ a b c ga gb gc h. ground arith;
  }

  abbrev AllGood : List (Key × ThunkQueue) → Type 0
  AllGood qs = All (λ x. Good x.0) qs

  all-OneWay :
      (qs : List (Key × ThunkQueue)) (k k' : Key)
      → AllGood qs
      → Good k
      → Good k'
      → All (λ x. OneWay x.0 k × OneWay x.0 k') qs
  all-OneWay [] k k' h gk gk' = tt
  all-OneWay (x ∷ qs) k k' h gk gk' =
      ((one_way x.0 k h.0 gk, one_way x.0 k' h.0 gk'), all-OneWay qs k k' h.1 gk gk')

  find-written :
      (qs : List (Key × ThunkQueue)) (k k' : Key) (q : ThunkQueue)
      → AllGood qs
      → Good k
      → Good k'
      → find (update qs k q) k' ≡ (if same_key k k' then some q else find qs k')
  find-written qs k k' q h gk gk' =
      find-update qs k k' q (one_way k k' gk gk') (all-OneWay qs k k' h gk gk')

  update-AllGood :
      (qs : List (Key × ThunkQueue)) (k : Key) (q : ThunkQueue)
      → AllGood qs
      → Good k
      → AllGood (update qs k q)
  unfolding update
  update-AllGood [] k q h gk = (gk, tt)
  update-AllGood ((k', q') ∷ qs) k q h gk = elim (Bool-cases (key_less k' k)) [
    | inl below ↦ rw below (h.0, update-AllGood qs k q h.1 gk)
    | inr other ↦ elim (Bool-cases (key_less k k')) [
      | inl above ↦ rw (other, above) (gk, h)
      | inr equal ↦ rw (other, equal) h
    ]
  ]

  enqueue-AllGood :
      (t : Thunks) (g : Registration)
      → AllGood t.queues
      → Good g.key
      → AllGood (enqueue_handler (g.key).sock (g.key).send_label g.fn g.arg t).queues
  unfolding enqueue_handler
  enqueue-AllGood t g h gg = update-AllGood t.queues g.key _ h gg

  enqueue-waiting :
      (t : Thunks) (g : Registration) (k : Key)
      → AllGood t.queues
      → Good g.key
      → Good k
      → waiting_at (enqueue_handler (g.key).sock (g.key).send_label g.fn g.arg t) k
        ≡ waiting_at t k ++ (if same_key g.key k then (g.fn, g.arg) ∷ [] else [])
  unfolding enqueue_handler
  enqueue-waiting t g k good gg gk =
      let old = queue_or_new (find t.queues g.key) g.key in
      let th : Thunk = record {
        ptr = t.next_ptr;
        fn = some g.fn;
        arg = g.arg;
        send_labels = (g.key).send_label;
        sock = some (g.key).sock;
      } in
      let q : ThunkQueue = record old { thunk_queue = old.thunk_queue ++ th ∷ [] } in
      elim (Bool-cases (same_key g.key k)) [
        | inl hit ↦
            let same : g.key ≡ k = same_key_eq g.key k hit in
            let grown : calls_of q.thunk_queue ≡ calls_of old.thunk_queue ++ (g.fn, g.arg) ∷ [] =
              calls_of-append old.thunk_queue (th ∷ []) in
            let at : find (update t.queues g.key q) k ≡ some q =
              find-written t.queues g.key k q good gg gk
              ∙ ap (λ b. if b then some q else find t.queues k) hit in
            ap (λ o. calls_of (queue_or_new o k).thunk_queue) at
            ∙ grown
            ∙ ap
                (λ x. calls_of (queue_or_new (find t.queues x) x).thunk_queue ++ (g.fn, g.arg) ∷ [])
                same
            ∙ ap (λ b. waiting_at t k ++ (if b then (g.fn, g.arg) ∷ [] else [])) (sym hit)
        | inr miss ↦
            let at : find (update t.queues g.key q) k ≡ find t.queues k =
              find-written t.queues g.key k q good gg gk
              ∙ ap (λ b. if b then some q else find t.queues k) miss in
            ap (λ o. calls_of (queue_or_new o k).thunk_queue) at
            ∙ sym (append-nil (waiting_at t k))
            ∙ ap (λ b. waiting_at t k ++ (if b then (g.fn, g.arg) ∷ [] else [])) (sym miss)
      ]

  register_all-waiting :
      (gs : List Registration) (t : Thunks) (k : Key)
      → AllGood t.queues
      → All (λ g. Good g.key) gs
      → Good k
      → waiting_at (register_all gs t) k ≡ waiting_at t k ++ registered k gs
  unfolding register_all
  register_all-waiting [] t k h hs gk = sym (append-nil (waiting_at t k))
  register_all-waiting (g ∷ gs) t k h hs gk =
      let t' = enqueue_handler (g.key).sock (g.key).send_label g.fn g.arg t in
      let new : List (ℕ × ℕ) = if same_key g.key k then (g.fn, g.arg) ∷ [] else [] in
      register_all-waiting gs t' k (enqueue-AllGood t g h hs.0) hs.1 gk
      ∙ ap (λ xs. xs ++ registered k gs) (enqueue-waiting t g k h hs.0 gk)
      ∙ append_assoc (waiting_at t k) new (registered k gs)
      ∙ ap (λ xs. waiting_at t k ++ xs)
          (first_of (same_key g.key k) (g.fn, g.arg) (registered k gs))

  -- After any registrations for sockets and labels of which no two keys are each less than the other, as
  -- the map needs them, the thread of a queue runs the handlers that were registered for its key, each
  -- once and in the order of registration, if the network stays available.
  pub fires_in_order :
      (gs : List Registration) (k : Key) (q : ThunkQueue)
      → All (λ g. Good g.key) gs
      → Good k
      → find (register_all gs no_thunks).queues k ≡ some q
      → thunk_thread (λ _. true) q ≡ (record q { thunk_queue = [] }, registered k gs, [])
  unfolding thunk_thread find
  fires_in_order gs k q hs gk e =
      let all = register_all-waiting gs no_thunks k tt hs gk in
      let here : calls_of q.thunk_queue ≡ registered k gs =
        sym (ap (λ o. calls_of (queue_or_new o k).thunk_queue) e) ∙ all in
      ap (λ r. (record q { thunk_queue = [] }, r.0, r.1)) (run_copy_whole 0 q.thunk_queue)
      ∙ ap (λ xs. (record q { thunk_queue = [] }, xs, [])) here
