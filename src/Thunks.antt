-- ===== src/Thunks.antt =====
-- thunks.cpp: handlers that wait for a network, queued by socket and labels. The map from keys to
-- queues is the sequence of a std::map in the order of its keys. The standard promises this behaviour
-- only for keys that the comparator puts in a strict weak order; for others, as for two keys that are
-- each less than the other, it leaves open what the map does. A thunk has a name, `ptr`,
-- for its address. `available` stands for CMMSocketImpl::net_available.
mod Laws
mod Order
mod Tests
use libcmm.Prelude.{
  ℕ, zero, suc, ◌+◌, Bool, true, false, not, ◌||◌, ◌&&◌, Option, none, some, List, [], ◌∷◌, ◌++◌,
  ltb, ◌==◌, if◌then◌else◌, length,
}

-- A cancelled thunk has no `fn`, and -1, here `none`, for its socket.
pub record Thunk : Type 0 where
  pub ptr : ℕ
  pub fn : Option ℕ
  pub arg : ℕ
  pub send_labels : ℕ
  pub sock : Option ℕ

pub record Key : Type 0 where
  pub sock : ℕ
  pub send_label : ℕ

-- `tq_key::operator<`
abbrev pub key_less : Key → Key → Bool
key_less a b = ltb a.sock b.sock || ltb a.send_label b.send_label

-- `labeled_thunk_queue`
pub record ThunkQueue : Type 0 where
  pub sock : ℕ
  pub send_labels : ℕ
  pub thunk_map : List Thunk
  pub thunk_queue : List Thunk

-- `thunk_hash`, and the next address.
pub record Thunks : Type 0 where
  pub queues : List (Key × ThunkQueue)
  pub next_ptr : ℕ

abbrev pub no_thunks : Thunks
no_thunks = record { queues = []; next_ptr = 0 }

-- `find` of the map: the first key that is not less, if it is not greater either.
unfoldable pub find : List (Key × ThunkQueue) → Key → Option ThunkQueue
find [] k = none
find ((k', q) ∷ qs) k =
    let rest = find qs k in if key_less k' k then rest else if key_less k k' then none else some q

-- Writes the queue of a key, at its place in the order if the key is new.
unfoldable pub update : List (Key × ThunkQueue) → Key → ThunkQueue → List (Key × ThunkQueue)
update [] k q = (k, q) ∷ []
update ((k', q') ∷ qs) k q =
    let rest = update qs k q in
    if key_less k' k
    then (k', q') ∷ rest
    else if key_less k k'
    then (k, q) ∷ (k', q') ∷ qs
    else (k', q) ∷ qs

abbrev pub new_queue : Key → ThunkQueue
new_queue k = record { sock = k.sock; send_labels = k.send_label; thunk_map = []; thunk_queue = [] }

abbrev pub queue_or_new : Option ThunkQueue → Key → ThunkQueue
queue_or_new none k = new_queue k
queue_or_new (some q) k = q

unfoldable pub enqueue_handler : ℕ → ℕ → ℕ → ℕ → Thunks → Thunks
unfolding find update
enqueue_handler sock send_labels fn arg t =
    let k : Key = record { sock = sock; send_label = send_labels } in
    let q = queue_or_new (find t.queues k) k in
    let th : Thunk = record {
      ptr = t.next_ptr;
      fn = some fn;
      arg = arg;
      send_labels = send_labels;
      sock = some sock;
    } in
    record {
      queues = update t.queues k (record q { thunk_queue = q.thunk_queue ++ th ∷ [] });
      next_ptr = t.next_ptr + 1;
    }

opt_less : Option ℕ → Option ℕ → Bool
opt_less none none = false
opt_less none (some b) = true
opt_less (some a) none = false
opt_less (some a) (some b) = ltb a b

-- `thunk::operator<`
thunk_less : Thunk → Thunk → Bool
unfolding opt_less
thunk_less a b =
    opt_less a.sock b.sock
    || ltb a.send_labels b.send_labels
    || opt_less a.fn b.fn
    || ltb a.arg b.arg

-- The range of `thunk_map` that is equal to the dummy.
victims : Thunk → List Thunk → List Thunk
unfolding thunk_less
victims dummy [] = []
victims dummy (th ∷ ths) =
    let rest = victims dummy ths in
    if not (thunk_less th dummy) && not (thunk_less dummy th) then th ∷ rest else rest

is_victim : List Thunk → Thunk → Bool
is_victim [] th = false
is_victim (v ∷ vs) th = (v.ptr == th.ptr) || is_victim vs th

-- What a pointer to a victim leads to afterwards.
cancel_marks : List Thunk → List Thunk → List Thunk
unfolding is_victim
cancel_marks vs [] = []
cancel_marks vs (th ∷ ths) =
    let rest = cancel_marks vs ths in
    (if is_victim vs th then record th { fn = none; arg = 0; send_labels = 0; sock = none } else th)
    ∷ rest

drop_victims : List Thunk → List Thunk → List Thunk
unfolding is_victim
drop_victims vs [] = []
drop_victims vs (th ∷ ths) =
    let rest = drop_victims vs ths in if is_victim vs th then rest else th ∷ rest

-- `cancel_thunks`; the deleter is the application's.
unfoldable pub cancel_thunks : ℕ → ℕ → ThunkQueue → ThunkQueue × ℕ
unfolding victims cancel_marks drop_victims
cancel_thunks fn arg q =
    let dummy : Thunk = record {
      ptr = 0;
      fn = some fn;
      arg = arg;
      send_labels = q.send_labels;
      sock = some q.sock;
    } in
    let vs = victims dummy q.thunk_map in
    (
      record q {
        thunk_map = drop_victims vs q.thunk_map;
        thunk_queue = cancel_marks vs q.thunk_queue;
      },
      length vs,
    )

unfoldable pub cancel_thunk : ℕ → ℕ → ℕ → ℕ → Thunks → Thunks × ℕ
unfolding find update cancel_thunks
cancel_thunk sock send_labels handler arg t =
    let k : Key = record { sock = sock; send_label = send_labels } in
    elim (find t.queues k) [
      | none ↦ (t, 0)
      | some q ↦
          let r = cancel_thunks handler arg q in (record t { queues = update t.queues k r.0 }, r.1)
    ]

-- The loop of ThunkThreadFn over its copy of the queue: the handlers run, as pairs of function and
-- argument, and the thunks left over. `available n` is the answer after `n` thunks.
unfoldable pub run_copy : (ℕ → Bool) → ℕ → List Thunk → List (ℕ × ℕ) × List Thunk
run_copy available n [] = ([], [])
run_copy available n (th ∷ ths) =
    let rest = run_copy available (n + 1) ths in
    let goes_on = if available n then rest else ([], ths) in
    elim (th.fn) [ none ↦ goes_on | some f ↦ ((f, th.arg) ∷ goes_on.0, goes_on.1) ]

-- ThunkThreadFn: the queue is emptied into the copy first, and the copy is gone in the end.
unfoldable pub thunk_thread : (ℕ → Bool) → ThunkQueue → ThunkQueue × List (ℕ × ℕ) × List Thunk
unfolding run_copy
thunk_thread available q =
    let r = run_copy available 0 q.thunk_queue in (record q { thunk_queue = [] }, r.0, r.1)

-- `fire_thunks`, with what runs; `available q n` is the answer for a queue after `n` thunks.
unfoldable pub fire_thunks :
    (ThunkQueue → ℕ → Bool) → List (Key × ThunkQueue) → List (Key × ThunkQueue) × List (ℕ × ℕ)
unfolding thunk_thread
fire_thunks available [] = ([], [])
fire_thunks available ((k, q) ∷ qs) =
    let rest = fire_thunks available qs in
    let r = thunk_thread (λ n. available q (n + 1)) q in
    if available q 0 && not (length q.thunk_queue == 0)
    then ((k, r.0) ∷ rest.0, r.1 ++ rest.1)
    else ((k, q) ∷ rest.0, rest.1)

unfoldable pub count_thunks : ℕ → List (Key × ThunkQueue) → ℕ
count_thunks sock [] = 0
count_thunks sock ((k, q) ∷ qs) =
    (if q.sock == sock then length q.thunk_queue else 0) + count_thunks sock qs

-- `cancel_all_thunks`: the queues of a socket go.
unfoldable pub cancel_all_thunks : ℕ → List (Key × ThunkQueue) → List (Key × ThunkQueue)
cancel_all_thunks sock [] = []
cancel_all_thunks sock ((k, q) ∷ qs) =
    let rest = cancel_all_thunks sock qs in if q.sock == sock then rest else (k, q) ∷ rest
