-- ===== src/Thunks/Tests.antt =====
-- Registered and cancelled handlers.
use libcmm.Prelude.{
  ℕ, suc, ◌≡◌, ◌⊎◌, inl, inr, refl, true, false, some, List, [], ◌∷◌, arith, take, drop,
}
use libcmm.Thunks.{
  Thunk, Key, key_less, ThunkQueue, no_thunks, find, update, enqueue_handler, cancel_thunk,
  thunk_thread,
}
use libcmm.Thunks.Laws.{
  key_less_both_ways, enqueues, run, cancel_thunk_does_nothing, calls_of, thunk_thread_loses,
}
use libcmm.Thunks.Order.{OneWay, Registration, register_all, registered, fires_in_order}

abbrev first_key : Key
first_key = record { sock = 1; send_label = 8 }

abbrev second_key : Key
second_key = record { sock = 2; send_label = 4 }

key_less_both_ways_example :
    (key_less first_key second_key ≡ true) × (key_less second_key first_key ≡ true)
key_less_both_ways_example = key_less_both_ways first_key second_key (omega arith) (omega arith)

cancel_thunk_does_nothing_example :
    cancel_thunk 1 8 30 40 (run no_thunks (enqueues 1 8 30 40 ∷ []))
    ≡ (run no_thunks (enqueues 1 8 30 40 ∷ []), 0)
cancel_thunk_does_nothing_example = cancel_thunk_does_nothing (enqueues 1 8 30 40 ∷ []) 1 8 30 40

abbrev waiting_thunk : ℕ → ℕ → Thunk
waiting_thunk ptr fn = record { ptr = ptr; fn = some fn; arg = 9; send_labels = 8; sock = some 1 }

abbrev two_waiting : ThunkQueue
two_waiting = record {
  sock = 1;
  send_labels = 8;
  thunk_map = [];
  thunk_queue = waiting_thunk 0 30 ∷ waiting_thunk 1 31 ∷ [];
}

thunk_thread_loses_example : thunk_thread (λ _. false) two_waiting ≡ (
  record two_waiting { thunk_queue = [] },
  calls_of (take (suc 0) two_waiting.thunk_queue),
  drop (suc 0) two_waiting.thunk_queue,
)
thunk_thread_loses_example =
    thunk_thread_loses (λ _. false) two_waiting 0 (λ i lt. absurd (omega arith)) refl

-- A key that comes after the first one both by socket and by label.
abbrev later_key : Key
later_key = record { sock = 2; send_label = 16 }

abbrev InUse : Key → Type 0
InUse a = (a ≡ first_key) ⊎ (a ≡ later_key)

InUse-OneWay : (a b : Key) → InUse a → InUse b → OneWay a b
InUse-OneWay a b (inl e) (inl f) = ground arith
InUse-OneWay a b (inl e) (inr f) = ground arith
InUse-OneWay a b (inr e) (inl f) = ground arith
InUse-OneWay a b (inr e) (inr f) = ground arith

abbrev three : List Registration
three =
    record { key = first_key; fn = 30; arg = 0 }
    ∷ record { key = later_key; fn = 31; arg = 0 }
    ∷ record { key = first_key; fn = 32; arg = 0 }
    ∷ []

abbrev first_queue : ThunkQueue
first_queue = record {
  sock = 1;
  send_labels = 8;
  thunk_map = [];
  thunk_queue =
      record { ptr = 0; fn = some 30; arg = 0; send_labels = 8; sock = some 1 }
      ∷ record { ptr = 2; fn = some 32; arg = 0; send_labels = 8; sock = some 1 }
      ∷ [];
}

finds_first : find (register_all three no_thunks).queues first_key ≡ some first_queue
unfolding find update enqueue_handler register_all
finds_first = refl

fires_in_order_example :
    thunk_thread (λ _. true) first_queue
    ≡ (record first_queue { thunk_queue = [] }, registered first_key three, [])
fires_in_order_example =
    fires_in_order InUse InUse-OneWay three first_key first_queue
      (inl refl, (inr refl, (inl refl, tt))) (inl refl) finds_first
