-- ===== src/Multisocket/Messages.antt =====
-- CSocketReceiver (csocket_receiver.cpp): the handlers of acknowledgements, resend requests, data checks
-- and goodbyes. The measurements of the network that an acknowledgement carries are left out, and so are
-- the pipes that wake selectors.
use libcmm.Prelude.{ℕ, Bool, true, Option, none, some, List, [], ◌∷◌, if◌then◌else◌, ◌>>=◌}
use libcmm.Scheduling.Task.{ResendRequest}
use libcmm.Multisocket.{
  Multisocket, Answer, done, cmm_exception, ack_received, resend_request_received,
  data_check_requested, goodbye, goodbye_acked,
}

-- How a handler ends: it returns, or it throws.
pub data HandlerEnd : Type 0 where
  returns throws_cmm_exception throws_control_exception throws_thread_finish : HandlerEnd

abbrev pub end_of : Answer → HandlerEnd
end_of done = returns
end_of cmm_exception = throws_cmm_exception

-- The acknowledgements of a list of ids, up to one that throws.
unfoldable pub ack_each : List ℕ → Multisocket → Option (Multisocket × HandlerEnd)
ack_each [] m = some (m, returns)
ack_each (id ∷ ids) m = ack_received id m >>= λ (m', answer). elim answer [
  | done ↦ ack_each ids m'
  | cmm_exception ↦ some (m', throws_cmm_exception)
]

-- `others` is what follows the header, `none` if it cannot be read.
unfoldable pub do_ack : ℕ → Option (List ℕ) → Multisocket → Option (Multisocket × HandlerEnd)
unfolding ack_each
do_ack id others m = ack_received id m >>= λ (m', answer). elim answer [
  | cmm_exception ↦ some (m', throws_cmm_exception)
  | done ↦ elim others [ none ↦ some (m', throws_control_exception) | some ids ↦ ack_each ids m' ]
]

unfoldable pub do_goodbye : Bool → Multisocket → Option (Multisocket × HandlerEnd)
do_goodbye has_csock m =
    if m.shutting_down
    then (goodbye_acked m >>= λ m'. some (m', throws_thread_finish))
    else (goodbye true has_csock m >>= λ m'. some (m', returns))

unfoldable pub do_request_resend :
    ℕ → ResendRequest → ℕ → ℕ → Multisocket → Option (Multisocket × HandlerEnd)
do_request_resend id request seqno next_chunk m =
    resend_request_received id request seqno next_chunk m >>= λ (m', answer).
    some (m', end_of answer)

unfoldable pub do_data_check : ℕ → Multisocket → Multisocket × HandlerEnd
do_data_check id m = (data_check_requested id m, returns)
