-- ===== src/Scheduling/Task.antt =====
-- IROBSchedulingData, its constructors and `operator<`.
use Prim.Native.Nat.{bit_and}
use libcmm.Prelude.{
  ℕ, Bool, true, false, not, ◌||◌, ◌&&◌, ℤ, pos, negsuc, ltb, ltb_ℤ, eqb_ℤ, ◌==◌, if◌then◌else◌,
}
use libcmm.Irob.{cmm_label_ondemand}

pub record Timeval : Type 0 where
  pub tv_sec : ℤ
  pub tv_usec : ℤ

-- `timercmp(a, b, <)` (timeops.h)
abbrev pub time_lt : Timeval → Timeval → Bool
time_lt a b = if eqb_ℤ a.tv_sec b.tv_sec then ltb_ℤ a.tv_usec b.tv_usec else ltb_ℤ a.tv_sec b.tv_sec

-- Flags in one word.
abbrev pub ResendRequest : Type 0
ResendRequest = ℕ

abbrev pub request_none : ResendRequest
request_none = 0x0

abbrev pub request_deps : ResendRequest
request_deps = 0x1

abbrev pub request_data : ResendRequest
request_data = 0x2

abbrev pub request_end : ResendRequest
request_end = 0x4

abbrev pub request_all : ResendRequest
request_all = 0x7

pub record SchedulingData : Type 0 where
  pub id : ℕ
  pub chunks_ready : Bool
  pub resend_request : ResendRequest
  pub completion_time : Timeval
  pub data_check : Bool
  pub send_labels : ℕ

-- The time of a task that has none.
abbrev pub no_time : Timeval
no_time = record { tv_sec = negsuc 0; tv_usec = pos 0 }

-- The constructors for chunks, resend requests and acknowledgements.
abbrev pub chunk_task : ℕ → Bool → ℕ → SchedulingData
chunk_task id ready labels = record {
  id = id;
  chunks_ready = ready;
  resend_request = request_none;
  completion_time = no_time;
  data_check = false;
  send_labels = labels;
}

abbrev pub resend_task : ℕ → ResendRequest → ℕ → SchedulingData
resend_task id request labels = record {
  id = id;
  chunks_ready = false;
  resend_request = request;
  completion_time = no_time;
  data_check = false;
  send_labels = labels;
}

abbrev pub ack_task : ℕ → Timeval → ℕ → SchedulingData
ack_task id time labels = record {
  id = id;
  chunks_ready = false;
  resend_request = request_none;
  completion_time = time;
  data_check = false;
  send_labels = labels;
}

abbrev pub is_ondemand : SchedulingData → Bool
is_ondemand d = not (bit_and d.send_labels cmm_label_ondemand == 0)

-- `operator<`
unfoldable pub less : SchedulingData → SchedulingData → Bool
less a b =
    if is_ondemand a && not (is_ondemand b)
    then true
    else if not (is_ondemand a) && is_ondemand b
    then false
    else time_lt a.completion_time b.completion_time || ltb a.id b.id
