-- ===== src/AtInterconnect.antt =====
-- locknsnoop/common/at_interconnect.h: the interconnect of the programs that lock addresses. It lets
-- one request at a time pass to a target and one response at a time to an initiator, and queues the
-- others.
--
-- A transaction is a number; the interconnect reaches its address and its extension for the route. A
-- call is a function of the state and of what the modules on the other side answer to the calls that
-- it makes, which gives the state, the calls made and the answer; `none` is an `assert` that fails.
-- The reference counts of the transactions are left out.
pub mod Forward
pub mod Backward
pub mod Processes
pub mod Requests
pub mod Queues
pub mod Steps
pub mod Open
pub mod Calls
pub mod Following
pub mod Order
pub mod Passing
pub mod Tests
use psa.Prelude.{
  ℕ, ◌+◌, ◌-◌, ◌*◌, ◌/◌, ◌%◌, ◌^◌, Bool, true, false, ◌&&◌, ◌||◌, not, Option, none, some, List, [],
  ◌∷◌, ◌++◌, if◌then◌else◌, ◌==◌, update,
}

-- `tlm_phase` and `tlm_sync_enum`
pub data Phase : Type 0 where
  begin_req end_req begin_resp end_resp : Phase

pub data Sync : Type 0 where
  accepted updated completed : Sync

-- `Trans`, an entry of a queue
pub record Trans : Type 0 where
  pub trans : ℕ
  pub time : ℕ

-- `route_extension`
pub record Route : Type 0 where
  pub init : ℕ
  pub target : ℕ
  pub dont_propagate_fw : Bool

-- The members, and of each transaction its address and its route. An event is whether it was
-- notified and its process has not run yet.
pub record AtInterconnect : Type 0 where
  pub n_targets : ℕ
  pub req_in_progress : ℕ → Option ℕ
  pub rsp_in_progress : ℕ → Option ℕ
  pub end_req_event : ℕ → Bool
  pub end_rsp_event : ℕ → Bool
  pub req_queue : ℕ → List Trans
  pub rsp_queue : ℕ → List Trans
  pub address : ℕ → ℕ
  pub route : ℕ → Option Route

-- The state after the constructor and `end_of_elaboration`
abbrev pub elaborated : ℕ → (ℕ → ℕ) → AtInterconnect
elaborated n address = record {
  n_targets = n;
  req_in_progress = λ i. none;
  rsp_in_progress = λ i. none;
  end_req_event = λ i. false;
  end_rsp_event = λ i. false;
  req_queue = λ i. [];
  rsp_queue = λ i. [];
  address = address;
  route = λ t. none;
}

-- A call of `nb_transport_fw` of a target, or of `nb_transport_bw` of an initiator
pub data Call : Type 0 where
  fw : (target trans : ℕ) (phase : Phase) (delay : ℕ) → Call
  bw : (init trans : ℕ) (phase : Phase) (delay : ℕ) → Call

-- The result of a call, with the phase and the delay that it leaves
pub record Answer : Type 0 where
  pub status : Sync
  pub phase : Phase
  pub delay : ℕ

pub record Done : Type 0 where
  pub state : AtInterconnect
  pub calls : List Call
  pub answer : Answer

abbrev pub finishes : AtInterconnect → List Call → Sync → Phase → ℕ → Option Done
finishes s calls st ph d =
    some
      (record { state = s; calls = calls; answer = record { status = st; phase = ph; delay = d } })

abbrev pub is_some : Option ℕ → Bool
is_some none = false
is_some (some t) = true

abbrev pub is_trans : Option ℕ → ℕ → Bool
is_trans none t = false
is_trans (some u) t = u == t

abbrev pub is_begin_resp : Phase → Bool
is_begin_resp begin_resp = true
is_begin_resp _ = false

-- `phase == END_REQ || phase == BEGIN_RESP`
abbrev pub ends_request : Phase → Bool
ends_request end_req = true
ends_request begin_resp = true
ends_request _ = false

abbrev pub notify_end_req : AtInterconnect → ℕ → AtInterconnect
notify_end_req s target = record s { end_req_event = update s.end_req_event target true }

abbrev pub notify_end_rsp : AtInterconnect → ℕ → AtInterconnect
notify_end_rsp s init = record s { end_rsp_event = update s.end_rsp_event init true }

abbrev pub take_response : AtInterconnect → ℕ → ℕ → AtInterconnect
take_response s init t = record s { rsp_in_progress = update s.rsp_in_progress init (some t) }

-- `queue_the_rsp_to_be_sent_bw_later`
abbrev pub queue_rsp : AtInterconnect → ℕ → ℕ → ℕ → AtInterconnect
queue_rsp s init t time = record s {
  rsp_queue = update s.rsp_queue init (s.rsp_queue init ++ record { trans = t; time = time } ∷ []);
}

-- `ext->dont_propagate_fw = true`
abbrev pub stop_propagation : AtInterconnect → ℕ → Route → AtInterconnect
stop_propagation s t r = record s {
  route = update s.route t (some (record r { dont_propagate_fw = true }));
}

-- `decode_address`
abbrev pub masked : ℕ → ℕ
masked address = address % 2 ^ 8

abbrev pub decode_address : AtInterconnect → ℕ → ℕ
decode_address s address = address / 2 ^ 8 % 2 ^ 32 % s.n_targets
