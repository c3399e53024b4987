-- ===== src/AtModules/Initiators.antt =====
-- locknsnoop/common/at_typea_initiator.h and at_typeb_initiator.h: the initiators of random
-- transactions. The code of the second differs in `nb_transport_bw` only.
pub mod Steps
use psa.Prelude.{
  ℕ, ◌+◌, ◌-◌, ◌%◌, ◌^◌, Bool, true, false, Option, none, some, List, [], ◌∷◌, if◌then◌else◌, ltb,
  ◌==◌, update,
}
use psa.Locking.{Command, read, write, incomplete, ok}
use psa.Locking.{negative}
use psa.AtInterconnect.{
  Phase, begin_req, end_req, begin_resp, end_resp, Sync, accepted, updated, completed, Answer,
  is_some, is_trans,
}
use psa.AtModules.{
  rand_ps, AtPhase, protocol, internal_ph, Event, AtPayload, Store, Action, acquire, release,
  fw_call, returns, illegal_phase, wrong_data, Outcome, runs, fatal, take_event,
}

-- Where `thread_process` stands: between two rounds, in `wait(end_req_event)` with the transaction of
-- the round, or after that wait; or its loop is over.
pub data ThreadPc : Type 0 where
  between over : ThreadPc
  waits resumes : (trans : ℕ) → ThreadPc

-- The members and the variables of the thread. The words of `store` from 0 to 15 are `data`.
pub record Initiator : Type 0 where
  pub pc : ThreadPc
  pub i : ℕ
  pub req_in_progress : Option ℕ
  pub peq : List Event
  pub store : Store
  pub did : List Action

abbrev pub constructed : Store → Initiator
constructed m = record {
  pc = between;
  i = 0;
  req_in_progress = none;
  peq = [];
  store = m;
  did = [];
}

abbrev pub note : Action → Initiator → Initiator
note a s = record s { did = a ∷ s.did }

abbrev pub notify : ℕ → AtPhase → ℕ → Initiator → Initiator
notify t ph time s = record s { peq = record { trans = t; phase = ph; time = time } ∷ s.peq }

-- What a step meets: three values of `rand()`, the transaction that the memory manager gives,
-- `nb_transport_fw` of the module on the other side, and what the other modules have done to the
-- store since the last step
pub record Meets : Type 0 where
  pub address_rand : ℕ
  pub command_rand : ℕ
  pub delay_rand : ℕ
  pub allocated : ℕ
  pub nb_transport_fw : Store → ℕ → Phase → ℕ → Store × Answer
  pub store_before : Store → Store

-- `check_transaction`: whether its `assert` holds
unfoldable pub check_transaction : Store → ℕ → Bool
check_transaction m t =
    let p = m.payload t in
    elim p.command [
      | read ↦ elim p.response [ ok ↦ m.words p.data_ptr == negative p.address | _ ↦ true ]
      | _ ↦ true
    ]

-- `check_transaction( trans )`, and what follows it
abbrev pub checked : Initiator → ℕ → Initiator → Outcome Initiator
checked s t s' = if check_transaction s.store t then runs s' else fatal wrong_data

-- The new transaction of a round
abbrev pub new_payload : Command → ℕ → ℕ → AtPayload
new_payload cmd adr ptr = record {
  command = cmd;
  address = adr;
  data_ptr = ptr;
  data_length = 4;
  byte_enables = false;
  streaming_width = 4;
  response = incomplete;
}

abbrev pub random_address : ℕ → ℕ
random_address r = r % 2 ^ 16 - r % 4

unfoldable pub set_up : Store → ℕ → Meets → Store
set_up m i env =
    let adr = random_address env.address_rand in
    let writes = env.command_rand % 2 == 1 in
    record {
      words = if writes then update m.words (i % 16) adr else m.words;
      payload =
          update m.payload env.allocated
            (new_payload (if writes then write else read) adr (i % 16));
    }

-- The round from the request on, up to the wait at its end
unfoldable pub send_request : Meets → ℕ → Initiator → ℕ → Outcome Initiator
unfolding check_transaction
send_request env now s t =
    let delay = rand_ps env.delay_rand in
    let (store, a) = env.nb_transport_fw s.store t begin_req delay in
    let s' : Initiator = record (note (fw_call t begin_req delay) s) {
      store = store;
      req_in_progress = some t;
      i = s.i + 1;
      pc = between;
    } in
    elim a.status [
      | accepted ↦ runs s'
      | updated ↦ runs (notify t (protocol a.phase) (now + a.delay) s')
      | completed ↦ checked s' t (record (note (release t) s') { req_in_progress = none })
    ]

-- A round up to the test of `req_in_progress`, or to the request if there is none in progress
unfoldable pub start_round : Meets → ℕ → Initiator → Outcome Initiator
unfolding set_up send_request
start_round env now s =
    let t = env.allocated in
    let s' : Initiator = note (acquire t) (record s { store = set_up s.store s.i env }) in
    if is_some s.req_in_progress
    then runs (record s' { pc = waits t })
    else send_request env now s' t

-- `thread_process`, when it goes on
unfoldable pub thread_process : Meets → ℕ → Initiator → Outcome Initiator
unfolding start_round send_request
thread_process env now s = elim s.pc [
  | between ↦ if ltb s.i 1000 then start_round env now s else runs (record s { pc = over })
  | resumes t ↦ send_request env now s t
  | waits t ↦ runs s
  | over ↦ runs s
]

-- `end_req_event.notify()`
abbrev pub woken : ThreadPc → ThreadPc
woken (waits t) = resumes t
woken pc = pc

-- The end of the BEGIN_REQ phase
abbrev pub end_request : Initiator → Initiator
end_request s = record s { req_in_progress = none; pc = woken s.pc }

abbrev pub is_end_req : Phase → Bool
is_end_req end_req = true
is_end_req _ = false

abbrev pub is_begin_resp : Phase → Bool
is_begin_resp begin_resp = true
is_begin_resp _ = false

-- `peq_cb` on a BEGIN_RESP, after the first test
abbrev pub answer_response : Meets → Initiator → ℕ → Outcome Initiator
answer_response env s t =
    let delay = rand_ps env.delay_rand in
    let (store, ignored) = env.nb_transport_fw s.store t end_resp delay in
    checked s t (note (release t) (record (note (fw_call t end_resp delay) s) { store = store }))

unfoldable pub peq_cb : Meets → Initiator → ℕ → AtPhase → Outcome Initiator
unfolding check_transaction
peq_cb env s t (protocol end_req) = runs (end_request s)
peq_cb env s t (protocol begin_resp) =
    answer_response env (if is_trans s.req_in_progress t then end_request s else s) t
peq_cb env s t (protocol begin_req) = fatal illegal_phase
peq_cb env s t (protocol end_resp) = fatal illegal_phase
peq_cb env s t internal_ph = runs s

-- The return of `nb_transport_bw`
abbrev pub return : ℕ → Sync → Phase → ℕ → Initiator → Initiator
return t st ph delay s = note (returns t (record { status = st; phase = ph; delay = delay })) s

-- `nb_transport_bw` of the initiator of type A
unfoldable pub nb_transport_bw : ℕ → Initiator → ℕ → Phase → ℕ → Outcome Initiator
nb_transport_bw now s t ph delay =
    runs (return t accepted ph delay (notify t (protocol ph) (now + delay) s))

-- `thread_process`, `peq_cb` and `check_transaction` of the initiator of type B, which are the code of
-- type A
abbrev pub typeb_thread_process : Meets → ℕ → Initiator → Outcome Initiator
typeb_thread_process = thread_process

abbrev pub typeb_peq_cb : Meets → Initiator → ℕ → AtPhase → Outcome Initiator
typeb_peq_cb = peq_cb

abbrev pub typeb_check_transaction : Store → ℕ → Bool
typeb_check_transaction = check_transaction

-- `nb_transport_bw` of the initiator of type B
unfoldable pub typeb_nb_transport_bw : Meets → ℕ → Initiator → ℕ → Phase → ℕ → Outcome Initiator
unfolding check_transaction
typeb_nb_transport_bw env now s t end_req delay =
    runs (return t accepted end_req delay (notify t (protocol end_req) (now + delay) s))
typeb_nb_transport_bw env now s t begin_resp delay =
    let s' : Initiator = if is_trans s.req_in_progress t then end_request s else s in
    if typeb_check_transaction s'.store t
    then runs (return t completed begin_resp (delay + rand_ps env.delay_rand) (note (release t) s'))
    else fatal wrong_data
typeb_nb_transport_bw env now s t begin_req delay = fatal illegal_phase
typeb_nb_transport_bw env now s t end_resp delay = fatal illegal_phase
