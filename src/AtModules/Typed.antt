-- ===== src/AtModules/Typed.antt =====
-- locknsnoop/common/at_typed_target.h: the target that answers by BEGIN_RESP on the return path, unless
-- another response is in progress.
use psa.Prelude.{
  ℕ, ◌+◌, ◌-◌, Bool, true, false, not, Option, none, some, List, [], ◌∷◌, if◌then◌else◌,
}
use psa.AtInterconnect.{
  Phase, begin_req, end_req, begin_resp, end_resp, Sync, accepted, updated, completed, is_some,
}
use psa.AtModules.{
  rand_ps, Store, respond, refused, execute, Action, acquire, release, bw_call, returns, Around,
  illegal_end_resp, two_pending, none_pending, Outcome, runs, fatal,
}

-- The members. `send_rsp_event` is whether the event was notified and its process has not run yet.
pub record Target : Type 0 where
  pub response_in_progress : Bool
  pub send_rsp_event : Bool
  pub next_response_pending : Option ℕ
  pub next_response_time : ℕ
  pub store : Store
  pub did : List Action

abbrev pub constructed : Store → Target
constructed m = record {
  response_in_progress = false;
  send_rsp_event = false;
  next_response_pending = none;
  next_response_time = 0;
  store = m;
  did = [];
}

abbrev pub note : Action → Target → Target
note a s = record s { did = a ∷ s.did }

abbrev pub return : ℕ → Sync → Phase → ℕ → Target → Outcome Target
return t st ph delay s =
    runs (note (returns t (record { status = st; phase = ph; delay = delay })) s)

-- A request that is carried out
unfoldable pub accept : ℕ → Target → ℕ → ℕ → Outcome Target
accept now s t delay =
    if not s.response_in_progress
    then return t updated begin_resp delay (record s { response_in_progress = true })
    else if is_some s.next_response_pending
    then fatal two_pending
    else return t accepted begin_req delay
        (record s { next_response_pending = some t; next_response_time = now + delay })

-- `nb_transport_fw` with BEGIN_REQ
unfoldable pub on_begin_req : Around → ℕ → Target → ℕ → ℕ → Outcome Target
unfolding accept refused execute
on_begin_req env now s t delay =
    let s' : Target = note (acquire t) s in
    elim (refused (s.store.payload t)) [
      | some st ↦ return t completed begin_req delay (record s' { store = respond s.store t st })
      | none ↦
          accept now (record s' { store = execute s.store t }) t (delay + rand_ps env.latency_rand)
    ]

-- `nb_transport_fw` with END_RESP
unfoldable pub on_end_resp : Target → ℕ → ℕ → Outcome Target
on_end_resp s t delay =
    if not s.response_in_progress
    then fatal illegal_end_resp
    else return t completed end_resp delay (record (note (release t) s) {
      response_in_progress = false;
      send_rsp_event = if is_some s.next_response_pending then true else s.send_rsp_event;
    })

unfoldable pub nb_transport_fw : Around → ℕ → Target → ℕ → Phase → ℕ → Outcome Target
unfolding on_begin_req on_end_resp
nb_transport_fw env now s t begin_req delay = on_begin_req env now s t delay
nb_transport_fw env now s t end_resp delay = on_end_resp s t delay
nb_transport_fw env now s t end_req delay = return t accepted end_req delay s
nb_transport_fw env now s t begin_resp delay = return t accepted begin_resp delay s

abbrev pub is_end_resp : Phase → Bool
is_end_resp end_resp = true
is_end_resp _ = false

-- The end of a response that the initiator gives at once
abbrev pub finish : Target → ℕ → Target
finish s t = record (note (release t) s) { response_in_progress = false }

-- `send_rsp_process` with the response `t`
unfoldable pub send_rsp : Around → ℕ → Target → ℕ → Target
send_rsp env now s t =
    let delay = s.next_response_time - now in
    let a = env.answers t begin_resp delay in
    let s' : Target = record (note (bw_call t begin_resp delay) s) {
      next_response_pending = none;
      response_in_progress = true;
    } in
    elim a.status [
      | accepted ↦ s'
      | updated ↦ if is_end_resp a.phase then finish s' t else s'
      | completed ↦ finish s' t
    ]

unfoldable pub send_rsp_process : Around → ℕ → Target → Outcome Target
unfolding send_rsp
send_rsp_process env now s = elim s.next_response_pending [
  | none ↦ fatal none_pending
  | some t ↦ runs (send_rsp env now (record s { send_rsp_event = false }) t)
]

-- A call of `nb_transport_fw`, or a run of `send_rsp_process`, which is only if its event was notified
pub data Input : Type 0 where
  transport : (now trans : ℕ) (phase : Phase) (delay : ℕ) → Input
  send_rsp_process_runs : (now : ℕ) → Input

unfoldable pub step : Around → Target → Input → Outcome Target
unfolding nb_transport_fw send_rsp_process
step env s (transport now t ph delay) = nb_transport_fw env now s t ph delay
step env s (send_rsp_process_runs now) =
    if s.send_rsp_event then send_rsp_process env now s else runs s

unfoldable pub handle : Around → Target → Input → Outcome Target
unfolding step
handle env s i = step env (record s { store = env.store_before s.store }) i

-- A BEGIN_REQ comes only when the last request has ended: no response to it is held back.
abbrev pub keeps_rule : Target → Input → Bool
keeps_rule s (transport now t begin_req delay) = not (is_some s.next_response_pending)
keeps_rule s _ = true

-- Inputs one after another, as long as they keep the rule
unfoldable pub play : Target → List (Around × Input) → Outcome Target
unfolding handle
play s [] = runs s
play s ((env, i) ∷ is) =
    if keeps_rule s i
    then elim (handle env s i) [ runs s' ↦ play s' is | fatal why ↦ fatal why ]
    else runs s
