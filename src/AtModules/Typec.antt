-- ===== src/AtModules/Typec.antt =====
-- locknsnoop/common/at_typec_target.h: the target that answers a request by BEGIN_RESP, with no END_REQ.
use psa.Prelude.{
  ℕ, ◌+◌, Bool, true, false, not, Option, none, some, List, [], ◌∷◌, ◌==◌, if◌then◌else◌,
}
use psa.AtInterconnect.{
  Phase, begin_req, end_req, begin_resp, end_resp, Sync, accepted, updated, completed, is_some,
}
use psa.AtInterconnect.Queues.{bit}
use psa.AtModules.{
  rand_ps, AtPhase, protocol, internal_ph, Event, Store, respond, refused, execute, Action, acquire,
  release, bw_call, returns, Around, illegal_end_resp, illegal_phase, two_pending, Outcome, runs,
  fatal, take_event, total,
}

pub record Target : Type 0 where
  pub response_in_progress : Bool
  pub next_response_pending : Option ℕ
  pub peq : List Event
  pub store : Store
  pub did : List Action

abbrev pub constructed : Store → Target
constructed m = record {
  response_in_progress = false;
  next_response_pending = none;
  peq = [];
  store = m;
  did = [];
}

abbrev pub notify : ℕ → AtPhase → ℕ → Target → Target
notify t ph time s = record s { peq = record { trans = t; phase = ph; time = time } ∷ s.peq }

abbrev pub note : Action → Target → Target
note a s = record s { did = a ∷ s.did }

unfoldable pub send_response : Around → ℕ → Target → ℕ → Target
send_response env now s t =
    let a = env.answers t begin_resp 0 in
    let s' : Target = record (note (bw_call t begin_resp 0) s) { response_in_progress = true } in
    elim a.status [
      | accepted ↦ s'
      | updated ↦ notify t (protocol a.phase) (now + a.delay) s'
      | completed ↦ record (note (release t) s') { response_in_progress = false }
    ]

unfoldable pub on_end_resp : Around → ℕ → Target → ℕ → Outcome Target
unfolding send_response
on_end_resp env now s t =
    let s' : Target = record (note (release t) s) { response_in_progress = false } in
    if not s.response_in_progress then fatal illegal_end_resp else elim s.next_response_pending [
      | none ↦ runs s'
      | some u ↦ runs (record (send_response env now s' u) { next_response_pending = none })
    ]

unfoldable pub on_internal : Around → ℕ → Target → ℕ → Outcome Target
unfolding send_response execute
on_internal env now s t =
    let s' : Target = record s { store = execute s.store t } in
    if not s.response_in_progress
    then runs (send_response env now s' t)
    else if is_some s.next_response_pending
    then fatal two_pending
    else runs (record s' { next_response_pending = some t })

unfoldable pub peq_cb : Around → ℕ → Target → ℕ → AtPhase → Outcome Target
unfolding on_end_resp on_internal
peq_cb env now s t (protocol begin_req) =
    runs (notify t internal_ph (now + rand_ps env.latency_rand) (note (acquire t) s))
peq_cb env now s t (protocol end_resp) = on_end_resp env now s t
peq_cb env now s t (protocol end_req) = fatal illegal_phase
peq_cb env now s t (protocol begin_resp) = fatal illegal_phase
peq_cb env now s t internal_ph = on_internal env now s t

abbrev pub return : ℕ → Sync → Phase → ℕ → Target → Target
return t st ph delay s = note (returns t (record { status = st; phase = ph; delay = delay })) s

unfoldable pub nb_transport_fw : ℕ → Target → ℕ → Phase → ℕ → Target
unfolding refused
nb_transport_fw now s t ph delay = elim (refused (s.store.payload t)) [
  | some st ↦ return t completed ph delay (record s { store = respond s.store t st })
  | none ↦ return t accepted ph delay (notify t (protocol ph) (now + delay) s)
]

-- A call of `nb_transport_fw`, or the `i`-th event of the queue that comes up
pub data Input : Type 0 where
  transport : (now trans : ℕ) (phase : Phase) (delay : ℕ) → Input
  comes_up : (now i : ℕ) → Input

unfoldable pub step : Around → Target → Input → Outcome Target
unfolding nb_transport_fw peq_cb
step env s (transport now t ph delay) = runs (nb_transport_fw now s t ph delay)
step env s (comes_up now i) = elim (take_event i s.peq) [
  | none ↦ runs s
  | some (e, es) ↦ peq_cb env now (record s { peq = es }) e.trans e.phase
]

unfoldable pub handle : Around → Target → Input → Outcome Target
unfolding step
handle env s i = step env (record s { store = env.store_before s.store }) i

-- A request that has got no BEGIN_RESP yet, which is what ends it
abbrev pub request_of : AtPhase → ℕ
request_of internal_ph = 1
request_of (protocol begin_req) = 1
request_of (protocol _) = 0

abbrev pub requests : Target → ℕ
requests s = total (λ e. request_of e.phase) s.peq + bit s.next_response_pending

-- A BEGIN_REQ comes only when the last request has ended.
abbrev pub keeps_rule : Target → Input → Bool
keeps_rule s (transport now t begin_req delay) = requests s == 0
keeps_rule s _ = true

-- Inputs one after another, as long as they keep the rule
unfoldable pub play : Target → List (Around × Input) → Outcome Target
unfolding handle
play s [] = runs s
play s ((env, i) ∷ is) =
    if keeps_rule s i
    then elim (handle env s i) [ runs s' ↦ play s' is | fatal why ↦ fatal why ]
    else runs s
