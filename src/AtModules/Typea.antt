-- ===== src/AtModules/Typea.antt =====
-- locknsnoop/common/at_typea_target.h and at_typeb_target.h: the targets that hold two transactions at
-- a time. The code of the second differs in `nb_transport_fw` only, and in an `assert` right after
-- the assignment of what it tests.
use psa.Prelude.{
  ℕ, ◌+◌, Bool, true, false, not, ◌&&◌, Option, none, some, List, [], ◌∷◌, if◌then◌else◌, ltb, ◌==◌,
}
use psa.AtInterconnect.{
  Phase, begin_req, end_req, begin_resp, end_resp, Sync, accepted, updated, completed, is_some,
}
use psa.AtModules.{
  rand_ps, AtPhase, protocol, internal_ph, Event, Store, respond, refused, execute, Action, acquire,
  release, bw_call, returns, Around, illegal_end_resp, illegal_phase, two_pending, Outcome, runs,
  fatal, take_event,
}

-- The members. `n_trans` is `begun` less `ended`, the counts of its increments and decrements.
pub record Target : Type 0 where
  pub begun : ℕ
  pub ended : ℕ
  pub response_in_progress : Bool
  pub next_response_pending : Option ℕ
  pub end_req_pending : Option ℕ
  pub peq : List Event
  pub store : Store
  pub did : List Action

-- The state after the constructor
abbrev pub constructed : Store → Target
constructed m = record {
  begun = 0;
  ended = 0;
  response_in_progress = false;
  next_response_pending = none;
  end_req_pending = none;
  peq = [];
  store = m;
  did = [];
}

-- `m_peq.notify`
abbrev pub notify : ℕ → AtPhase → ℕ → Target → Target
notify t ph time s = record s { peq = record { trans = t; phase = ph; time = time } ∷ s.peq }

abbrev pub note : Action → Target → Target
note a s = record s { did = a ∷ s.did }

unfoldable pub send_end_req : Around → ℕ → Target → ℕ → Target
send_end_req env now s t =
    let delay = rand_ps env.accept_rand in
    let a = env.answers t end_req delay in
    notify t internal_ph (now + (a.delay + rand_ps env.latency_rand))
      (record (note (bw_call t end_req delay) s) { begun = s.begun + 1 })

-- `if (end_req_pending) { send_end_req( *end_req_pending ); end_req_pending = 0; }`
unfoldable pub unblock : Around → ℕ → Target → Target
unfolding send_end_req
unblock env now s = elim s.end_req_pending [
  | none ↦ s
  | some u ↦ record (send_end_req env now s u) { end_req_pending = none }
]

unfoldable pub send_response : Around → ℕ → Target → ℕ → Target
unfolding unblock
send_response env now s t =
    let a = env.answers t begin_resp 0 in
    let s' : Target = record (note (bw_call t begin_resp 0) s) { response_in_progress = true } in
    elim a.status [
      | accepted ↦ s'
      | updated ↦ notify t (protocol a.phase) (now + a.delay) s'
      | completed ↦
          unblock env now
            (record (note (release t) s') { ended = s.ended + 1; response_in_progress = false })
    ]

-- `if (next_response_pending) { send_response( *next_response_pending ); next_response_pending = 0; }`
unfoldable pub send_pending : Around → ℕ → Target → Target
unfolding send_response
send_pending env now s = elim s.next_response_pending [
  | none ↦ s
  | some u ↦ record (send_response env now s u) { next_response_pending = none }
]

-- The case of `END_RESP`
unfoldable pub on_end_resp : Around → ℕ → Target → ℕ → Outcome Target
unfolding send_pending unblock
on_end_resp env now s t =
    if not s.response_in_progress
    then fatal illegal_end_resp
    else let s' : Target = record (note (release t) s) {
      ended = s.ended + 1;
      response_in_progress = false;
    } in
      runs (unblock env now (send_pending env now s'))

-- The case of `internal_ph`
unfoldable pub on_internal : Around → ℕ → Target → ℕ → Outcome Target
unfolding send_response execute
on_internal env now s t =
    let s' : Target = record s { store = execute s.store t } in
    if not s.response_in_progress
    then runs (send_response env now s' t)
    else if is_some s.next_response_pending
    then fatal two_pending
    else runs (record s' { next_response_pending = some t })

-- The case of `BEGIN_REQ`
unfoldable pub on_begin_req : Around → ℕ → Target → ℕ → Target
unfolding send_end_req
on_begin_req env now s t =
    let s' : Target = note (acquire t) s in
    if s.begun == s.ended + 2
    then record s' { end_req_pending = some t }
    else send_end_req env now s' t

unfoldable pub peq_cb : Around → ℕ → Target → ℕ → AtPhase → Outcome Target
unfolding on_begin_req on_end_resp on_internal
peq_cb env now s t (protocol begin_req) = runs (on_begin_req env now s t)
peq_cb env now s t (protocol end_resp) = on_end_resp env now s t
peq_cb env now s t (protocol end_req) = fatal illegal_phase
peq_cb env now s t (protocol begin_resp) = fatal illegal_phase
peq_cb env now s t internal_ph = on_internal env now s t

-- The return of `nb_transport_fw`
abbrev pub return : ℕ → Sync → Phase → ℕ → Target → Target
return t st ph delay s = note (returns t (record { status = st; phase = ph; delay = delay })) s

-- `nb_transport_fw` of the target of type A
unfoldable pub nb_transport_fw : Around → ℕ → Target → ℕ → Phase → ℕ → Target
unfolding refused
nb_transport_fw env now s t ph delay = elim (refused (s.store.payload t)) [
  | some st ↦ return t completed ph delay (record s { store = respond s.store t st })
  | none ↦ return t accepted ph delay (notify t (protocol ph) (now + delay) s)
]

abbrev pub is_begin_req : Phase → Bool
is_begin_req begin_req = true
is_begin_req _ = false

-- `peq_cb`, `send_end_req` and `send_response` of the target of type B, which are the code of type A:
-- the `assert` that is added tests `response_in_progress`, which was set two statements before.
abbrev pub typeb_send_end_req : Around → ℕ → Target → ℕ → Target
typeb_send_end_req = send_end_req

abbrev pub typeb_send_response : Around → ℕ → Target → ℕ → Target
typeb_send_response = send_response

abbrev pub typeb_peq_cb : Around → ℕ → Target → ℕ → AtPhase → Outcome Target
typeb_peq_cb = peq_cb

-- `nb_transport_fw` of the target of type B
unfoldable pub typeb_nb_transport_fw : Around → ℕ → Target → ℕ → Phase → ℕ → Target
unfolding refused
typeb_nb_transport_fw env now s t ph delay =
    let delay' = delay + rand_ps env.accept_rand in
    elim (refused (s.store.payload t)) [
      | some st ↦ return t completed ph delay (record s { store = respond s.store t st })
      | none ↦
          if is_begin_req ph && ltb s.begun (s.ended + 2)
          then return t updated end_req delay' (
              notify t internal_ph (now + (delay' + rand_ps env.latency_rand))
                (record (note (acquire t) s) { begun = s.begun + 1 }))
          else return t accepted ph delay (notify t (protocol ph) (now + delay) s)
    ]

pub data Kind : Type 0 where
  typea typeb : Kind

-- A call of `nb_transport_fw`, or the `i`-th event of the queue that comes up
pub data Input : Type 0 where
  transport : (now trans : ℕ) (phase : Phase) (delay : ℕ) → Input
  comes_up : (now i : ℕ) → Input

abbrev pub peq_cb_of : Kind → Around → ℕ → Target → ℕ → AtPhase → Outcome Target
peq_cb_of typea = peq_cb
peq_cb_of typeb = typeb_peq_cb

unfoldable pub step : Kind → Around → Target → Input → Outcome Target
unfolding nb_transport_fw typeb_nb_transport_fw peq_cb
step typea env s (transport now t ph delay) = runs (nb_transport_fw env now s t ph delay)
step typeb env s (transport now t ph delay) = runs (typeb_nb_transport_fw env now s t ph delay)
step k env s (comes_up now i) = elim (take_event i s.peq) [
  | none ↦ runs s
  | some (e, es) ↦ peq_cb_of k env now (record s { peq = es }) e.trans e.phase
]

unfoldable pub handle : Kind → Around → Target → Input → Outcome Target
unfolding step
handle k env s i = step k env (record s { store = env.store_before s.store }) i

-- Inputs one after another, each with what the other modules answer to the calls that it leads to
unfoldable pub play : Kind → Target → List (Around × Input) → Outcome Target
unfolding handle
play k s [] = runs s
play k s ((env, i) ∷ is) = elim (handle k env s i) [
  | runs s' ↦ play k s' is
  | fatal why ↦ fatal why
]
