-- ===== src/AtInterconnect/Forward.antt =====
-- locknsnoop/common/at_interconnect.h: `nb_transport_fw`, which the initiators call.
use psa.Prelude.{
  ℕ, ◌+◌, false, ◌||◌, not, Option, none, some, List, [], ◌∷◌, ◌++◌, if◌then◌else◌, ◌==◌, update,
}
use psa.AtInterconnect.{
  Phase, begin_req, end_req, begin_resp, end_resp, accepted, updated, completed, Route,
  AtInterconnect, Call, fw, Answer, Done, finishes, is_some, is_begin_resp, ends_request,
  notify_end_req, notify_end_rsp, take_response, queue_rsp, stop_propagation, masked,
  decode_address,
}

-- The two returns with a response for `id`, which may have another one in progress
unfoldable pub return_updated : AtInterconnect → ℕ → ℕ → ℕ → List Call → Answer → Option Done
return_updated s now id t calls a =
    if not (is_begin_resp a.phase)
    then finishes s calls updated a.phase a.delay
    else if is_some (s.rsp_in_progress id)
    then finishes (queue_rsp s id t (now + a.delay)) calls accepted a.phase a.delay
    else finishes (take_response s id t) calls updated a.phase a.delay

unfoldable pub return_completed : AtInterconnect → ℕ → ℕ → ℕ → List Call → Answer → Option Done
return_completed s now id t calls a =
    if is_some (s.rsp_in_progress id)
    then finishes (queue_rsp s id t (now + a.delay)) calls accepted a.phase a.delay
    else finishes s calls completed a.phase a.delay

-- `if ((phase == END_REQ) || (phase == BEGIN_RESP))` with the `assert` in it
abbrev pub request_ends : AtInterconnect → ℕ → Phase → Option AtInterconnect
request_ends s target ph =
    if not (ends_request ph)
    then some s
    else if is_some (s.req_in_progress target)
    then some (notify_end_req s target)
    else none

-- `nb_transport_fw` after the call of the target, with its answer; `r` is the route of a request.
unfoldable pub after_fw :
    AtInterconnect → ℕ → ℕ → ℕ → ℕ → Option Route → List Call → Answer → Option Done
unfolding return_updated return_completed
after_fw s now id t target r calls a = elim a.status [
  | accepted ↦ finishes s calls accepted a.phase a.delay
  | updated ↦ elim (request_ends s target a.phase) [
    | none ↦ none
    | some s' ↦ return_updated s' now id t calls a
  ]
  | completed ↦ elim r [
    | none ↦ finishes s calls completed a.phase a.delay
    | some r' ↦ return_completed (stop_propagation (notify_end_req s target) t r') now id t calls a
  ]
]

-- What the targets and the initiators answer
pub record Answers : Type 0 where
  pub target_answers : ℕ → ℕ → Phase → ℕ → Answer
  pub initiator_answers : ℕ → ℕ → Phase → ℕ → Answer

-- A call forward, and what follows it; `r` is the route where the call is a request.
unfoldable pub pass_fw :
    Answers → AtInterconnect → ℕ → ℕ → ℕ → ℕ → Option Route → Phase → ℕ → Option Done
unfolding after_fw
pass_fw env s now id t target r ph delay =
    after_fw s now id t target r (fw target t ph delay ∷ []) (env.target_answers target t ph delay)

-- A request from the initiator `id`
unfoldable pub accept_request : Answers → AtInterconnect → ℕ → ℕ → ℕ → ℕ → Option Done
unfolding pass_fw
accept_request env s now id t delay =
    let target = decode_address s (s.address t) in
    let r : Route = record { init = id; target = target; dont_propagate_fw = false } in
    let s' : AtInterconnect = record s {
      address = update s.address t (masked (s.address t));
      route = update s.route t (some r);
    } in
    if is_some (s.req_in_progress target)
    then finishes
        (record s' {
          req_queue =
              update s.req_queue target
                (s.req_queue target ++ record { trans = t; time = now + delay } ∷ []);
        })
        [] accepted begin_req delay
    else pass_fw env (record s' { req_in_progress = update s.req_in_progress target (some t) }) now
        id t target (some r) begin_req delay

-- The end of a response from the initiator `id`
unfoldable pub accept_end : Answers → AtInterconnect → ℕ → ℕ → ℕ → Option Route → ℕ → Option Done
unfolding pass_fw
accept_end env s now id t none delay = none
accept_end env s now id t (some r) delay =
    if not (r.init == id) || not (is_some (s.rsp_in_progress r.init))
    then none
    else if r.dont_propagate_fw
    then finishes (notify_end_rsp s r.init) [] accepted end_resp delay
    else pass_fw env (notify_end_rsp s r.init) now id t r.target none end_resp delay

-- `nb_transport_fw`, called by the initiator `id` at the time `now`
unfoldable pub nb_transport_fw : Answers → AtInterconnect → ℕ → ℕ → ℕ → Phase → ℕ → Option Done
unfolding accept_request accept_end pass_fw
nb_transport_fw env s now id t begin_req delay = accept_request env s now id t delay
nb_transport_fw env s now id t end_resp delay = accept_end env s now id t (s.route t) delay
nb_transport_fw env s now id t end_req delay = pass_fw env s now id t 0 none end_req delay
nb_transport_fw env s now id t begin_resp delay = pass_fw env s now id t 0 none begin_resp delay
