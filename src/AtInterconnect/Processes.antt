-- ===== src/AtInterconnect/Processes.antt =====
-- locknsnoop/common/at_interconnect.h: the processes that run when a request or a response has ended,
-- and the inputs of the interconnect.
use psa.Prelude.{ℕ, ◌+◌, ◌-◌, false, Option, none, some, List, [], ◌∷◌, if◌then◌else◌, ◌==◌, update}
use psa.AtInterconnect.{
  Phase, begin_req, begin_resp, accepted, updated, completed, Trans, Route, AtInterconnect, Call,
  fw, Answer, Done, finishes, is_some, is_begin_resp, notify_end_req, take_response, queue_rsp,
  stop_propagation,
}
use psa.AtInterconnect.Forward.{request_ends, Answers, nb_transport_fw}
use psa.AtInterconnect.Backward.{nb_transport_bw, send_bw}

-- A response that was held back or has come up in a process of the interconnect
unfoldable pub deliver : Answers → AtInterconnect → ℕ → ℕ → ℕ → ℕ → List Call → Option Done
unfolding send_bw
deliver env s now init t delay calls =
    if is_some (s.rsp_in_progress init)
    then finishes (queue_rsp s init t (now + delay)) calls accepted begin_resp delay
    else send_bw env (take_response s init t) t begin_resp delay calls

-- `end_req_process` after the call of the target with a request that was queued
unfoldable pub after_queued :
    Answers → AtInterconnect → ℕ → ℕ → ℕ → Route → List Call → Answer → Option Done
unfolding deliver send_bw
after_queued env s now target t r calls a = elim a.status [
  | accepted ↦ finishes s calls accepted a.phase a.delay
  | updated ↦ elim (request_ends s target a.phase) [
    | none ↦ none
    | some s' ↦
        if is_begin_resp a.phase
        then deliver env s' now r.init t a.delay calls
        else send_bw env s' t a.phase a.delay calls
  ]
  | completed ↦
      deliver env (stop_propagation (notify_end_req s target) t r) now r.init t a.delay calls
]

-- The request `t` from the head of the queue of its target
unfoldable pub send_queued : Answers → AtInterconnect → ℕ → ℕ → ℕ → ℕ → Option Route → Option Done
unfolding after_queued
send_queued env s now target t delay none = none
send_queued env s now target t delay (some r) =
    if r.target == target
    then after_queued env s now target t r (fw target t begin_req delay ∷ [])
        (env.target_answers target t begin_req delay)
    else none

unfoldable pub next_request : Answers → AtInterconnect → ℕ → ℕ → List Trans → Option Done
unfolding send_queued
next_request env s now target [] =
    finishes (record s { req_in_progress = update s.req_in_progress target none }) [] accepted
      begin_req 0
next_request env s now target (req ∷ reqs) =
    send_queued env
      (record s {
        req_queue = update s.req_queue target reqs;
        req_in_progress = update s.req_in_progress target (some req.trans);
      })
      now target req.trans (req.time - now) (s.route req.trans)

-- `end_req_process`, once it was notified
unfoldable pub end_req_process : Answers → AtInterconnect → ℕ → ℕ → Option Done
unfolding next_request
end_req_process env s now target =
    if is_some (s.req_in_progress target)
    then next_request env (record s { end_req_event = update s.end_req_event target false }) now
        target (s.req_queue target)
    else none

unfoldable pub next_response : Answers → AtInterconnect → ℕ → ℕ → List Trans → Option Done
unfolding send_bw
next_response env s now init [] =
    finishes (record s { rsp_in_progress = update s.rsp_in_progress init none }) [] accepted
      begin_resp 0
next_response env s now init (rsp ∷ rsps) =
    send_bw env
      (record s {
        rsp_queue = update s.rsp_queue init rsps;
        rsp_in_progress = update s.rsp_in_progress init (some rsp.trans);
      })
      rsp.trans begin_resp (rsp.time - now) []

-- `end_rsp_process`, once it was notified
unfoldable pub end_rsp_process : Answers → AtInterconnect → ℕ → ℕ → Option Done
unfolding next_response
end_rsp_process env s now init =
    if is_some (s.rsp_in_progress init)
    then next_response env (record s { end_rsp_event = update s.end_rsp_event init false }) now init
        (s.rsp_queue init)
    else none

-- What may happen at a time `now`: a call of an initiator or of a target, or the process of an event
pub data Input : Type 0 where
  from_initiator : (now id trans : ℕ) (phase : Phase) (delay : ℕ) → Input
  from_target : (now id trans : ℕ) (phase : Phase) (delay : ℕ) → Input
  end_req_process_runs : (now target : ℕ) → Input
  end_rsp_process_runs : (now init : ℕ) → Input

-- A process runs only if its event was notified.
unfoldable pub handle : Answers → AtInterconnect → Input → Option Done
unfolding nb_transport_fw nb_transport_bw end_req_process end_rsp_process
handle env s (from_initiator now id t ph delay) = nb_transport_fw env s now id t ph delay
handle env s (from_target now id t ph delay) = nb_transport_bw env s now id t ph delay
handle env s (end_req_process_runs now target) =
    if s.end_req_event target
    then end_req_process env s now target
    else finishes s [] accepted begin_req 0
handle env s (end_rsp_process_runs now init) =
    if s.end_rsp_event init
    then end_rsp_process env s now init
    else finishes s [] accepted begin_resp 0
