-- ===== src/AtInterconnect/Backward.antt =====
-- locknsnoop/common/at_interconnect.h: `nb_transport_bw`, which the targets call, and
-- `send_bw_to_initiator`.
use psa.Prelude.{
  ℕ, ◌+◌, Bool, true, false, ◌&&◌, not, Option, none, some, List, [], ◌∷◌, ◌++◌, if◌then◌else◌,
}
use psa.AtInterconnect.{
  Phase, end_req, begin_resp, end_resp, accepted, updated, completed, Route, AtInterconnect, Call,
  fw, bw, Answer, Done, finishes, is_some, is_trans, is_begin_resp, notify_end_req, notify_end_rsp,
  take_response, queue_rsp,
}
use psa.AtInterconnect.Forward.{Answers}

-- `nb_transport_bw` after the test of the response, and the call of the initiator
unfoldable pub pass_bw : Answers → AtInterconnect → ℕ → ℕ → Phase → ℕ → Option Done
pass_bw env s init t ph delay =
    let a = env.initiator_answers init t ph delay in
    elim a.status [
      | completed ↦
          if is_begin_resp a.phase && is_some (s.rsp_in_progress init)
          then finishes (notify_end_rsp s init) (bw init t ph delay ∷ []) completed a.phase a.delay
          else none
      | st ↦ finishes s (bw init t ph delay ∷ []) st a.phase a.delay
    ]

-- A response for `init`; its delay is made longer by 1000 ps.
unfoldable pub start_response : Answers → AtInterconnect → ℕ → ℕ → ℕ → ℕ → Option Done
unfolding pass_bw
start_response env s now init t delay =
    if is_some (s.rsp_in_progress init)
    then finishes (queue_rsp s init t (now + delay)) [] accepted begin_resp delay
    else pass_bw env (take_response s init t) init t begin_resp (delay + 1000)

unfoldable pub backward : Answers → AtInterconnect → ℕ → ℕ → Option Route → Phase → ℕ → Option Done
unfolding start_response pass_bw
backward env s now t none ph delay = none
backward env s now t (some r) begin_resp delay = start_response env s now r.init t delay
backward env s now t (some r) ph delay = pass_bw env s r.init t ph delay

-- The test that `nb_transport_bw` begins with
abbrev pub ends_request_of : AtInterconnect → ℕ → ℕ → Phase → Bool
ends_request_of s target t end_req = true
ends_request_of s target t begin_resp = is_trans (s.req_in_progress target) t
ends_request_of s target t _ = false

-- `nb_transport_bw`, called by the target `id` at the time `now`
unfoldable pub nb_transport_bw : Answers → AtInterconnect → ℕ → ℕ → ℕ → Phase → ℕ → Option Done
unfolding backward
nb_transport_bw env s now id t ph delay =
    if not (ends_request_of s id t ph)
    then backward env s now t (s.route t) ph delay
    else if is_some (s.req_in_progress id)
    then backward env (notify_end_req s id) now t (s.route t) ph delay
    else none

-- The end of a response that is passed on to the target, whose answer may not be an update
unfoldable pub send_end : AtInterconnect → List Call → Answer → Option Done
send_end s calls a = elim a.status [ updated ↦ none | st ↦ finishes s calls st a.phase a.delay ]

-- `send_bw_to_initiator`: its calls are added to those before.
unfoldable pub send_bw : Answers → AtInterconnect → ℕ → Phase → ℕ → List Call → Option Done
unfolding send_end
send_bw env s t ph delay calls = elim (s.route t) [
  | none ↦ none
  | some r ↦
      let a = env.initiator_answers r.init t ph delay in
      let calls' = calls ++ bw r.init t ph delay ∷ [] in
      elim a.status [
        | accepted ↦ finishes s calls' accepted a.phase a.delay
        | _ ↦
            if not (is_some (s.rsp_in_progress r.init))
            then none
            else if r.dont_propagate_fw
            then finishes (notify_end_rsp s r.init) calls' a.status a.phase a.delay
            else send_end (notify_end_rsp s r.init) (calls' ++ fw r.target t end_resp a.delay ∷ [])
                (env.target_answers r.target t end_resp a.delay)
      ]
]
