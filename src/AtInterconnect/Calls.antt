-- ===== src/AtInterconnect/Calls.antt =====
-- locknsnoop/common/at_interconnect.h: the request that is open at a target after the calls of a step,
-- and the members that say so.
use psa.Prelude.{
  ℕ, ◌≡◌, refl, Bool, true, false, Option, none, some, List, [], ◌∷◌, ◌++◌, if◌then◌else◌, ◌==◌,
  arith, if_cases, Bool-cases, Option-cases, inl, inr, ℕ_discrete, update,
}
use psa.AtInterconnect.{
  Phase, begin_req, end_req, begin_resp, end_resp, Route, AtInterconnect, Call, fw, bw, Answer,
  is_some, notify_end_req, notify_end_rsp, take_response, stop_propagation, is_begin_resp,
  decode_address, masked,
}
use psa.AtInterconnect.Forward.{
  Answers, return_updated, return_completed, after_fw, pass_fw, accept_request, accept_end,
}
use psa.AtInterconnect.Backward.{pass_bw, start_response, backward, send_end, send_bw}
use psa.AtInterconnect.Processes.{deliver, after_queued}
use psa.AtInterconnect.Open.{after_call, after_calls, open_here, is_live, Follows}

pub after_calls-append :
    (q : ℕ) (env : Answers) (cs : List Call) (c : Call) (o : Option ℕ)
    → after_calls q env (cs ++ c ∷ []) o ≡ after_call q env c (after_calls q env cs o)
after_calls-append q env [] c o = refl
after_calls-append q env (d ∷ cs) c o = after_calls-append q env cs c (after_call q env d o)

pub pass_bw-Follows :
    (q : ℕ) (env : Answers) (s : AtInterconnect) (init t : ℕ) (ph : Phase) (delay : ℕ)
    → is_live s q ≡ true
    → Follows q env (open_here s q) (pass_bw env s init t ph delay)
unfolding pass_bw
pass_bw-Follows q env s init t ph delay live = ground arith

pub backward-Follows :
    (q : ℕ) (env : Answers) (s : AtInterconnect) (now t : ℕ) (r : Option Route) (ph : Phase)
    (delay : ℕ)
    → is_live s q ≡ true
    → Follows q env (open_here s q) (backward env s now t r ph delay)
unfolding backward start_response pass_bw
backward-Follows q env s now t none ph delay live = tt
backward-Follows q env s now t (some r) begin_resp delay live = ground arith
backward-Follows q env s now t (some r) _ delay live = ground arith

abbrev pub is_request : Phase → Bool
is_request begin_req = true
is_request _ = false

-- After the call of the target with a request, or with another phase, and its answer
pub fw_request-Follows :
    (q : ℕ) (env : Answers) (o : Option ℕ) (s : AtInterconnect) (now id t target delay : ℕ)
    (r : Route)
    → s.req_in_progress target ≡ some t
    → s.end_req_event target ≡ false
    → ((target == q) ≡ false → (o ≡ open_here s q) × (is_live s q ≡ true))
    → Follows q env o (
        after_fw s now id t target
          (some r)
          (fw target t begin_req delay ∷ [])
          (env.target_answers target t begin_req delay))
unfolding after_fw return_updated return_completed
fw_request-Follows q env o s now id t target delay r e1 e2 other = elim (ℕ_discrete target q) [
  | yes here ↦ let busy = rw here at e1 in let quiet = rw here at e2 in rw here (ground arith)
  | no ne ↦ let same = other (ground arith) in ground arith
]

pub fw_other-Follows :
    (q : ℕ) (env : Answers) (s : AtInterconnect) (now id t target delay : ℕ) (ph : Phase)
    → is_live s q ≡ true
    → is_request ph ≡ false
    → Follows q env (open_here s q) (
        after_fw s now id t target none
          (fw target t ph delay ∷ [])
          (env.target_answers target t ph delay))
unfolding after_fw return_updated return_completed
fw_other-Follows q env s now id t target delay begin_req live other = ground arith
fw_other-Follows q env s now id t target delay end_req live other =
    let one = ℕ_discrete target q in ground arith
fw_other-Follows q env s now id t target delay begin_resp live other =
    let one = ℕ_discrete target q in ground arith
fw_other-Follows q env s now id t target delay end_resp live other =
    let one = ℕ_discrete target q in ground arith

pub accept_request-Follows :
    (q : ℕ) (env : Answers) (s : AtInterconnect) (now id t delay : ℕ)
    → ((p : ℕ) → is_live s p ≡ true)
    → Follows q env (open_here s q) (accept_request env s now id t delay)
unfolding accept_request pass_fw
accept_request-Follows q env s now id t delay all =
    let target : ℕ = decode_address s (s.address t) in
    let r : Route = record { init = id; target = target; dont_propagate_fw = false } in
    let s' : AtInterconnect = record s {
      address = update s.address t (masked (s.address t));
      route = update s.route t (some r);
      req_in_progress = update s.req_in_progress target (some t);
    } in
    let here = all target in
    let live = all q in
    let one = ℕ_discrete target q in
    elim (Bool-cases (is_some (s.req_in_progress target))) [
      | inl busy ↦ rw busy (refl, live)
      | inr idle ↦ rw idle (
          fw_request-Follows q env (open_here s q) s' now id t target delay r (ground arith)
            (ground arith) (λ ne. rw ne (refl, live)))
    ]

pub accept_end-Follows :
    (q : ℕ) (env : Answers) (s : AtInterconnect) (now id t : ℕ) (r : Option Route) (delay : ℕ)
    → is_live s q ≡ true
    → Follows q env (open_here s q) (accept_end env s now id t r delay)
unfolding accept_end pass_fw
accept_end-Follows q env s now id t none delay live = tt
accept_end-Follows q env s now id t (some r) delay live =
    let rest =
      fw_other-Follows q env (notify_end_rsp s r.init) now id t r.target delay end_resp live refl in
    ground arith

-- The answers of the initiators change nothing, and an END_RESP that goes on to the target is not
-- answered by an update.
pub send_bw-Follows :
    (q : ℕ) (env : Answers) (o : Option ℕ) (s : AtInterconnect) (t : ℕ) (ph : Phase) (delay : ℕ)
    (calls : List Call)
    → after_calls q env calls o ≡ open_here s q
    → is_live s q ≡ true
    → Follows q env o (send_bw env s t ph delay calls)
unfolding send_bw send_end
send_bw-Follows q env o s t ph delay calls e live = elim (Option-cases (s.route t)) [
  | inl missing ↦ rw (send_bw, missing) tt
  | inr (r, found) ↦
      let a : Answer = env.initiator_answers r.init t ph delay in
      let calls' : List Call = calls ++ bw r.init t ph delay ∷ [] in
      let first = after_calls-append q env calls (bw r.init t ph delay) o in
      let second = after_calls-append q env calls' (fw r.target t end_resp a.delay) o in
      rw (send_bw, found) (ground arith)
]

pub deliver-Follows :
    (q : ℕ) (env : Answers) (o : Option ℕ) (s : AtInterconnect) (now init t delay : ℕ)
    (calls : List Call)
    → after_calls q env calls o ≡ open_here s q
    → is_live s q ≡ true
    → Follows q env o (deliver env s now init t delay calls)
unfolding deliver
deliver-Follows q env o s now init t delay calls e live =
    if_cases (Follows q env o) (is_some (s.rsp_in_progress init)) (λ busy. (e, live))
      (λ free. send_bw-Follows q env o (take_response s init t) t begin_resp delay calls e live)

pub updated-Follows :
    (q : ℕ) (env : Answers) (o : Option ℕ) (s : AtInterconnect) (now t : ℕ) (r : Route)
    (calls : List Call) (a : Answer)
    → after_calls q env calls o ≡ open_here s q
    → is_live s q ≡ true
    → Follows q env o (
        if is_begin_resp a.phase
        then deliver env s now r.init t a.delay calls
        else send_bw env s t a.phase a.delay calls)
updated-Follows q env o s now t r calls a e live =
    if_cases (Follows q env o) (is_begin_resp a.phase)
      (λ resp. deliver-Follows q env o s now r.init t a.delay calls e live)
      (λ other. send_bw-Follows q env o s t a.phase a.delay calls e live)

-- After the call of the target with a request from the queue, and its answer
pub after_queued-Follows :
    (q : ℕ) (env : Answers) (o : Option ℕ) (s : AtInterconnect) (now target t delay : ℕ) (r : Route)
    → s.req_in_progress target ≡ some t
    → s.end_req_event target ≡ false
    → ((target == q) ≡ false → (o ≡ open_here s q) × (is_live s q ≡ true))
    → Follows q env o (
        after_queued env s now target t r
          (fw target t begin_req delay ∷ [])
          (env.target_answers target t begin_req delay))
unfolding after_queued
after_queued-Follows q env o s now target t delay r e1 e2 other =
    let a : Answer = env.target_answers target t begin_req delay in
    let calls : List Call = fw target t begin_req delay ∷ [] in
    let ended : AtInterconnect = notify_end_req s target in
    let done : AtInterconnect = stop_propagation ended t r in
    let sent_on = deliver-Follows q env o done now r.init t a.delay calls in
    let noted = updated-Follows q env o ended now t r calls a in
    let plain = updated-Follows q env o s now t r calls a in
    elim (ℕ_discrete target q) [
      | yes here ↦ let busy = rw here at e1 in let quiet = rw here at e2 in ground arith
      | no ne ↦ let same = other (ground arith) in ground arith
    ]
