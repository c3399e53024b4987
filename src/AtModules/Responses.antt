-- ===== src/AtModules/Responses.antt =====
-- locknsnoop/common/at_typed_target.h: one response at a time, on either path.
use psa.Prelude.{
  ◌+◌, ◌≡◌, ◌⊎◌, refl, true, false, none, List, [], ◌∷◌, arith, Bool-cases, ◌∙◌, inl, inr,
}
use psa.AtInterconnect.{begin_req, end_req, begin_resp, end_resp, is_some}
use psa.AtModules.{Store, Around, illegal_end_resp, Outcome, runs, fatal, Outcome-cases}
use psa.AtModules.Pipeline.{flag}
use psa.AtModules.Single.{responses, releases}
use psa.AtModules.Typed.{
  Target, constructed, accept, on_begin_req, on_end_resp, nb_transport_fw, send_rsp,
  send_rsp_process, Input, transport, send_rsp_process_runs, step, handle, keeps_rule, play,
}

-- Of the responses that were begun all have ended, but for the one in progress. The event stands only
-- for a response that is held back while none is in progress.
pub record IsExclusive (s : Target) : Type 0 where
  pub exclusive : responses s.did ≡ releases s.did + flag s.response_in_progress
  pub held :
      (s.send_rsp_event ≡ false)
      ⊎ (is_some s.next_response_pending ≡ true) × (s.response_in_progress ≡ false)
  pub waits :
      (s.next_response_pending ≡ none) ⊎ (s.response_in_progress ≡ true) ⊎ (s.send_rsp_event ≡ true)

-- A run that goes on, or an END_RESP with no response in progress
abbrev pub After : Outcome Target → Type 0
After (runs s) = IsExclusive s
After (fatal illegal_end_resp) = Unit
After (fatal _) = ⊥

step-IsExclusive :
    (env : Around) (s : Target) (i : Input)
    → IsExclusive s
    → keeps_rule s i ≡ true
    → After (step env s i)
unfolding step nb_transport_fw on_begin_req on_end_resp accept send_rsp_process send_rsp
step-IsExclusive env s (transport now t begin_req delay) h rule = ground arith
step-IsExclusive env s (transport now t end_resp delay) h rule = ground arith
step-IsExclusive env s (transport now t end_req delay) h rule = ground arith
step-IsExclusive env s (transport now t begin_resp delay) h rule = ground arith
step-IsExclusive env s (send_rsp_process_runs now) h rule = ground arith

keeps_rule-store :
    (s : Target) (m : Store) (i : Input) → keeps_rule (record s { store = m }) i ≡ keeps_rule s i
keeps_rule-store s m (transport now t begin_req delay) = refl
keeps_rule-store s m (transport now t _ delay) = refl
keeps_rule-store s m (send_rsp_process_runs now) = refl

handle-IsExclusive :
    (env : Around) (s : Target) (i : Input)
    → IsExclusive s
    → keeps_rule s i ≡ true
    → After (handle env s i)
unfolding handle
handle-IsExclusive env s i h rule =
    let m : Store = env.store_before s.store in
    step-IsExclusive env (record s { store = m }) i (ground arith) (keeps_rule-store s m i ∙ rule)

play-IsExclusive : (s : Target) (is : List (Around × Input)) → IsExclusive s → After (play s is)
unfolding play
play-IsExclusive s [] h = h
play-IsExclusive s ((env, i) ∷ is) h = elim (Bool-cases (keeps_rule s i)) [
  | inr breaks ↦ rw (play, breaks) h
  | inl keeps ↦
      let first = handle-IsExclusive env s i h keeps in
      elim (Outcome-cases (handle env s i)) [
        | inl (s', e) ↦ let one = rw e at first in rw (play, keeps, e) (play-IsExclusive s' is one)
        | inr (why, e) ↦ let one = rw e at first in rw (play, keeps, e) one
      ]
]

-- In every run of a target of type D from its start in which a BEGIN_REQ comes only when the last
-- request has got its BEGIN_RESP, for any other calls, any answers to its own calls and any runs of
-- its process once the event was notified: the responses begun, on the return or the backward path,
-- are those that ended and the one in progress, so that there are never two; a response held back
-- waits for the one in progress or the event was notified for it, and the event stands for nothing
-- else; and neither the `assert` of the process fails nor are there two responses to hold back.
pub response_exclusion : (m : Store) (is : List (Around × Input)) → After (play (constructed m) is)
response_exclusion m is = play-IsExclusive (constructed m) is (ground arith)
