-- ===== src/Checker/Tests.antt =====
-- locknsnoop/common/tlm2_base_protocol_checker.h: runs of calls through a checker.
use psa.Prelude.{ℕ, ◌≡◌, refl, true, false, Option, none, some, List, [], ◌∷◌, arith, ℕ_discrete}
use psa.Locking.{read, incomplete, ok, Status}
use psa.AtInterconnect.{Phase, begin_req, begin_resp, end_resp, Sync, accepted, updated, completed}
use psa.Checker.{protocol, clause_7_2_4_b, Clause, CheckedTrans, Checker, new_checker}
use psa.Checker.Paths.{Checks}
use psa.Checker.Rules.{IsLegal}
use psa.Checker.Calls.{NbCall}
use psa.Checker.Verdict.{HasNoAlarm, watch-HasNoAlarm}
use psa.Checker.Runs.{watch, seen, silent_IsLegal}

abbrev a_trans : Status → CheckedTrans
a_trans st = record {
  has_mm = true;
  ref_count = 1;
  command = read;
  data_ptr = 64;
  bytes = λ i. 0;
  data_length = 1;
  byte_enable_ptr = 0;
  enables = λ i. 0;
  byte_enable_length = 0;
  streaming_width = 1;
  dmi_allowed = false;
  response_status = st;
  extensions = λ i. false;
}

-- A call forward that is answered with a status and a phase
abbrev forward_call : ℕ → Phase → Status → Sync → Phase → Status → NbCall
forward_call t ph before st ph' after = record {
  forward = true;
  now = 0;
  trans = t;
  attributes = a_trans before;
  phase = protocol ph;
  delay = 0;
  returned = record { trans = a_trans after; phase = protocol ph'; delay = 0; status = st };
}

-- A request that is answered at once, and the end of the response
abbrev two_calls : List NbCall
two_calls =
    forward_call 1 begin_req incomplete updated begin_resp ok
    ∷ forward_call 1 end_resp ok accepted end_resp ok
    ∷ []

abbrev reports : Checks → Option (List Clause)
reports none = none
reports (some (s, r)) = some r

abbrev after : Checks → Checker
after none = new_checker 0
after (some (s, r)) = s

abbrev after_two : Checker
after_two = after (watch 0 (new_checker 0) two_calls)

two_calls_silent : watch 0 (new_checker 0) two_calls ≡ some (after_two, [])
unfolding watch
two_calls_silent = refl

silent_IsLegal_example : IsLegal (seen two_calls [])
silent_IsLegal_example = silent_IsLegal 0 0 two_calls after_two (omega arith) refl two_calls_silent

two_calls-IsLegal : IsLegal (seen two_calls [])
two_calls-IsLegal = (
  ((tt, refl, λ u b. ground arith), refl, λ u b. let d = ℕ_discrete 1 u in ground arith),
  refl,
  tt,
)

watch-HasNoAlarm_example : HasNoAlarm (watch 0 (new_checker 0) two_calls)
watch-HasNoAlarm_example =
    watch-HasNoAlarm 0 0 two_calls (omega arith) refl refl refl two_calls-IsLegal

-- Two requests at a time are reported,
two_requests_reported :
    reports (
      watch 0 (new_checker 0) (
        forward_call 1 begin_req incomplete accepted begin_req incomplete
        ∷ forward_call 2 begin_req incomplete accepted begin_req incomplete
        ∷ []))
    ≡ some (clause_7_2_4_b ∷ [])
unfolding watch
two_requests_reported = refl

-- but not if the end of a response is completed between them.
two_requests_missed :
    reports (
      watch 0 (new_checker 0) (
        forward_call 1 begin_req incomplete updated begin_resp ok
        ∷ forward_call 2 begin_req incomplete accepted begin_req incomplete
        ∷ forward_call 1 end_resp ok completed end_resp ok
        ∷ forward_call 3 begin_req incomplete accepted begin_req incomplete
        ∷ []))
    ≡ some []
unfolding watch
two_requests_missed = refl
