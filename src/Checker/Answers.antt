-- ===== src/Checker/Answers.antt =====
-- locknsnoop/common/tlm2_base_protocol_checker.h: the checks before a call and on its return make no
-- report on the order of the phases or on the exclusion rules where the rules are kept.
use psa.Prelude.{ℕ, ◌≡◌, refl, ap, true, some, List, arith, ℕ_discrete, if_cases}
use psa.AtInterconnect.{begin_req, begin_resp, Sync, accepted, updated, completed}
use psa.Checker.{CheckedPhase, Clause, CheckedTrans, Checker, clause_7_2_5_e}
use psa.Checker.Phases.{
  is_phase, set_phase_and_time, nb_transport_fw_pre_checks, check_fw_status,
  nb_transport_bw_pre_checks, check_bw_status,
}
use psa.Checker.Rules.{History, last, IsLegal}
use psa.Checker.Silence.{mark, return_mark, completed_path-same}
use psa.Checker.Exact.{complete_request-IsExact, complete_response-IsExact}
use psa.Checker.Alarms.{IsQuiet, quiet, both-IsQuiet, then-IsQuiet, manager-IsQuiet, path-IsQuiet}
use psa.Checker.Accepts.{
  IsFollowed, is_forward, is_backward, is_return, check_fw-Accepts, check_bw-Accepts,
  response_checks-Accepts,
}

pub fw_pre-Accepts :
    (s : Checker) (now t : ℕ) (p : CheckedTrans) (ph : CheckedPhase) (delay : ℕ) (h : History)
    → IsFollowed s h
    → is_forward ph ≡ true
    → IsLegal (mark t ph h)
    → IsQuiet (nb_transport_fw_pre_checks s now t p ph delay).1
      × IsFollowed (nb_transport_fw_pre_checks s now t p ph delay).0 (mark t ph h)
unfolding nb_transport_fw_pre_checks set_phase_and_time
fw_pre-Accepts s now t p ph delay h k way legal =
    let (q, exact) = check_fw-Accepts s now t p ph delay h k way legal in
    (then-IsQuiet _ _ clause_7_2_5_e refl (both-IsQuiet _ _ (manager-IsQuiet p) q), exact)

pub bw_pre-Accepts :
    (s : Checker) (now t : ℕ) (p : CheckedTrans) (ph : CheckedPhase) (delay : ℕ) (h : History)
    → IsFollowed s h
    → is_backward ph ≡ true
    → IsLegal (mark t ph h)
    → IsQuiet (nb_transport_bw_pre_checks s now t p ph delay).1
      × IsFollowed (nb_transport_bw_pre_checks s now t p ph delay).0 (mark t ph h)
unfolding nb_transport_bw_pre_checks
bw_pre-Accepts s now t p ph delay h k way legal =
    let (q, exact) = response_checks-Accepts s now t p ph delay h k way legal in
    (both-IsQuiet _ _ (manager-IsQuiet p) q, exact)

pub fw_status-Accepts :
    (s : Checker) (now t : ℕ) (p : CheckedTrans) (ph : CheckedPhase) (delay : ℕ) (st : Sync)
    (h : History)
    → IsFollowed s h
    → (st ≡ updated → is_backward ph ≡ true)
    → (st ≡ completed → last t h ≡ some begin_req)
    → IsLegal (return_mark t st ph h)
    → IsQuiet (check_fw_status s now t p ph delay st).1
      × IsFollowed (check_fw_status s now t p ph delay st).0 (return_mark t st ph h)
unfolding check_fw_status
fw_status-Accepts s now t p ph delay accepted h k way well legal = (quiet refl, k)
fw_status-Accepts s now t p ph delay updated h k way well legal =
    response_checks-Accepts s now t p ph delay h k (way refl) legal
fw_status-Accepts s now t p ph delay completed h k way well legal =
    let (same, resp) = completed_path-same s t p (is_phase ph begin_req) in
    (
      if_cases (λ (r : Checker × List Clause). IsQuiet r.1) (is_phase ph begin_req)
          (λ asked. path-IsQuiet s t p) (λ other. quiet refl),
      rw resp (
          complete_request-IsExact (λ u. (s.m_map u).ph) _ s.m_request_in_progress
            s.m_response_in_progress h t k
            (λ u.
              let a = ap (λ f. f u) same in
              let b = ap (λ f. f t) same in let d = ℕ_discrete t u in ground arith)
            (well refl)),
    )

pub bw_status-Accepts :
    (s : Checker) (now t : ℕ) (ph : CheckedPhase) (delay : ℕ) (st : Sync) (h : History)
    → IsFollowed s h
    → (st ≡ updated → is_return ph ≡ true)
    → (st ≡ completed → last t h ≡ some begin_resp)
    → IsLegal (return_mark t st ph h)
    → IsQuiet (check_bw_status s now t ph delay st).1
      × IsFollowed (check_bw_status s now t ph delay st).0 (return_mark t st ph h)
unfolding check_bw_status set_phase_and_time
bw_status-Accepts s now t ph delay accepted h k way well legal = (quiet refl, k)
bw_status-Accepts s now t ph delay updated h k way well legal =
    let (q, exact) = check_bw-Accepts s now t ph delay h k (way refl) legal in
    (then-IsQuiet _ _ clause_7_2_5_e refl q, exact)
bw_status-Accepts s now t ph delay completed h k way well legal = (
  quiet refl,
  complete_response-IsExact (λ u. (s.m_map u).ph) _ s.m_request_in_progress s.m_response_in_progress
      h t k (λ u. let d = ℕ_discrete t u in ground arith) (well refl),
)
