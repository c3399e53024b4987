-- ===== src/Checker/Accepts.antt =====
-- locknsnoop/common/tlm2_base_protocol_checker.h: the checks make no report on the order of the phases
-- or on the exclusion rules where the rules are kept.
use psa.Prelude.{
  ℕ, ◌≡◌, refl, ap, Bool, true, false, not, ◌&&◌, none, some, if◌then◌else◌, arith, ℕ_discrete,
}
use psa.AtInterconnect.{begin_req, end_req, begin_resp, end_resp, is_some, is_trans}
use psa.Checker.{
  CheckedPhase, extended, protocol, CheckedTrans, Checker, is_under_way, clause_6_7, clause_7_2_5_e,
  clause_7_2_5_k, clause_7_2_3_i, clause_7_2_4_b, clause_7_2_4_c,
}
use psa.Checker.Attributes.{check_initial_state}
use psa.Checker.Phases.{
  is_phase, set_phase_and_time, check_fw_phase, check_response_phase, nb_transport_response_checks,
  check_bw_return,
}
use psa.Checker.Rules.{History, IsLegal}
use psa.Checker.Silence.{mark, check_response_path-same}
use psa.Checker.Exact.{
  IsExact, request_allowed, response_allowed, end_request_allowed, end_response_allowed,
  begin_request-IsExact, end_request-IsExact, begin_response-IsExact, end_response-IsExact,
  same-IsExact,
}
use psa.Checker.Alarms.{
  IsQuiet, quiet, both-IsQuiet, other-IsQuiet, kept-IsQuiet, then-IsQuiet, initial-IsQuiet,
  path-IsQuiet,
}

abbrev pub IsFollowed : Checker → History → Type 0
IsFollowed s h = IsExact (λ u. (s.m_map u).ph) s.m_request_in_progress s.m_response_in_progress h

-- The phases that are sent forward, by calls and on the returns of calls backward
abbrev pub is_forward : CheckedPhase → Bool
is_forward (protocol begin_req) = true
is_forward (protocol end_resp) = true
is_forward extended = true
is_forward _ = false

-- The phases that are sent backward, by calls and on the returns of calls forward
abbrev pub is_backward : CheckedPhase → Bool
is_backward (protocol end_req) = true
is_backward (protocol begin_resp) = true
is_backward extended = true
is_backward _ = false

-- A request cannot begin on the return of a call backward.
abbrev pub is_return : CheckedPhase → Bool
is_return (protocol end_resp) = true
is_return extended = true
is_return _ = false

pub check_fw-Accepts :
    (s : Checker) (now t : ℕ) (p : CheckedTrans) (ph : CheckedPhase) (delay : ℕ) (h : History)
    → IsFollowed s h
    → is_forward ph ≡ true
    → IsLegal (mark t ph h)
    → IsQuiet (check_fw_phase s t p ph).1
      × IsFollowed (set_phase_and_time (check_fw_phase s t p ph).0 now t ph delay).0 (mark t ph h)
unfolding check_fw_phase set_phase_and_time check_initial_state
check_fw-Accepts s now t p (protocol begin_req) delay h k way legal =
    let (idle, free) =
      request_allowed (λ u. (s.m_map u).ph) (λ u. (s.m_map u).ph) s.m_request_in_progress
        s.m_response_in_progress h t k legal in
    (
      then-IsQuiet _ _ clause_7_2_5_k refl (
          both-IsQuiet _ _
            (both-IsQuiet _ _ (initial-IsQuiet (s.shared_map t) p)
              (kept-IsQuiet (is_under_way (s.m_map t).ph) clause_7_2_3_i idle))
            (kept-IsQuiet (is_some s.m_request_in_progress) clause_7_2_4_b (ground arith))),
      begin_request-IsExact (λ u. (s.m_map u).ph) _ s.m_request_in_progress s.m_response_in_progress
          h t k (λ u. let d = ℕ_discrete t u in ground arith) legal,
    )
check_fw-Accepts s now t p (protocol end_resp) delay h k way legal =
    let at =
      end_response_allowed (λ u. (s.m_map u).ph) (λ u. (s.m_map u).ph) s.m_request_in_progress
        s.m_response_in_progress h t k legal in
    (
      kept-IsQuiet (not (is_phase (s.m_map t).ph begin_resp)) clause_7_2_3_i (ground arith),
      end_response-IsExact (λ u. (s.m_map u).ph) _ s.m_request_in_progress s.m_response_in_progress
          h t k (λ u. let d = ℕ_discrete t u in ground arith) legal,
    )
check_fw-Accepts s now t p extended delay h k way legal = (
  quiet refl,
  same-IsExact (λ u. (s.m_map u).ph) _ s.m_request_in_progress s.m_response_in_progress h t k
      (λ u. let d = ℕ_discrete t u in ground arith),
)
check_fw-Accepts s now t p _ delay h k way legal = absurd (ground arith)

check_response-Accepts :
    (s : Checker) (now t : ℕ) (p : CheckedTrans) (ph : CheckedPhase) (delay : ℕ) (h : History)
    → IsFollowed s h
    → is_backward ph ≡ true
    → IsLegal (mark t ph h)
    → IsQuiet (check_response_phase s t p ph).1
      × IsFollowed
          (set_phase_and_time (check_response_phase s t p ph).0 now t ph delay).0
          (mark t ph h)
unfolding check_response_phase set_phase_and_time
check_response-Accepts s now t p (protocol end_req) delay h k way legal =
    let at =
      end_request_allowed (λ u. (s.m_map u).ph) (λ u. (s.m_map u).ph) s.m_request_in_progress
        s.m_response_in_progress h t k legal in
    (
      kept-IsQuiet (not (is_phase (s.m_map t).ph begin_req)) clause_7_2_3_i (ground arith),
      end_request-IsExact (λ u. (s.m_map u).ph) _ s.m_request_in_progress s.m_response_in_progress h
          t k (λ u. let d = ℕ_discrete t u in ground arith) legal,
    )
check_response-Accepts s now t p (protocol begin_resp) delay h k way legal =
    let s' : Checker = record s {
      m_request_in_progress =
          if is_trans s.m_request_in_progress t then none else s.m_request_in_progress;
      m_response_in_progress = some t;
    } in
    let (same, req, resp, _) = check_response_path-same s' t p in
    let ph = (s.m_map t).ph in
    let (idle, free) =
      response_allowed (λ u. (s.m_map u).ph) (λ u. (s.m_map u).ph) s.m_request_in_progress
        s.m_response_in_progress h t k legal in
    (
      both-IsQuiet _ _
          (both-IsQuiet _ _
            (kept-IsQuiet (not (is_phase ph begin_req) && not (is_phase ph end_req)) clause_7_2_3_i
              idle)
            (kept-IsQuiet (is_some s.m_response_in_progress) clause_7_2_4_c (ground arith)))
          (path-IsQuiet s' t p),
      rw (req, resp)
          (begin_response-IsExact (λ u. (s.m_map u).ph) _ s.m_request_in_progress
            s.m_response_in_progress h t k
            (λ u.
              let a = ap (λ f. f u) same in
              let b = ap (λ f. f t) same in let d = ℕ_discrete t u in ground arith)
            legal),
    )
check_response-Accepts s now t p extended delay h k way legal = (
  quiet refl,
  same-IsExact (λ u. (s.m_map u).ph) _ s.m_request_in_progress s.m_response_in_progress h t k
      (λ u. let d = ℕ_discrete t u in ground arith),
)
check_response-Accepts s now t p _ delay h k way legal = absurd (ground arith)

pub check_bw-Accepts :
    (s : Checker) (now t : ℕ) (ph : CheckedPhase) (delay : ℕ) (h : History)
    → IsFollowed s h
    → is_return ph ≡ true
    → IsLegal (mark t ph h)
    → IsQuiet (check_bw_return s t ph).1
      × IsFollowed (set_phase_and_time (check_bw_return s t ph).0 now t ph delay).0 (mark t ph h)
unfolding check_bw_return set_phase_and_time
check_bw-Accepts s now t (protocol end_resp) delay h k way legal =
    let at =
      end_response_allowed (λ u. (s.m_map u).ph) (λ u. (s.m_map u).ph) s.m_request_in_progress
        s.m_response_in_progress h t k legal in
    (
      kept-IsQuiet (not (is_phase (s.m_map t).ph begin_resp)) clause_7_2_3_i (ground arith),
      end_response-IsExact (λ u. (s.m_map u).ph) _ s.m_request_in_progress s.m_response_in_progress
          h t k (λ u. let d = ℕ_discrete t u in ground arith) legal,
    )
check_bw-Accepts s now t extended delay h k way legal = (
  quiet refl,
  same-IsExact (λ u. (s.m_map u).ph) _ s.m_request_in_progress s.m_response_in_progress h t k
      (λ u. let d = ℕ_discrete t u in ground arith),
)
check_bw-Accepts s now t _ delay h k way legal = absurd (ground arith)

pub response_checks-Accepts :
    (s : Checker) (now t : ℕ) (p : CheckedTrans) (ph : CheckedPhase) (delay : ℕ) (h : History)
    → IsFollowed s h
    → is_backward ph ≡ true
    → IsLegal (mark t ph h)
    → IsQuiet (nb_transport_response_checks s now t p ph delay).1
      × IsFollowed (nb_transport_response_checks s now t p ph delay).0 (mark t ph h)
unfolding nb_transport_response_checks set_phase_and_time
response_checks-Accepts s now t p ph delay h k way legal =
    let (q, exact) = check_response-Accepts s now t p ph delay h k way legal in
    (
      then-IsQuiet _ _ clause_7_2_5_e refl (both-IsQuiet _ _ (other-IsQuiet _ clause_6_7 refl) q),
      exact,
    )
