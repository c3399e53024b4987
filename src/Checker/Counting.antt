-- ===== src/Checker/Counting.antt =====
-- locknsnoop/common/tlm2_base_protocol_checker.h: how a call uses up the checks that are left.
use psa.Prelude.{ℕ, ◌+◌, ◌≤◌, ◌≡◌, refl, none, some, List, if◌then◌else◌, arith, if_cases}
use psa.AtInterconnect.{begin_req, begin_resp, is_trans, Sync, accepted, updated, completed}
use psa.Checker.{CheckedPhase, protocol, extended, uninitialized, Clause, CheckedTrans, Checker}
use psa.Checker.Attributes.{check_initial_state}
use psa.Checker.Paths.{check_response_path}
use psa.Checker.Phases.{
  is_phase, nb_transport_fw_pre_checks, nb_transport_bw_pre_checks, check_fw_status,
  check_bw_status, check_fw_phase, check_response_phase, set_phase_and_time,
  nb_transport_response_checks, check_bw_return,
}
use psa.Checker.Silence.{check_response_path-same}

pub fw_pre-num_checks :
    (s : Checker) (now t : ℕ) (p : CheckedTrans) (ph : CheckedPhase) (delay : ℕ)
    → s.num_checks ≤ (nb_transport_fw_pre_checks s now t p ph delay).0.num_checks + 1
unfolding nb_transport_fw_pre_checks check_fw_phase set_phase_and_time check_initial_state
fw_pre-num_checks s now t p (protocol begin_req) delay = omega arith
fw_pre-num_checks s now t p (protocol _) delay = omega arith
fw_pre-num_checks s now t p extended delay = omega arith
fw_pre-num_checks s now t p uninitialized delay = omega arith

-- The other checks use none up.
abbrev Same : Checker → Checker → Type 0
Same s' s = s'.num_checks ≡ s.num_checks

path-Same : (s : Checker) (t : ℕ) (p : CheckedTrans) → Same (check_response_path s t p).0 s
path-Same s t p = (check_response_path-same s t p).3

response-Same :
    (s : Checker) (now t : ℕ) (p : CheckedTrans) (ph : CheckedPhase) (delay : ℕ)
    → Same (nb_transport_response_checks s now t p ph delay).0 s
unfolding nb_transport_response_checks check_response_phase set_phase_and_time
response-Same s now t p (protocol begin_resp) delay =
    path-Same
      (record s {
        m_request_in_progress =
            if is_trans s.m_request_in_progress t then none else s.m_request_in_progress;
        m_response_in_progress = some t;
      })
      t p
response-Same s now t p (protocol _) delay = refl
response-Same s now t p extended delay = refl
response-Same s now t p uninitialized delay = refl

pub fw_status-Same :
    (s : Checker) (now t : ℕ) (p : CheckedTrans) (ph : CheckedPhase) (delay : ℕ) (st : Sync)
    → Same (check_fw_status s now t p ph delay st).0 s
unfolding check_fw_status
fw_status-Same s now t p ph delay accepted = refl
fw_status-Same s now t p ph delay updated = response-Same s now t p ph delay
fw_status-Same s now t p ph delay completed =
    if_cases (λ (r : Checker × List Clause). Same r.0 s) (is_phase ph begin_req)
      (λ asked. path-Same s t p) (λ other. refl)

pub bw_status-Same :
    (s : Checker) (now t : ℕ) (ph : CheckedPhase) (delay : ℕ) (st : Sync)
    → Same (check_bw_status s now t ph delay st).0 s
unfolding check_bw_status check_bw_return set_phase_and_time
bw_status-Same s now t ph delay accepted = refl
bw_status-Same s now t (protocol begin_req) delay updated = refl
bw_status-Same s now t (protocol _) delay updated = refl
bw_status-Same s now t extended delay updated = refl
bw_status-Same s now t uninitialized delay updated = refl
bw_status-Same s now t ph delay completed = refl

pub bw_pre-num_checks :
    (s : Checker) (now t : ℕ) (p : CheckedTrans) (ph : CheckedPhase) (delay : ℕ)
    → s.num_checks ≤ (nb_transport_bw_pre_checks s now t p ph delay).0.num_checks + 1
unfolding nb_transport_bw_pre_checks
bw_pre-num_checks s now t p ph delay = omega (arith, response-Same s now t p ph delay)
