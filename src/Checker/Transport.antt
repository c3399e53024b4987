-- ===== src/Checker/Transport.antt =====
-- locknsnoop/common/tlm2_base_protocol_checker.h: `nb_transport_fw` and `nb_transport_bw`, and runs of
-- such calls.
use psa.Prelude.{ℕ, ◌++◌, none, some, List, [], if◌then◌else◌, ◌==◌}
use psa.AtInterconnect.{Sync}
use psa.Checker.{CheckedPhase, Clause, CheckedTrans, Checker}
use psa.Checker.Paths.{Checks}
use psa.Checker.Phases.{
  nb_transport_fw_pre_checks, nb_transport_fw_post_checks, nb_transport_bw_pre_checks,
  nb_transport_bw_post_checks,
}

-- What a call of the module on the other side leaves: the transaction, the phase, the delay, the status
pub record Returned : Type 0 where
  pub trans : CheckedTrans
  pub phase : CheckedPhase
  pub delay : ℕ
  pub status : Sync

-- The checks before a call and on its return, while `num_checks` is not 0; `during` is what other calls
-- and other checkers do to the state in between.
unfoldable pub check_around :
    Checker → Checker × List Clause → (Checker → Checker) → (Checker → Checks) → Checks
check_around s pre_checks during post_checks =
    let (s0, pre) = if s.num_checks == 0 then (s, []) else pre_checks in
    let s1 : Checker = during s0 in
    if s1.num_checks == 0
    then some (s1, pre)
    else elim (post_checks s1) [ none ↦ none | some (s2, post) ↦ some (s2, pre ++ post) ]

-- `nb_transport_fw`
unfoldable pub nb_transport_fw :
    ℕ → Checker → ℕ → ℕ → CheckedTrans → CheckedPhase → ℕ → (Checker → Checker) → Returned → Checks
unfolding check_around nb_transport_fw_pre_checks nb_transport_fw_post_checks
nb_transport_fw n s now t p ph delay during r =
    check_around s (nb_transport_fw_pre_checks s now t p ph delay) during
      (λ s1. nb_transport_fw_post_checks n s1 now t r.trans r.phase r.delay r.status)

-- `nb_transport_bw`
unfoldable pub nb_transport_bw :
    ℕ → Checker → ℕ → ℕ → CheckedTrans → CheckedPhase → ℕ → (Checker → Checker) → Returned → Checks
unfolding check_around nb_transport_bw_pre_checks nb_transport_bw_post_checks
nb_transport_bw n s now t p ph delay during r =
    check_around s (nb_transport_bw_pre_checks s now t p ph delay) during
      (λ s1. nb_transport_bw_post_checks n s1 now t r.trans r.phase r.delay r.status)
