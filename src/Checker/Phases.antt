-- ===== src/Checker/Phases.antt =====
-- locknsnoop/common/tlm2_base_protocol_checker.h: the checks of the phases of `nb_transport_fw` and
-- `nb_transport_bw`, before the calls and on their returns.
use psa.Prelude.{
  ℕ, ◌+◌, ◌++◌, Bool, true, false, ◌&&◌, not, none, some, List, [], ◌∷◌, if◌then◌else◌, ltb, ◌==◌,
}
use psa.AtInterconnect.{
  Phase, begin_req, end_req, begin_resp, end_resp, Sync, accepted, updated, completed, is_some,
  is_trans,
}
use psa.Checker.{
  CheckedPhase, uninitialized, extended, protocol, Clause, clause_6_5_h, clause_6_5_s, clause_6_7,
  clause_7_2_3_d, clause_7_2_3_i, clause_7_2_4_b, clause_7_2_4_c, clause_7_2_5_e, clause_7_2_5_k,
  CheckedTrans, Hop, CheckedPath, Checker, report, is_ok, is_under_way, set_hop,
}
use psa.Checker.Attributes.{check_initial_state, check_trans_not_modified}
use psa.Checker.Paths.{check_response_path, Checks}

abbrev pub is_phase : CheckedPhase → Phase → Bool
is_phase (protocol begin_req) begin_req = true
is_phase (protocol end_req) end_req = true
is_phase (protocol begin_resp) begin_resp = true
is_phase (protocol end_resp) end_resp = true
is_phase _ _ = false

abbrev pub is_extended : CheckedPhase → Bool
is_extended extended = true
is_extended _ = false

-- `if (phase < 5) m_map[&trans].ph = phase`
abbrev pub set_phase : Checker → ℕ → CheckedPhase → Checker
set_phase s t ph =
    let h : Hop = s.m_map t in if is_extended ph then s else set_hop s t (record h { ph = ph })

-- The check of the timing annotation, and the new time, after the phase is set
unfoldable pub set_phase_and_time : Checker → ℕ → ℕ → CheckedPhase → ℕ → Checker × List Clause
set_phase_and_time s now t ph delay =
    let s' : Checker = set_phase s t ph in
    let h : Hop = s'.m_map t in
    (
      set_hop s' t (record h { time = now + delay }),
      report (ltb (now + delay) h.time) clause_7_2_5_e,
    )

-- The memory manager and the reference count
abbrev pub manager_reports : CheckedTrans → List Clause
manager_reports p = report (not p.has_mm) clause_6_5_h ++ report (p.ref_count == 0) clause_6_5_s

-- The cases of the phase in `nb_transport_fw_pre_checks`
unfoldable pub check_fw_phase : Checker → ℕ → CheckedTrans → CheckedPhase → Checker × List Clause
unfolding check_initial_state
check_fw_phase s t p (protocol begin_req) =
    let h : Hop = s.m_map t in
    let (s', initial) = check_initial_state s t p in
    (
      record s' { m_request_in_progress = some t },
      initial
          ++ report (is_under_way h.ph) clause_7_2_3_i
          ++ report (is_some s.m_request_in_progress) clause_7_2_4_b
          ++ report (not (h.b_call == 0)) clause_7_2_5_k,
    )
check_fw_phase s t p (protocol end_resp) = (
  record s { m_response_in_progress = none },
  report (not (is_phase (s.m_map t).ph begin_resp)) clause_7_2_3_i,
)
check_fw_phase s t p extended = (s, [])
check_fw_phase s t p _ = (s, clause_7_2_3_d ∷ [])

-- `nb_transport_fw_pre_checks`
unfoldable pub nb_transport_fw_pre_checks :
    Checker → ℕ → ℕ → CheckedTrans → CheckedPhase → ℕ → Checker × List Clause
unfolding check_fw_phase set_phase_and_time
nb_transport_fw_pre_checks s now t p ph delay =
    let (s1, phase) = check_fw_phase s t p ph in
    let (s2, time) = set_phase_and_time s1 now t ph delay in
    (s2, manager_reports p ++ phase ++ time)

-- The cases of the phase in `nb_transport_response_checks`
unfoldable pub check_response_phase :
    Checker → ℕ → CheckedTrans → CheckedPhase → Checker × List Clause
unfolding check_response_path
check_response_phase s t p (protocol end_req) = (
  record s { m_request_in_progress = none },
  report (not (is_phase (s.m_map t).ph begin_req)) clause_7_2_3_i,
)
check_response_phase s t p (protocol begin_resp) =
    let ph = (s.m_map t).ph in
    let s' : Checker = record s {
      m_request_in_progress =
          if is_trans s.m_request_in_progress t then none else s.m_request_in_progress;
      m_response_in_progress = some t;
    } in
    let (s'', path) = check_response_path s' t p in
    (
      s'',
      report (not (is_phase ph begin_req) && not (is_phase ph end_req)) clause_7_2_3_i
          ++ report (is_some s.m_response_in_progress) clause_7_2_4_c
          ++ path,
    )
check_response_phase s t p extended = (s, [])
check_response_phase s t p _ = (s, clause_7_2_3_d ∷ [])

-- `nb_transport_response_checks`
unfoldable pub nb_transport_response_checks :
    Checker → ℕ → ℕ → CheckedTrans → CheckedPhase → ℕ → Checker × List Clause
unfolding check_response_phase set_phase_and_time
nb_transport_response_checks s now t p ph delay =
    let q : CheckedPath = s.shared_map t in
    let (s1, phase) = check_response_phase s t p ph in
    let (s2, time) = set_phase_and_time s1 now t ph delay in
    (
      s2,
      report (is_ok p.response_status && q.response_in_progress && not q.ok_response) clause_6_7
          ++ phase
          ++ time,
    )

-- The cases of the status in `nb_transport_fw_post_checks`. `start_phase` is a reference to the phase
-- that the call of the target may have changed, so that there is one phase.
unfoldable pub check_fw_status :
    Checker → ℕ → ℕ → CheckedTrans → CheckedPhase → ℕ → Sync → Checker × List Clause
unfolding nb_transport_response_checks check_response_path
check_fw_status s now t p ph delay accepted = (s, [])
check_fw_status s now t p ph delay updated = nb_transport_response_checks s now t p ph delay
check_fw_status s now t p ph delay completed =
    let (s', path) = if is_phase ph begin_req then check_response_path s t p else (s, []) in
    (set_phase (record s' { m_request_in_progress = none }) t uninitialized, path)

-- `nb_transport_fw_post_checks`
unfoldable pub nb_transport_fw_post_checks :
    ℕ → Checker → ℕ → ℕ → CheckedTrans → CheckedPhase → ℕ → Sync → Checks
unfolding check_fw_status check_trans_not_modified
nb_transport_fw_post_checks n s now t p ph delay st =
    let (s', status) = check_fw_status s now t p ph delay st in
    elim (check_trans_not_modified n s' t p) [
      | none ↦ none
      | some modified ↦ some (s', status ++ modified)
    ]

-- `nb_transport_bw_pre_checks`
unfoldable pub nb_transport_bw_pre_checks :
    Checker → ℕ → ℕ → CheckedTrans → CheckedPhase → ℕ → Checker × List Clause
unfolding nb_transport_response_checks
nb_transport_bw_pre_checks s now t p ph delay =
    let (s', response) = nb_transport_response_checks s now t p ph delay in
    (s', manager_reports p ++ response)

-- The cases of the phase in `nb_transport_bw_post_checks`
unfoldable pub check_bw_return : Checker → ℕ → CheckedPhase → Checker × List Clause
check_bw_return s t (protocol begin_req) = (s, clause_7_2_3_i ∷ [])
check_bw_return s t (protocol end_resp) = (
  record s { m_response_in_progress = none },
  report (not (is_phase (s.m_map t).ph begin_resp)) clause_7_2_3_i,
)
check_bw_return s t extended = (s, [])
check_bw_return s t _ = (s, clause_7_2_3_d ∷ [])

-- The cases of the status in `nb_transport_bw_post_checks`
unfoldable pub check_bw_status : Checker → ℕ → ℕ → CheckedPhase → ℕ → Sync → Checker × List Clause
unfolding check_bw_return set_phase_and_time
check_bw_status s now t ph delay accepted = (s, [])
check_bw_status s now t ph delay updated =
    let (s1, phase) = check_bw_return s t ph in
    let (s2, time) = set_phase_and_time s1 now t ph delay in (s2, phase ++ time)
check_bw_status s now t ph delay completed =
    (set_phase (record s { m_response_in_progress = none }) t uninitialized, [])

-- `nb_transport_bw_post_checks`
unfoldable pub nb_transport_bw_post_checks :
    ℕ → Checker → ℕ → ℕ → CheckedTrans → CheckedPhase → ℕ → Sync → Checks
unfolding check_bw_status check_trans_not_modified
nb_transport_bw_post_checks n s now t p ph delay st =
    let (s', status) = check_bw_status s now t ph delay st in
    elim (check_trans_not_modified n s' t p) [
      | none ↦ none
      | some modified ↦ some (s', status ++ modified)
    ]
