-- ===== src/Checker/Paths.antt =====
-- locknsnoop/common/tlm2_base_protocol_checker.h: the path of a transaction through several checkers, and
-- the checks of the calls other than `nb_transport_fw` and `nb_transport_bw`.
use psa.Prelude.{
  ℕ, ◌+◌, ◌-◌, ◌^◌, ◌++◌, Bool, ◌&&◌, not, Option, none, some, List, [], ◌∷◌, if◌then◌else◌, ltb,
  ◌==◌, u32,
}
use psa.Checker.{
  Clause, clause_4_1_1_4_b, clause_4_2_5_a, clause_4_2_5_f, clause_4_2_5_s, clause_4_2_5_aa,
  clause_4_3_4_j, clause_4_3_4_o, clause_6_5_s, clause_7_2_5_k, clause_7_2_5_m_n, CheckedTrans, Hop,
  CheckedPath, Checker, report, is_ok, is_under_way, set_hop, set_path,
}
use psa.Checker.Attributes.{is_empty, check_initial_state, check_trans_not_modified}

-- The data of the response, where they were not copied yet
abbrev pub keep_data : Option (ℕ → ℕ) → (ℕ → ℕ) → Option (ℕ → ℕ)
keep_data none bytes = some bytes
keep_data (some old) bytes = some old

-- `check_response_path`
unfoldable pub check_response_path : Checker → ℕ → CheckedTrans → Checker × List Clause
check_response_path s t p =
    let q : CheckedPath = s.shared_map t in
    elim q.path [
      | [] ↦ (s, [])
      | last ∷ others ↦ (
        set_path s t (record {
          path = others;
          response_in_progress = not (is_empty others);
          ok_response = is_ok p.response_status;
          resp_data = keep_data q.resp_data p.bytes;
        }),
        report (not (last == s.this)) clause_7_2_5_m_n,
      )
    ]

-- `b_transport_pre_checks`; `in_method` is whether the process that calls is a method.
unfoldable pub b_transport_pre_checks : Checker → ℕ → CheckedTrans → Bool → Checker × List Clause
unfolding check_initial_state
b_transport_pre_checks s t p in_method =
    let h : Hop = s.m_map t in
    let (s', initial) =
      check_initial_state (set_hop s t (record h { b_call = u32 (h.b_call + 1) })) t p in
    (
      s',
      report (p.has_mm && p.ref_count == 0) clause_6_5_s
          ++ initial
          ++ report in_method clause_4_1_1_4_b
          ++ report (is_under_way h.ph) clause_7_2_5_k,
    )

-- `b_transport_post_checks`
unfoldable pub b_transport_post_checks :
    ℕ → Checker → ℕ → CheckedTrans → Option (Checker × List Clause)
unfolding check_response_path check_trans_not_modified
b_transport_post_checks n s t p =
    let (s', path) = check_response_path s t p in
    let h : Hop = s'.m_map t in
    elim (check_trans_not_modified n s' t p) [
      | none ↦ none
      | some modified ↦
          some
            (set_hop s' t (record h { b_call = u32 (h.b_call + (2 ^ 32 - 1)) }), path ++ modified)
    ]

-- The result of a call, `none` where it uses a null pointer
abbrev pub Checks : Type 0
Checks = Option (Checker × List Clause)

-- `b_transport`; `after` is the transaction after the call of the target, and `during` what other calls
-- and other checkers do to the state meanwhile.
unfoldable pub b_transport :
    ℕ → Checker → ℕ → CheckedTrans → Bool → (Checker → Checker) → CheckedTrans → Checks
unfolding b_transport_pre_checks b_transport_post_checks
b_transport n s t p in_method during after =
    let (s0, pre) = if s.num_checks == 0 then (s, []) else b_transport_pre_checks s t p in_method in
    let s1 : Checker = during s0 in
    if s1.num_checks == 0 then some (s1, pre) else elim (b_transport_post_checks n s1 t after) [
      | none ↦ none
      | some (s2, post) ↦ some (s2, pre ++ post)
    ]

-- The members of `tlm_dmi`; `none_allowed` is `is_none_allowed()`.
pub record DmiDescriptor : Type 0 where
  pub dmi_ptr : ℕ
  pub none_allowed : Bool
  pub start_address : ℕ
  pub end_address : ℕ
  pub read_latency : ℕ
  pub write_latency : ℕ

-- `get_direct_mem_ptr_pre_checks`
unfoldable pub get_direct_mem_ptr_pre_checks : DmiDescriptor → List Clause
get_direct_mem_ptr_pre_checks d =
    report (not (d.dmi_ptr == 0)) clause_4_2_5_f
    ++ report (not d.none_allowed) clause_4_2_5_a
    ++ report (not (d.start_address == 0)) clause_4_2_5_s
    ++ report (not (d.end_address == 2 ^ 64 - 1)) clause_4_2_5_s
    ++ report (not (d.read_latency == 0)) clause_4_2_5_aa
    ++ report (not (d.write_latency == 0)) clause_4_2_5_aa

-- `transport_dbg_pre_checks`
unfoldable pub transport_dbg_pre_checks : CheckedTrans → List Clause
transport_dbg_pre_checks p = report (ltb 0 p.data_length && p.data_ptr == 0) clause_4_3_4_j

-- `transport_dbg_post_checks`
unfoldable pub transport_dbg_post_checks : CheckedTrans → ℕ → List Clause
transport_dbg_post_checks p count =
    report (ltb 0 p.data_length && p.data_ptr == 0) clause_4_3_4_j
    ++ report (ltb p.data_length count) clause_4_3_4_o

-- `get_direct_mem_ptr`, where `granted` is what the target returns
unfoldable pub get_direct_mem_ptr : DmiDescriptor → Bool → Bool × List Clause
unfolding get_direct_mem_ptr_pre_checks
get_direct_mem_ptr d granted = (granted, get_direct_mem_ptr_pre_checks d)

-- `transport_dbg`; `after` is the transaction after the call of the target, which returns `count`.
unfoldable pub transport_dbg : CheckedTrans → CheckedTrans → ℕ → ℕ × List Clause
unfolding transport_dbg_pre_checks transport_dbg_post_checks
transport_dbg p after count =
    (count, transport_dbg_pre_checks p ++ transport_dbg_post_checks after count)

-- `set_num_checks`; `none` is its fatal report.
unfoldable pub set_num_checks : Checker → ℕ → Option Checker
set_num_checks s n = if s.num_checks == 0 then none else some (record s { num_checks = n })
