-- ===== src/Checker/Attributes.antt =====
-- locknsnoop/common/tlm2_base_protocol_checker.h: the checks of the attributes of a transaction, when it
-- is new and when a call with it returns.
use psa.Prelude.{
  ℕ, zero, suc, ◌-◌, ◌++◌, Bool, true, false, ◌&&◌, not, Option, none, some, List, [], ◌∷◌,
  if◌then◌else◌, ltb, ◌==◌,
}
use psa.Locking.{Command, read, write, ignore, Status, incomplete}
use psa.Checker.{
  Clause, clause_6_5, clause_6_5_s, clause_6_5_y, clause_6_7, clause_6_10_e, clause_6_11_d,
  clause_6_13_f, clause_6_14_f, clause_6_15, clause_6_16_e, CheckedTrans, Hop, CheckedPath, Checker,
  report, is_write, set_hop, set_path,
}

abbrev pub is_incomplete : Status → Bool
is_incomplete incomplete = true
is_incomplete _ = false

abbrev pub is_empty : List ℕ → Bool
is_empty [] = true
is_empty (x ∷ xs) = false

-- The tests of `check_initial_state`; the first, a warning, is for a transaction that no checker has
-- seen.
unfoldable pub initial_reports : CheckedPath → CheckedTrans → List Clause
initial_reports q p =
    report (p.has_mm && ltb 1 p.ref_count && is_empty q.path) clause_6_5_s
    ++ report (p.data_ptr == 0) clause_6_10_e
    ++ report (p.data_length == 0) clause_6_11_d
    ++ report (not (p.byte_enable_ptr == 0) && p.byte_enable_length == 0) clause_6_13_f
    ++ report (p.streaming_width == 0) clause_6_14_f
    ++ report p.dmi_allowed clause_6_15
    ++ report (not (is_incomplete p.response_status)) clause_6_16_e
    ++ report q.response_in_progress clause_6_5

-- `check_initial_state`
unfoldable pub check_initial_state : Checker → ℕ → CheckedTrans → Checker × List Clause
unfolding initial_reports
check_initial_state s t p =
    let h : Hop = s.m_map t in
    let q : CheckedPath = s.shared_map t in
    let h' : Hop = record h {
      gp = some p;
      data_ptr = p.data_ptr;
      byte_enable_ptr = p.byte_enable_ptr;
      time = 0;
      has_mm = p.has_mm;
    } in
    let q' : CheckedPath = record q {
      resp_data = none;
      ok_response = false;
      path = s.this ∷ q.path;
    } in
    (set_path (set_hop (record s { num_checks = s.num_checks - 1 }) t h') t q', initial_reports q p)

-- A report for each of the first `n` bytes in which two arrays differ
unfoldable pub differences : ℕ → (ℕ → ℕ) → (ℕ → ℕ) → List Clause
differences zero f g = []
differences (suc n) f g = differences n f g ++ report (not (f n == g n)) clause_6_7

-- A report for each of the first `n` extensions that was added
unfoldable pub added : ℕ → (ℕ → Bool) → (ℕ → Bool) → List Clause
added zero now before = []
added (suc n) now before = added n now before ++ report (now n && not (before n)) clause_6_5_y

abbrev pub same_command : Command → Command → Bool
same_command read read = true
same_command write write = true
same_command ignore ignore = true
same_command _ _ = false

-- The tests of `check_trans_not_modified` with the copy `p0`; `n` is `max_num_extensions()`.
unfoldable pub modified_reports : ℕ → Hop → CheckedPath → CheckedTrans → CheckedTrans → List Clause
unfolding differences added
modified_reports n h q p0 p =
    report (not (same_command p.command p0.command)) clause_6_7
    ++ report (not (p.data_ptr == h.data_ptr)) clause_6_7
    ++ report (not (p.data_length == p0.data_length)) clause_6_7
    ++ (if is_write p.command then differences p0.data_length p.bytes p0.bytes else [])
    ++ report (not (p.byte_enable_ptr == h.byte_enable_ptr)) clause_6_7
    ++ report (not (p.byte_enable_length == p0.byte_enable_length)) clause_6_7
    ++ (if p.byte_enable_ptr == 0
        then []
        else differences p0.byte_enable_length p.enables p0.enables)
    ++ report (not (p.streaming_width == p0.streaming_width)) clause_6_7
    ++ (if h.has_mm then [] else report p.has_mm clause_6_5_y ++ added n p.extensions p0.extensions)
    ++ elim q.resp_data [ none ↦ [] | some bytes ↦ differences p.data_length p.bytes bytes ]

-- `check_trans_not_modified`; `none` is the use of a null pointer, where the transaction has not been
-- seen before.
unfoldable pub check_trans_not_modified : ℕ → Checker → ℕ → CheckedTrans → Option (List Clause)
unfolding modified_reports
check_trans_not_modified n s t p = elim (s.m_map t).gp [
  | none ↦ none
  | some p0 ↦ some (modified_reports n (s.m_map t) (s.shared_map t) p0 p)
]
