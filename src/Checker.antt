-- ===== src/Checker.antt =====
-- locknsnoop/common/tlm2_base_protocol_checker.h: the checker of the base protocol, which stands between
-- an initiator and a target and reports what breaks the rules of TLM-2.0.
--
-- A transaction and a checker are numbers. A check is a function of the state of the checker and of
-- the transaction that gives the state and the reports made, the first one first; the text of a
-- report is left out, but for the clause that it refers to.
pub mod Attributes
pub mod Paths
pub mod Phases
pub mod Transport
pub mod Rules
pub mod Tracking
pub mod Silence
pub mod Counting
pub mod Calls
pub mod Runs
pub mod Exact
pub mod Alarms
pub mod Accepts
pub mod Answers
pub mod Copies
pub mod Legal
pub mod Verdict
pub mod Tests
use psa.Prelude.{
  ℕ, zero, suc, ◌++◌, Bool, true, false, ◌&&◌, not, Option, none, some, List, [], ◌∷◌,
  if◌then◌else◌, ◌==◌, update,
}
use psa.Locking.{Command, read, write, ignore, Status, incomplete, ok}
use psa.AtInterconnect.{Phase, begin_req, end_req, begin_resp, end_resp}

-- `tlm_phase`, where all extended phases are one
pub data CheckedPhase : Type 0 where
  uninitialized extended : CheckedPhase
  protocol : Phase → CheckedPhase

-- The clause that a report refers to
pub data Clause : Type 0 where
  clause_4_1_1_4_b clause_4_2_5_a clause_4_2_5_f clause_4_2_5_s clause_4_2_5_aa clause_4_3_4_j
        clause_4_3_4_o clause_6_5 clause_6_5_h clause_6_5_s clause_6_5_y clause_6_7 clause_6_10_e
        clause_6_11_d clause_6_13_f clause_6_14_f clause_6_15 clause_6_16_e clause_7_2_3_d
        clause_7_2_3_i clause_7_2_4_b clause_7_2_4_c clause_7_2_5_e clause_7_2_5_k
        clause_7_2_5_m_n :
      Clause

-- The attributes of a transaction. A pointer is a number, 0 is null, and an array is a function of the
-- offset.
pub record CheckedTrans : Type 0 where
  pub has_mm : Bool
  pub ref_count : ℕ
  pub command : Command
  pub data_ptr : ℕ
  pub bytes : ℕ → ℕ
  pub data_length : ℕ
  pub byte_enable_ptr : ℕ
  pub enables : ℕ → ℕ
  pub byte_enable_length : ℕ
  pub streaming_width : ℕ
  pub dmi_allowed : Bool
  pub response_status : Status
  pub extensions : ℕ → Bool

-- `state_t`; `gp` is the copy of the transaction, with its buffers.
pub record Hop : Type 0 where
  pub has_mm : Bool
  pub b_call : ℕ
  pub ph : CheckedPhase
  pub time : ℕ
  pub gp : Option CheckedTrans
  pub data_ptr : ℕ
  pub byte_enable_ptr : ℕ

-- `path_t`, with the last checker of the path first
pub record CheckedPath : Type 0 where
  pub response_in_progress : Bool
  pub ok_response : Bool
  pub path : List ℕ
  pub resp_data : Option (ℕ → ℕ)

-- The members of a checker, and the two static variables
pub record Checker : Type 0 where
  pub this : ℕ
  pub m_map : ℕ → Hop
  pub m_request_in_progress : Option ℕ
  pub m_response_in_progress : Option ℕ
  pub num_checks : ℕ
  pub shared_map : ℕ → CheckedPath

abbrev pub no_hop : Hop
no_hop = record {
  has_mm = false;
  b_call = 0;
  ph = uninitialized;
  time = 0;
  gp = none;
  data_ptr = 0;
  byte_enable_ptr = 0;
}

abbrev pub no_path : CheckedPath
no_path = record { response_in_progress = false; ok_response = false; path = []; resp_data = none }

-- A checker after its constructor, before any call
abbrev pub new_checker : ℕ → Checker
new_checker this = record {
  this = this;
  m_map = λ t. no_hop;
  m_request_in_progress = none;
  m_response_in_progress = none;
  num_checks = 100000;
  shared_map = λ t. no_path;
}

-- A report where a test tells that a rule is broken
abbrev pub report : Bool → Clause → List Clause
report true c = c ∷ []
report false c = []

abbrev pub is_ok : Status → Bool
is_ok ok = true
is_ok _ = false

abbrev pub is_write : Command → Bool
is_write write = true
is_write _ = false

-- The phases from BEGIN_REQ to BEGIN_RESP: `ph > 0 && ph < 4`
abbrev pub is_under_way : CheckedPhase → Bool
is_under_way (protocol end_resp) = false
is_under_way (protocol _) = true
is_under_way _ = false

abbrev pub set_hop : Checker → ℕ → Hop → Checker
set_hop s t h = record s { m_map = update s.m_map t h }

abbrev pub set_path : Checker → ℕ → CheckedPath → Checker
set_path s t q = record s { shared_map = update s.shared_map t q }
