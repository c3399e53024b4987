-- ===== src/Checker/Silence.antt =====
-- locknsnoop/common/tlm2_base_protocol_checker.h: a run in which the checker makes no report keeps the
-- rules.
use psa.Prelude.{
  ℕ, ◌≡◌, refl, ap, Bool, true, false, not, ◌&&◌, none, some, List, [], ◌∷◌, ◌++◌, if◌then◌else◌,
  ◌==◌, arith, ℕ_discrete,
}
use psa.AtInterconnect.{
  begin_req, end_req, begin_resp, end_resp, Sync, accepted, updated, completed, is_some, is_trans,
}
use psa.Checker.{
  CheckedPhase, extended, protocol, Clause, CheckedTrans, Checker, report, is_under_way,
  clause_7_2_5_k, clause_7_2_3_i, clause_7_2_4_b, clause_7_2_4_c,
}
use psa.Checker.Attributes.{check_initial_state, initial_reports}
use psa.Checker.Paths.{check_response_path}
use psa.Checker.Phases.{
  is_phase, set_phase_and_time, check_fw_phase, nb_transport_fw_pre_checks, check_response_phase,
  nb_transport_response_checks, check_fw_status, nb_transport_bw_pre_checks, check_bw_return,
  check_bw_status,
}
use psa.Checker.Rules.{sends, completes, History, last}
use psa.Checker.Tracking.{
  IsTracked, begin_request-IsTracked, end_request-IsTracked, begin_response-IsTracked,
  end_response-IsTracked, complete_request-IsTracked, complete_response-IsTracked, same-IsTracked,
}

abbrev pub Tracks : Checker → History → Type 0
Tracks s h = IsTracked (λ u. (s.m_map u).ph) s.m_request_in_progress s.m_response_in_progress h

-- What a phase adds to what was seen
abbrev pub mark : ℕ → CheckedPhase → History → History
mark t (protocol ph) h = (t, sends ph) ∷ h
mark t _ h = h

pub nil_parts : (xs ys : List Clause) → xs ++ ys ≡ [] → (xs ≡ []) × (ys ≡ [])
nil_parts [] ys e = (refl, e)
nil_parts (x ∷ xs) ys e = ground arith

report-nil : (b : Bool) (c : Clause) → report b c ≡ [] → b ≡ false
report-nil true c e = ground arith
report-nil false c e = refl

check_fw-Follows :
    (s : Checker) (now t : ℕ) (p : CheckedTrans) (ph : CheckedPhase) (delay : ℕ) (h : History)
    → Tracks s h
    → (check_fw_phase s t p ph).1 ≡ []
    → Tracks (set_phase_and_time (check_fw_phase s t p ph).0 now t ph delay).0 (mark t ph h)
unfolding check_fw_phase set_phase_and_time check_initial_state
check_fw-Follows s now t p (protocol begin_req) delay h k quiet =
    let r1 = report (is_under_way (s.m_map t).ph) clause_7_2_3_i in
    let r2 = report (is_some s.m_request_in_progress) clause_7_2_4_b in
    let r3 = report (not ((s.m_map t).b_call == 0)) clause_7_2_5_k in
    let r0 = initial_reports (s.shared_map t) p in
    let q1 = nil_parts ((r0 ++ r1) ++ r2) r3 quiet in
    let q2 = nil_parts (r0 ++ r1) r2 q1.0 in
    let q3 = nil_parts r0 r1 q2.0 in
    let idle = report-nil (is_under_way (s.m_map t).ph) clause_7_2_3_i q3.1 in
    let free = report-nil (is_some s.m_request_in_progress) clause_7_2_4_b q2.1 in
    begin_request-IsTracked (λ u. (s.m_map u).ph) _ s.m_request_in_progress s.m_response_in_progress
      h t k (λ u. let d = ℕ_discrete t u in ground arith) idle (ground arith)
check_fw-Follows s now t p (protocol end_resp) delay h k quiet =
    end_response-IsTracked (λ u. (s.m_map u).ph) _ s.m_request_in_progress s.m_response_in_progress
      h t k (λ u. let d = ℕ_discrete t u in ground arith) (ground arith)
check_fw-Follows s now t p extended delay h k quiet =
    same-IsTracked (λ u. (s.m_map u).ph) _ s.m_request_in_progress s.m_response_in_progress h t k
      (λ u. let d = ℕ_discrete t u in ground arith)
check_fw-Follows s now t p _ delay h k quiet = absurd (ground arith)

-- The check of the path changes the shared map only.
pub check_response_path-same :
    (s : Checker) (t : ℕ) (p : CheckedTrans)
    → ((check_response_path s t p).0.m_map ≡ s.m_map)
      × ((check_response_path s t p).0.m_request_in_progress ≡ s.m_request_in_progress)
      × ((check_response_path s t p).0.m_response_in_progress ≡ s.m_response_in_progress)
      × ((check_response_path s t p).0.num_checks ≡ s.num_checks)
unfolding check_response_path
check_response_path-same s t p = go (s.shared_map t).path refl
  where
    go :
        (xs : List ℕ)
        → (s.shared_map t).path ≡ xs
        → ((check_response_path s t p).0.m_map ≡ s.m_map)
          × ((check_response_path s t p).0.m_request_in_progress ≡ s.m_request_in_progress)
          × ((check_response_path s t p).0.m_response_in_progress ≡ s.m_response_in_progress)
          × ((check_response_path s t p).0.num_checks ≡ s.num_checks)
    go [] e = rw (check_response_path, e) (refl, refl, refl, refl)
    go (x ∷ xs) e = rw (check_response_path, e) (refl, refl, refl, refl)

check_response-Follows :
    (s : Checker) (now t : ℕ) (p : CheckedTrans) (ph : CheckedPhase) (delay : ℕ) (h : History)
    → Tracks s h
    → (check_response_phase s t p ph).1 ≡ []
    → Tracks (set_phase_and_time (check_response_phase s t p ph).0 now t ph delay).0 (mark t ph h)
unfolding check_response_phase set_phase_and_time
check_response-Follows s now t p (protocol end_req) delay h k quiet =
    end_request-IsTracked (λ u. (s.m_map u).ph) _ s.m_request_in_progress s.m_response_in_progress h
      t k (λ u. let d = ℕ_discrete t u in ground arith) (ground arith)
check_response-Follows s now t p (protocol begin_resp) delay h k quiet =
    let s' : Checker = record s {
      m_request_in_progress =
          if is_trans s.m_request_in_progress t then none else s.m_request_in_progress;
      m_response_in_progress = some t;
    } in
    let (same, req, resp, _) = check_response_path-same s' t p in
    let ph = (s.m_map t).ph in
    let r1 = report (not (is_phase ph begin_req) && not (is_phase ph end_req)) clause_7_2_3_i in
    let r2 = report (is_some s.m_response_in_progress) clause_7_2_4_c in
    let q1 = nil_parts (r1 ++ r2) (check_response_path s' t p).1 quiet in
    let q2 = nil_parts r1 r2 q1.0 in
    let at =
      report-nil (not (is_phase ph begin_req) && not (is_phase ph end_req)) clause_7_2_3_i q2.0 in
    let free = report-nil (is_some s.m_response_in_progress) clause_7_2_4_c q2.1 in
    rw (req, resp)
      (begin_response-IsTracked (λ u. (s.m_map u).ph) _ s.m_request_in_progress
        s.m_response_in_progress h t k
        (λ u.
          let a = ap (λ f. f u) same in
          let b = ap (λ f. f t) same in let d = ℕ_discrete t u in ground arith)
        at (ground arith))
check_response-Follows s now t p extended delay h k quiet =
    same-IsTracked (λ u. (s.m_map u).ph) _ s.m_request_in_progress s.m_response_in_progress h t k
      (λ u. let d = ℕ_discrete t u in ground arith)
check_response-Follows s now t p _ delay h k quiet = absurd (ground arith)

check_bw-Follows :
    (s : Checker) (now t : ℕ) (ph : CheckedPhase) (delay : ℕ) (h : History)
    → Tracks s h
    → (check_bw_return s t ph).1 ≡ []
    → Tracks (set_phase_and_time (check_bw_return s t ph).0 now t ph delay).0 (mark t ph h)
unfolding check_bw_return set_phase_and_time
check_bw-Follows s now t (protocol end_resp) delay h k quiet =
    end_response-IsTracked (λ u. (s.m_map u).ph) _ s.m_request_in_progress s.m_response_in_progress
      h t k (λ u. let d = ℕ_discrete t u in ground arith) (ground arith)
check_bw-Follows s now t extended delay h k quiet =
    same-IsTracked (λ u. (s.m_map u).ph) _ s.m_request_in_progress s.m_response_in_progress h t k
      (λ u. let d = ℕ_discrete t u in ground arith)
check_bw-Follows s now t _ delay h k quiet = absurd (ground arith)

-- What a return adds to what was seen
abbrev pub return_mark : ℕ → Sync → CheckedPhase → History → History
return_mark t accepted ph h = h
return_mark t updated ph h = mark t ph h
return_mark t completed ph h = (t, completes) ∷ h

pub response_checks-Follows :
    (s : Checker) (now t : ℕ) (p : CheckedTrans) (ph : CheckedPhase) (delay : ℕ) (h : History)
    → Tracks s h
    → (nb_transport_response_checks s now t p ph delay).1 ≡ []
    → Tracks (nb_transport_response_checks s now t p ph delay).0 (mark t ph h)
unfolding nb_transport_response_checks
response_checks-Follows s now t p ph delay h k quiet =
    let q1 = nil_parts _ _ quiet in
    let q2 = nil_parts _ _ q1.0 in check_response-Follows s now t p ph delay h k q2.1

pub fw_pre_checks-Follows :
    (s : Checker) (now t : ℕ) (p : CheckedTrans) (ph : CheckedPhase) (delay : ℕ) (h : History)
    → Tracks s h
    → (nb_transport_fw_pre_checks s now t p ph delay).1 ≡ []
    → Tracks (nb_transport_fw_pre_checks s now t p ph delay).0 (mark t ph h)
unfolding nb_transport_fw_pre_checks
fw_pre_checks-Follows s now t p ph delay h k quiet =
    let q1 = nil_parts _ _ quiet in
    let q2 = nil_parts _ _ q1.0 in check_fw-Follows s now t p ph delay h k q2.1

pub bw_pre_checks-Follows :
    (s : Checker) (now t : ℕ) (p : CheckedTrans) (ph : CheckedPhase) (delay : ℕ) (h : History)
    → Tracks s h
    → (nb_transport_bw_pre_checks s now t p ph delay).1 ≡ []
    → Tracks (nb_transport_bw_pre_checks s now t p ph delay).0 (mark t ph h)
unfolding nb_transport_bw_pre_checks
bw_pre_checks-Follows s now t p ph delay h k quiet =
    let q1 = nil_parts _ _ quiet in response_checks-Follows s now t p ph delay h k q1.1

pub completed_path-same :
    (s : Checker) (t : ℕ) (p : CheckedTrans) (asked : Bool)
    → ((if asked then check_response_path s t p else (s, [])).0.m_map ≡ s.m_map)
      × ((if asked then check_response_path s t p else (s, [])).0.m_response_in_progress
          ≡ s.m_response_in_progress)
completed_path-same s t p true = let e = check_response_path-same s t p in (e.0, e.2)
completed_path-same s t p false = (refl, refl)

pub fw_status-Follows :
    (s : Checker) (now t : ℕ) (p : CheckedTrans) (ph : CheckedPhase) (delay : ℕ) (st : Sync)
    (h : History)
    → Tracks s h
    → (st ≡ completed → last t h ≡ some begin_req)
    → (check_fw_status s now t p ph delay st).1 ≡ []
    → Tracks (check_fw_status s now t p ph delay st).0 (return_mark t st ph h)
unfolding check_fw_status
fw_status-Follows s now t p ph delay accepted h k well quiet = k
fw_status-Follows s now t p ph delay updated h k well quiet =
    response_checks-Follows s now t p ph delay h k quiet
fw_status-Follows s now t p ph delay completed h k well quiet =
    let (same, resp) = completed_path-same s t p (is_phase ph begin_req) in
    rw resp (
      complete_request-IsTracked (λ u. (s.m_map u).ph) _ s.m_request_in_progress
        s.m_response_in_progress h t k
        (λ u.
          let a = ap (λ f. f u) same in
          let b = ap (λ f. f t) same in let d = ℕ_discrete t u in ground arith)
        (well refl))

pub bw_status-Follows :
    (s : Checker) (now t : ℕ) (ph : CheckedPhase) (delay : ℕ) (st : Sync) (h : History)
    → Tracks s h
    → (st ≡ completed → last t h ≡ some begin_resp)
    → (check_bw_status s now t ph delay st).1 ≡ []
    → Tracks (check_bw_status s now t ph delay st).0 (return_mark t st ph h)
unfolding check_bw_status
bw_status-Follows s now t ph delay accepted h k well quiet = k
bw_status-Follows s now t ph delay updated h k well quiet =
    let q1 = nil_parts _ _ quiet in check_bw-Follows s now t ph delay h k q1.0
bw_status-Follows s now t ph delay completed h k well quiet =
    complete_response-IsTracked (λ u. (s.m_map u).ph) _ s.m_request_in_progress
      s.m_response_in_progress h t k (λ u. let d = ℕ_discrete t u in ground arith) (well refl)
