-- ===== src/Checker/Copies.antt =====
-- locknsnoop/common/tlm2_base_protocol_checker.h: the checker has a copy of each transaction that it has
-- seen, so that the comparison with it uses no null pointer.
use psa.Prelude.{
  ℕ, ◌+◌, ◌≤◌, ◌≡◌, ◌≢◌, refl, ap, Bool, true, false, Option, none, some, List, [], ◌∷◌,
  if◌then◌else◌, ◌==◌, arith, ℕ_discrete, Option-cases, inl, inr,
}
use psa.AtInterconnect.{
  begin_req, begin_resp, end_resp, Sync, accepted, updated, completed, is_trans,
}
use psa.Checker.{CheckedPhase, protocol, extended, uninitialized, Clause, CheckedTrans, Checker}
use psa.Checker.Attributes.{check_initial_state, check_trans_not_modified}
use psa.Checker.Paths.{Checks}
use psa.Checker.Phases.{
  is_phase, set_phase_and_time, nb_transport_fw_pre_checks, check_fw_phase, check_response_phase,
  nb_transport_response_checks, check_fw_status, nb_transport_bw_pre_checks, check_bw_return,
  check_bw_status, nb_transport_fw_post_checks, nb_transport_bw_post_checks,
}
use psa.Checker.Transport.{check_around}
use psa.Checker.Rules.{History, last, IsLegal}
use psa.Checker.Silence.{mark, check_response_path-same, completed_path-same}
use psa.Checker.Accepts.{is_forward, is_backward}

abbrev pub is_copied : Option CheckedTrans → Bool
is_copied none = false
is_copied (some p) = true

abbrev pub has_copy : Checker → ℕ → Bool
has_copy s u = is_copied (s.m_map u).gp

-- No copy is lost.
abbrev pub Grows : Checker → Checker → Type 0
Grows s s' = (u : ℕ) → has_copy s u ≡ true → has_copy s' u ≡ true

-- A transaction of which something was seen
abbrev pub is_known : ℕ → History → Bool
is_known t [] = false
is_known t ((u, m) ∷ h) = if u == t then true else is_known t h

last-is_known : (t : ℕ) (h : History) → is_known t h ≡ false → last t h ≡ none
last-is_known t [] e = refl
last-is_known t ((u, m) ∷ h) e =
    let rest = last-is_known t h in let d = ℕ_discrete u t in ground arith

pub fw_pre-Grows :
    (s : Checker) (now t : ℕ) (p : CheckedTrans) (ph : CheckedPhase) (delay : ℕ)
    → Grows s (nb_transport_fw_pre_checks s now t p ph delay).0
unfolding nb_transport_fw_pre_checks check_fw_phase set_phase_and_time check_initial_state
fw_pre-Grows s now t p (protocol begin_req) delay u e = let d = ℕ_discrete t u in ground arith
fw_pre-Grows s now t p (protocol _) delay u e = let d = ℕ_discrete t u in ground arith
fw_pre-Grows s now t p extended delay u e = let d = ℕ_discrete t u in ground arith
fw_pre-Grows s now t p uninitialized delay u e = let d = ℕ_discrete t u in ground arith

-- A request makes a copy.
request-has_copy :
    (s : Checker) (now t : ℕ) (p : CheckedTrans) (delay : ℕ)
    → has_copy (nb_transport_fw_pre_checks s now t p (protocol begin_req) delay).0 t ≡ true
unfolding nb_transport_fw_pre_checks check_fw_phase set_phase_and_time check_initial_state
request-has_copy s now t p delay = ground arith

response_checks-Grows :
    (s : Checker) (now t : ℕ) (p : CheckedTrans) (ph : CheckedPhase) (delay : ℕ)
    → Grows s (nb_transport_response_checks s now t p ph delay).0
unfolding nb_transport_response_checks check_response_phase set_phase_and_time
response_checks-Grows s now t p (protocol begin_resp) delay u e =
    let s' : Checker = record s {
      m_request_in_progress =
          if is_trans s.m_request_in_progress t then none else s.m_request_in_progress;
      m_response_in_progress = some t;
    } in
    let (same, _, _, _) = check_response_path-same s' t p in
    let a = ap (λ f. f u) same in
    let b = ap (λ f. f t) same in let d = ℕ_discrete t u in ground arith
response_checks-Grows s now t p (protocol _) delay u e = let d = ℕ_discrete t u in ground arith
response_checks-Grows s now t p extended delay u e = let d = ℕ_discrete t u in ground arith
response_checks-Grows s now t p uninitialized delay u e = let d = ℕ_discrete t u in ground arith

fw_status-Grows :
    (s : Checker) (now t : ℕ) (p : CheckedTrans) (ph : CheckedPhase) (delay : ℕ) (st : Sync)
    → Grows s (check_fw_status s now t p ph delay st).0
unfolding check_fw_status
fw_status-Grows s now t p ph delay accepted u e = e
fw_status-Grows s now t p ph delay updated u e = response_checks-Grows s now t p ph delay u e
fw_status-Grows s now t p ph delay completed u e =
    let (same, resp) = completed_path-same s t p (is_phase ph begin_req) in
    let a = ap (λ f. f u) same in
    let b = ap (λ f. f t) same in let d = ℕ_discrete t u in ground arith

bw_status-Grows :
    (s : Checker) (now t : ℕ) (ph : CheckedPhase) (delay : ℕ) (st : Sync)
    → Grows s (check_bw_status s now t ph delay st).0
unfolding check_bw_status check_bw_return set_phase_and_time
bw_status-Grows s now t ph delay accepted u e = e
bw_status-Grows s now t (protocol end_resp) delay updated u e =
    let d = ℕ_discrete t u in ground arith
bw_status-Grows s now t (protocol _) delay updated u e = let d = ℕ_discrete t u in ground arith
bw_status-Grows s now t extended delay updated u e = let d = ℕ_discrete t u in ground arith
bw_status-Grows s now t uninitialized delay updated u e = let d = ℕ_discrete t u in ground arith
bw_status-Grows s now t ph delay completed u e = let d = ℕ_discrete t u in ground arith

pub bw_pre-Grows :
    (s : Checker) (now t : ℕ) (p : CheckedTrans) (ph : CheckedPhase) (delay : ℕ)
    → Grows s (nb_transport_bw_pre_checks s now t p ph delay).0
unfolding nb_transport_bw_pre_checks
bw_pre-Grows s now t p ph delay = response_checks-Grows s now t p ph delay

-- The comparison with a copy
not_modified_returns :
    (n : ℕ) (s : Checker) (t : ℕ) (p : CheckedTrans)
    → has_copy s t ≡ true
    → check_trans_not_modified n s t p ≢ none
unfolding check_trans_not_modified
not_modified_returns n s t p e = of_copy (s.m_map t).gp refl
  where
    of_copy :
        (o : Option CheckedTrans) → (s.m_map t).gp ≡ o → check_trans_not_modified n s t p ≢ none
    of_copy none e' = absurd (ground arith)
    of_copy (some p0) e' = rw (check_trans_not_modified, e') (λ b. ground arith)

-- A call that returns, with the copies that there were and one of its transaction
abbrev pub Returns : Checker → ℕ → Checks → Type 0
Returns s t none = ⊥
Returns s t (some (s', r)) = Grows s s' × (has_copy s' t ≡ true)

pub fw_post-Returns :
    (n : ℕ) (s : Checker) (now t : ℕ) (p : CheckedTrans) (ph : CheckedPhase) (delay : ℕ) (st : Sync)
    → has_copy s t ≡ true
    → Returns s t (nb_transport_fw_post_checks n s now t p ph delay st)
unfolding nb_transport_fw_post_checks
fw_post-Returns n s now t p ph delay st e =
    let grows = fw_status-Grows s now t p ph delay st in
    let (s', r) = check_fw_status s now t p ph delay st in
    let returns = not_modified_returns n s' t p (grows t e) in
    elim (Option-cases (check_trans_not_modified n s' t p)) [
      | inl e' ↦ absurd (returns e')
      | inr (m, e') ↦ rw (nb_transport_fw_post_checks, e') (grows, grows t e)
    ]

pub bw_post-Returns :
    (n : ℕ) (s : Checker) (now t : ℕ) (p : CheckedTrans) (ph : CheckedPhase) (delay : ℕ) (st : Sync)
    → has_copy s t ≡ true
    → Returns s t (nb_transport_bw_post_checks n s now t p ph delay st)
unfolding nb_transport_bw_post_checks
bw_post-Returns n s now t p ph delay st e =
    let grows = bw_status-Grows s now t ph delay st in
    let (s', r) = check_bw_status s now t ph delay st in
    let returns = not_modified_returns n s' t p (grows t e) in
    elim (Option-cases (check_trans_not_modified n s' t p)) [
      | inl e' ↦ absurd (returns e')
      | inr (m, e') ↦ rw (nb_transport_bw_post_checks, e') (grows, grows t e)
    ]

pub around-Returns :
    (s : Checker) (t : ℕ) (pre : Checker × List Clause) (post : Checker → Checks)
    → 2 ≤ s.num_checks
    → s.num_checks ≤ pre.0.num_checks + 1
    → Grows s pre.0
    → Returns pre.0 t (post pre.0)
    → Returns s t (check_around s pre (λ x. x) post)
unfolding check_around
around-Returns s t pre post two left grows after =
    let e1 : (s.num_checks == 0) ≡ false = ground arith in
    let e2 : (pre.0.num_checks == 0) ≡ false = ground arith in
    elim (Option-cases (post pre.0)) [
      | inl e ↦ absurd (rw e at after)
      | inr ((s', r), e) ↦
          let (more, copy) = rw e at after in
          rw (check_around, e1, e2, e) (λ u b. more u (grows u b), copy)
    ]

-- There is a copy of each transaction of which something was seen.
abbrev pub HasCopies : Checker → History → Type 0
HasCopies s h = (u : ℕ) → is_known u h ≡ true → has_copy s u ≡ true

-- A call forward finds a copy, or makes it.
pub forward-has_copy :
    (s : Checker) (now t : ℕ) (p : CheckedTrans) (ph : CheckedPhase) (delay : ℕ) (h : History)
    → HasCopies s h
    → is_forward ph ≡ true
    → is_known t (mark t ph h) ≡ true
    → IsLegal (mark t ph h)
    → has_copy (nb_transport_fw_pre_checks s now t p ph delay).0 t ≡ true
forward-has_copy s now t p (protocol begin_req) delay h k way known legal =
    request-has_copy s now t p delay
forward-has_copy s now t p (protocol end_resp) delay h k way known legal =
    let n = legal.1 in
    let none = last-is_known t h in
    fw_pre-Grows s now t p (protocol end_resp) delay t (k t (ground arith))
forward-has_copy s now t p (protocol _) delay h k way known legal = absurd (ground arith)
forward-has_copy s now t p extended delay h k way known legal =
    fw_pre-Grows s now t p extended delay t (k t known)
forward-has_copy s now t p uninitialized delay h k way known legal = absurd (ground arith)

pub backward-has_copy :
    (s : Checker) (t : ℕ) (ph : CheckedPhase) (h : History)
    → HasCopies s h
    → is_backward ph ≡ true
    → is_known t (mark t ph h) ≡ true
    → IsLegal (mark t ph h)
    → has_copy s t ≡ true
backward-has_copy s t (protocol ph) h k way known legal =
    let n = legal.1 in let none = last-is_known t h in k t (ground arith)
backward-has_copy s t extended h k way known legal = k t known
backward-has_copy s t uninitialized h k way known legal = absurd (ground arith)
