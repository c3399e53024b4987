-- ===== src/Checker/Legal.antt =====
-- locknsnoop/common/tlm2_base_protocol_checker.h: what is reported of a call that keeps the rules.
use psa.Prelude.{
  ℕ, ◌+◌, ◌≤◌, ◌≡◌, Bool, true, false, ◌&&◌, none, some, List, if◌then◌else◌, ◌==◌, arith,
  Option-cases, if_cases, inl, inr,
}
use psa.AtInterconnect.{begin_req, begin_resp, Sync, accepted, updated, completed}
use psa.Checker.{CheckedPhase, uninitialized, extended, protocol, Clause, CheckedTrans, Checker}
use psa.Checker.Attributes.{check_trans_not_modified}
use psa.Checker.Paths.{Checks}
use psa.Checker.Phases.{
  is_phase, nb_transport_fw_pre_checks, nb_transport_fw_post_checks, nb_transport_bw_pre_checks,
  nb_transport_bw_post_checks, check_fw_status, check_bw_status,
}
use psa.Checker.Transport.{Returned, check_around, nb_transport_fw, nb_transport_bw}
use psa.Checker.Rules.{History, last, IsLegal}
use psa.Checker.Counting.{fw_pre-num_checks, bw_pre-num_checks}
use psa.Checker.Silence.{mark, return_mark}
use psa.Checker.Calls.{NbCall, nb_call, is_completed, completes_well, seen_of, completed_well}
use psa.Checker.Alarms.{IsQuiet, both-IsQuiet, not_modified-IsQuiet}
use psa.Checker.Accepts.{IsFollowed, is_forward, is_backward, is_return}
use psa.Checker.Answers.{fw_pre-Accepts, bw_pre-Accepts, fw_status-Accepts, bw_status-Accepts}

abbrev is_updated : Sync → Bool
is_updated updated = true
is_updated _ = false

-- The phases of a call and of its return are sent in the direction that the protocol has for them.
abbrev pub is_directed : NbCall → Bool
is_directed c =
    if c.forward
    then is_forward c.phase
      && (if is_updated c.returned.status then is_backward c.returned.phase else true)
    else is_backward c.phase
      && (if is_updated c.returned.status then is_return c.returned.phase else true)

-- The rules that are kept were kept before.
pub mark-before : (t : ℕ) (ph : CheckedPhase) (h : History) → IsLegal (mark t ph h) → IsLegal h
mark-before t (protocol ph) h legal = legal.0
mark-before t extended h legal = legal
mark-before t uninitialized h legal = legal

pub return-before :
    (t : ℕ) (st : Sync) (ph : CheckedPhase) (h : History)
    → IsLegal (return_mark t st ph h)
    → IsLegal h
return-before t accepted ph h legal = legal
return-before t updated ph h legal = mark-before t ph h legal
return-before t completed ph h legal = legal.0

-- No alarm, and the state follows what was seen.
abbrev pub Accepts : History → Checks → Type 0
Accepts h none = Unit
Accepts h (some (s, r)) = IsQuiet r × IsFollowed s h

around-Accepts :
    (s : Checker) (pre : Checker × List Clause) (post : Checker → Checks) (h : History)
    → 2 ≤ s.num_checks
    → s.num_checks ≤ pre.0.num_checks + 1
    → IsQuiet pre.1
    → Accepts h (post pre.0)
    → Accepts h (check_around s pre (λ x. x) post)
unfolding check_around
around-Accepts s pre post h two left q after =
    let e1 : (s.num_checks == 0) ≡ false = ground arith in
    let e2 : (pre.0.num_checks == 0) ≡ false = ground arith in
    elim (Option-cases (post pre.0)) [
      | inl e ↦ rw (check_around, e1, e2, e) tt
      | inr ((s', r), e) ↦
          let (q', exact) = rw e at after in
          rw (check_around, e1, e2, e, e1) (both-IsQuiet pre.1 r q q', exact)
    ]

fw_post-Accepts :
    (n : ℕ) (s : Checker) (now t : ℕ) (p : CheckedTrans) (ph : CheckedPhase) (delay : ℕ) (st : Sync)
    (h : History)
    → IsFollowed s h
    → (st ≡ updated → is_backward ph ≡ true)
    → (st ≡ completed → last t h ≡ some begin_req)
    → IsLegal (return_mark t st ph h)
    → Accepts (return_mark t st ph h) (nb_transport_fw_post_checks n s now t p ph delay st)
unfolding nb_transport_fw_post_checks
fw_post-Accepts n s now t p ph delay st h k way well legal =
    let (q, exact) = fw_status-Accepts s now t p ph delay st h k way well legal in
    let (s', r) = check_fw_status s now t p ph delay st in
    elim (Option-cases (check_trans_not_modified n s' t p)) [
      | inl e ↦ rw (nb_transport_fw_post_checks, e) tt
      | inr (m, e) ↦
          rw (nb_transport_fw_post_checks, e)
            (both-IsQuiet r m q (not_modified-IsQuiet n s' t p m e), exact)
    ]

bw_post-Accepts :
    (n : ℕ) (s : Checker) (now t : ℕ) (p : CheckedTrans) (ph : CheckedPhase) (delay : ℕ) (st : Sync)
    (h : History)
    → IsFollowed s h
    → (st ≡ updated → is_return ph ≡ true)
    → (st ≡ completed → last t h ≡ some begin_resp)
    → IsLegal (return_mark t st ph h)
    → Accepts (return_mark t st ph h) (nb_transport_bw_post_checks n s now t p ph delay st)
unfolding nb_transport_bw_post_checks
bw_post-Accepts n s now t p ph delay st h k way well legal =
    let (q, exact) = bw_status-Accepts s now t ph delay st h k way well legal in
    let (s', r) = check_bw_status s now t ph delay st in
    elim (Option-cases (check_trans_not_modified n s' t p)) [
      | inl e ↦ rw (nb_transport_bw_post_checks, e) tt
      | inr (m, e) ↦
          rw (nb_transport_bw_post_checks, e)
            (both-IsQuiet r m q (not_modified-IsQuiet n s' t p m e), exact)
    ]

updated_is :
    (st : Sync) (b : Bool) → (if is_updated st then b else true) ≡ true → st ≡ updated → b ≡ true
updated_is st b way e = ground arith

fw_call-Accepts :
    (n : ℕ) (s : Checker) (c : NbCall) (h : History)
    → IsFollowed s h
    → 2 ≤ s.num_checks
    → (is_completed c.returned.status ≡ true → is_phase c.phase begin_req ≡ true)
    → is_forward c.phase ≡ true
    → (c.returned.status ≡ updated → is_backward c.returned.phase ≡ true)
    → IsLegal (seen_of c h)
    → Accepts
        (seen_of c h)
        (nb_transport_fw n s c.now c.trans c.attributes c.phase c.delay (λ x. x) c.returned)
unfolding nb_transport_fw
fw_call-Accepts n s c h k two well way back legal =
    let r : Returned = c.returned in
    let pre = nb_transport_fw_pre_checks s c.now c.trans c.attributes c.phase c.delay in
    let h' : History = mark c.trans c.phase h in
    let (q, exact) =
      fw_pre-Accepts s c.now c.trans c.attributes c.phase c.delay h k way
        (return-before c.trans r.status r.phase h' legal) in
    around-Accepts s pre
      (λ s1. nb_transport_fw_post_checks n s1 c.now c.trans r.trans r.phase r.delay r.status)
      (seen_of c h) two (fw_pre-num_checks s c.now c.trans c.attributes c.phase c.delay) q
      (fw_post-Accepts n pre.0 c.now c.trans r.trans r.phase r.delay r.status h' exact back
        (completed_well c begin_req h well) legal)

bw_call-Accepts :
    (n : ℕ) (s : Checker) (c : NbCall) (h : History)
    → IsFollowed s h
    → 2 ≤ s.num_checks
    → (is_completed c.returned.status ≡ true → is_phase c.phase begin_resp ≡ true)
    → is_backward c.phase ≡ true
    → (c.returned.status ≡ updated → is_return c.returned.phase ≡ true)
    → IsLegal (seen_of c h)
    → Accepts
        (seen_of c h)
        (nb_transport_bw n s c.now c.trans c.attributes c.phase c.delay (λ x. x) c.returned)
unfolding nb_transport_bw
bw_call-Accepts n s c h k two well way back legal =
    let r : Returned = c.returned in
    let pre = nb_transport_bw_pre_checks s c.now c.trans c.attributes c.phase c.delay in
    let h' : History = mark c.trans c.phase h in
    let (q, exact) =
      bw_pre-Accepts s c.now c.trans c.attributes c.phase c.delay h k way
        (return-before c.trans r.status r.phase h' legal) in
    around-Accepts s pre
      (λ s1. nb_transport_bw_post_checks n s1 c.now c.trans r.trans r.phase r.delay r.status)
      (seen_of c h) two (bw_pre-num_checks s c.now c.trans c.attributes c.phase c.delay) q
      (bw_post-Accepts n pre.0 c.now c.trans r.trans r.phase r.delay r.status h' exact back
        (completed_well c begin_resp h well) legal)

pub nb_call-Accepts :
    (n : ℕ) (s : Checker) (c : NbCall) (h : History)
    → IsFollowed s h
    → 2 ≤ s.num_checks
    → completes_well c ≡ true
    → is_directed c ≡ true
    → IsLegal (seen_of c h)
    → Accepts (seen_of c h) (nb_call n s c)
nb_call-Accepts n s c h k two well way legal =
    if_cases (Accepts (seen_of c h)) c.forward
      (λ fw.
        fw_call-Accepts n s c h k two (λ e. ground arith) (ground arith) (λ e. ground arith) legal)
      (λ bw.
        bw_call-Accepts n s c h k two (λ e. ground arith) (ground arith) (λ e. ground arith) legal)
