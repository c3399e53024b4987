-- ===== src/Checker/Calls.antt =====
-- locknsnoop/common/tlm2_base_protocol_checker.h: a call through one checker that makes no report keeps
-- the rules.
use psa.Prelude.{
  ℕ, ◌+◌, ◌≤◌, ◌≡◌, Bool, true, false, none, some, List, [], if◌then◌else◌, ◌==◌, arith,
  Option-cases, if_cases, inl, inr, ap,
}
use psa.AtInterconnect.{Phase, begin_req, end_req, begin_resp, end_resp, Sync, completed}
use psa.Checker.{CheckedPhase, protocol, Clause, CheckedTrans, Checker}
use psa.Checker.Attributes.{check_trans_not_modified}
use psa.Checker.Paths.{Checks}
use psa.Checker.Phases.{
  is_phase, nb_transport_fw_pre_checks, nb_transport_fw_post_checks, nb_transport_bw_pre_checks,
  nb_transport_bw_post_checks, check_fw_status, check_bw_status,
}
use psa.Checker.Transport.{Returned, check_around, nb_transport_fw, nb_transport_bw}
use psa.Checker.Rules.{History, last}
use psa.Checker.Counting.{fw_pre-num_checks, bw_pre-num_checks, fw_status-Same, bw_status-Same}
use psa.Checker.Silence.{
  Tracks, mark, return_mark, nil_parts, fw_pre_checks-Follows, bw_pre_checks-Follows,
  fw_status-Follows, bw_status-Follows,
}

-- A call of `nb_transport_fw` or `nb_transport_bw`, with what the call that it leads to leaves
pub record NbCall : Type 0 where
  pub forward : Bool
  pub now : ℕ
  pub trans : ℕ
  pub attributes : CheckedTrans
  pub phase : CheckedPhase
  pub delay : ℕ
  pub returned : Returned

abbrev pub nb_call : ℕ → Checker → NbCall → Checks
nb_call n s c =
    if c.forward
    then nb_transport_fw n s c.now c.trans c.attributes c.phase c.delay (λ x. x) c.returned
    else nb_transport_bw n s c.now c.trans c.attributes c.phase c.delay (λ x. x) c.returned

-- TLM_COMPLETED is the answer to a BEGIN_REQ or a BEGIN_RESP only.
abbrev pub is_completed : Sync → Bool
is_completed completed = true
is_completed _ = false

abbrev pub completes_well : NbCall → Bool
completes_well c =
    if is_completed c.returned.status
    then if c.forward then is_phase c.phase begin_req else is_phase c.phase begin_resp
    else true

-- What is seen of a call
abbrev pub seen_of : NbCall → History → History
seen_of c h = return_mark c.trans c.returned.status c.returned.phase (mark c.trans c.phase h)

-- A call with no report keeps the rules, and takes one from the checks that are left at most.
abbrev pub Keeps : Checker → History → Checks → Type 0
Keeps s h none = Unit
Keeps s h (some (s', r)) = (r ≡ [] → Tracks s' h) × (s.num_checks ≤ s'.num_checks + 1)

abbrev Ends : History → Checker → Checks → Type 0
Ends h s none = Unit
Ends h s (some (s', r)) = r ≡ [] → Tracks s' h

abbrev SameLeft : Checker → Checks → Type 0
SameLeft s none = Unit
SameLeft s (some (s', r)) = s'.num_checks ≡ s.num_checks

last-mark :
    (t : ℕ) (ph : CheckedPhase) (q : Phase) (h : History)
    → is_phase ph q ≡ true
    → last t (mark t ph h) ≡ some q
last-mark t (protocol begin_req) begin_req h e = ground arith
last-mark t (protocol end_req) end_req h e = ground arith
last-mark t (protocol begin_resp) begin_resp h e = ground arith
last-mark t (protocol end_resp) end_resp h e = ground arith
last-mark t _ _ h e = absurd (ground arith)

around-Keeps :
    (s : Checker) (pre : Checker × List Clause) (post : Checker → Checks) (h h' : History)
    → 2 ≤ s.num_checks
    → s.num_checks ≤ pre.0.num_checks + 1
    → (pre.1 ≡ [] → Tracks pre.0 h)
    → (Tracks pre.0 h → Ends h' pre.0 (post pre.0))
    → SameLeft pre.0 (post pre.0)
    → Keeps s h' (check_around s pre (λ x. x) post)
unfolding check_around
around-Keeps s pre post h h' two left before after same =
    let e1 : (s.num_checks == 0) ≡ false = ground arith in
    let e2 : (pre.0.num_checks == 0) ≡ false = ground arith in
    elim (Option-cases (post pre.0)) [
      | inl e ↦ rw (check_around, e1, e2, e) tt
      | inr ((s', r), e) ↦
          let left' = rw e at same in
          rw (check_around, e1, e2, e, e1)
            (
              λ quiet.
                  let parts = nil_parts pre.1 r quiet in
                  let ends = after (before parts.0) in (rw e at ends) parts.1,
              omega (arith, left, left'),
            )
    ]

fw_post-Ends :
    (n : ℕ) (s : Checker) (now t : ℕ) (p : CheckedTrans) (ph : CheckedPhase) (delay : ℕ) (st : Sync)
    (h : History)
    → (st ≡ completed → last t h ≡ some begin_req)
    → Tracks s h
    → Ends (return_mark t st ph h) s (nb_transport_fw_post_checks n s now t p ph delay st)
unfolding nb_transport_fw_post_checks
fw_post-Ends n s now t p ph delay st h well k =
    let (s', r) = check_fw_status s now t p ph delay st in
    elim (Option-cases (check_trans_not_modified n s' t p)) [
      | inl e ↦ rw (nb_transport_fw_post_checks, e) tt
      | inr (m, e) ↦
          rw (nb_transport_fw_post_checks, e)
            (λ quiet. fw_status-Follows s now t p ph delay st h k well (nil_parts r m quiet).0)
    ]

fw_post-SameLeft :
    (n : ℕ) (s : Checker) (now t : ℕ) (p : CheckedTrans) (ph : CheckedPhase) (delay : ℕ) (st : Sync)
    → SameLeft s (nb_transport_fw_post_checks n s now t p ph delay st)
unfolding nb_transport_fw_post_checks
fw_post-SameLeft n s now t p ph delay st =
    elim (Option-cases (check_trans_not_modified n (check_fw_status s now t p ph delay st).0 t p)) [
      | inl e ↦ rw (nb_transport_fw_post_checks, e) tt
      | inr (m, e) ↦ rw (nb_transport_fw_post_checks, e) (fw_status-Same s now t p ph delay st)
    ]

bw_post-Ends :
    (n : ℕ) (s : Checker) (now t : ℕ) (p : CheckedTrans) (ph : CheckedPhase) (delay : ℕ) (st : Sync)
    (h : History)
    → (st ≡ completed → last t h ≡ some begin_resp)
    → Tracks s h
    → Ends (return_mark t st ph h) s (nb_transport_bw_post_checks n s now t p ph delay st)
unfolding nb_transport_bw_post_checks
bw_post-Ends n s now t p ph delay st h well k =
    let (s', r) = check_bw_status s now t ph delay st in
    elim (Option-cases (check_trans_not_modified n s' t p)) [
      | inl e ↦ rw (nb_transport_bw_post_checks, e) tt
      | inr (m, e) ↦
          rw (nb_transport_bw_post_checks, e)
            (λ quiet. bw_status-Follows s now t ph delay st h k well (nil_parts r m quiet).0)
    ]

bw_post-SameLeft :
    (n : ℕ) (s : Checker) (now t : ℕ) (p : CheckedTrans) (ph : CheckedPhase) (delay : ℕ) (st : Sync)
    → SameLeft s (nb_transport_bw_post_checks n s now t p ph delay st)
unfolding nb_transport_bw_post_checks
bw_post-SameLeft n s now t p ph delay st =
    elim (Option-cases (check_trans_not_modified n (check_bw_status s now t ph delay st).0 t p)) [
      | inl e ↦ rw (nb_transport_bw_post_checks, e) tt
      | inr (m, e) ↦ rw (nb_transport_bw_post_checks, e) (bw_status-Same s now t ph delay st)
    ]

pub completed_well :
    (c : NbCall) (q : Phase) (h : History)
    → (is_completed c.returned.status ≡ true → is_phase c.phase q ≡ true)
    → c.returned.status ≡ completed
    → last c.trans (mark c.trans c.phase h) ≡ some q
completed_well c q h well e = last-mark c.trans c.phase q h (well (ap is_completed e))

fw_call-Keeps :
    (n : ℕ) (s : Checker) (c : NbCall) (h : History)
    → Tracks s h
    → 2 ≤ s.num_checks
    → (is_completed c.returned.status ≡ true → is_phase c.phase begin_req ≡ true)
    → Keeps s
        (seen_of c h)
        (nb_transport_fw n s c.now c.trans c.attributes c.phase c.delay (λ x. x) c.returned)
unfolding nb_transport_fw
fw_call-Keeps n s c h k two well =
    let r : Returned = c.returned in
    let pre = nb_transport_fw_pre_checks s c.now c.trans c.attributes c.phase c.delay in
    let h' : History = mark c.trans c.phase h in
    around-Keeps s pre
      (λ s1. nb_transport_fw_post_checks n s1 c.now c.trans r.trans r.phase r.delay r.status) h'
      (seen_of c h) two (fw_pre-num_checks s c.now c.trans c.attributes c.phase c.delay)
      (fw_pre_checks-Follows s c.now c.trans c.attributes c.phase c.delay h k)
      (fw_post-Ends n pre.0 c.now c.trans r.trans r.phase r.delay r.status h'
        (completed_well c begin_req h well))
      (fw_post-SameLeft n pre.0 c.now c.trans r.trans r.phase r.delay r.status)

bw_call-Keeps :
    (n : ℕ) (s : Checker) (c : NbCall) (h : History)
    → Tracks s h
    → 2 ≤ s.num_checks
    → (is_completed c.returned.status ≡ true → is_phase c.phase begin_resp ≡ true)
    → Keeps s
        (seen_of c h)
        (nb_transport_bw n s c.now c.trans c.attributes c.phase c.delay (λ x. x) c.returned)
unfolding nb_transport_bw
bw_call-Keeps n s c h k two well =
    let r : Returned = c.returned in
    let pre = nb_transport_bw_pre_checks s c.now c.trans c.attributes c.phase c.delay in
    let h' : History = mark c.trans c.phase h in
    around-Keeps s pre
      (λ s1. nb_transport_bw_post_checks n s1 c.now c.trans r.trans r.phase r.delay r.status) h'
      (seen_of c h) two (bw_pre-num_checks s c.now c.trans c.attributes c.phase c.delay)
      (bw_pre_checks-Follows s c.now c.trans c.attributes c.phase c.delay h k)
      (bw_post-Ends n pre.0 c.now c.trans r.trans r.phase r.delay r.status h'
        (completed_well c begin_resp h well))
      (bw_post-SameLeft n pre.0 c.now c.trans r.trans r.phase r.delay r.status)

pub nb_call-Keeps :
    (n : ℕ) (s : Checker) (c : NbCall) (h : History)
    → Tracks s h
    → 2 ≤ s.num_checks
    → completes_well c ≡ true
    → Keeps s (seen_of c h) (nb_call n s c)
nb_call-Keeps n s c h k two well =
    if_cases (Keeps s (seen_of c h)) c.forward
      (λ fw. fw_call-Keeps n s c h k two (λ e. ground arith))
      (λ bw. bw_call-Keeps n s c h k two (λ e. ground arith))
