-- ===== src/Checker/Verdict.antt =====
-- locknsnoop/common/tlm2_base_protocol_checker.h: a run of calls that keeps the rules goes through the
-- checker, with no report of a broken rule on phases.
use psa.Prelude.{
  ℕ, ◌+◌, ◌<◌, ◌≤◌, ◌≡◌, ◌≢◌, refl, subst, Bool, true, ◌&&◌, none, some, List, [], ◌∷◌, arith,
  ℕ_discrete, Option-cases, if_cases, inl, inr, length,
}
use psa.Checker.{
  CheckedPhase, protocol, extended, uninitialized, CheckedTrans, Checker, new_checker,
}
use psa.Checker.Paths.{Checks}
use psa.Checker.Phases.{
  nb_transport_fw_pre_checks, nb_transport_fw_post_checks, nb_transport_bw_pre_checks,
  nb_transport_bw_post_checks,
}
use psa.Checker.Transport.{Returned, nb_transport_fw, nb_transport_bw}
use psa.AtInterconnect.{Sync, accepted, updated, completed}
use psa.Checker.Rules.{History, IsLegal}
use psa.Checker.Counting.{fw_pre-num_checks, bw_pre-num_checks}
use psa.Checker.Silence.{mark, return_mark}
use psa.Checker.Calls.{NbCall, nb_call, seen_of, nb_call-Keeps}
use psa.Checker.Runs.{watch, all_complete_well, seen}
use psa.Checker.Alarms.{no_alarm, IsQuiet, quiet, none_stands, both-IsQuiet}
use psa.Checker.Accepts.{IsFollowed}
use psa.Checker.Copies.{
  Grows, has_copy, is_known, Returns, HasCopies, fw_pre-Grows, bw_pre-Grows, fw_post-Returns,
  bw_post-Returns, around-Returns, forward-has_copy, backward-has_copy,
}
use psa.Checker.Legal.{is_directed, mark-before, return-before, nb_call-Accepts}

-- A call with an extended phase comes after another one of its transaction.
abbrev pub all_known : List NbCall → History → Bool
all_known [] h = true
all_known (c ∷ cs) h = is_known c.trans (mark c.trans c.phase h) && all_known cs (seen_of c h)

nb_call-Returns :
    (n : ℕ) (s : Checker) (c : NbCall) (h : History)
    → HasCopies s h
    → 2 ≤ s.num_checks
    → is_directed c ≡ true
    → is_known c.trans (mark c.trans c.phase h) ≡ true
    → IsLegal (seen_of c h)
    → Returns s c.trans (nb_call n s c)
unfolding nb_transport_fw nb_transport_bw
nb_call-Returns n s c h k two way known legal =
    let r : Returned = c.returned in
    let t : ℕ = c.trans in
    let p : CheckedTrans = c.attributes in
    let before = return-before t r.status r.phase (mark t c.phase h) legal in
    if_cases (Returns s t) c.forward
      (λ fw.
        let pre = nb_transport_fw_pre_checks s c.now t p c.phase c.delay in
        around-Returns s t pre
          (λ s1. nb_transport_fw_post_checks n s1 c.now t r.trans r.phase r.delay r.status) two
          (fw_pre-num_checks s c.now t p c.phase c.delay) (fw_pre-Grows s c.now t p c.phase c.delay)
          (fw_post-Returns n pre.0 c.now t r.trans r.phase r.delay r.status
            (forward-has_copy s c.now t p c.phase c.delay h k (ground arith) known before)))
      (λ bw.
        let pre = nb_transport_bw_pre_checks s c.now t p c.phase c.delay in
        let grows = bw_pre-Grows s c.now t p c.phase c.delay in
        around-Returns s t pre
          (λ s1. nb_transport_bw_post_checks n s1 c.now t r.trans r.phase r.delay r.status) two
          (bw_pre-num_checks s c.now t p c.phase c.delay) grows
          (bw_post-Returns n pre.0 c.now t r.trans r.phase r.delay r.status
            (grows t (backward-has_copy s t c.phase h k (ground arith) known before))))

-- What is known after a call was known, or is its transaction.
mark-is_known :
    (t u : ℕ) (ph : CheckedPhase) (h : History) → t ≢ u → is_known u (mark t ph h) ≡ is_known u h
mark-is_known t u (protocol ph) h e = ground arith
mark-is_known t u extended h e = refl
mark-is_known t u uninitialized h e = refl

return-is_known :
    (t u : ℕ) (st : Sync) (ph : CheckedPhase) (h : History)
    → t ≢ u
    → is_known u (return_mark t st ph h) ≡ is_known u h
return-is_known t u accepted ph h e = refl
return-is_known t u updated ph h e = mark-is_known t u ph h e
return-is_known t u completed ph h e = ground arith

call-HasCopies :
    (s s' : Checker) (c : NbCall) (h : History)
    → HasCopies s h
    → Grows s s'
    → has_copy s' c.trans ≡ true
    → HasCopies s' (seen_of c h)
call-HasCopies s s' c h k grows copy u known = elim (ℕ_discrete c.trans u) [
  | yes e ↦ subst (λ x. has_copy s' x ≡ true) e copy
  | no e ↦
      let r : Returned = c.returned in
      let a = return-is_known c.trans u r.status r.phase (mark c.trans c.phase h) e in
      let b = mark-is_known c.trans u c.phase h e in grows u (k u (ground arith))
]

abbrev pub all_directed : List NbCall → Bool
all_directed [] = true
all_directed (c ∷ cs) = is_directed c && all_directed cs

-- The rules that are kept by a run are kept by its beginning.
seen-before : (cs : List NbCall) (h : History) → IsLegal (seen cs h) → IsLegal h
seen-before [] h legal = legal
seen-before (c ∷ cs) h legal =
    let r : Returned = c.returned in
    mark-before c.trans c.phase h (
      return-before c.trans r.status r.phase (mark c.trans c.phase h)
        (seen-before cs (seen_of c h) legal))

-- The run goes through, with no alarm.
abbrev Passes : Checks → Type 0
Passes none = ⊥
Passes (some (s, r)) = IsQuiet r

watch-Passes :
    (n : ℕ) (s : Checker) (cs : List NbCall) (h : History)
    → IsFollowed s h
    → HasCopies s h
    → length cs + 1 ≤ s.num_checks
    → all_complete_well cs ≡ true
    → all_directed cs ≡ true
    → all_known cs h ≡ true
    → IsLegal (seen cs h)
    → Passes (watch n s cs)
unfolding watch
watch-Passes n s [] h k copies l well way known legal = quiet refl
watch-Passes n s (c ∷ cs) h k copies l well way known legal =
    let now = seen-before cs (seen_of c h) legal in
    let left = nb_call-Keeps n s c h k.tracked (omega arith) (ground arith) in
    let returns = nb_call-Returns n s c h copies (omega arith) (ground arith) (ground arith) now in
    let one = nb_call-Accepts n s c h k (omega arith) (ground arith) (ground arith) now in
    elim (Option-cases (nb_call n s c)) [
      | inl e ↦ absurd (rw e at returns)
      | inr ((s', r), e) ↦
          let (grows, copy) = rw e at returns in
          let (q, exact) = rw e at one in
          let (_, fewer) = rw e at left in
          let rest =
            watch-Passes n s' cs (seen_of c h) exact (call-HasCopies s s' c h copies grows copy)
              (omega arith) (ground arith) (ground arith) (ground arith) legal in
          elim (Option-cases (watch n s' cs)) [
            | inl e' ↦ absurd (rw e' at rest)
            | inr ((s'', r'), e') ↦ rw (watch, e, e') (both-IsQuiet r r' q (rw e' at rest))
          ]
    ]

-- The reports of a run that goes through
abbrev pub HasNoAlarm : Checks → Type 0
HasNoAlarm none = ⊥
HasNoAlarm (some (s, r)) = no_alarm r ≡ true

Passes-HasNoAlarm : (o : Checks) → Passes o → HasNoAlarm o
Passes-HasNoAlarm none q = q
Passes-HasNoAlarm (some (s, r)) q = none_stands q

-- A run of fewer than 100000 calls of `nb_transport_fw` and `nb_transport_bw` through a checker: the
-- phases are sent in the direction that the protocol has for them, TLM_COMPLETED answers a BEGIN_REQ or a
-- BEGIN_RESP only, and an extended phase is not the first thing that is sent of a transaction. If the
-- phases of each transaction are those of the base protocol in their order and a request or a response
-- begins only when no other is in progress, then the run goes through the checker, without the use of a
-- null pointer, and with no report of a broken rule on the phases or on the exclusion of requests and of
-- responses.
pub watch-HasNoAlarm :
    (n this : ℕ) (cs : List NbCall)
    → length cs < 100000
    → all_complete_well cs ≡ true
    → all_directed cs ≡ true
    → all_known cs [] ≡ true
    → IsLegal (seen cs [])
    → HasNoAlarm (watch n (new_checker this) cs)
watch-HasNoAlarm n this cs few well way known legal =
    Passes-HasNoAlarm (watch n (new_checker this) cs) (
      watch-Passes n (new_checker this) cs []
        (record {
          tracked = record {
            phases = λ u. refl;
            request = λ u b. ground arith;
            response = λ u b. ground arith;
            legal = tt;
          };
          request_back = λ u b. ground arith;
          response_back = λ u b. ground arith;
        })
        (λ u b. ground arith) (omega arith) well way known legal)
