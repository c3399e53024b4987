-- ===== src/Checker/Runs.antt =====
-- locknsnoop/common/tlm2_base_protocol_checker.h: runs of calls through one checker.
use psa.Prelude.{
  ℕ, ◌+◌, ◌<◌, ◌≤◌, ◌≡◌, refl, Bool, true, none, some, List, [], ◌∷◌, ◌++◌, ◌&&◌, arith,
  Option-cases, inl, inr, length,
}
use psa.Checker.{Checker, new_checker}
use psa.Checker.Paths.{Checks}
use psa.Checker.Transport.{nb_transport_fw, nb_transport_bw}
use psa.Checker.Rules.{History, IsLegal}
use psa.Checker.Silence.{Tracks, nil_parts}
use psa.Checker.Calls.{NbCall, nb_call, completes_well, seen_of, nb_call-Keeps}

-- Calls one after another
unfoldable pub watch : ℕ → Checker → List NbCall → Checks
unfolding nb_transport_fw nb_transport_bw
watch n s [] = some (s, [])
watch n s (c ∷ cs) = elim (nb_call n s c) [
  | none ↦ none
  | some (s', r) ↦ elim (watch n s' cs) [ none ↦ none | some (s'', r') ↦ some (s'', r ++ r') ]
]

abbrev pub all_complete_well : List NbCall → Bool
all_complete_well [] = true
all_complete_well (c ∷ cs) = completes_well c && all_complete_well cs

abbrev pub seen : List NbCall → History → History
seen [] h = h
seen (c ∷ cs) h = seen cs (seen_of c h)

abbrev Legal : List NbCall → History → Checks → Type 0
Legal cs h none = Unit
Legal cs h (some (s, r)) = r ≡ [] → IsLegal (seen cs h)

watch-Legal :
    (n : ℕ) (s : Checker) (cs : List NbCall) (h : History)
    → Tracks s h
    → length cs + 1 ≤ s.num_checks
    → all_complete_well cs ≡ true
    → Legal cs h (watch n s cs)
unfolding watch
watch-Legal n s [] h k l well = λ quiet. k.legal
watch-Legal n s (c ∷ cs) h k l well =
    let one = nb_call-Keeps n s c h k (omega arith) (ground arith) in
    elim (Option-cases (nb_call n s c)) [
      | inl e ↦ rw (watch, e) tt
      | inr ((s', r), e) ↦
          let (tracks, left) = rw e at one in
          elim (Option-cases (watch n s' cs)) [
            | inl e' ↦ rw (watch, e, e') tt
            | inr ((s'', r'), e') ↦
                rw (watch, e, e')
                  (λ quiet.
                    let (q1, q2) = nil_parts r r' quiet in
                    let rest =
                      watch-Legal n s' cs (seen_of c h) (tracks q1) (omega arith) (ground arith) in
                    (rw e' at rest) q2)
          ]
    ]

-- A run of fewer than 100000 calls of `nb_transport_fw` and `nb_transport_bw` through a checker, on which
-- it makes no report, where TLM_COMPLETED answers a BEGIN_REQ or a BEGIN_RESP only: the phases of each
-- transaction that were sent, by calls and on their returns, are those of the base protocol in their
-- order; a request begins only when no other transaction has one in progress, and a response begins
-- only when no other has.
pub silent_IsLegal :
    (n this : ℕ) (cs : List NbCall) (s : Checker)
    → length cs < 100000
    → all_complete_well cs ≡ true
    → watch n (new_checker this) cs ≡ some (s, [])
    → IsLegal (seen cs [])
silent_IsLegal n this cs s few well e =
    let all =
      watch-Legal n (new_checker this) cs []
        (record {
          phases = λ u. refl;
          request = λ u b. ground arith;
          response = λ u b. ground arith;
          legal = tt;
        })
        (omega arith) well in
    (rw e at all) refl
