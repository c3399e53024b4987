-- ===== src/AtModules/Draining.antt =====
-- locknsnoop/common/at_typea_target.h and at_typeb_target.h: the targets get rid of the transactions
-- that they hold.
use psa.Prelude.{
  ℕ, suc, ◌+◌, ◌*◌, ◌≤◌, ◌≡◌, refl, Bool, true, false, Option, none, some, List, [], ◌∷◌, arith,
  Option-cases, inl, inr, if_cases, if◌then◌else◌, length,
}
use psa.AtInterconnect.{end_resp, accepted, completed}
use psa.AtInterconnect.Queues.{bit}
use psa.AtModules.{
  AtPhase, protocol, internal_ph, Event, Around, Outcome, runs, fatal, Store, Outcome-cases,
}
use psa.AtModules.Typea.{
  Target, send_end_req, unblock, send_response, send_pending, on_end_resp, on_internal, peq_cb,
  Kind, Input, constructed, play,
}
use psa.AtModules.Pipeline.{flag, latent, IsPipelined, play-IsPipelined}

abbrev pub is_internal : AtPhase → Bool
is_internal internal_ph = true
is_internal (protocol ph) = false

-- The first transaction whose latency ends
abbrev pub next_latent : List Event → Option (Event × List Event)
next_latent [] = none
next_latent (e ∷ es) =
    let later = next_latent es in
    if is_internal e.phase
    then some (e, es)
    else elim later [ none ↦ none | some (e', rest) ↦ some (e', e ∷ rest) ]

-- What the modules around do in a round: whether the initiator ends a response at once, the rest of
-- what calls meet, the time, and the transaction of the END_RESP.
pub record Round : Type 0 where
  pub completes : ℕ → Bool
  pub around : Around
  pub now : ℕ
  pub trans : ℕ

-- Calls are answered by TLM_ACCEPTED or TLM_COMPLETED.
abbrev pub around_of : Round → Around
around_of r = record r.around {
  answers = λ t ph delay. record (r.around.answers t ph delay) {
    status = if r.completes t then completed else accepted;
  };
}

-- A round: the initiator ends the response in progress, or else a latency ends.
unfoldable pub next_round : Round → Target → Outcome Target
unfolding on_end_resp on_internal
next_round r s =
    if s.response_in_progress
    then peq_cb (around_of r) r.now s r.trans (protocol end_resp)
    else elim (next_latent s.peq) [
      | none ↦ runs s
      | some (e, es) ↦ peq_cb (around_of r) r.now (record s { peq = es }) e.trans internal_ph
    ]

unfoldable pub rounds : List Round → Target → Outcome Target
unfolding next_round
rounds [] s = runs s
rounds (r ∷ rs) s = elim (next_round r s) [ runs s' ↦ rounds rs s' | fatal why ↦ fatal why ]

-- A bound on the rounds that are left
abbrev left : Target → ℕ
left s =
    3 * bit s.end_req_pending
    + 2 * latent s.peq
    + 2 * bit s.next_response_pending
    + flag s.response_in_progress

abbrev Advances : ℕ → Outcome Target → Type 0
Advances n (runs s) = IsPipelined s × (left s ≤ n)
Advances n (fatal why) = ⊥

abbrev IsNext : List Event → Option (Event × List Event) → Type 0
IsNext es none = latent es ≡ 0
IsNext es (some (e, rest)) = latent es ≡ 1 + latent rest

next_latent-IsNext : (es : List Event) → IsNext es (next_latent es)
next_latent-IsNext [] = refl
next_latent-IsNext (e ∷ es) =
    let below = next_latent-IsNext es in
    if_cases (IsNext (e ∷ es)) (is_internal e.phase) (λ now. ground arith)
      λ later. elim (Option-cases (next_latent es)) [
        | inl empty ↦ let rest = rw empty at below in rw empty (ground arith)
        | inr ((e', es'), found) ↦ let rest = rw found at below in rw found (ground arith)
      ]

end_round :
    (r : Round) (s : Target) (n : ℕ) (t : ℕ)
    → IsPipelined s
    → s.response_in_progress ≡ true
    → left s ≤ suc n
    → Advances n (on_end_resp (around_of r) r.now s t)
unfolding on_end_resp send_pending send_response unblock send_end_req
end_round r s n t h busy e = ground arith

latent_round :
    (r : Round) (s : Target) (n : ℕ) (es : List Event) (t : ℕ)
    → IsPipelined s
    → s.response_in_progress ≡ false
    → latent s.peq ≡ 1 + latent es
    → left s ≤ suc n
    → Advances n (on_internal (around_of r) r.now (record s { peq = es }) t)
unfolding on_internal send_pending send_response unblock send_end_req
latent_round r s n es t h idle e l = ground arith

next_round-Advances :
    (r : Round) (s : Target) (n : ℕ) → IsPipelined s → left s ≤ suc n → Advances n (next_round r s)
unfolding next_round peq_cb
next_round-Advances r s n h l =
    if_cases (Advances n) s.response_in_progress (λ busy. end_round r s n r.trans h busy l)
      (λ idle.
        let next = next_latent-IsNext s.peq in
        elim (Option-cases (next_latent s.peq)) [
          | inl empty ↦ let none_left = rw empty at next in rw empty (ground arith)
          | inr ((e, es), found) ↦
              let split = rw found at next in
              rw found (latent_round r s n es e.trans h idle split l)
        ])

rounds-Advances :
    (rs : List Round) (s : Target) → IsPipelined s → left s ≤ length rs → Advances 0 (rounds rs s)
unfolding rounds
rounds-Advances [] s h l = (h, l)
rounds-Advances (r ∷ rs) s h l =
    let first = next_round-Advances r s (length rs) h l in
    elim (Outcome-cases (next_round r s)) [
      | inl (s', e) ↦ let one = rw e at first in rw (rounds, e) (rounds-Advances rs s' one.0 one.1)
      | inr (why, e) ↦ absurd (rw e at first)
    ]

-- The target holds no transaction and holds none back.
pub record IsIdle (s : Target) : Type 0 where
  pub all_ended : s.begun ≡ s.ended
  pub no_latency : latent s.peq ≡ 0
  pub no_response : s.response_in_progress ≡ false
  pub no_next_response : s.next_response_pending ≡ none
  pub no_held_request : s.end_req_pending ≡ none

-- From every state that a run of a target of type A or B reaches from its start, for any calls of
-- `nb_transport_fw`, any answers and any order of the events of its queue: seven rounds or more, in
-- each of which the initiator ends the response that is in progress, or else the next latency ends,
-- while the initiator answers a BEGIN_RESP by TLM_ACCEPTED or TLM_COMPLETED, do not end the
-- simulation, and leave the target with no transaction that it holds or holds back.
pub drains :
    (k : Kind) (m : Store) (is : List (Around × Input)) (s : Target) (rs : List Round)
    → play k (constructed m) is ≡ runs s
    → 7 ≤ length rs
    → (s' : Target) × (rounds rs s ≡ runs s') × IsIdle s'
drains k m is s rs e enough =
    let all = play-IsPipelined k (constructed m) is (omega arith) in
    let reached : IsPipelined s = rw e at all in
    let ends = rounds-Advances rs s reached (ground arith) in
    elim (Outcome-cases (rounds rs s)) [
      | inl (s', e') ↦ let done = rw e' at ends in (s', e', ground arith)
      | inr (why, e') ↦ absurd (rw e' at ends)
    ]
