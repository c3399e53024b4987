-- ===== src/AtInterconnect/Open.antt =====
-- locknsnoop/common/at_interconnect.h: the request that is open between the interconnect and one
-- target, as the calls and answers between the two say it, with no look at the interconnect's own
-- members.
use psa.Prelude.{
  ℕ, ◌≡◌, Bool, true, ◌||◌, not, Option, none, some, List, [], ◌∷◌, if◌then◌else◌, ◌==◌,
}
use psa.AtInterconnect.{
  Phase, begin_req, end_req, begin_resp, accepted, updated, completed, AtInterconnect, Call, fw, bw,
  Answer, Done, is_some,
}
use psa.AtInterconnect.Forward.{Answers}
use psa.AtInterconnect.Processes.{Input, from_target}

-- An END_REQ ends the request that is open, and a BEGIN_RESP the request of its own transaction.
abbrev pub ended_by : ℕ → Phase → Option ℕ → Option ℕ
ended_by t end_req o = none
ended_by t begin_resp none = none
ended_by t begin_resp (some u) = if u == t then none else some u
ended_by t _ o = o

-- An input from the target `q`
abbrev pub heard : ℕ → Input → Option ℕ → Option ℕ
heard q (from_target now id t ph delay) o = if id == q then ended_by t ph o else o
heard q _ o = o

-- A call of the target opens a request if its phase is BEGIN_REQ.
abbrev pub asked : ℕ → Phase → Option ℕ → Option ℕ
asked t begin_req o = some t
asked t _ o = o

-- The answer ends it if it is TLM_UPDATED with END_REQ or BEGIN_RESP, and TLM_COMPLETED to a request.
abbrev pub updated_to : Phase → Option ℕ → Option ℕ
updated_to end_req o = none
updated_to begin_resp o = none
updated_to _ o = o

abbrev pub completes : Phase → Option ℕ → Option ℕ
completes begin_req o = none
completes _ o = o

abbrev pub answered : Phase → Answer → Option ℕ → Option ℕ
answered ph a o = elim a.status [
  | accepted ↦ o
  | updated ↦ updated_to a.phase o
  | completed ↦ completes ph o
]

abbrev pub after_call : ℕ → Answers → Call → Option ℕ → Option ℕ
after_call q env (fw target t ph delay) o =
    if target == q then answered ph (env.target_answers target t ph delay) (asked t ph o) else o
after_call q env (bw init t ph delay) o = o

abbrev pub after_calls : ℕ → Answers → List Call → Option ℕ → Option ℕ
after_calls q env [] o = o
after_calls q env (c ∷ cs) o = after_calls q env cs (after_call q env c o)

-- The request open at the target `q` after an input and the calls that it led to
abbrev pub open_after : ℕ → Answers → Input → List Call → Option ℕ → Option ℕ
open_after q env i calls o = after_calls q env calls (heard q i o)

-- What the interconnect's members say is open
abbrev pub open_here : AtInterconnect → ℕ → Option ℕ
open_here s q = if s.end_req_event q then none else s.req_in_progress q

-- An event that was notified has a request in progress to end.
abbrev pub is_live : AtInterconnect → ℕ → Bool
is_live s q = not (s.end_req_event q) || is_some (s.req_in_progress q)

-- After the calls of a step that began with the request `o` open
abbrev pub Follows : ℕ → Answers → Option ℕ → Option Done → Type 0
Follows q env o none = Unit
Follows q env o (some d) =
    (after_calls q env d.calls o ≡ open_here d.state q) × (is_live d.state q ≡ true)
