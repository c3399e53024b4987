-- ===== src/AtInterconnect/Order.antt =====
-- locknsnoop/common/at_interconnect.h: the order in which requests reach a target, and that a target
-- gets one at a time.
use psa.Prelude.{
  ℕ, ◌+◌, ◌≡◌, ◌⊎◌, refl, sym, true, Option, none, some, List, [], ◌∷◌, ◌++◌, arith, ap, subst, ◌∙◌,
  Option-cases, inl, inr, length, ℕ_discrete, if◌then◌else◌,
}
use psa.AtInterconnect.{AtInterconnect, Done, elaborated}
use psa.AtInterconnect.Forward.{Answers}
use psa.AtInterconnect.Processes.{
  Input, from_initiator, from_target, end_req_process_runs, end_rsp_process_runs, handle,
}
use psa.AtInterconnect.Requests.{sent}
use psa.AtInterconnect.Queues.{
  trans_of, bit, IsQueued, arrival, ending, Steps, append_nil, append_assoc,
}
use psa.AtInterconnect.Steps.{handle-Steps}
use psa.AtInterconnect.Open.{open_after, open_here, is_live}
use psa.AtInterconnect.Following.{handle-Follows}

-- What a run did: the state after it, the requests for a target that came in and those that were
-- sent to it, in their order, and the request that is open at the target after it.
pub record History : Type 0 where
  pub state : AtInterconnect
  pub arrived : List ℕ
  pub passed : List ℕ
  pub open_request : Option ℕ

-- Inputs one after another, each with what the other modules answer to the calls that it leads to;
-- `o` is the request that is open at first, and `none` that an `assert` fails.
unfoldable pub play : ℕ → AtInterconnect → Option ℕ → List (Answers × Input) → Option History
unfolding handle
play q s o [] = some (record { state = s; arrived = []; passed = []; open_request = o })
play q s o ((env, i) ∷ is) = elim (handle env s i) [
  | none ↦ none
  | some d ↦ elim (play q d.state (open_after q env i d.calls o) is) [
    | none ↦ none
    | some h ↦ some (record {
      state = h.state;
      arrived = arrival q s i ++ h.arrived;
      passed = sent q d.calls ++ h.passed;
      open_request = h.open_request;
    })
  ]
]

-- The members agree with the calls about the request that is open.
record IsFollowed (q : ℕ) (o : Option ℕ) (s : AtInterconnect) : Type 0 where
  same : o ≡ open_here s q
  live : (p : ℕ) → is_live s p ≡ true
  queued : IsQueued s q

-- The requests of a run in which `s` is the first state
abbrev InOrder : ℕ → AtInterconnect → Option History → Type 0
InOrder q s none = Unit
InOrder q s (some h) =
    (h.passed ++ trans_of (h.state.req_queue q) ≡ trans_of (s.req_queue q) ++ h.arrived)
    × IsFollowed q h.open_request h.state

after_step :
    (q : ℕ) (s : AtInterconnect) (d : Done) (arr : List ℕ) (ended : ℕ) (h : History)
    → Steps q s arr ended (some d)
    → InOrder q d.state (some h)
    → (sent q d.calls ++ h.passed) ++ trans_of (h.state.req_queue q)
      ≡ trans_of (s.req_queue q) ++ (arr ++ h.arrived)
after_step q s d arr ended h one rest =
    append_assoc (sent q d.calls) h.passed (trans_of (h.state.req_queue q))
    ∙ ap (λ xs. sent q d.calls ++ xs) rest.0
    ∙ sym (append_assoc (sent q d.calls) (trans_of (d.state.req_queue q)) h.arrived)
    ∙ ap (λ xs. xs ++ h.arrived) one.0
    ∙ append_assoc (trans_of (s.req_queue q)) arr h.arrived

step-IsFollowed :
    (q : ℕ) (o : Option ℕ) (s : AtInterconnect) (env : Answers) (i : Input) (d : Done)
    → handle env s i ≡ some d
    → IsFollowed q o s
    → IsFollowed q (open_after q env i d.calls o) d.state
step-IsFollowed q o s env i d e f =
    let here0 = handle-Follows q env s i f.live in
    let here = rw e at here0 in
    let steps0 = handle-Steps q env s i f.queued in
    let steps = rw e at steps0 in
    record {
      same = ap (open_after q env i d.calls) f.same ∙ here.0;
      live = λ p.
          let there0 = handle-Follows p env s i f.live in let there = rw e at there0 in there.1;
      queued = steps.2;
    }

play-InOrder :
    (q : ℕ) (s : AtInterconnect) (o : Option ℕ) (is : List (Answers × Input))
    → IsFollowed q o s
    → InOrder q s (play q s o is)
unfolding play
play-InOrder q s o [] f = (sym (append_nil (trans_of (s.req_queue q))), f)
play-InOrder q s o ((env, i) ∷ is) f = elim (Option-cases (handle env s i)) [
  | inl e ↦ rw (play, e) tt
  | inr (d, e) ↦
      let one : Steps q s (arrival q s i) (ending q s i) (some d) =
        subst (λ x. Steps q s (arrival q s i) (ending q s i) x) e
          (handle-Steps q env s i f.queued) in
      let o' : Option ℕ = open_after q env i d.calls o in
      let rest = play-InOrder q d.state o' is (step-IsFollowed q o s env i d e f) in
      elim (Option-cases (play q d.state o' is)) [
        | inl e' ↦ rw (play, e, e') tt
        | inr (hist, e') ↦
            let after = subst (λ x. InOrder q d.state x) e' rest in
            rw (play, e, e')
              (after_step q s d (arrival q s i) (ending q s i) hist one after, after.1)
      ]
]

-- A step that an `assert` does not stop sends no request to the target, or one, and then none was
-- open.
abbrev pub Sends : ℕ → Option ℕ → Option Done → Type 0
Sends q o none = Unit
Sends q o (some d) = (length (sent q d.calls) ≡ 0) ⊎ (length (sent q d.calls) ≡ 1) × (o ≡ none)

handle-Sends :
    (q : ℕ) (o : Option ℕ) (s : AtInterconnect) (env : Answers) (i : Input)
    → IsFollowed q o s
    → Sends q o (handle env s i)
handle-Sends q o s env i f = elim (Option-cases (handle env s i)) [
  | inl e ↦ rw e tt
  | inr (d, e) ↦
      let step = handle-Steps q env s i f.queued in
      let one = rw e at step in rw e (once q o s i d f.same (f.live q) one.1)
]
  where
    once :
        (q : ℕ) (o : Option ℕ) (s : AtInterconnect) (i : Input) (d : Done)
        → o ≡ open_here s q
        → is_live s q ≡ true
        → length (sent q d.calls) + bit (s.req_in_progress q)
          ≡ ending q s i + bit (d.state.req_in_progress q)
        → Sends q o (some d)
    once q o s (end_req_process_runs now target) d same live count =
        let one = ℕ_discrete target q in ground arith
    once q o s (from_initiator now id t ph delay) d same live count = ground arith
    once q o s (from_target now id t ph delay) d same live count = ground arith
    once q o s (end_rsp_process_runs now init) d same live count = ground arith

-- In every run of the interconnect from its start, for any calls of the initiators and the targets,
-- any answers to its own calls and any order of its processes, up to a failing `assert`. A request is
-- open at a target, as the calls between the two and their answers say, from its BEGIN_REQ until the
-- answer to it is TLM_COMPLETED, an answer of the target is TLM_UPDATED with END_REQ or BEGIN_RESP, or
-- the target calls with END_REQ or with a BEGIN_RESP of that same transaction. The requests that were
-- sent to a target, followed by those that wait for it, are those that came in for it, in their order;
-- the open request is the one in progress unless its end was notified; and the next step, whatever it
-- is, sends at most one request to the target, and one only while none is open there.
pub requests_in_order :
    (q n : ℕ) (address : ℕ → ℕ) (is : List (Answers × Input)) (h : History) (env : Answers)
    (i : Input)
    → play q (elaborated n address) none is ≡ some h
    → (h.passed ++ trans_of (h.state.req_queue q) ≡ h.arrived)
      × (h.open_request ≡ (if h.state.end_req_event q then none else h.state.req_in_progress q))
      × Sends q h.open_request (handle env h.state i)
requests_in_order q n address is h env i e =
    let start : IsFollowed q none (elaborated n address) = record {
      same = refl;
      live = λ p. refl;
      queued = inl refl;
    } in
    let (order, f) =
      subst (λ x. InOrder q (elaborated n address) x) e
        (play-InOrder q (elaborated n address) none is start) in
    (order, f.same, handle-Sends q h.open_request h.state env i f)
