-- ===== src/AtInterconnect/Queues.antt =====
-- locknsnoop/common/at_interconnect.h: the queue of requests for one target, and what a request that
-- comes in and the end of one do to it.
use psa.Prelude.{
  ℕ, ◌-◌, ◌+◌, ◌≡◌, ◌⊎◌, refl, sym, Bool, true, false, Option, none, some, List, [], ◌∷◌, ◌++◌,
  if◌then◌else◌, ◌==◌, arith, ap, if_cases, Bool-cases, inl, inr, length, ℕ_discrete, update,
}
use psa.AtInterconnect.{
  begin_req, Trans, Route, AtInterconnect, Call, fw, Answer, Done, is_some, decode_address, masked,
}
use psa.AtInterconnect.Forward.{Answers, after_fw, pass_fw, accept_request}
use psa.AtInterconnect.Processes.{
  next_request, send_queued, Input, from_initiator, end_req_process_runs,
}
use psa.AtInterconnect.Requests.{sent, Keeps, after_fw-Keeps, after_queued-Keeps}

abbrev pub trans_of : List Trans → List ℕ
trans_of [] = []
trans_of (x ∷ xs) = x.trans ∷ trans_of xs

abbrev pub bit : Option ℕ → ℕ
bit none = 0
bit (some t) = 1

abbrev is_nil : List Trans → Bool
is_nil [] = true
is_nil (x ∷ xs) = false

-- A request waits only while another is in progress.
abbrev pub IsQueued : AtInterconnect → ℕ → Type 0
IsQueued s q = (is_nil (s.req_queue q) ≡ true) ⊎ (is_some (s.req_in_progress q) ≡ true)

-- The request for the target `q` that comes in with an input, and the request that it ends
abbrev pub arrival : ℕ → AtInterconnect → Input → List ℕ
arrival q s (from_initiator now id t begin_req d) =
    if decode_address s (s.address t) == q then t ∷ [] else []
arrival q s _ = []

abbrev pub ending : ℕ → AtInterconnect → Input → ℕ
ending q s (end_req_process_runs now target) =
    if s.end_req_event target then if target == q then 1 else 0 else 0
ending q s _ = 0

-- What a step does, if it ends, to the requests for `q`: those sent and those that wait after it
-- are those that waited before it and the new one, and one is sent only as one ends or none is in
-- progress.
abbrev pub Steps : ℕ → AtInterconnect → List ℕ → ℕ → Option Done → Type 0
Steps q s arr ended none = Unit
Steps q s arr ended (some d) =
    (sent q d.calls ++ trans_of (d.state.req_queue q) ≡ trans_of (s.req_queue q) ++ arr)
    × (length (sent q d.calls) + bit (s.req_in_progress q)
        ≡ ended + bit (d.state.req_in_progress q))
    × IsQueued d.state q

pub append_nil : (xs : List ℕ) → xs ++ [] ≡ xs
append_nil [] = refl
append_nil (x ∷ xs) = ap (λ ys. x ∷ ys) (append_nil xs)

pub append_assoc : (xs ys zs : List ℕ) → (xs ++ ys) ++ zs ≡ xs ++ (ys ++ zs)
append_assoc [] ys zs = refl
append_assoc (x ∷ xs) ys zs = ap (λ ws. x ∷ ws) (append_assoc xs ys zs)

trans_of-append :
    (xs : List Trans) (x : Trans) → trans_of (xs ++ x ∷ []) ≡ trans_of xs ++ x.trans ∷ []
trans_of-append [] x = refl
trans_of-append (y ∷ xs) x = ap (λ ws. y.trans ∷ ws) (trans_of-append xs x)

pub Keeps-Steps :
    (q : ℕ) (s : AtInterconnect) (d : Option Done)
    → IsQueued s q
    → Keeps q s [] d
    → Steps q s [] 0 d
Keeps-Steps q s none h k = tt
Keeps-Steps q s (some d) h k =
    rw (k.0, k.1, k.2) (sym (append_nil (trans_of (s.req_queue q))), refl, h)

idle_empty :
    (s : AtInterconnect) (q : ℕ)
    → IsQueued s q
    → is_some (s.req_in_progress q) ≡ false
    → trans_of (s.req_queue q) ≡ []
idle_empty s q h idle = nil (s.req_queue q) (ground arith)
  where
    nil : (xs : List Trans) → is_nil xs ≡ true → trans_of xs ≡ []
    nil [] e = refl
    nil (x ∷ xs) e = ground arith

-- After a change of state that sends a request to `target` at once
Sends-Steps :
    (q target t delay : ℕ) (s s' : AtInterconnect) (d : Option Done)
    → is_some (s.req_in_progress target) ≡ false
    → IsQueued s q
    → s'.req_queue ≡ s.req_queue
    → s'.req_in_progress ≡ update s.req_in_progress target (some t)
    → Keeps q s' (fw target t begin_req delay ∷ []) d
    → Steps q s (if target == q then t ∷ [] else []) 0 d
Sends-Steps q target t delay s s' none idle h e1 e2 k = tt
Sends-Steps q target t delay s s' (some d) idle h e1 e2 k = elim (ℕ_discrete target q) [
  | yes e ↦ let empty = idle_empty s q h (rw e at idle) in rw (k.0, k.1, k.2, e1, e2) (ground arith)
  | no ne ↦
      let same = append_nil (trans_of (s.req_queue q)) in rw (k.0, k.1, k.2, e1, e2) (ground arith)
]

pub accept_request-Steps :
    (q : ℕ) (env : Answers) (s : AtInterconnect) (now id t delay : ℕ)
    → IsQueued s q
    → Steps q s
        (if decode_address s (s.address t) == q then t ∷ [] else [])
        0
        (accept_request env s now id t delay)
unfolding accept_request pass_fw
accept_request-Steps q env s now id t delay h =
    let target : ℕ = decode_address s (s.address t) in
    let r : Route = record { init = id; target = target; dont_propagate_fw = false } in
    let s' : AtInterconnect = record s {
      address = update s.address t (masked (s.address t));
      route = update s.route t (some r);
      req_in_progress = update s.req_in_progress target (some t);
    } in
    let calls : List Call = fw target t begin_req delay ∷ [] in
    let a : Answer = env.target_answers target t begin_req delay in
    elim (Bool-cases (is_some (s.req_in_progress target))) [
      | inl busy ↦
          let added = trans_of-append (s.req_queue q) (record { trans = t; time = now + delay }) in
          let same = append_nil (trans_of (s.req_queue q)) in
          let one = ℕ_discrete target q in rw busy (ground arith)
      | inr idle ↦ rw idle (
          Sends-Steps q target t delay s s' (after_fw s' now id t target (some r) calls a) idle h
            refl refl (after_fw-Keeps q s' now id t target (some r) calls a))
    ]

-- After a change of state that takes the head of the queue of `target` and sends it
Pops-Steps :
    (q target delay : ℕ) (s s' : AtInterconnect) (req : Trans) (reqs : List Trans) (d : Option Done)
    → s.req_queue target ≡ req ∷ reqs
    → is_some (s.req_in_progress target) ≡ true
    → IsQueued s q
    → s'.req_queue ≡ update s.req_queue target reqs
    → s'.req_in_progress ≡ update s.req_in_progress target (some req.trans)
    → Keeps q s' (fw target req.trans begin_req delay ∷ []) d
    → Steps q s [] (if target == q then 1 else 0) d
Pops-Steps q target delay s s' req reqs none e busy h e1 e2 k = tt
Pops-Steps q target delay s s' req reqs (some d) e busy h e1 e2 k = elim (ℕ_discrete target q) [
  | yes here ↦
      let queue : s.req_queue q ≡ req ∷ reqs = rw here at e in
      let same = append_nil (trans_of reqs) in
      let busy' = rw here at busy in rw (k.0, k.1, k.2, e1, e2, queue) (ground arith)
  | no ne ↦
      let same = append_nil (trans_of (s.req_queue q)) in rw (k.0, k.1, k.2, e1, e2) (ground arith)
]

queued-Steps :
    (q : ℕ) (s s' : AtInterconnect) (env : Answers) (now target : ℕ) (req : Trans)
    (reqs : List Trans) (r : Option Route)
    → s.req_queue target ≡ req ∷ reqs
    → is_some (s.req_in_progress target) ≡ true
    → IsQueued s q
    → s'.req_queue ≡ update s.req_queue target reqs
    → s'.req_in_progress ≡ update s.req_in_progress target (some req.trans)
    → Steps q s []
        (if target == q then 1 else 0)
        (send_queued env s' now target req.trans (req.time - now) r)
unfolding send_queued
queued-Steps q s s' env now target req reqs none e busy h e1 e2 = tt
queued-Steps q s s' env now target req reqs (some r) e busy h e1 e2 =
    if_cases (Steps q s [] (if target == q then 1 else 0)) (r.target == target)
      (λ same.
        Pops-Steps q target (req.time - now) s s' req reqs _ e busy h e1 e2
          (after_queued-Keeps q env s' now target req.trans r _ _))
      (λ other. tt)

pub next_request-Steps :
    (q : ℕ) (env : Answers) (s : AtInterconnect) (now target : ℕ) (reqs : List Trans)
    → s.req_queue target ≡ reqs
    → is_some (s.req_in_progress target) ≡ true
    → IsQueued s q
    → Steps q s [] (if target == q then 1 else 0) (next_request env s now target reqs)
unfolding next_request
next_request-Steps q env s now target [] e busy h = elim (ℕ_discrete target q) [
  | yes here ↦
      let queue : s.req_queue q ≡ [] = rw here at e in
      let busy' = rw here at busy in rw queue (ground arith)
  | no ne ↦ let same = append_nil (trans_of (s.req_queue q)) in ground arith
]
next_request-Steps q env s now target (req ∷ reqs) e busy h =
    let s' : AtInterconnect = record s {
      req_queue = update s.req_queue target reqs;
      req_in_progress = update s.req_in_progress target (some req.trans);
    } in
    queued-Steps q s s' env now target req reqs (s.route req.trans) e busy h refl refl
