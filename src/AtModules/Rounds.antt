-- ===== src/AtModules/Rounds.antt =====
-- locknsnoop/common/at_typea_initiator.h and at_typee_target.h: an initiator before a target that
-- completes transactions at once. The code of at_typeb_initiator.h is the same there.
use psa.Prelude.{
  ℕ, ◌+◌, ◌≤◌, ◌≡◌, true, none, List, [], ◌∷◌, map, length, if◌then◌else◌, ltb, arith, inl, inr,
}
use psa.AtInterconnect.{begin_req, completed}
use psa.AtModules.{rand_ps, Store, refused, execute, Outcome, runs, fatal, Outcome-cases}
use psa.AtModules.Typee.{complete}
use psa.AtModules.Single.{releases}
use psa.AtModules.Open.{begin_reqs}
use psa.AtModules.Initiators.{
  ThreadPc, between, over, Initiator, constructed, Meets, check_transaction, set_up, send_request,
  start_round, thread_process,
}
use psa.AtModules.Initiators.Steps.{Kind, Input, thread_goes_on, step, handle, play}

-- The values of `rand()` in a round, the transaction of the memory manager, the time, and what else
-- happened to the store before the round
pub record Values : Type 0 where
  pub address_rand : ℕ
  pub command_rand : ℕ
  pub delay_rand : ℕ
  pub latency_rand : ℕ
  pub allocated : ℕ
  pub now : ℕ
  pub store_before : Store → Store

abbrev pub with_typee : Values → Meets × Input
with_typee v = (
  record {
    address_rand = v.address_rand;
    command_rand = v.command_rand;
    delay_rand = v.delay_rand;
    allocated = v.allocated;
    nb_transport_fw = complete v.latency_rand;
    store_before = v.store_before;
  },
  thread_goes_on v.now,
)

-- The data of a new transaction are right once it is completed.
complete-check_transaction :
    (m : Store) (i : ℕ) (env : Meets) (r delay : ℕ)
    → check_transaction (complete r (set_up m i env) env.allocated begin_req delay).0 env.allocated
      ≡ true
unfolding check_transaction complete set_up refused execute
complete-check_transaction m i env r delay = ground arith

complete-completed :
    (m : Store) (t r delay : ℕ) → (complete r m t begin_req delay).1.status ≡ completed
unfolding complete refused
complete-completed m t r delay = ground arith

abbrev IsBetween : ThreadPc → ℕ → Type 0
IsBetween between i = Unit
IsBetween over i = 1000 ≤ i
IsBetween _ i = ⊥

-- No request is in progress, and a transaction was let go for each request.
record IsReady (s : Initiator) : Type 0 where
  thread : IsBetween s.pc s.i
  free : s.req_in_progress ≡ none
  paired : releases s.did ≡ begin_reqs s.did
  counted : begin_reqs s.did ≡ s.i

abbrev next_i : ℕ → ℕ
next_i i = if ltb i 1000 then i + 1 else i

abbrev Ready : Initiator → Outcome Initiator → Type 0
Ready s (runs s') = IsReady s' × (s.i ≤ 1000 → s'.i ≡ next_i s.i)
Ready s (fatal why) = ⊥

round-Ready :
    (kind : Kind) (v : Values) (s : Initiator)
    → IsReady s
    → Ready s (handle kind (with_typee v).0 s (with_typee v).1)
unfolding handle step thread_process start_round send_request
round-Ready kind v s h =
    let m = v.store_before s.store in
    let env : Meets = (with_typee v).0 in
    let delay = rand_ps v.delay_rand in
    let right = complete-check_transaction m s.i env v.latency_rand delay in
    let ends = complete-completed (set_up m s.i env) v.allocated v.latency_rand delay in
    ground arith

abbrev at_most_1000 : ℕ → ℕ
at_most_1000 n = if ltb n 1000 then n else 1000

abbrev All : ℕ → Outcome Initiator → Type 0
All n (runs s) = IsReady s × (s.i ≡ at_most_1000 n)
All n (fatal why) = ⊥

play-All :
    (kind : Kind) (vs : List Values) (s : Initiator)
    → IsReady s
    → s.i ≤ 1000
    → All (s.i + length vs) (play kind s (map with_typee vs))
unfolding play
play-All kind [] s h l = (h, ground arith)
play-All kind (v ∷ vs) s h l =
    let (env, i) = with_typee v in
    let one = round-Ready kind v s h in
    elim (Outcome-cases (handle kind env s i)) [
      | inl (s', e) ↦
          let this = rw e at one in
          let rest = play-All kind vs s' this.0 (ground arith) in rw (play, e) (ground arith)
      | inr (why, e) ↦ absurd (rw e at one)
    ]

-- An initiator of type A or B before a target of type E, for any values of `rand()`, any transactions
-- of the memory manager and any changes of the store between two rounds: each round up to the
-- thousandth sends one BEGIN_REQ, the data of a read are found right, the transaction is let go, and
-- no request stays in progress.
pub rounds_complete :
    (kind : Kind) (m : Store) (vs : List Values)
    → (s : Initiator) × (play kind (constructed m) (map with_typee vs) ≡ runs s)
      × (begin_reqs s.did ≡ (if ltb (length vs) 1000 then length vs else 1000))
      × (releases s.did ≡ begin_reqs s.did)
      × (s.req_in_progress ≡ none)
rounds_complete kind m vs =
    let all = play-All kind vs (constructed m) (ground arith) (omega arith) in
    elim (Outcome-cases (play kind (constructed m) (map with_typee vs))) [
      | inl (s, e) ↦ let end = rw e at all in (s, e, ground arith, ground arith, ground arith)
      | inr (why, e) ↦ absurd (rw e at all)
    ]
