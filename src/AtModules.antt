-- ===== src/AtModules.antt =====
-- locknsnoop/common/: the targets and the initiators of the approximately-timed style,
-- at_typea_target.h to at_typee_target.h, at_typea_initiator.h and at_typeb_initiator.h, and
-- common_header.h. What they share is here, and a child for each kind of module.
--
-- A transaction is a number. A module is reached by calls and by its payload event queue, which is
-- the list of what was notified and has not come up yet; which event comes up next is left open. What
-- a module calls of others is noted in its list `did`, the last first.
pub mod Typea
pub mod Pipeline
pub mod Answered
pub mod Draining
pub mod Typec
pub mod Typed
pub mod Typee
pub mod Initiators
pub mod Open
pub mod Exclusion
pub mod Single
pub mod Responses
pub mod Rounds
pub mod Tests
use psa.Prelude.{
  ℕ, ◌≡◌, ◌⊎◌, inl, inr, refl, ◌+◌, ◌*◌, ◌/◌, ◌%◌, zero, suc, Bool, true, false, ◌||◌, Option, none,
  some, List, [], ◌∷◌, if◌then◌else◌, ltb, update, arith, Option-cases,
}
use psa.Locking.{Command, read, Status, ok, byte_enable_error, burst_error, negative}
use psa.AtInterconnect.{Phase, Answer}

-- `rand_ps`, where `r` is the value of `rand()`
unfoldable pub rand_ps : ℕ → ℕ
rand_ps r = let n = r % 100 in n * n * n / 100

-- `tlm_phase` with the phase that the modules declare for their own queues
pub data AtPhase : Type 0 where
  protocol : Phase → AtPhase
  internal_ph : AtPhase

-- An event of a payload event queue, at the absolute time `time`
pub record Event : Type 0 where
  pub trans : ℕ
  pub phase : AtPhase
  pub time : ℕ

-- The members of the generic payload that the modules use; `data_ptr` is the number of the word that
-- it points to, `byte_enables` whether `byte_enable_ptr` is not null.
pub record AtPayload : Type 0 where
  pub command : Command
  pub address : ℕ
  pub data_ptr : ℕ
  pub data_length : ℕ
  pub byte_enables : Bool
  pub streaming_width : ℕ
  pub response : Status

-- The payloads of the transactions, and the words that their data pointers reach
pub record Store : Type 0 where
  pub payload : ℕ → AtPayload
  pub words : ℕ → ℕ

abbrev pub respond : Store → ℕ → Status → Store
respond m t st = record m { payload = update m.payload t (record (m.payload t) { response = st }) }

-- The checks that all targets begin with: the status of a transaction that is refused
unfoldable pub refused : AtPayload → Option Status
refused p =
    if p.byte_enables
    then some byte_enable_error
    else if ltb 4 p.data_length || ltb p.streaming_width p.data_length
    then some burst_error
    else none

-- The command is carried out: a read gives the negated address.
unfoldable pub execute : Store → ℕ → Store
execute m t = elim (m.payload t).command [
  | read ↦
      respond
        (record m {
          words = update m.words (m.payload t).data_ptr (negative (m.payload t).address);
        })
        t ok
  | _ ↦ respond m t ok
]

-- What a module does outside of itself: it holds a transaction or lets it go, it calls
-- `nb_transport_bw` or `nb_transport_fw`, and it returns from a call of `nb_transport_fw`.
pub data Action : Type 0 where
  acquire release : (trans : ℕ) → Action
  bw_call fw_call : (trans : ℕ) (phase : Phase) (delay : ℕ) → Action
  returns : (trans : ℕ) (answer : Answer) → Action

-- What a step of a target meets: the answers of the module on the other side, two values of `rand()`,
-- and what the other modules have done to the store since the last step
pub record Around : Type 0 where
  pub answers : ℕ → Phase → ℕ → Answer
  pub accept_rand : ℕ
  pub latency_rand : ℕ
  pub store_before : Store → Store

-- `SC_REPORT_FATAL` ends the simulation, with one of three messages, and so do the `assert` of
-- `check_transaction` and that of `send_rsp_process`.
pub data Fatal : Type 0 where
  illegal_end_resp illegal_phase two_pending wrong_data none_pending : Fatal

pub data Outcome (A : Type 0) : Type 0 where
  runs : A → Outcome A
  fatal : Fatal → Outcome A

pub Outcome-cases :
    {A : Type 0} (o : Outcome A) → ((a : A) × (o ≡ runs a)) ⊎ ((why : Fatal) × (o ≡ fatal why))
Outcome-cases (runs a) = inl (a, refl)
Outcome-cases (fatal why) = inr (why, refl)

-- The `i`-th event, and the others
abbrev pub take_event : ℕ → List Event → Option (Event × List Event)
take_event i [] = none
take_event zero (e ∷ es) = some (e, es)
take_event (suc i) (e ∷ es) = elim (take_event i es) [
  | none ↦ none
  | some (e', es') ↦ some (e', e ∷ es')
]

-- A sum over the events of a queue, and what it is when one of them is taken
abbrev pub total : (Event → ℕ) → List Event → ℕ
total w [] = 0
total w (e ∷ es) = w e + total w es

abbrev pub IsTaken : (Event → ℕ) → List Event → Option (Event × List Event) → Type 0
IsTaken w es none = Unit
IsTaken w es (some (e, rest)) = total w es ≡ w e + total w rest

pub take_event-IsTaken : (w : Event → ℕ) (i : ℕ) (es : List Event) → IsTaken w es (take_event i es)
take_event-IsTaken w i [] = tt
take_event-IsTaken w zero (e ∷ es) = refl
take_event-IsTaken w (suc i) (e ∷ es) =
    let below = take_event-IsTaken w i es in
    elim (Option-cases (take_event i es)) [
      | inl empty ↦ rw empty tt
      | inr ((e', rest), found) ↦ let split = rw found at below in rw found (omega (arith, split))
    ]
