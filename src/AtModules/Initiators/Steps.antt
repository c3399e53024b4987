-- ===== src/AtModules/Initiators/Steps.antt =====
-- locknsnoop/common/at_typea_initiator.h and at_typeb_initiator.h: the steps of an initiator.
use psa.Prelude.{ℕ, none, some, List, [], ◌∷◌}
use psa.AtInterconnect.{Phase}
use psa.AtModules.{AtPhase, Outcome, runs, fatal, take_event}
use psa.AtModules.Initiators.{
  Initiator, Meets, thread_process, peq_cb, nb_transport_bw, typeb_thread_process, typeb_peq_cb,
  typeb_nb_transport_bw,
}

pub data Kind : Type 0 where
  typea typeb : Kind

-- The thread goes on, `nb_transport_bw` is called, or the `k`-th event of the queue comes up.
pub data Input : Type 0 where
  thread_goes_on : (now : ℕ) → Input
  transport : (now trans : ℕ) (phase : Phase) (delay : ℕ) → Input
  comes_up : (now k : ℕ) → Input

abbrev pub thread_process_of : Kind → Meets → ℕ → Initiator → Outcome Initiator
thread_process_of typea = thread_process
thread_process_of typeb = typeb_thread_process

abbrev pub peq_cb_of : Kind → Meets → Initiator → ℕ → AtPhase → Outcome Initiator
peq_cb_of typea = peq_cb
peq_cb_of typeb = typeb_peq_cb

unfoldable pub step : Kind → Meets → Initiator → Input → Outcome Initiator
unfolding thread_process nb_transport_bw typeb_nb_transport_bw peq_cb
step kind env s (thread_goes_on now) = thread_process_of kind env now s
step typea env s (transport now t ph delay) = nb_transport_bw now s t ph delay
step typeb env s (transport now t ph delay) = typeb_nb_transport_bw env now s t ph delay
step kind env s (comes_up now k) = elim (take_event k s.peq) [
  | none ↦ runs s
  | some (e, es) ↦ peq_cb_of kind env (record s { peq = es }) e.trans e.phase
]

unfoldable pub handle : Kind → Meets → Initiator → Input → Outcome Initiator
unfolding step
handle kind env s i = step kind env (record s { store = env.store_before s.store }) i

-- Inputs one after another
unfoldable pub play : Kind → Initiator → List (Meets × Input) → Outcome Initiator
unfolding handle
play kind s [] = runs s
play kind s ((env, i) ∷ is) = elim (handle kind env s i) [
  | runs s' ↦ play kind s' is
  | fatal why ↦ fatal why
]
