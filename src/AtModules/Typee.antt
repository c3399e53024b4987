-- ===== src/AtModules/Typee.antt =====
-- locknsnoop/common/at_typee_target.h: the target that completes a transaction at once.
use psa.Prelude.{ℕ, ◌+◌, none, some}
use psa.AtInterconnect.{Phase, completed, Answer}
use psa.AtModules.{rand_ps, Store, respond, refused, execute}

-- `nb_transport_fw`, where `latency_rand` is the value of `rand()`: the store and the answer
unfoldable pub complete : ℕ → Store → ℕ → Phase → ℕ → Store × Answer
unfolding refused execute
complete latency_rand m t ph delay = elim (refused (m.payload t)) [
  | some st ↦ (respond m t st, record { status = completed; phase = ph; delay = delay })
  | none ↦
      (execute m t, record { status = completed; phase = ph; delay = delay + rand_ps latency_rand })
]
