-- ===== src/Locking/NonBlocking.antt =====
-- locknsnoop/: `nb_transport_fw` of the interconnects that lock and that link, which stands in
-- locking_sticky, locking_auto and locking_two alike, and which none of their initiators calls.
use psa.Prelude.{ℕ, Bool, true, false}
use psa.AtInterconnect.{Phase, completed, Answer}
use psa.Locking.{Payload, bounced}

-- The state of the interconnect after the test, and whether the transaction is bounced, are given, as
-- for `b_transport`; `forward` is the socket's `nb_transport_fw`, with the state of what lies behind it.
unfoldable pub interconnect_nb_transport :
    {S E W : Type 0}
    → (Payload E → Phase → ℕ → W → W × Payload E × Answer)
    → S × Bool
    → Payload E
    → Phase
    → ℕ
    → W
    → S × W × Payload E × Answer
interconnect_nb_transport forward (s, true) p ph delay w =
    (s, w, bounced p, record { status = completed; phase = ph; delay = delay })
interconnect_nb_transport forward (s, false) p ph delay w =
    let (w', p', a) = forward p ph delay w in (s, w', p', a)
