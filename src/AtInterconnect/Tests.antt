-- ===== src/AtInterconnect/Tests.antt =====
-- locknsnoop/common/at_interconnect.h: a run of the interconnect on three requests.
use psa.Prelude.{ℕ, ◌≡◌, refl, List, [], ◌∷◌, ◌++◌, some, Option, none, if◌then◌else◌}
use psa.AtInterconnect.{accepted, begin_req, Phase, elaborated}
use psa.AtInterconnect.Forward.{Answers, nb_transport_fw, accept_request, pass_fw, after_fw}
use psa.AtInterconnect.Backward.{nb_transport_bw, backward, pass_bw}
use psa.AtInterconnect.Processes.{
  Input, from_initiator, from_target, end_req_process_runs, handle, end_req_process, next_request,
  send_queued, after_queued,
}
use psa.AtInterconnect.Queues.{trans_of}
use psa.AtInterconnect.Order.{History, play, Sends, requests_in_order}

-- Everybody accepts, and leaves phase and delay.
abbrev accepting : Answers
accepting = record {
  target_answers = λ target t ph d. record { status = accepted; phase = ph; delay = d };
  initiator_answers = λ init t ph d. record { status = accepted; phase = ph; delay = d };
}

abbrev address : ℕ → ℕ
address t = 0x104

abbrev three_requests : List (Answers × Input)
three_requests =
    (accepting, from_initiator 0 0 10 begin_req 5)
    ∷ (accepting, from_initiator 1 1 11 begin_req 5)
    ∷ (accepting, from_initiator 2 0 12 begin_req 5)
    ∷ (accepting, from_target 3 1 10 Phase.end_req 0)
    ∷ (accepting, end_req_process_runs 4 1)
    ∷ []

abbrev history : Option History → History
history (some h) = h
history none = record {
  state = elaborated 6 address;
  arrived = [];
  passed = [];
  open_request = none;
}

abbrev three : History
three = history (play 1 (elaborated 6 address) none three_requests)

play-three : play 1 (elaborated 6 address) none three_requests ≡ some three
unfolding play handle nb_transport_fw nb_transport_bw accept_request pass_fw after_fw backward
    pass_bw end_req_process next_request send_queued after_queued
play-three = refl

three_passed :
    (three.passed ≡ 10 ∷ 11 ∷ [])
    × (trans_of (three.state.req_queue 1) ≡ 12 ∷ [])
    × (three.open_request ≡ some 11)
unfolding play handle nb_transport_fw nb_transport_bw accept_request pass_fw after_fw backward
    pass_bw end_req_process next_request send_queued after_queued
three_passed = (refl, refl, refl)

requests_in_order_example :
    (three.passed ++ trans_of (three.state.req_queue 1) ≡ three.arrived)
    × (three.open_request
        ≡ (if three.state.end_req_event 1 then none else three.state.req_in_progress 1))
    × Sends 1 three.open_request (handle accepting three.state (from_target 5 1 11 Phase.end_req 0))
requests_in_order_example =
    requests_in_order 1 6 address three_requests three accepting
      (from_target 5 1 11 Phase.end_req 0) play-three
