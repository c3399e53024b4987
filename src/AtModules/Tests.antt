-- ===== src/AtModules/Tests.antt =====
-- locknsnoop/common/: runs of the initiators and the targets of the approximately-timed style.
use psa.Prelude.{ℕ, ◌+◌, ◌≡◌, refl, false, none, some, List, [], ◌∷◌, arith}
use psa.Locking.{read, incomplete}
use psa.AtInterconnect.{begin_req, end_req, end_resp, accepted}
use psa.AtModules.{AtPayload, Store, Around, runs, fatal}
use psa.AtModules.Typea
use psa.AtModules.Pipeline
use psa.AtModules.Answered
use psa.AtModules.Draining
use psa.AtModules.Initiators
use psa.AtModules.Initiators.Steps
use psa.AtModules.Open
use psa.AtModules.Exclusion
use psa.AtModules.Typec
use psa.AtModules.Typed
use psa.AtModules.Single
use psa.AtModules.Responses
use psa.AtModules.Rounds

abbrev a_read : AtPayload
a_read = record {
  command = read;
  address = 8;
  data_ptr = 0;
  data_length = 4;
  byte_enables = false;
  streaming_width = 4;
  response = incomplete;
}

abbrev reads : Store
reads = record { payload = λ t. a_read; words = λ i. 0 }

-- An initiator of type A: it accepts each call.
abbrev accepts : Around
accepts = record {
  answers = λ t ph delay. record { status = accepted; phase = ph; delay = delay };
  accept_rand = 7;
  latency_rand = 10;
  store_before = λ m. m;
}

abbrev request : ℕ → Around × Typea.Input
request t = (accepts, Typea.transport 0 t begin_req 0)

abbrev next_event : Around × Typea.Input
next_event = (accepts, Typea.comes_up 5 0)

-- Three requests: the third is held back, as is the second response.
abbrev three : List (Around × Typea.Input)
three =
    request 1
    ∷ next_event
    ∷ request 2
    ∷ next_event
    ∷ request 3
    ∷ next_event
    ∷ next_event
    ∷ next_event
    ∷ []

abbrev after_three : Typea.Target
after_three = elim (Typea.play Typea.typea (Typea.constructed reads) three) [
  | runs s ↦ s
  | fatal why ↦ Typea.constructed reads
]

after_three_held :
    (after_three.begun ≡ 2)
    × (after_three.next_response_pending ≡ some 1)
    × (after_three.end_req_pending ≡ some 3)
unfolding Typea.play
after_three_held = (refl, refl, refl)

after_three_runs : Typea.play Typea.typea (Typea.constructed reads) three ≡ runs after_three
unfolding Typea.play
after_three_runs = refl

pipeline_bound_example : Pipeline.After (Typea.play Typea.typea (Typea.constructed reads) three)
pipeline_bound_example = Pipeline.pipeline_bound Typea.typea reads three

answered_once_example :
    Answered.end_reqs 1 after_three.did
    ≡ Answered.responses 1 after_three.did
      + Answered.latent_for 1 after_three.peq
      + Answered.held_back 1 after_three.next_response_pending
answered_once_example =
    Answered.answered_once Typea.typea reads three after_three 1 after_three_runs

abbrev a_round : Draining.Round
a_round = record { completes = λ t. false; around = accepts; now = 9; trans = 2 }

abbrev seven : List Draining.Round
seven = a_round ∷ a_round ∷ a_round ∷ a_round ∷ a_round ∷ a_round ∷ a_round ∷ []

drains_example :
    (s' : Typea.Target) × (Draining.rounds seven after_three ≡ runs s') × Draining.IsIdle s'
drains_example =
    Draining.drains Typea.typea reads three after_three seven after_three_runs (omega arith)

abbrev meets : Initiators.Meets
meets = record {
  address_rand = 24;
  command_rand = 0;
  delay_rand = 3;
  allocated = 1;
  nb_transport_fw = λ m t ph delay. (m, record { status = accepted; phase = ph; delay = delay });
  store_before = λ m. m;
}

-- Two rounds of an initiator, the second up to the wait
abbrev two_rounds : List (Initiators.Meets × Steps.Input)
two_rounds = (meets, Steps.thread_goes_on 0) ∷ (meets, Steps.thread_goes_on 1) ∷ []

abbrev after_two : Initiators.Initiator
after_two = elim (Steps.play Steps.typea (Initiators.constructed reads) two_rounds) [
  | runs s ↦ s
  | fatal why ↦ Initiators.constructed reads
]

after_two_runs : Steps.play Steps.typea (Initiators.constructed reads) two_rounds ≡ runs after_two
unfolding Steps.play
after_two_runs = refl

request_exclusion_example :
    (after_two.req_in_progress
      ≡ Open.open_request Steps.typea (Initiators.constructed reads) two_rounds none)
    × Exclusion.Steps
        (Open.open_request Steps.typea (Initiators.constructed reads) two_rounds none)
        after_two
        (Steps.handle Steps.typea meets after_two (Steps.transport 2 1 end_req 0))
request_exclusion_example =
    Exclusion.request_exclusion Steps.typea reads two_rounds after_two meets
      (Steps.transport 2 1 end_req 0) after_two_runs

-- A request, its response, and a second request of a target of type C
abbrev typec_inputs : List (Around × Typec.Input)
typec_inputs =
    (accepts, Typec.transport 0 1 begin_req 0)
    ∷ (accepts, Typec.comes_up 1 0)
    ∷ (accepts, Typec.comes_up 2 0)
    ∷ (accepts, Typec.transport 3 2 begin_req 0)
    ∷ (accepts, Typec.comes_up 4 0)
    ∷ (accepts, Typec.comes_up 5 0)
    ∷ []

single_response_example : Single.After (Typec.play (Typec.constructed reads) typec_inputs)
single_response_example = Single.single_response reads typec_inputs

-- Two requests of a target of type D, the end of the first response and the process
abbrev typed_inputs : List (Around × Typed.Input)
typed_inputs =
    (accepts, Typed.transport 0 1 begin_req 0)
    ∷ (accepts, Typed.transport 1 2 begin_req 0)
    ∷ (accepts, Typed.transport 2 1 end_resp 0)
    ∷ (accepts, Typed.send_rsp_process_runs 2)
    ∷ []

response_exclusion_example : Responses.After (Typed.play (Typed.constructed reads) typed_inputs)
response_exclusion_example = Responses.response_exclusion reads typed_inputs

abbrev values : Rounds.Values
values = record {
  address_rand = 24;
  command_rand = 0;
  delay_rand = 3;
  latency_rand = 9;
  allocated = 1;
  now = 0;
  store_before = λ m. m;
}

rounds_complete_example :
    (s : Initiators.Initiator) × (Steps.play Steps.typea
        (Initiators.constructed reads)
        (Rounds.with_typee values ∷ Rounds.with_typee values ∷ [])
      ≡ runs s)
    × (Open.begin_reqs s.did ≡ 2)
    × (Single.releases s.did ≡ Open.begin_reqs s.did)
    × (s.req_in_progress ≡ none)
rounds_complete_example = Rounds.rounds_complete Steps.typea reads (values ∷ values ∷ [])
