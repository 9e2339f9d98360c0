-- ===== src/Tests/Models.antt =====
-- The decoding of OpenAI's proposals, and the choice of a backend, at concrete inputs.
use durable_approval_gated_r.Prelude.{◌≡◌, refl, String, none, some, [], ◌∷◌, str_eq, if◌then◌else◌}
use durable_approval_gated_r.Act.{Result, ok, raised}
use durable_approval_gated_r.Policy.{medium}
use durable_approval_gated_r.Execution.{Parameters, no_parameters}
use durable_approval_gated_r.Agent.State.{Proposal}
use durable_approval_gated_r.Llm.Chat.{
  Payload, sweep, proposal_for, risk_of, Schema, diagnosis_output, action_proposal_output,
  openai_action_proposal, risk_classification_output, Output, Json, Services, JsonParameters,
  object, no_object, RawProposal, first_parsed,
}
use durable_approval_gated_r.Llm.Reasoners.{openai_propose, decoded_proposal}
use durable_approval_gated_r.Llm.Backends.{Environment}
use durable_approval_gated_r.Tests.Services.{observations}

abbrev parameters : Parameters
parameters = record no_parameters { replicas = some 3 }

abbrev proposal : Proposal
proposal = record {
  tool = "scale_service";
  target = "service_a";
  rationale = "one replica serves everything";
  parameters = parameters;
}

abbrev canned : (s : Schema) → Output s
canned diagnosis_output = record { summary = "overloaded"; root_cause_service = some "service_a" }
canned action_proposal_output = proposal
canned openai_action_proposal = record {
  tool = "scale_service";
  target = "service_a";
  rationale = "one replica serves everything";
  parameters_json = "null";
}
canned risk_classification_output = record {
  tier = medium;
  reversibility = "easily";
  blast_radius = "one service";
  data_destructiveness = "none";
  rationale = "it adds replicas";
}

abbrev title : Payload → String
title (sweep o) = "sweep"
title (proposal_for o diagnosis context) = "proposal"
title (risk_of action diagnosis rationale situational) = "risk"

abbrev json : Json
json = record {
  Value = String;
  dumps = title;
  loads = λ text. ok text;
  validate = λ s value. ok (canned s);
  loads_parameters = λ text.
      if str_eq text "{\"replicas\": 3}" then some (object parameters) else some (no_object text);
}

abbrev services : Services
services = record {
  ainvoke = λ turn s system user. ok (canned s);
  parse = λ turn s model system user. ok (some (canned s) ∷ []);
  post = λ turn request. ok (record { status = 200; content = ok "{}" });
}

abbrev parameters_of : Result RawProposal → Result JsonParameters
parameters_of (ok p) = ok p.parameters
parameters_of (raised e) = raised e

-- Parameters that are JSON but no object come through.
null_is_passed_on :
    parameters_of (
      openai_propose json services "diagnose" "propose" "gpt-4o-mini" 0 observations "overloaded"
        none)
    ≡ ok (no_object "null")
unfolding openai_propose decoded_proposal first_parsed
null_is_passed_on = refl

abbrev local_models : Environment
local_models = record {
  anthropic_api_key = none;
  open_ai_api_key = some "";
  openai_model = none;
  ollama_model = some "llama3.1:8b";
}
