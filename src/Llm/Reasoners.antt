-- ===== src/Llm/Reasoners.antt =====
-- The reasoners of src/agent/diagnosis.py; the prompts are texts that only the models read.
use durable_approval_gated_r.Prelude.{ℕ, String, Option, none, some}
use durable_approval_gated_r.Act.{Result, map_result, and_then}
use durable_approval_gated_r.Observations.{Observations}
use durable_approval_gated_r.Execution.{no_parameters}
use durable_approval_gated_r.Agent.State.{ReplanReason, Proposal}
use durable_approval_gated_r.Llm.Chat.{
  sweep, proposal_for, DiagnosisOutput, OpenaiActionProposal, JsonParameters, object, RawProposal,
  diagnosis_output, action_proposal_output, openai_action_proposal, Json, Services, structured_chat,
  first_parsed,
}

-- `DiagnosisReasoner`
pub record DiagnosisReasoner : Type 0 where
  pub diagnose : ℕ → Observations → Result DiagnosisOutput
  pub propose_action : ℕ → Observations → String → Option ReplanReason → Result RawProposal

abbrev or_empty : Option JsonParameters → JsonParameters
or_empty none = object no_parameters
or_empty (some parameters) = parameters

-- `model_dump()`: the schema asks for an object.
abbrev dumped : Proposal → RawProposal
dumped p = record {
  tool = p.tool;
  target = p.target;
  rationale = p.rationale;
  parameters = object p.parameters;
}

module _ (json : Json) (services : Services) (diagnosis_prompt proposal_prompt : String) where
  -- `AnthropicDiagnosisReasoner`
  unfoldable pub anthropic_diagnose : ℕ → Observations → Result DiagnosisOutput
  anthropic_diagnose turn observations =
      services.ainvoke turn diagnosis_output diagnosis_prompt (json.dumps (sweep observations))

  unfoldable pub anthropic_propose :
      ℕ → Observations → String → Option ReplanReason → Result RawProposal
  anthropic_propose turn observations diagnosis context = map_result dumped (
      services.ainvoke turn action_proposal_output proposal_prompt
        (json.dumps (proposal_for observations diagnosis context)))

  abbrev pub anthropic_reasoner : DiagnosisReasoner
  anthropic_reasoner = record { diagnose = anthropic_diagnose; propose_action = anthropic_propose }

  -- The proposal that OpenAI's strict schema carries: parameters that are no JSON are dropped, and those
  -- that are JSON but no object are passed on.
  unfoldable pub decoded_proposal : OpenaiActionProposal → RawProposal
  decoded_proposal parsed = record {
    tool = parsed.tool;
    target = parsed.target;
    rationale = parsed.rationale;
    parameters = or_empty (json.loads_parameters parsed.parameters_json);
  }

  -- `OpenAIDiagnosisReasoner` for a model
  unfoldable pub openai_diagnose : String → ℕ → Observations → Result DiagnosisOutput
  unfolding first_parsed
  openai_diagnose model turn observations =
      and_then
        (services.parse turn diagnosis_output model diagnosis_prompt
          (json.dumps (sweep observations)))
        (first_parsed "model_dump")

  unfoldable pub openai_propose :
      String → ℕ → Observations → String → Option ReplanReason → Result RawProposal
  unfolding first_parsed decoded_proposal
  openai_propose model turn observations diagnosis context =
      and_then
        (services.parse turn openai_action_proposal model proposal_prompt
          (json.dumps (proposal_for observations diagnosis context)))
        (λ choices. map_result decoded_proposal (first_parsed "parameters_json" choices))

  abbrev pub openai_reasoner : String → DiagnosisReasoner
  openai_reasoner model = record {
    diagnose = openai_diagnose model;
    propose_action = openai_propose model;
  }

  -- `OllamaDiagnosisReasoner` for a model
  unfoldable pub ollama_diagnose : String → ℕ → Observations → Result DiagnosisOutput
  unfolding structured_chat
  ollama_diagnose model turn observations =
      structured_chat json services turn model diagnosis_prompt (json.dumps (sweep observations))
        diagnosis_output

  unfoldable pub ollama_propose :
      String → ℕ → Observations → String → Option ReplanReason → Result RawProposal
  unfolding structured_chat
  ollama_propose model turn observations diagnosis context = map_result dumped (
      structured_chat json services turn model proposal_prompt
        (json.dumps (proposal_for observations diagnosis context)) action_proposal_output)

  abbrev pub ollama_reasoner : String → DiagnosisReasoner
  ollama_reasoner model = record {
    diagnose = ollama_diagnose model;
    propose_action = ollama_propose model;
  }
