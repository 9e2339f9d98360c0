-- ===== src/Llm/Classifiers.antt =====
-- The risk classifiers of src/risk/classifier.py.
use durable_approval_gated_r.Prelude.{ℕ, String, Option}
use durable_approval_gated_r.Act.{Result, and_then}
use durable_approval_gated_r.Policy.{Situational}
use durable_approval_gated_r.Llm.Chat.{
  risk_of, RiskClassificationOutput, risk_classification_output, Json, Services, structured_chat,
  first_parsed,
}

-- `RiskClassifier`
abbrev pub RiskClassifier : Type 0
RiskClassifier =
    ℕ → String → String → Option String → Option Situational → Result RiskClassificationOutput

module _ (json : Json) (services : Services) (system_prompt : String) where
  -- `AnthropicRiskClassifier.classify`
  unfoldable pub anthropic_classify : RiskClassifier
  anthropic_classify turn action diagnosis rationale situational =
      services.ainvoke turn risk_classification_output system_prompt
        (json.dumps (risk_of action diagnosis rationale situational))

  -- `OpenAIRiskClassifier.classify`
  unfoldable pub openai_classify : String → RiskClassifier
  unfolding first_parsed
  openai_classify model turn action diagnosis rationale situational =
      and_then
        (services.parse turn risk_classification_output model system_prompt
          (json.dumps (risk_of action diagnosis rationale situational)))
        (first_parsed "model_dump")

  -- `OllamaRiskClassifier.classify`
  unfoldable pub ollama_classify : String → RiskClassifier
  unfolding structured_chat
  ollama_classify model turn action diagnosis rationale situational =
      structured_chat json services turn model system_prompt
        (json.dumps (risk_of action diagnosis rationale situational)) risk_classification_output
