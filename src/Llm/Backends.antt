-- ===== src/Llm/Backends.antt =====
-- Which backend a run uses: `default_reasoner`, `default_risk_classifier` and the label of src/eval/runner.py,
-- and the `reasoner_used` of src/eval/run_suite.py.
use Prim.Native.String.{◌++◌ as append}
use durable_approval_gated_r.Prelude.{
  String, Bool, false, not, Option, none, some, str_eq, if◌then◌else◌,
}

-- The environment variables.
pub record Environment : Type 0 where
  pub anthropic_api_key : Option String
  pub open_ai_api_key : Option String
  pub openai_model : Option String
  pub ollama_model : Option String

-- `os.environ.get(name)` as a condition.
abbrev is_set : Option String → Bool
is_set none = false
is_set (some value) = not (str_eq value "")

-- The classes, with their models.
pub data Backend : Type 0 where
  anthropic openai ollama : String → Backend
  heuristic : Backend

abbrev pub default_openai_model : String
default_openai_model = "gpt-4o-mini"

-- The default of `AnthropicDiagnosisReasoner` and `AnthropicRiskClassifier`.
abbrev pub default_anthropic_model : String
default_anthropic_model = "claude-sonnet-5"

abbrev or_default : String → Option String → String
or_default default none = default
or_default default (some value) = value

unfoldable pub default_reasoner : Environment → Backend
default_reasoner env =
    if is_set env.anthropic_api_key
    then anthropic default_anthropic_model
    else if is_set env.open_ai_api_key
    then openai (or_default default_openai_model env.openai_model)
    else if is_set env.ollama_model
    then ollama (or_default "" env.ollama_model)
    else heuristic

unfoldable pub default_risk_classifier : Environment → Backend
default_risk_classifier env =
    if is_set env.anthropic_api_key
    then anthropic default_anthropic_model
    else if is_set env.open_ai_api_key
    then openai (or_default default_openai_model env.openai_model)
    else if is_set env.ollama_model
    then ollama (or_default "" env.ollama_model)
    else heuristic

-- `_classifier_backend_label`
unfoldable pub classifier_backend_label : Backend → String
classifier_backend_label (ollama model) = append "ollama:" model
classifier_backend_label (openai model) = append "openai:" model
classifier_backend_label (anthropic model) = append "anthropic:" model
classifier_backend_label heuristic = "heuristic-fallback"

-- What the summary of `run_suite` says of the reasoner.
unfoldable pub reasoner_used : Environment → String
reasoner_used env =
    if is_set env.anthropic_api_key
    then "anthropic"
    else if is_set env.open_ai_api_key
    then append "openai:" (or_default default_openai_model env.openai_model)
    else if is_set env.ollama_model
    then append "ollama:" (or_default "" env.ollama_model)
    else "heuristic-fallback"
