-- ===== src/Llm/Chat.antt =====
-- The chat services as the code calls them, and `structured_chat` of src/llm/ollama_client.py. The
-- services, JSON and the validation of Pydantic are not code of the repository, and arguments.
use durable_approval_gated_r.Prelude.{
  ℕ, String, Bool, ◌&&◌, leb, Option, none, some, List, [], ◌∷◌, if◌then◌else◌,
}
use durable_approval_gated_r.Act.{
  Result, ok, raised, and_then, http_status, index_out_of_range, no_attribute,
}
use durable_approval_gated_r.Policy.{RiskTier, Situational}
use durable_approval_gated_r.Observations.{Observations}
use durable_approval_gated_r.Execution.{Parameters}
use durable_approval_gated_r.Agent.State.{ReplanReason, Proposal}

-- What the models are asked about; `json.dumps` makes a text of it.
pub data Payload : Type 0 where
  sweep : Observations → Payload
  proposal_for : Observations → String → Option ReplanReason → Payload
  risk_of : String → String → Option String → Option Situational → Payload

pub record DiagnosisOutput : Type 0 where
  pub summary : String
  pub root_cause_service : Option String

-- `_OpenAIActionProposal`
pub record OpenaiActionProposal : Type 0 where
  pub tool : String
  pub target : String
  pub rationale : String
  pub parameters_json : String

pub record RiskClassificationOutput : Type 0 where
  pub tier : RiskTier
  pub reversibility : String
  pub blast_radius : String
  pub data_destructiveness : String
  pub rationale : String

-- The models of Pydantic that an answer is asked in.
pub data Schema : Type 0 where
  diagnosis_output action_proposal_output openai_action_proposal risk_classification_output : Schema

abbrev pub Output : Schema → Type 0
Output diagnosis_output = DiagnosisOutput
Output action_proposal_output = Proposal
Output openai_action_proposal = OpenaiActionProposal
Output risk_classification_output = RiskClassificationOutput

-- The value of a JSON text: the parameters of a tool where it is an object.
pub data JsonParameters : Type 0 where
  object : Parameters → JsonParameters
  no_object : String → JsonParameters

-- The dictionary that `propose_action` of a reasoner returns.
pub record RawProposal : Type 0 where
  pub tool : String
  pub target : String
  pub rationale : String
  pub parameters : JsonParameters

-- `json` and `model_validate`. A text is JSON of no object for none of the models here.
pub record Json : Type 1 where
  pub Value : Type 0
  pub dumps : Payload → String
  pub loads : String → Result Value
  pub validate : (s : Schema) → Value → Result (Output s)
  -- what `parameters_json` encodes; none at a `JSONDecodeError`
  pub loads_parameters : String → Option JsonParameters

-- The body that is posted to `/api/chat`, less `stream` and the temperature, which are constants.
pub record ChatRequest : Type 0 where
  pub model : String
  pub system : String
  pub user : String
  pub format : Schema

-- A reply, with its `["message"]["content"]`.
pub record ChatReply : Type 0 where
  pub status : ℕ
  pub content : Result String

-- The three services. A model may answer the same question differently at another turn.
pub record Services : Type 0 where
  -- `with_structured_output(schema).ainvoke`
  pub ainvoke : ℕ → (s : Schema) → String → String → Result (Output s)
  -- `chat.completions.parse`: what was parsed of each choice
  pub parse : ℕ → (s : Schema) → String → String → String → Result (List (Option (Output s)))
  -- `client.post("/api/chat", ...)`
  pub post : ℕ → ChatRequest → Result ChatReply

abbrev is_success : ℕ → Bool
is_success status = leb 200 status && leb status 299

abbrev checked : ChatReply → Result String
checked reply = if is_success reply.status then reply.content else raised (http_status reply.status)

-- `structured_chat`
unfoldable pub structured_chat :
    (json : Json) (services : Services)
    → ℕ
    → String
    → String
    → String
    → (s : Schema) → Result (Output s)
structured_chat json services turn model system user s =
    and_then
      (services.post turn (record { model = model; system = system; user = user; format = s }))
      (λ reply.
        and_then (checked reply) (λ content. and_then (json.loads content) (json.validate s)))

-- `response.choices[0].message.parsed`, of which an attribute is taken.
unfoldable pub first_parsed {ℓ} : {A : Type ℓ} → String → List (Option A) → Result A
first_parsed attribute [] = raised index_out_of_range
first_parsed attribute (none ∷ choices) = raised (no_attribute attribute)
first_parsed attribute (some a ∷ choices) = ok a
