-- ===== src/Schemas.antt =====
-- agent_room/schemas.py: the typed contracts of tasks, decisions, artifacts and events, with the
-- messages that the roles exchange with a model. `Literal` types are data types. Time stamps are
-- not modelled: nothing reads them. `confidence`, a float in [0, 1], is held in hundredths.
use goal_driven_agent_room.Base.{ℕ, Bool, String, Option, List, true, false}

pub data Role : Type 0 where
  planner developer reviewer delivery verifier supervisor : Role

-- The literal of a role.
abbrev pub role_name : Role → String
role_name planner = "planner"
role_name developer = "developer"
role_name reviewer = "reviewer"
role_name delivery = "delivery"
role_name verifier = "verifier"
role_name supervisor = "supervisor"

pub data ReviewVerdict : Type 0 where
  approved revision_required need_user_decision : ReviewVerdict

pub data StuckAction : Type 0 where
  continue replan ask_user abort : StuckAction

-- Exit codes are negative when a signal ends the process: `negsuc n` is -(n + 1).
pub data ℤ : Type 0 where
  pos : ℕ → ℤ
  negsuc : ℕ → ℤ

pub record TaskRequest : Type 0 where
  pub title : String
  pub description : String
  pub max_revisions : ℕ
  pub tenant_id : String
  pub verify_command : Option String
  pub verify_files : List (String × String)
  pub max_iterations : ℕ
  pub graph : Option String

pub record VerificationResult : Type 0 where
  pub passed : Bool
  pub exit_code : Option ℤ
  pub output_tail : String
  pub round : ℕ

pub record StuckDecision : Type 0 where
  pub action : StuckAction
  pub reasoning : String
  pub question : String

pub record ReviewerDecision : Type 0 where
  pub decision : ReviewVerdict
  pub feedback : String
  pub issues : List String
  pub confidence : ℕ

pub record PlannerGateOutput : Type 0 where
  pub plan : String
  pub open_questions : List String
  pub rationale : String

pub record FocusCheck : Type 0 where
  pub is_fully_specified : Bool
  pub open_questions : List String
  pub rationale : String

-- The `kind` of an artifact; `handoff` is the kind "delivery", whose name the role has.
pub data ArtifactKind : Type 0 where
  plan code review handoff : ArtifactKind

-- `Artifact.extra`: the dumps that the roles put there.
pub data Extra : Type 0 where
  no_extra : Extra
  dump_review : ReviewerDecision → Extra
  dump_gate : PlannerGateOutput → Extra
  dump_focus : FocusCheck → ReviewerDecision → Extra

pub record Artifact : Type 0 where
  pub kind : ArtifactKind
  pub role : Role
  pub content : String
  pub round : ℕ
  pub extra : Extra

-- The values of an event's `payload`.
pub data Value : Type 0 where
  null : Value
  truth : Bool → Value
  number : ℕ → Value
  exit : Option ℤ → Value
  verdict : ReviewVerdict → Value
  strategy : StuckAction → Value
  string : String → Value
  strings : List String → Value

pub record Event : Type 0 where
  pub type : String
  pub role : Option Role
  pub round : Option ℕ
  pub payload : List (String × Value)

-- langchain_core.messages: the content of a message is a string or a list of blocks. A block is a
-- string, a `text` block or one of another type (thinking, tool_use, image).
pub data Block : Type 0 where
  bare : String → Block
  text : String → Block
  other : Block

pub data Content : Type 0 where
  str : String → Content
  blocks : List Block → Content

pub record ToolCall : Type 0 where
  pub name : String
  pub args : String
  pub id : String

pub data Message : Type 0 where
  system : Content → Message
  human : Content → Message
  ai : Content → List ToolCall → Message
  tool : Content → (name : String) → (tool_call_id : String) → Message

abbrev pub is_tool_message : Message → Bool
is_tool_message (tool c n i) = true
is_tool_message (system c) = false
is_tool_message (human c) = false
is_tool_message (ai c calls) = false

-- An answer of a model: an `AIMessage`.
pub record Reply : Type 0 where
  pub content : Content
  pub tool_calls : List ToolCall

abbrev pub message_of : Reply → Message
message_of r = ai r.content r.tool_calls

-- agent_room/guardrail.py
pub data Checkpoint : Type 0 where
  input tool_call tool_response output : Checkpoint

pub data Category : Type 0 where
  injection pii : Category

pub record GuardrailFinding : Type 0 where
  pub category : Category
  pub pattern : String
  pub checkpoint : Checkpoint

-- The `dimension` of agent_room/budget.py's `BudgetExceededError`.
pub data BudgetDimension : Type 0 where
  max_tokens max_tool_calls max_cost_usd : BudgetDimension

-- A `BaseTool`, as the policy sees it: its name, and `metadata["read_only"]` where that is set.
pub record Tool : Type 0 where
  pub name : String
  pub read_only : Option Bool
