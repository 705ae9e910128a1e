-- ===== src/Events.antt =====
-- agent_room/events.py: what a client is shown of a run. An event of the runtime is one of the kinds
-- that the code tests for. The scrubber of agent_room/memory is a parameter, and so are `str` of a
-- list of blocks and of values that are not texts.
pub mod Formatter
use goal_driven_agent_room.Base.{
  ℕ, ◌-◌, Bool, true, false, String, Option, none, some, List, [], ◌∷◌, ◌⧺◌, mem_text, blank,
  get_default, str_eq, str_length, str_take, str_last, map, join, leb, if◌then◌else◌, first_of,
}
use goal_driven_agent_room.Schemas.{
  ℤ, Content, str, blocks, Block, bare, text, other, ReviewVerdict, StuckAction, ReviewerDecision,
  VerificationResult, StuckDecision,
}

-- The keys of a node's update that are shown.
pub record NodeOutput : Type 0 where
  pub plan : Option String
  pub code : Option String
  pub review : Option ReviewerDecision
  pub revision_round : Option ℕ
  pub delivery : Option String
  pub verification : Option VerificationResult
  pub stuck_decision : Option StuckDecision

-- The output of a tool: a message, another value as its text, or `None`.
pub data ToolOutput : Type 0 where
  message_output : Content → ToolOutput
  value_output : String → ToolOutput
  no_output : ToolOutput

-- `event`, `name` and `data` of an event of the runtime.
pub data RawKind : Type 0 where
  on_chain_start : String → RawKind
  on_chain_end : String → NodeOutput → RawKind
  on_chat_model_stream : Option Content → RawKind
  on_tool_start : String → (input_text : String) → RawKind
  on_tool_end : String → ToolOutput → RawKind
  on_chat_model_end : (usage : Option (Option ℕ × Option ℕ)) → RawKind
  on_other : RawKind

pub record RawEvent : Type 0 where
  pub kind : RawKind
  pub task_id : Option String
  pub tags : List String
  pub langgraph_node : Option String

pub data Summary : Type 0 where
  plan_preview : String → Summary
  code_chars : ℕ → Summary
  decision_of : ReviewVerdict → (round : Option ℕ) → Summary
  delivery_chars : ℕ → Summary
  no_summary : Summary

pub data Shown : Type 0 where
  node_start : String → Shown
  node_end : String → Summary → Shown
  verification_completed : (passed : Bool) → Option ℤ → (round : ℕ) → Shown
  supervisor_decided : StuckAction → (reasoning : String) → Shown
  token : Option String → (piece : String) → Shown
  tool_call : String → (tool : String) → (args : String) → Shown
  tool_result : String → (tool : String) → (preview : String) → Shown
  usage : Option String → (input_tokens output_tokens : ℕ) → Shown

-- A normalized event: what is shown, with its task.
pub record StreamEvent : Type 0 where
  pub shown : Shown
  pub task_id : Option String

abbrev pub role_nodes : List String
role_nodes = "planner" ∷ "developer" ∷ "reviewer" ∷ "delivery" ∷ []

unfoldable pub truncate : String → ℕ → String
unfolding str_length str_take ◌⧺◌
truncate s limit = if leb (str_length s) limit then s else str_take limit s ⧺ "…"

unfoldable pub tool_output_text : (Content → String) → ToolOutput → String
tool_output_text show_content (message_output (str s)) = s
tool_output_text show_content (message_output (blocks bs)) = show_content (blocks bs)
tool_output_text show_content (value_output s) = s
tool_output_text show_content no_output = ""

review_summary : Option ReviewerDecision → Option ℕ → Summary
review_summary none round = no_summary
review_summary (some r) round = decision_of r.decision round

-- `_summarize_node_output`
unfoldable pub summarize_node_output : String → NodeOutput → Summary
unfolding str_take str_length review_summary
summarize_node_output role output =
    if str_eq role "planner"
    then plan_preview (str_take 200 (get_default output.plan ""))
    else if str_eq role "developer"
    then code_chars (str_length (get_default output.code ""))
    else if str_eq role "reviewer"
    then review_summary output.review output.revision_round
    else if str_eq role "delivery"
    then delivery_chars (str_length (get_default output.delivery ""))
    else no_summary

first_tag : List String → List String → Option String
unfolding mem_text
first_tag [] tags = none
first_tag (role ∷ roles) tags =
    let later = first_tag roles tags in if mem_text role tags then some role else later

-- `base` where a text is a role with the suffix `_tools`
tools_base : List String → String → Option String
unfolding ◌⧺◌
tools_base [] parents = none
tools_base (role ∷ roles) parents =
    let later = tools_base roles parents in
    if str_eq parents (role ⧺ "_tools") then some role else later

role_of_node : Option String → Option String
unfolding tools_base mem_text
role_of_node none = none
role_of_node (some parents) =
    if mem_text parents role_nodes then some parents else tools_base role_nodes parents

-- `_infer_role_from_metadata`
unfoldable pub infer_role : RawEvent → Option String
unfolding first_tag role_of_node
infer_role e = first_of (first_tag role_nodes e.tags) (role_of_node e.langgraph_node)

piece_of : Block → String
piece_of (bare s) = s
piece_of (text s) = s
piece_of other = ""

-- The text of a chunk.
unfoldable pub chunk_text : Option Content → String
unfolding piece_of join
chunk_text none = ""
chunk_text (some (str s)) = s
chunk_text (some (blocks bs)) = join "" (map piece_of bs)

shown_verification : Option VerificationResult → Option Shown
shown_verification none = none
shown_verification (some v) = some (verification_completed v.passed v.exit_code v.round)

shown_stuck : Option StuckDecision → Option Shown
shown_stuck none = none
shown_stuck (some d) = some (supervisor_decided d.action d.reasoning)

shown_end : String → NodeOutput → Option Shown
unfolding summarize_node_output shown_verification shown_stuck mem_text
shown_end name output =
    if mem_text name role_nodes
    then some (node_end name (summarize_node_output name output))
    else if str_eq name "verify"
    then shown_verification output.verification
    else if str_eq name "supervisor"
    then shown_stuck output.stuck_decision
    else none

shown_usage : Option String → Option (Option ℕ × Option ℕ) → Option Shown
shown_usage role none = none
shown_usage role (some u) = some (usage role (get_default (u.0) 0) (get_default (u.1) 0))

unfoldable pub shown_of : (Content → String) → Option String → RawKind → Option Shown
unfolding shown_end shown_usage chunk_text truncate tool_output_text mem_text
shown_of show_content role (on_chain_start name) =
    if mem_text name role_nodes then some (node_start name) else none
shown_of show_content role (on_chain_end name output) = shown_end name output
shown_of show_content role (on_chat_model_stream chunk) =
    if blank (chunk_text chunk) then none else some (token role (chunk_text chunk))
shown_of show_content role (on_tool_start name input_text) =
    some (tool_call (get_default role "developer") name (truncate input_text 200))
shown_of show_content role (on_tool_end name output) = some (
    tool_result (get_default role "developer") name
      (truncate (tool_output_text show_content output) 200))
shown_of show_content role (on_chat_model_end u) = shown_usage role u
shown_of show_content role on_other = none

with_task : Option String → Option Shown → Option StreamEvent
with_task task_id none = none
with_task task_id (some s) = some (record { shown = s; task_id = task_id })

-- `format_stream_event`
unfoldable pub format_stream_event : (Content → String) → RawEvent → Option StreamEvent
unfolding shown_of infer_role with_task
format_stream_event show_content e =
    with_task e.task_id (shown_of show_content (infer_role e) e.kind)
