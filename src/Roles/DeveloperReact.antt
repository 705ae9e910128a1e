-- ===== src/Roles/DeveloperReact.antt =====
-- agent_room/roles/developer_react.py: the developer with tools. The transcript sync of
-- `_fire_and_forget_sync` changes nothing that a node reads, and is not modelled.
use mathlib.Core.List.{reverse}
use goal_driven_agent_room.Base.{
  ℕ, ◌+◌, String, Option, none, some, List, [], ◌∷◌, ◌++◌, ◌⧺◌, join, blank, if◌then◌else◌, leb,
}
use goal_driven_agent_room.Schemas.{
  developer, Event, Message, system, human, ai, tool, str, Content, Reply, Tool, ToolCall,
  message_of, tool_response,
}
use goal_driven_agent_room.State.{TaskState, Write, Update, revision_round_of, dev_round_of}
use goal_driven_agent_room.Texts.{TextLibrary, extract_text}
use goal_driven_agent_room.Errors.{Result, ok, ◌>>=◌}
use goal_driven_agent_room.Guardrail.{GuardrailMode, Search, check}
use goal_driven_agent_room.Prompt.Developer.{developer_prompt, developer_system_with_tools}
use goal_driven_agent_room.Roles.Transport.{Transport, NodeConfig, prompt_or, if_text}
use goal_driven_agent_room.Roles.Delivery.{finding_events}
use goal_driven_agent_room.Roles.Developer.{code_writes, developer_completed}

abbrev pub default_max_dev_rounds : ℕ
default_max_dev_rounds = 6

abbrev pub budget_exhausted_note : String
budget_exhausted_note =
    "\n\nNOTE: You've used your full tool budget. Emit the final code now without calling any more tools."

-- `BUDGET_EXHAUSTED_NOTE.lstrip()`
abbrev pub stripped_note : String
stripped_note =
    "NOTE: You've used your full tool budget. Emit the final code now without calling any more tools."

-- What the bindings provide: `str(content)`, the memory provider, the context engine's `apply`, and
-- the guardrail.
pub record ReactBindings : Type 0 where
  pub content_str : Content → String
  pub system_prompt_block : String
  pub prefetch : String → String
  pub compress : List Message → Result (List Message)
  pub search : Search
  pub mode : GuardrailMode

-- The leading tool messages, and their contents in the order of the loop.
leading_tools : List Message → List Content
leading_tools [] = []
leading_tools (tool c n i ∷ ms) = c ∷ leading_tools ms
leading_tools (_ ∷ ms) = []

-- `_new_tool_messages`: the trailing run of tool messages.
unfoldable pub new_tool_messages : List Message → List Content
unfolding leading_tools
new_tool_messages existing = reverse (leading_tools (reverse existing))

-- The events of the "tool_response" checkpoint.
unfoldable pub scan_tool_messages : Search → GuardrailMode → ℕ → List Content → Result (List Event)
unfolding check finding_events extract_text
scan_tool_messages search mode round_no [] = ok []
scan_tool_messages search mode round_no (c ∷ cs) =
    check search mode (extract_text c) tool_response >>= λ finding.
    scan_tool_messages search mode round_no cs >>= λ events.
    ok (finding_events developer (some round_no) finding ++ events)

-- `_append_budget_note`
unfoldable pub append_budget_note : (Content → String) → List Message → List Message
unfolding ◌⧺◌
append_budget_note shown [] = []
append_budget_note shown (human c ∷ []) = human (str (shown c ⧺ budget_exhausted_note)) ∷ []
append_budget_note shown (system c ∷ []) = system c ∷ human (str stripped_note) ∷ []
append_budget_note shown (ai c calls ∷ []) = ai c calls ∷ human (str stripped_note) ∷ []
append_budget_note shown (tool c n i ∷ []) = tool c n i ∷ human (str stripped_note) ∷ []
append_budget_note shown (m ∷ q ∷ ms) = m ∷ append_budget_note shown (q ∷ ms)

module _ (lib : TextLibrary TaskState) (bindings : ReactBindings) where
  open bindings use {content_str, system_prompt_block, prefetch}

  -- The blocks that memory adds.
  memory_blocks : String → List String
  memory_blocks query =
      if_text (lib.strip system_prompt_block)
      ++ if_text (lib.strip (if blank query then "" else prefetch query))

  augment : Content → List String → Message
  unfolding ◌⧺◌ join
  augment c [] = system c
  augment c (b ∷ blocks) = system (str (content_str c ⧺ "\n\n" ⧺ join "\n\n" (b ∷ blocks)))

  -- `_inject_memory`
  unfoldable pub inject_memory : String → List Message → List Message
  unfolding augment memory_blocks
  inject_memory query [] = []
  inject_memory query (system c ∷ ms) = augment c (memory_blocks query) ∷ ms
  inject_memory query (human c ∷ ms) = human c ∷ ms
  inject_memory query (ai c calls ∷ ms) = ai c calls ∷ ms
  inject_memory query (tool c n i ∷ ms) = tool c n i ∷ ms

-- `state.get("description") or state.get("title") or ""`
query_of : TaskState → String
query_of s = if blank s.description then s.title else s.description

-- The transcript's increment: the prompt is persisted on first entry.
transcript : List Message → List Message → Reply → List Message
transcript [] convo response = convo ++ message_of response ∷ []
transcript (m ∷ ms) convo response = message_of response ∷ []

-- A turn with no tool call is the final answer.
final_writes : List ToolCall → String → ℕ → Update
unfolding code_writes
final_writes [] code round_no = code_writes code round_no
final_writes (c ∷ cs) code round_no = []

final_events : List ToolCall → ℕ → List Event
final_events [] round_no = developer_completed round_no ∷ []
final_events (c ∷ cs) round_no = []

event_writes : List Event → Update
event_writes [] = []
event_writes (e ∷ es) = Write.events (e ∷ es) ∷ []

-- The update of a turn.
unfoldable pub react_update : TaskState → List Message → Reply → List Event → Update
unfolding transcript final_writes final_events event_writes extract_text
react_update s convo response guardrail_events =
    let round_no = revision_round_of s in
    Write.dev_round (dev_round_of s + 1)
    ∷ Write.dev_messages (transcript s.dev_messages convo response)
    ∷ (final_writes response.tool_calls (extract_text response.content) round_no
        ++ event_writes (guardrail_events ++ final_events response.tool_calls round_no))

module _ (lib : TextLibrary TaskState) (tx : Transport) (config : NodeConfig)
    (bindings : ReactBindings) (tools : List Tool) (max_dev_rounds : ℕ) where
  -- The conversation before the budget note: the transcript, or on first entry the prompt with
  -- memory.
  conversation : TaskState → List Message → List Message
  unfolding developer_prompt prompt_or inject_memory query_of
  conversation s [] = inject_memory lib bindings (query_of s) (
      developer_prompt lib (prompt_or config.prompt_override developer_system_with_tools)
        config.extra_context_keys s)
  conversation s (m ∷ ms) = m ∷ ms

  -- The tools that a turn binds: none once the budget is used.
  unfoldable pub bound_tools : ℕ → Option (List Tool)
  bound_tools dev_round = if leb max_dev_rounds dev_round then none else some tools

  unfoldable pub developer_react_node : TaskState → Result Update
  unfolding conversation bound_tools append_budget_note scan_tool_messages new_tool_messages
      react_update
  developer_react_node s = do
    guardrail_events ←
        scan_tool_messages bindings.search bindings.mode (revision_round_of s)
          (new_tool_messages s.dev_messages)
    let budget_used = leb max_dev_rounds (dev_round_of s)
    let convo = conversation s s.dev_messages
    let noted = if budget_used then append_budget_note bindings.content_str convo else convo
    llm_input ← bindings.compress noted
    response ← tx.invoke developer llm_input (bound_tools (dev_round_of s)) config.model
    ok (react_update s noted response guardrail_events)
