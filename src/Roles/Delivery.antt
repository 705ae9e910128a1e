-- ===== src/Roles/Delivery.antt =====
-- agent_room/roles/delivery.py
use goal_driven_agent_room.Base.{
  ℕ, String, Option, none, some, List, [], ◌∷◌, ◌⧺◌, get_default, blank, if◌then◌else◌,
}
use goal_driven_agent_room.Schemas.{
  Role, delivery, Event, Message, ReviewerDecision, no_extra, ArtifactKind, Checkpoint, Category,
  injection, pii, input, tool_call, tool_response, output, GuardrailFinding, string,
}
use goal_driven_agent_room.State.{TaskState, Write, Update}
use goal_driven_agent_room.Texts.{TextLibrary, extract_text, format_extra_context}
use goal_driven_agent_room.Errors.{Result, ok, ◌>>=◌}
use goal_driven_agent_room.Guardrail.{GuardrailMode, Search, check}
use goal_driven_agent_room.Roles.Transport.{Transport, NodeConfig, prompt_or, system_and_human}
use goal_driven_agent_room.Roles.Prompts.{delivery_system}

abbrev category_name : Category → String
category_name injection = "injection"
category_name pii = "pii"

abbrev checkpoint_name : Checkpoint → String
checkpoint_name input = "input"
checkpoint_name tool_call = "tool_call"
checkpoint_name tool_response = "tool_response"
checkpoint_name output = "output"

-- The events that record a finding.
unfoldable pub finding_events : Role → Option ℕ → Option GuardrailFinding → List Event
finding_events role round none = []
finding_events role round (some f) =
    record {
      type = "guardrail_triggered";
      role = some role;
      round = round;
      payload =
          ("category", string (category_name f.category))
          ∷ ("pattern", string f.pattern)
          ∷ ("checkpoint", string (checkpoint_name f.checkpoint))
          ∷ [];
    }
    ∷ []

review_block : Option ReviewerDecision → String
unfolding ◌⧺◌
review_block none = ""
review_block (some r) = "\n# Reviewer notes\n" ⧺ r.feedback ⧺ "\n"

unfoldable pub delivery_update : String → Option GuardrailFinding → Update
unfolding finding_events
delivery_update content finding =
    Write.delivery content
    ∷ Write.artifacts (
        record {
          kind = ArtifactKind.handoff;
          role = delivery;
          content = content;
          round = 0;
          extra = no_extra;
        }
        ∷ [])
    ∷ Write.events (
        record { type = "delivery_completed"; role = some delivery; round = none; payload = [] }
        ∷ finding_events delivery none finding)
    ∷ []

module _ (lib : TextLibrary TaskState) (tx : Transport) (config : NodeConfig) where
  unfoldable pub delivery_messages : TaskState → List Message
  unfolding review_block format_extra_context prompt_or ◌⧺◌
  delivery_messages s =
      let prompt =
        "# Title\n"
        ⧺ s.title
        ⧺ "\n\n# Plan\n"
        ⧺ get_default s.plan "None"
        ⧺ "\n\n# Code\n"
        ⧺ get_default s.code "None"
        ⧺ "\n"
        ⧺ review_block s.review in
      let extra = format_extra_context lib s config.extra_context_keys in
      system_and_human (prompt_or config.prompt_override delivery_system)
        (if blank extra then prompt else prompt ⧺ "\n" ⧺ extra)

  unfoldable pub delivery_node : Search → GuardrailMode → TaskState → Result Update
  unfolding delivery_messages delivery_update check extract_text
  delivery_node search mode s = do
    response ← tx.invoke delivery (delivery_messages s) none config.model
    let content = extract_text response.content
    finding ← check search mode content output
    ok (delivery_update content finding)
