-- ===== src/Roles/Planner.antt =====
-- agent_room/roles/planner.py
use goal_driven_agent_room.Base.{
  String, Option, none, some, List, [], ◌∷◌, ◌++◌, ◌⧺◌, join, show, truthy, get_default,
  if◌then◌else◌, not, ◌&&◌,
}
use goal_driven_agent_room.Schemas.{
  planner, Message, human, str, no_extra, VerificationResult, ArtifactKind,
}
use goal_driven_agent_room.State.{TaskState, Write, Update}
use goal_driven_agent_room.Texts.{TextLibrary, extract_text, format_extra_context}
use goal_driven_agent_room.Errors.{Result, ok, ◌>>=◌}
use goal_driven_agent_room.Roles.Transport.{
  Transport, NodeConfig, prompt_or, system_and_human, if_text,
}
use goal_driven_agent_room.Roles.Prompts.{planner_system}

-- The failure context of a re-planning run.
unfoldable pub replan_section : Option VerificationResult → Option String → List String
unfolding ◌⧺◌ show
replan_section none plan = []
replan_section (some v) plan =
    if not v.passed && truthy plan
    then ("# Previous plan (did not reach the goal)\n"
        ⧺ get_default plan ""
        ⧺ "\n\n# Latest verification failure (round "
        ⧺ show v.round
        ⧺ ")\n"
        ⧺ v.output_tail
        ⧺ "\n\nProduce a REVISED plan that takes a different approach to the part that keeps failing.")
      ∷ []
    else []

-- Title and description, as both planners give them.
unfoldable pub planner_request : TaskState → String
unfolding ◌⧺◌
planner_request s = "Title: " ⧺ s.title ⧺ "\n\nDescription:\n" ⧺ s.description

-- A new plan is appended to the transcript of a developer in flight, with a fresh tool budget.
unfoldable pub push_plan : List Message → String → Update
unfolding ◌⧺◌
push_plan [] plan = []
push_plan (m ∷ ms) plan =
    Write.dev_messages (human (str ("# Revised plan\n" ⧺ plan)) ∷ []) ∷ Write.dev_round 0 ∷ []

unfoldable pub planner_update : TaskState → String → Update
unfolding push_plan
planner_update s plan =
    Write.plan plan
    ∷ Write.artifacts (
        record {
          kind = ArtifactKind.plan;
          role = planner;
          content = plan;
          round = 0;
          extra = no_extra;
        }
        ∷ [])
    ∷ Write.events (
        record { type = "planner_completed"; role = some planner; round = none; payload = [] } ∷ [])
    ∷ push_plan s.dev_messages plan

module _ (lib : TextLibrary TaskState) (tx : Transport) (config : NodeConfig) where
  unfoldable pub planner_messages : TaskState → List Message
  unfolding replan_section planner_request format_extra_context join prompt_or
  planner_messages s = system_and_human (prompt_or config.prompt_override planner_system) (
      join "\n\n" (
        planner_request s
        ∷ (if_text (format_extra_context lib s config.extra_context_keys)
            ++ replan_section s.verification s.plan)))

  unfoldable pub planner_node : TaskState → Result Update
  unfolding planner_messages planner_update extract_text
  planner_node s = do
    response ← tx.invoke planner (planner_messages s) none config.model
    ok (planner_update s (extract_text response.content))
