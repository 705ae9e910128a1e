-- ===== src/Roles/PlannerGate.antt =====
-- agent_room/roles/planner_gate.py
use goal_driven_agent_room.Base.{String, none, some, List, [], ◌∷◌, ◌++◌, ◌⧺◌, join, length}
use goal_driven_agent_room.Schemas.{
  planner, Event, Message, need_user_decision, PlannerGateOutput, ArtifactKind, dump_gate, number,
  strings,
}
use goal_driven_agent_room.State.{TaskState, Write, Update}
use goal_driven_agent_room.Texts.{TextLibrary, bullets, format_extra_context}
use goal_driven_agent_room.Errors.{Result, ok, ◌>>=◌}
use goal_driven_agent_room.Roles.Transport.{
  Transport, NodeConfig, prompt_or, system_and_human, if_text,
}
use goal_driven_agent_room.Roles.Planner.{planner_request}
use goal_driven_agent_room.Roles.Prompts.{planner_gate_system}

provided_directives : List String → List String
unfolding bullets ◌⧺◌
provided_directives [] = []
provided_directives (d ∷ ds) = ("# User directives (already provided)\n" ⧺ bullets (d ∷ ds)) ∷ []

-- Open questions park the run, by a review that asks the user.
unfoldable pub escalation : List String → Update
unfolding bullets ◌⧺◌
escalation [] = []
escalation (q ∷ qs) =
    Write.review (
      some (record {
        decision = need_user_decision;
        feedback = "Planner gate flagged open questions:\n" ⧺ bullets (q ∷ qs);
        issues = q ∷ qs;
        confidence = 100;
      }))
    ∷ []

escalation_events : List String → List Event
escalation_events [] = []
escalation_events (q ∷ qs) =
    record {
      type = "planner_gate_escalated";
      role = some planner;
      round = none;
      payload = ("questions", strings (q ∷ qs)) ∷ [];
    }
    ∷ []

unfoldable pub gate_update : PlannerGateOutput → Update
unfolding escalation escalation_events
gate_update result =
    Write.plan result.plan
    ∷ Write.open_questions result.open_questions
    ∷ Write.artifacts (
        record {
          kind = ArtifactKind.plan;
          role = planner;
          content = result.plan;
          round = 0;
          extra = dump_gate result;
        }
        ∷ [])
    ∷ Write.events (
        record {
          type = "planner_completed";
          role = some planner;
          round = none;
          payload = ("open_questions", number (length result.open_questions)) ∷ [];
        }
        ∷ escalation_events result.open_questions)
    ∷ escalation result.open_questions

module _ (lib : TextLibrary TaskState) (tx : Transport) (config : NodeConfig) where
  unfoldable pub gate_messages : TaskState → List Message
  unfolding provided_directives planner_request format_extra_context join prompt_or
  gate_messages s = system_and_human (prompt_or config.prompt_override planner_gate_system) (
      join "\n\n" (
        planner_request s
        ∷ (provided_directives s.user_directives
            ++ if_text (format_extra_context lib s config.extra_context_keys))))

  unfoldable pub planner_gate_node : TaskState → Result Update
  unfolding gate_messages gate_update
  planner_gate_node s = do result ← tx.gate (gate_messages s) config.model; ok (gate_update result)
