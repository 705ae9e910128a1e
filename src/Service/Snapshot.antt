-- ===== src/Service/Snapshot.antt =====
-- agent_room/service.py: `materialize_result` and `_extract_pending_tool_calls`. A snapshot of the
-- runtime is its state, with the interrupts of the tasks that are paused; values that are dumps of
-- models are held as these models.
use goal_driven_agent_room.Base.{ℕ, not, String, Option, List, [], ◌∷◌, ◌++◌, is_empty, get_default}
use goal_driven_agent_room.Schemas.{
  ToolCall, ReviewerDecision, VerificationResult, StuckDecision, Artifact, Event,
}
use goal_driven_agent_room.State.{TaskState}
use goal_driven_agent_room.Routers.{Status, materialize_status}

-- The value of an interrupt: the payload of `approve_tool_call`, or anything else.
pub data Interrupt : Type 0 where
  approve_tool_call : ToolCall → Interrupt
  other_interrupt : Interrupt

pub record StateSnapshot : Type 0 where
  pub values : TaskState
  pub tasks : List (List Interrupt)

pub record TaskResult : Type 0 where
  pub task_id : String
  pub status : Status
  pub plan : Option String
  pub code : Option String
  pub review : Option ReviewerDecision
  pub delivery : Option String
  pub rounds : ℕ
  pub verification : Option VerificationResult
  pub stuck_decision : Option StuckDecision
  pub artifacts : List Artifact
  pub events : List Event
  pub pending_tool_calls : List ToolCall

approvals : List Interrupt → List ToolCall
approvals [] = []
approvals (approve_tool_call c ∷ rest) = c ∷ approvals rest
approvals (other_interrupt ∷ rest) = approvals rest

-- `_extract_pending_tool_calls`
unfoldable pub extract_pending_tool_calls : List (List Interrupt) → List ToolCall
unfolding approvals
extract_pending_tool_calls [] = []
extract_pending_tool_calls (interrupts ∷ tasks) =
    approvals interrupts ++ extract_pending_tool_calls tasks

-- `materialize_result`
unfoldable pub materialize_result : String → StateSnapshot → TaskResult
unfolding extract_pending_tool_calls materialize_status
materialize_result task_id snapshot =
    let s = snapshot.values in
    let pending = extract_pending_tool_calls snapshot.tasks in
    record {
      task_id = task_id;
      status = materialize_status s (not (is_empty pending));
      plan = s.plan;
      code = s.code;
      review = s.review;
      delivery = s.delivery;
      rounds = get_default s.revision_round 0;
      verification = s.verification;
      stuck_decision = s.stuck_decision;
      artifacts = s.artifacts;
      events = s.events;
      pending_tool_calls = pending;
    }
