-- ===== src/Eval/Task.antt =====
-- agent_room/eval/task.py, with the records of agent_room/eval/runner.py. Times are in milliseconds.
use goal_driven_agent_room.Base.{
  ℕ, Bool, true, false, not, String, Option, List, ◌⧺◌, truthy, get_default, if◌then◌else◌,
}
use goal_driven_agent_room.Schemas.{ReviewVerdict}
use goal_driven_agent_room.State.{TaskState}
use goal_driven_agent_room.Routers.{Status}
use goal_driven_agent_room.Service.Snapshot.{TaskResult}

pub record Outcome : Type 0 where
  pub result : TaskResult
  pub escalated : Bool
  pub completed_after_followup : Option Bool
  pub state_values : TaskState
  pub error : Option String

pub record Verdict : Type 0 where
  pub passed : Bool
  pub detail : String

-- A decision is `none` where the code has the text "none".
pub record RunRecord : Type 0 where
  pub variant : String
  pub task : String
  pub task_id : String
  pub passed : Bool
  pub verdict_detail : String
  pub final_status : Status
  pub rounds : ℕ
  pub decisions : List (Option ReviewVerdict)
  pub elapsed : ℕ
  pub escalated : Bool
  pub completed_after_followup : Option Bool
  pub prompt_tokens : Option ℕ
  pub completion_tokens : Option ℕ
  pub total_tokens : Option ℕ
  pub error : Option String
  pub dev_messages : ℕ
  pub verify_round : ℕ

abbrev pub same_truth : Bool → Bool → Bool
same_truth true b = b
same_truth false b = not b

abbrev pub truth_name : Bool → String
truth_name true = "True"
truth_name false = "False"

-- `BehavioralTask.verify`
unfoldable pub verify_behavior : (should_escalate : Bool) → Outcome → Verdict
unfolding ◌⧺◌
verify_behavior should_escalate outcome =
    let detail =
      "escalated=" ⧺ truth_name outcome.escalated ⧺ " expected=" ⧺ truth_name should_escalate in
    record {
      passed = same_truth outcome.escalated should_escalate;
      detail =
          if truthy outcome.error
          then detail ⧺ " error=" ⧺ get_default outcome.error ""
          else detail;
    }
