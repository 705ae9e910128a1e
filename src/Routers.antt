-- ===== src/Routers.antt =====
-- agent_room/routers.py: the edge routers, and `_materialize_status` of agent_room/service.py, which
-- derives a task's status from the same fields.
pub mod Agreement
use goal_driven_agent_room.Base.{
  ℕ, ◌%◌, Bool, true, false, Option, none, some, ◌==◌, ltb, leb, if◌then◌else◌, ◌&&◌, not, truthy,
  is_empty,
}
use goal_driven_agent_room.Schemas.{
  ReviewerDecision, ReviewVerdict, StuckDecision, VerificationResult, approved, revision_required,
  need_user_decision, continue, replan, ask_user, abort, StuckAction,
}
use goal_driven_agent_room.State.{
  TaskState, revision_round_of, max_revisions_of, verify_round_of, max_iterations_of,
}

-- The signals of all the routers: the labels that `branches` map to nodes.
pub data Signal : Type 0 where
  to_developer to_delivery to_reviewer to_supervisor to_planner halt : Signal

review_signal : ReviewVerdict → ℕ → ℕ → Signal
review_signal approved round limit = to_delivery
review_signal need_user_decision round limit = halt
review_signal revision_required round limit = if ltb limit round then halt else to_developer

unfoldable pub review_router : TaskState → Signal
unfolding review_signal
review_router s = elim s.review [
  | none ↦ halt
  | some r ↦ review_signal r.decision (revision_round_of s) (max_revisions_of s)
]

abbrev pub stuck_every : ℕ
stuck_every = 3

unfoldable pub goal_router : TaskState → Signal
goal_router s = elim s.verification [
  | none ↦ to_reviewer
  | some v ↦
      if v.passed
      then to_delivery
      else if leb (max_iterations_of s) (verify_round_of s)
      then halt
      else if ltb 0 (verify_round_of s) && (verify_round_of s % stuck_every == 0)
      then to_supervisor
      else to_developer
]

stuck_signal : StuckAction → Signal
stuck_signal continue = to_developer
stuck_signal replan = to_planner
stuck_signal ask_user = halt
stuck_signal abort = halt

unfoldable pub stuck_router : TaskState → Signal
unfolding stuck_signal
stuck_router s = elim s.stuck_decision [ none ↦ halt | some d ↦ stuck_signal d.action ]

abbrev pub asks_user : Option ReviewerDecision → Bool
asks_user none = false
asks_user (some r) = elim r.decision [ need_user_decision ↦ true | _ ↦ false ]

unfoldable pub planner_gate_router : TaskState → Signal
planner_gate_router s =
    if not (is_empty s.open_questions)
    then halt
    else if asks_user s.review
    then halt
    else if not (truthy s.plan)
    then halt
    else to_developer

pub data Status : Type 0 where
  completed failed awaiting_user running : Status

abbrev pub wants_revision : Option ReviewerDecision → Bool
wants_revision none = false
wants_revision (some r) = elim r.decision [ revision_required ↦ true | _ ↦ false ]

abbrev pub aborted : Option StuckDecision → Bool
aborted none = false
aborted (some d) = elim d.action [ abort ↦ true | _ ↦ false ]

abbrev pub failing : Option VerificationResult → Bool
failing none = false
failing (some v) = not v.passed

-- `_materialize_status(state, has_pending_tool_calls=...)`
unfoldable pub materialize_status : TaskState → Bool → Status
materialize_status s has_pending_tool_calls =
    if has_pending_tool_calls
    then awaiting_user
    else if truthy s.delivery
    then completed
    else if asks_user s.review
    then awaiting_user
    else if wants_revision s.review && ltb (max_revisions_of s) (revision_round_of s)
    then failed
    else if aborted s.stuck_decision
    then failed
    else if failing s.verification && leb (max_iterations_of s) (verify_round_of s)
    then failed
    else running
