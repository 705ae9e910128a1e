-- ===== src/Routers/Agreement.antt =====
-- The routers of agent_room/routers.py against the status of agent_room/service.py.
use goal_driven_agent_room.Base.{
  ◌≡◌, ◌≢◌, ◌⊎◌, ◌↔◌, true, false, none, some, arith, truthy, ◌≤◌, ◌<◌, is_empty,
}
use goal_driven_agent_room.Schemas.{
  ReviewerDecision, StuckDecision, VerificationResult, abort, ask_user,
}
use goal_driven_agent_room.State.{
  TaskState, revision_round_of, max_revisions_of, verify_round_of, max_iterations_of,
}
use goal_driven_agent_room.Routers.{
  to_developer, halt, review_router, goal_router, stuck_router, planner_gate_router, failed,
  awaiting_user, running, materialize_status, aborted, failing, asks_user,
}

-- A workflow run before delivery: no goal-mode verdict stands in its state.
pub record IsWorkflow (s : TaskState) : Type 0 where
  pub undelivered : truthy s.delivery ≡ false
  pub no_abort : aborted s.stuck_decision ≡ false
  pub not_failing : failing s.verification ≡ false

-- After a review, in a run that has delivered nothing, was not aborted and whose oracle does not
-- fail: the router stops the run exactly when the status is `awaiting_user` or `failed`.
pub review_router-halt_iff :
    (s : TaskState) (r : ReviewerDecision)
    → IsWorkflow s
    → s.review ≡ some r
    → (review_router s ≡ halt)
      ↔ ((materialize_status s false ≡ awaiting_user) ⊎ (materialize_status s false ≡ failed))
unfolding review_router materialize_status
review_router-halt_iff s r w e = ground arith

-- After a failed verification, in a run that has delivered nothing, waits for no answer, was not
-- aborted and is within its revision budget: the router stops the run exactly when the status is
-- `failed`, and sends it on exactly when the status is `running`.
pub goal_router-halt_iff :
    (s : TaskState) (v : VerificationResult)
    → truthy s.delivery ≡ false
    → asks_user s.review ≡ false
    → revision_round_of s ≤ max_revisions_of s
    → aborted s.stuck_decision ≡ false
    → s.verification ≡ some v
    → v.passed ≡ false
    → ((goal_router s ≡ halt) ↔ (materialize_status s false ≡ failed))
      × ((goal_router s ≢ halt) ↔ (materialize_status s false ≡ running))
unfolding goal_router materialize_status
goal_router-halt_iff s v d q b a e f = ground arith

-- After a decision of the supervisor, in a run that has delivered nothing, is below its ceiling on
-- iterations and within its revision budget, and has a review that asks the user exactly when the
-- decision does: the router stops the run exactly when the status is `awaiting_user` or `failed`,
-- and the status is `failed` exactly when the decision is to abort.
pub stuck_router-status :
    (s : TaskState) (d : StuckDecision)
    → truthy s.delivery ≡ false
    → s.stuck_decision ≡ some d
    → verify_round_of s < max_iterations_of s
    → revision_round_of s ≤ max_revisions_of s
    → ((d.action ≡ ask_user) ↔ (asks_user s.review ≡ true))
    → ((stuck_router s ≡ halt)
        ↔ ((materialize_status s false ≡ awaiting_user) ⊎ (materialize_status s false ≡ failed)))
      × ((d.action ≡ abort) ↔ (materialize_status s false ≡ failed))
unfolding stuck_router materialize_status
stuck_router-status s d h e r b q = ground arith

-- The planner gate passes a run on exactly when there is a plan, no open question and no review
-- that asks the user.
pub planner_gate_router-developer_iff :
    (s : TaskState)
    → (planner_gate_router s ≡ to_developer)
      ↔ ((is_empty s.open_questions ≡ true) × (asks_user s.review ≡ false) × (truthy s.plan ≡ true))
unfolding planner_gate_router
planner_gate_router-developer_iff s = ground arith

-- With no plan and no review, in a run that has delivered nothing, was not aborted and whose oracle
-- does not fail: the planner gate stops the run, and its status is `running`.
pub gate_without_plan :
    (s : TaskState)
    → IsWorkflow s
    → s.review ≡ none
    → truthy s.plan ≡ false
    → (planner_gate_router s ≡ halt) × (materialize_status s false ≡ running)
unfolding planner_gate_router materialize_status
gate_without_plan s w r p = ground arith
