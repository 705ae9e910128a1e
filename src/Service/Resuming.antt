-- ===== src/Service/Resuming.antt =====
-- `AgentRoomService.resume` of agent_room/service.py against the routers that a resumed run meets.
use goal_driven_agent_room.Base.{
  ◌≤◌, ◌<◌, true, false, String, [], ◌∷◌, ◌++◌, ◌≡◌, ◌↔◌, arith, truthy,
}
use goal_driven_agent_room.State.{TaskState, merge, revision_round_of, max_revisions_of}
use goal_driven_agent_room.Routers.{
  review_router, planner_gate_router, materialize_status, to_developer, halt, failed,
}
use goal_driven_agent_room.Service.{resume_reviewer, resume_planner}

-- A run resumed at the reviewer goes on to the developer exactly when its revision count is within
-- its budget, and the user's decision is added to the directives.
pub resume_reviewer-developer_iff :
    (s : TaskState) (decision : String)
    → ((review_router (merge s (resume_reviewer decision)) ≡ to_developer)
        ↔ (revision_round_of s ≤ max_revisions_of s))
      × ((merge s (resume_reviewer decision)).user_directives ≡ s.user_directives ++ decision ∷ [])
unfolding merge resume_reviewer review_router
resume_reviewer-developer_iff s decision = ground arith

-- A run that has delivered nothing and whose revision count is over its budget stops when it is
-- resumed at the reviewer, and its status is `failed`.
pub resume_reviewer_over_budget :
    (s : TaskState) (decision : String)
    → truthy s.delivery ≡ false
    → max_revisions_of s < revision_round_of s
    → (review_router (merge s (resume_reviewer decision)) ≡ halt)
      × (materialize_status (merge s (resume_reviewer decision)) false ≡ failed)
unfolding merge resume_reviewer review_router materialize_status
resume_reviewer_over_budget s decision d b = ground arith

-- A run resumed at the planner gate goes on to the developer exactly when there is a plan, and the
-- user's decision is added to the directives.
pub resume_planner-developer_iff :
    (s : TaskState) (decision : String)
    → ((planner_gate_router (merge s (resume_planner decision)) ≡ to_developer)
        ↔ (truthy s.plan ≡ true))
      × ((merge s (resume_planner decision)).user_directives ≡ s.user_directives ++ decision ∷ [])
unfolding merge resume_planner planner_gate_router
resume_planner-developer_iff s decision = ground arith
