-- ===== src/Examples/Resuming.antt =====
-- Resumed runs at concrete states.
use goal_driven_agent_room.Base.{◌≤◌, false, some, [], ◌∷◌, ◌++◌, ◌≡◌, ◌↔◌, refl, arith}
use goal_driven_agent_room.Schemas.{need_user_decision}
use goal_driven_agent_room.State.{TaskState, merge, revision_round_of, max_revisions_of}
use goal_driven_agent_room.Routers.{review_router, materialize_status, to_developer, halt, failed}
use goal_driven_agent_room.Service.{resume_reviewer}
use goal_driven_agent_room.Service.Resuming.{
  resume_reviewer-developer_iff, resume_reviewer_over_budget,
}
use goal_driven_agent_room.Examples.World.{small_state, verdict_of}

abbrev first_question : TaskState
first_question = record small_state {
  plan = some "write sum.py";
  review = some (verdict_of need_user_decision);
  revision_round = some 1;
}

-- The question of the last review that the budget of one revision allows.
abbrev last_question : TaskState
last_question = record first_question { revision_round = some 2 }

resume_reviewer-developer_iff_example :
    ((review_router (merge first_question (resume_reviewer "use floats")) ≡ to_developer)
      ↔ (revision_round_of first_question ≤ max_revisions_of first_question))
    × ((merge first_question (resume_reviewer "use floats")).user_directives
        ≡ first_question.user_directives ++ "use floats" ∷ [])
resume_reviewer-developer_iff_example = resume_reviewer-developer_iff first_question "use floats"

resume_reviewer_over_budget_example :
    (review_router (merge last_question (resume_reviewer "use floats")) ≡ halt)
    × (materialize_status (merge last_question (resume_reviewer "use floats")) false ≡ failed)
resume_reviewer_over_budget_example =
    resume_reviewer_over_budget last_question "use floats" refl (omega arith)
