-- ===== src/Graph/Goal/Routes.antt =====
-- Where the three routers of the `goal` preset lead, and the status where they stop a run.
use goal_driven_agent_room.Base.{
  ◌<◌, true, false, none, some, ◌≡◌, ◌≢◌, inl, inr, arith, ltb, leb, ◌==◌, ◌&&◌, ◌%◌, Bool-cases,
  leb→lt,
}
use goal_driven_agent_room.Schemas.{
  ReviewerDecision, ReviewVerdict, approved, revision_required, need_user_decision,
  VerificationResult, StuckDecision, StuckAction, continue, replan, ask_user, abort,
}
use goal_driven_agent_room.State.{
  TaskState, verify_round_of, max_iterations_of, revision_round_of, max_revisions_of,
}
use goal_driven_agent_room.Routers.{
  review_router, goal_router, stuck_router, materialize_status, running, asks_user, stuck_every,
}
use goal_driven_agent_room.Spec.{label}
use goal_driven_agent_room.Graph.Workflow.Invariant.{IsApproved}

-- The oracle has passed.
abbrev pub IsPassed : TaskState → Type 0
IsPassed s = (v : VerificationResult) × (s.verification ≡ some v) × (v.passed ≡ true)

pub data AfterVerify (s : TaskState) : Type 0 where
  achieved : label (goal_router s) ≡ "delivery" → IsPassed s → AfterVerify s
  again :
      label (goal_router s) ≡ "developer" → verify_round_of s < max_iterations_of s → AfterVerify s
  judged : label (goal_router s) ≡ "reviewer" → s.verification ≡ none → AfterVerify s
  helped :
      label (goal_router s) ≡ "supervisor" → verify_round_of s < max_iterations_of s → AfterVerify s
  exhausted : label (goal_router s) ≡ "halt" → materialize_status s false ≢ running → AfterVerify s

pub route_none : (s : TaskState) → s.verification ≡ none → AfterVerify s
unfolding goal_router
route_none s e = judged (ground arith) e

pub route_verified :
    (s : TaskState) (v : VerificationResult)
    → s.delivery ≡ none
    → s.verification ≡ some v
    → AfterVerify s
unfolding goal_router materialize_status
route_verified s v d e = elim (Bool-cases v.passed) [
  | inl passed ↦ achieved (ground arith) (v, e, passed)
  | inr failed ↦ elim (Bool-cases (leb (max_iterations_of s) (verify_round_of s))) [
    | inl over ↦ exhausted (ground arith) (ground arith)
    | inr within ↦
        let below = leb→lt (max_iterations_of s) (verify_round_of s) within in
        elim (Bool-cases (ltb 0 (verify_round_of s) && (verify_round_of s % stuck_every == 0))) [
          | inl stuck ↦ helped (ground arith) below
          | inr fine ↦ again (ground arith) below
        ]
  ]
]

pub data AfterDecision (s : TaskState) : Type 0 where
  continued : label (stuck_router s) ≡ "developer" → AfterDecision s
  replanned : label (stuck_router s) ≡ "planner" → AfterDecision s
  parked : label (stuck_router s) ≡ "halt" → materialize_status s false ≢ running → AfterDecision s

pub route_decision :
    (s : TaskState) (d : StuckDecision) (a : StuckAction)
    → s.delivery ≡ none
    → s.stuck_decision ≡ some d
    → d.action ≡ a
    → (d.action ≡ ask_user → asks_user s.review ≡ true)
    → AfterDecision s
unfolding stuck_router materialize_status
route_decision s d continue n e f asked = continued (ground arith)
route_decision s d replan n e f asked = replanned (ground arith)
route_decision s d ask_user n e f asked = let asks = asked f in parked (ground arith) (ground arith)
route_decision s d abort n e f asked = parked (ground arith) (ground arith)

pub data AfterReview (s : TaskState) : Type 0 where
  revised : label (review_router s) ≡ "developer" → AfterReview s
  accepted : label (review_router s) ≡ "delivery" → IsApproved s → AfterReview s
  refused : label (review_router s) ≡ "halt" → materialize_status s false ≢ running → AfterReview s

pub route_reviewed :
    (s : TaskState) (d : ReviewerDecision) (v : ReviewVerdict)
    → s.delivery ≡ none
    → s.review ≡ some d
    → d.decision ≡ v
    → AfterReview s
unfolding review_router materialize_status
route_reviewed s d approved n e f = accepted (ground arith) (d, e, f)
route_reviewed s d need_user_decision n e f = refused (ground arith) (ground arith)
route_reviewed s d revision_required n e f =
    elim (Bool-cases (ltb (max_revisions_of s) (revision_round_of s))) [
      | inl over ↦ refused (ground arith) (ground arith)
      | inr within ↦ revised (ground arith)
    ]
