-- ===== src/Graph/Nodes.antt =====
-- What the nodes change of the fields that the routers read.
use goal_driven_agent_room.Base.{ℕ, ◌+◌, true, String, Option, some, List, [], ◌∷◌, ◌≡◌, ◌≢◌, arith}
use goal_driven_agent_room.Schemas.{
  Reply, Event, GuardrailFinding, ReviewerDecision, StuckDecision, VerificationResult, Message,
  ask_user,
}
use goal_driven_agent_room.State.{TaskState, Write, merge, revision_round_of, verify_round_of}
use goal_driven_agent_room.Roles.Planner.{planner_update, push_plan}
use goal_driven_agent_room.Roles.Developer.{code_writes, developer_completed}
use goal_driven_agent_room.Routers.{asks_user}
use goal_driven_agent_room.Roles.DeveloperReact.{react_update}
use goal_driven_agent_room.Roles.Reviewer.{reviewer_update}
use goal_driven_agent_room.Roles.Supervisor.{supervisor_update}
use goal_driven_agent_room.Roles.Verifier.{verifier_update}
use goal_driven_agent_room.Roles.Delivery.{delivery_update}

-- What no worker node writes.
pub record SameBudgets (s t : TaskState) : Type 0 where
  pub same_delivery : t.delivery ≡ s.delivery
  pub same_max_revisions : t.max_revisions ≡ s.max_revisions
  pub same_max_iterations : t.max_iterations ≡ s.max_iterations

-- What a node that decides nothing leaves alone.
pub record SameControl (s t : TaskState) : Type 0 where
  pub same_budgets : SameBudgets s t
  pub same_review : t.review ≡ s.review
  pub same_revision_round : t.revision_round ≡ s.revision_round
  pub same_verification : t.verification ≡ s.verification
  pub same_verify_round : t.verify_round ≡ s.verify_round
  pub same_stuck : t.stuck_decision ≡ s.stuck_decision

push_plan-control :
    (s : TaskState) (messages : List Message) (plan : String)
    → SameControl s (merge s (push_plan messages plan))
unfolding merge push_plan
push_plan-control s [] plan = ground arith
push_plan-control s (m ∷ ms) plan = ground arith

pub planner_update-control :
    (s : TaskState) (plan : String) → SameControl s (merge s (planner_update s plan))
unfolding merge planner_update
planner_update-control s plan = ground arith

pub developer_update-control :
    (s : TaskState) (code : String) (n : ℕ)
    → SameControl s (merge s (Write.events (developer_completed n ∷ []) ∷ code_writes code n))
unfolding merge code_writes
developer_update-control s code n = ground arith

pub react_update-control :
    (s : TaskState) (convo : List Message) (response : Reply) (events : List Event)
    → SameControl s (merge s (react_update s convo response events))
unfolding merge react_update
react_update-control s convo response events = ground arith

pub tools-control :
    (s : TaskState) (messages : List Message)
    → SameControl s (merge s (Write.dev_messages messages ∷ []))
unfolding merge
tools-control s messages = ground arith

-- A reviewer writes its decision and counts the round.
pub record IsReviewed (s : TaskState) (d : ReviewerDecision) (t : TaskState) : Type 0 where
  pub same_budgets : SameBudgets s t
  pub reviewed : t.review ≡ some d
  pub counted : t.revision_round ≡ some (revision_round_of s + 1)
  pub same_verification : t.verification ≡ s.verification
  pub same_verify_round : t.verify_round ≡ s.verify_round
  pub same_stuck : t.stuck_decision ≡ s.stuck_decision

pub reviewer_update-IsReviewed :
    (s : TaskState) (d : ReviewerDecision) → IsReviewed s d (merge s (reviewer_update s d))
unfolding merge reviewer_update
reviewer_update-IsReviewed s d = ground arith

-- A verifier writes its result and counts the run.
pub record IsVerified (s : TaskState) (v : VerificationResult) (t : TaskState) : Type 0 where
  pub same_budgets : SameBudgets s t
  pub same_review : t.review ≡ s.review
  pub same_revision_round : t.revision_round ≡ s.revision_round
  pub verified : t.verification ≡ some v
  pub counted : t.verify_round ≡ some (verify_round_of s + 1)
  pub same_stuck : t.stuck_decision ≡ s.stuck_decision

pub verifier_update-IsVerified :
    (s : TaskState) (v : VerificationResult) → IsVerified s v (merge s (verifier_update s v))
unfolding merge verifier_update
verifier_update-IsVerified s v = ground arith

-- A supervisor writes its decision, and asks the user by a review.
pub record IsDecided (s : TaskState) (d : StuckDecision) (t : TaskState) : Type 0 where
  pub same_budgets : SameBudgets s t
  pub decided : t.stuck_decision ≡ some d
  pub asked : d.action ≡ ask_user → asks_user t.review ≡ true
  pub not_asked : d.action ≢ ask_user → t.review ≡ s.review
  pub same_revision_round : t.revision_round ≡ s.revision_round
  pub same_verification : t.verification ≡ s.verification
  pub same_verify_round : t.verify_round ≡ s.verify_round

pub supervisor_update-IsDecided :
    (s : TaskState) (d : StuckDecision) → IsDecided s d (merge s (supervisor_update s d))
unfolding merge supervisor_update
supervisor_update-IsDecided s d = ground arith

-- A delivery writes its text alone.
pub record IsDelivered (s : TaskState) (content : String) (t : TaskState) : Type 0 where
  pub delivered : t.delivery ≡ some content
  pub same_max_revisions : t.max_revisions ≡ s.max_revisions
  pub same_max_iterations : t.max_iterations ≡ s.max_iterations
  pub same_review : t.review ≡ s.review
  pub same_revision_round : t.revision_round ≡ s.revision_round
  pub same_verification : t.verification ≡ s.verification
  pub same_verify_round : t.verify_round ≡ s.verify_round
  pub same_stuck : t.stuck_decision ≡ s.stuck_decision

pub delivery_update-IsDelivered :
    (s : TaskState) (content : String) (finding : Option GuardrailFinding)
    → IsDelivered s content (merge s (delivery_update content finding))
unfolding merge delivery_update
delivery_update-IsDelivered s content finding = ground arith
