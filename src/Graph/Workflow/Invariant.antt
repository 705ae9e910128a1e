-- ===== src/Graph/Workflow/Invariant.antt =====
-- Where a run of the `full` preset stands, and its supersteps from there.
use mathlib.Core.Path.{subst}
use goal_driven_agent_room.Base.{
  ℕ, suc, ◌+◌, ◌*◌, ◌≤◌, false, String, none, some, ◌≡◌, ◌≢◌, ◌⊎◌, inl, inr, refl, arith, ◌∙◌, ltb,
  Bool-cases,
}
use goal_driven_agent_room.Schemas.{
  ReviewerDecision, ReviewVerdict, approved, revision_required, need_user_decision,
}
use goal_driven_agent_room.State.{TaskState}
use goal_driven_agent_room.Errors.{ok}
use goal_driven_agent_room.Tools.Safety.{Paths}
use goal_driven_agent_room.Routers.{
  review_router, materialize_status, Status, completed, running, failed, awaiting_user,
}
use goal_driven_agent_room.Spec.{label}
use goal_driven_agent_room.Graph.Nodes.{SameControl, IsReviewed}
use goal_driven_agent_room.Graph.Steps.{
  advance-next_of, planner-step, developer-step, reviewer-step, delivery-step,
}
use goal_driven_agent_room.Graph.Workflow.{plain_config, full_graph}
use goal_driven_agent_room.Graph.Runtime.{
  Env, Config, find_node, find_branch, next_of, advance, Superstep,
}

-- A state that has delivered nothing, after r reviews out of a budget of m revisions.
pub record IsOpen (m r : ℕ) (s : TaskState) : Type 0 where
  pub budget : s.max_revisions ≡ some m
  pub rounds : s.revision_round ≡ some r
  pub undelivered : s.delivery ≡ none
  pub unverified : s.verification ≡ none
  pub undecided : s.stuck_decision ≡ none

pub running_or : (s : Status) → (s ≡ running) ⊎ (s ≢ running)
running_or running = inl refl
running_or completed = inr (λ e. cc e)
running_or failed = inr (λ e. cc e)
running_or awaiting_user = inr (λ e. cc e)

-- The latest review approves.
abbrev pub IsApproved : TaskState → Type 0
IsApproved s = (d : ReviewerDecision) × (s.review ≡ some d) × (d.decision ≡ approved)

IsOpen-SameControl : {m r : ℕ} {s t : TaskState} → IsOpen m r s → SameControl s t → IsOpen m r t
IsOpen-SameControl o c = record {
  budget = c.same_budgets.same_max_revisions ∙ o.budget;
  rounds = c.same_revision_round ∙ o.rounds;
  undelivered = c.same_budgets.same_delivery ∙ o.undelivered;
  unverified = c.same_verification ∙ o.unverified;
  undecided = c.same_stuck ∙ o.undecided;
}

IsOpen-IsReviewed :
    {m r : ℕ} {s t : TaskState} {d : ReviewerDecision}
    → IsOpen m r s
    → IsReviewed s d t
    → IsOpen m (suc r) t
IsOpen-IsReviewed {m} {r} {s} {t} {d} o c = record {
  budget = c.same_budgets.same_max_revisions ∙ o.budget;
  rounds = ground (arith, o.rounds, c.counted);
  undelivered = c.same_budgets.same_delivery ∙ o.undelivered;
  unverified = c.same_verification ∙ o.unverified;
  undecided = c.same_stuck ∙ o.undecided;
}

-- Where the router leads after review number r, and what the status is where the run stops.
data Routed (m r : ℕ) (s : TaskState) : Type 0 where
  revise : label (review_router s) ≡ "developer" → r ≤ m → Routed m r s
  deliver : label (review_router s) ≡ "delivery" → IsApproved s → Routed m r s
  stop :
      label (review_router s) ≡ "halt"
      → (materialize_status s false ≡ awaiting_user) ⊎ (materialize_status s false ≡ failed)
      → Routed m r s

route_review :
    (m r : ℕ) (s : TaskState) (d : ReviewerDecision) (v : ReviewVerdict)
    → IsOpen m r s
    → s.review ≡ some d
    → d.decision ≡ v
    → Routed m r s
unfolding review_router materialize_status
route_review m r s d approved o e f = deliver (ground arith) (d, e, f)
route_review m r s d need_user_decision o e f = stop (ground arith) (inl (ground arith))
route_review m r s d revision_required o e f = elim (Bool-cases (ltb m r)) [
  | inl over ↦ stop (ground arith) (inr (ground arith))
  | inr within ↦ revise (ground arith) (ground arith)
]

module _ (paths : Paths) where
  -- Where a run stands after n supersteps.
  pub data FullInv (m n : ℕ) (c : Config paths) : Type 0 where
    planning : c.at ≡ some "planner" → IsOpen m 0 c.state → n ≡ 0 → FullInv m n c
    developing :
        (r : ℕ)
        → c.at ≡ some "developer"
        → IsOpen m r c.state
        → r ≤ m
        → n ≡ 1 + 2 * r
        → FullInv m n c
    reviewing :
        (r : ℕ)
        → c.at ≡ some "reviewer"
        → IsOpen m r c.state
        → r ≤ m
        → n ≡ 2 + 2 * r
        → FullInv m n c
    delivering :
        (r : ℕ)
        → c.at ≡ some "delivery"
        → IsOpen m r c.state
        → IsApproved c.state
        → r ≤ suc m
        → n ≡ 1 + 2 * r
        → FullInv m n c
    halted :
        (r : ℕ)
        → c.at ≡ none
        → IsOpen m r c.state
        → (materialize_status c.state false ≡ awaiting_user)
          ⊎ (materialize_status c.state false ≡ failed)
        → r ≤ suc m
        → n ≡ 1 + 2 * r
        → FullInv m n c
    delivered :
        (r : ℕ) (content : String)
        → c.at ≡ none
        → IsApproved c.state
        → c.state.delivery ≡ some content
        → c.state.revision_round ≡ some r
        → r ≤ suc m
        → n ≡ 2 + 2 * r
        → FullInv m n c

  abbrev pub Any : Env paths → Type 0
  Any env = Unit

  module _ (m n : ℕ) (env : Env paths) (p q : Config paths) where
    from_planner :
        advance paths full_graph env "planner" p ≡ ok q
        → IsOpen m 0 p.state
        → n ≡ 0
        → FullInv m (suc n) q
    unfolding find_node next_of
    from_planner h o e =
        developing 0 (cc (advance-next_of paths full_graph env "planner" p q h))
          (IsOpen-SameControl o
            (planner-step paths full_graph env "planner" p q h plain_config refl))
          (omega arith) (omega arith)

    from_developer :
        (r : ℕ)
        → advance paths full_graph env "developer" p ≡ ok q
        → IsOpen m r p.state
        → r ≤ m
        → n ≡ 1 + 2 * r
        → FullInv m (suc n) q
    unfolding find_node next_of
    from_developer r h o b e =
        reviewing r (cc (advance-next_of paths full_graph env "developer" p q h))
          (IsOpen-SameControl o
            (developer-step paths full_graph env "developer" p q h plain_config refl))
          b (omega arith)

    from_reviewer :
        (r : ℕ)
        → advance paths full_graph env "reviewer" p ≡ ok q
        → IsOpen m r p.state
        → r ≤ m
        → n ≡ 2 + 2 * r
        → FullInv m (suc n) q
    unfolding find_node next_of find_branch
    from_reviewer r h o b e =
        let (d, reviewed) = reviewer-step paths full_graph env "reviewer" p q h plain_config refl in
        let o' = IsOpen-IsReviewed o reviewed in
        let route = advance-next_of paths full_graph env "reviewer" p q h in
        elim (route_review m (suc r) q.state d d.decision o' reviewed.reviewed refl) [
          | revise to within ↦ developing (suc r) (cc (rw to at route)) o' within (omega arith)
          | deliver to yes' ↦
              delivering (suc r) (cc (rw to at route)) o' yes' (omega arith) (omega arith)
          | stop to why ↦ halted (suc r) (cc (rw to at route)) o' why (omega arith) (omega arith)
        ]

    from_delivery :
        (r : ℕ)
        → advance paths full_graph env "delivery" p ≡ ok q
        → IsOpen m r p.state
        → IsApproved p.state
        → r ≤ suc m
        → n ≡ 1 + 2 * r
        → FullInv m (suc n) q
    unfolding find_node next_of
    from_delivery r h o a b e =
        let (content, d) = delivery-step paths full_graph env "delivery" p q h plain_config refl in
        delivered r content (cc (advance-next_of paths full_graph env "delivery" p q h))
          (a.0, d.same_review ∙ a.1, a.2) d.delivered (d.same_revision_round ∙ o.rounds) b
          (omega arith)

  at_node :
      (p q : Config paths) (node : String) (st : Superstep paths Any full_graph p q)
      → p.at ≡ some node
      → advance paths full_graph st.env node p ≡ ok q
  at_node p q node st e =
      let same : st.name ≡ node = cc (st.at_name, e) in
      subst (λ name. advance paths full_graph st.env name p ≡ ok q) same st.advanced

  stopped : {A : Type 0} (p q : Config paths) → Superstep paths Any full_graph p q → p.at ≡ none → A
  stopped p q st e = absurd (cc (st.at_name, e))

  pub FullInv-step :
      (m n : ℕ) (p q : Config paths)
      → Superstep paths Any full_graph p q
      → FullInv m n p
      → FullInv m (suc n) q
  FullInv-step m n p q st (planning at o e) =
      from_planner m n st.env p q (at_node p q "planner" st at) o e
  FullInv-step m n p q st (developing r at o b e) =
      from_developer m n st.env p q r (at_node p q "developer" st at) o b e
  FullInv-step m n p q st (reviewing r at o b e) =
      from_reviewer m n st.env p q r (at_node p q "reviewer" st at) o b e
  FullInv-step m n p q st (delivering r at o a b e) =
      from_delivery m n st.env p q r (at_node p q "delivery" st at) o a b e
  FullInv-step m n p q st (halted r at o why b e) = stopped p q st at
  FullInv-step m n p q st (delivered r content at a d c b e) = stopped p q st at
