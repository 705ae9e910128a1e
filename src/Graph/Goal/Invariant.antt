-- ===== src/Graph/Goal/Invariant.antt =====
-- Where a run of the `goal` preset stands, and its supersteps from there.
use mathlib.Core.Path.{subst}
use goal_driven_agent_room.Base.{
  ℕ, ◌≤◌, ◌<◌, false, String, none, some, List, ◌≡◌, ◌≢◌, ◌⊎◌, inl, inr, refl, arith, ◌∙◌, ap,
  get_default, Bool-cases,
}
use goal_driven_agent_room.Schemas.{Tool}
use goal_driven_agent_room.State.{TaskState, verify_round_of, max_iterations_of}
use goal_driven_agent_room.Errors.{ok}
use goal_driven_agent_room.Tools.Safety.{Paths}
use goal_driven_agent_room.Routers.{materialize_status, running}
use goal_driven_agent_room.Graph.Nodes.{SameBudgets}
use goal_driven_agent_room.Graph.Steps.{advance-next_of, planner-step, reviewer-step, delivery-step}
use goal_driven_agent_room.Graph.Workflow.{plain_config}
use goal_driven_agent_room.Graph.Workflow.Invariant.{IsApproved, Any}
use goal_driven_agent_room.Graph.Goal.{goal_graph}
use goal_driven_agent_room.Graph.Goal.Steps.{react-step, tools-step, supervisor-step, verifier-step}
use goal_driven_agent_room.Graph.Goal.Routes.{
  IsPassed, AfterVerify, achieved, again, judged, helped, exhausted, continued, replanned, parked,
  revised, accepted, refused, route_none, route_verified, route_decision, route_reviewed,
}
use goal_driven_agent_room.Graph.Runtime.{
  Env, Config, find_node, find_branch, next_of, advance, Superstep,
}

-- A state that has delivered nothing, with its ceiling on iterations.
pub record IsUndelivered (m : ℕ) (s : TaskState) : Type 0 where
  pub limit : s.max_iterations ≡ some m
  pub undelivered : s.delivery ≡ none

-- The oracle has passed, or there is none and the latest review approves.
abbrev pub IsEarned : TaskState → Type 0
IsEarned s = IsPassed s ⊎ ((s.verification ≡ none) × IsApproved s)

keeps : {m : ℕ} {s t : TaskState} → IsUndelivered m s → SameBudgets s t → IsUndelivered m t
keeps o b = record {
  limit = b.same_max_iterations ∙ o.limit;
  undelivered = b.same_delivery ∙ o.undelivered;
}

same_rounds :
    {m : ℕ} (s t : TaskState)
    → verify_round_of s < m
    → t.verify_round ≡ s.verify_round
    → verify_round_of t < m
same_rounds s t h e = omega (arith, h, ap (λ o. get_default o 0) e)

below_limit :
    {m : ℕ} (s : TaskState)
    → IsUndelivered m s
    → verify_round_of s < max_iterations_of s
    → verify_round_of s < m
below_limit s o h = omega (arith, h, ap (λ l. get_default l 10) o.limit)

module _ (paths : Paths) (tools : List Tool) where
  -- Where a run stands.
  pub data GoalInv (m : ℕ) (c : Config paths) : Type 0 where
    planning :
        c.at ≡ some "planner" → IsUndelivered m c.state → verify_round_of c.state < m → GoalInv m c
    developing :
        c.at ≡ some "developer"
        → IsUndelivered m c.state
        → verify_round_of c.state < m
        → GoalInv m c
    calling :
        c.at ≡ some "developer_tools"
        → IsUndelivered m c.state
        → verify_round_of c.state < m
        → GoalInv m c
    verifying :
        c.at ≡ some "verify" → IsUndelivered m c.state → verify_round_of c.state < m → GoalInv m c
    deciding :
        c.at ≡ some "supervisor"
        → IsUndelivered m c.state
        → verify_round_of c.state < m
        → GoalInv m c
    reviewing :
        c.at ≡ some "reviewer"
        → IsUndelivered m c.state
        → verify_round_of c.state < m
        → c.state.verification ≡ none
        → GoalInv m c
    delivering :
        c.at ≡ some "delivery"
        → IsUndelivered m c.state
        → verify_round_of c.state ≤ m
        → IsEarned c.state
        → GoalInv m c
    halted :
        c.at ≡ none
        → IsUndelivered m c.state
        → verify_round_of c.state ≤ m
        → materialize_status c.state false ≢ running
        → GoalInv m c
    delivered :
        (content : String)
        → c.at ≡ none
        → c.state.delivery ≡ some content
        → verify_round_of c.state ≤ m
        → IsEarned c.state
        → GoalInv m c

  module _ (m : ℕ) (env : Env paths) (p q : Config paths) where
    from_planner :
        advance paths (goal_graph tools) env "planner" p ≡ ok q
        → IsUndelivered m p.state
        → verify_round_of p.state < m
        → GoalInv m q
    unfolding find_node next_of
    from_planner h o b =
        let same = planner-step paths (goal_graph tools) env "planner" p q h plain_config refl in
        developing (cc (advance-next_of paths (goal_graph tools) env "planner" p q h))
          (keeps o same.same_budgets) (same_rounds p.state q.state b same.same_verify_round)

    from_developer :
        advance paths (goal_graph tools) env "developer" p ≡ ok q
        → IsUndelivered m p.state
        → verify_round_of p.state < m
        → GoalInv m q
    unfolding find_node next_of
    from_developer h o b =
        let same =
          react-step paths (goal_graph tools) env "developer" p q h plain_config tools 8 refl in
        let route = advance-next_of paths (goal_graph tools) env "developer" p q h in
        let o' = keeps o same.same_budgets in
        let b' = same_rounds p.state q.state b same.same_verify_round in
        elim (Bool-cases (env.wants_tools q.state.dev_messages)) [
          | inl wants ↦ calling (cc (rw wants at route)) o' b'
          | inr ends ↦ verifying (cc (rw ends at route)) o' b'
        ]

    from_tools :
        advance paths (goal_graph tools) env "developer_tools" p ≡ ok q
        → IsUndelivered m p.state
        → verify_round_of p.state < m
        → GoalInv m q
    unfolding find_node next_of
    from_tools h o b =
        let same =
          tools-step paths (goal_graph tools) env "developer_tools" p q h tools false refl in
        developing (cc (advance-next_of paths (goal_graph tools) env "developer_tools" p q h))
          (keeps o same.same_budgets) (same_rounds p.state q.state b same.same_verify_round)

    after_verify :
        AfterVerify q.state
        → IsUndelivered m q.state
        → verify_round_of q.state ≤ m
        → (q.state.verification ≡ none → verify_round_of q.state < m)
        → next_of paths env (goal_graph tools).wires "verify" q.state ≡ ok q.at
        → GoalInv m q
    unfolding next_of find_branch
    after_verify (achieved to passed) o b f route =
        delivering (cc (rw to at route)) o b (inl passed)
    after_verify (again to below) o b f route =
        developing (cc (rw to at route)) o (below_limit q.state o below)
    after_verify (judged to cleared) o b f route =
        reviewing (cc (rw to at route)) o (f cleared) cleared
    after_verify (helped to below) o b f route =
        deciding (cc (rw to at route)) o (below_limit q.state o below)
    after_verify (exhausted to why) o b f route = halted (cc (rw to at route)) o b why

    from_verify :
        advance paths (goal_graph tools) env "verify" p ≡ ok q
        → IsUndelivered m p.state
        → verify_round_of p.state < m
        → GoalInv m q
    unfolding find_node
    from_verify h o b =
        let route = advance-next_of paths (goal_graph tools) env "verify" p q h in
        elim (verifier-step paths (goal_graph tools) env "verify" p q h refl) [
          | inl (missing, cleared) ↦
              let b' = same_rounds p.state q.state b cleared.same_verify_round in
              after_verify (route_none q.state cleared.cleared) (keeps o cleared.same_budgets)
                (omega (arith, b')) (λ e. b') route
          | inr (given, (v, ran)) ↦
              let o' = keeps o ran.same_budgets in
              after_verify (route_verified q.state v o'.undelivered ran.verified) o'
                (omega (arith, b, ap (λ n. get_default n 0) ran.counted))
                (λ e. absurd (cc (e, ran.verified))) route
        ]

    from_supervisor :
        advance paths (goal_graph tools) env "supervisor" p ≡ ok q
        → IsUndelivered m p.state
        → verify_round_of p.state < m
        → GoalInv m q
    unfolding find_node next_of find_branch
    from_supervisor h o b =
        let route = advance-next_of paths (goal_graph tools) env "supervisor" p q h in
        let (d, decided) =
          supervisor-step paths (goal_graph tools) env "supervisor" p q h plain_config refl in
        let o' = keeps o decided.same_budgets in
        let b' = same_rounds p.state q.state b decided.same_verify_round in
        elim (route_decision q.state d d.action o'.undelivered decided.decided refl decided.asked) [
          | continued to ↦ developing (cc (rw to at route)) o' b'
          | replanned to ↦ planning (cc (rw to at route)) o' b'
          | parked to why ↦ halted (cc (rw to at route)) o' (omega (arith, b')) why
        ]

    from_reviewer :
        advance paths (goal_graph tools) env "reviewer" p ≡ ok q
        → IsUndelivered m p.state
        → verify_round_of p.state < m
        → p.state.verification ≡ none
        → GoalInv m q
    unfolding find_node next_of find_branch
    from_reviewer h o b none_set =
        let route = advance-next_of paths (goal_graph tools) env "reviewer" p q h in
        let (d, reviewed) =
          reviewer-step paths (goal_graph tools) env "reviewer" p q h plain_config refl in
        let o' = keeps o reviewed.same_budgets in
        let b' = same_rounds p.state q.state b reviewed.same_verify_round in
        elim (route_reviewed q.state d d.decision o'.undelivered reviewed.reviewed refl) [
          | revised to ↦ developing (cc (rw to at route)) o' b'
          | accepted to approves ↦
              delivering (cc (rw to at route)) o' (omega (arith, b'))
                (inr (reviewed.same_verification ∙ none_set, approves))
          | refused to why ↦ halted (cc (rw to at route)) o' (omega (arith, b')) why
        ]

    from_delivery :
        advance paths (goal_graph tools) env "delivery" p ≡ ok q
        → verify_round_of p.state ≤ m
        → IsEarned p.state
        → GoalInv m q
    unfolding find_node next_of
    from_delivery h b earned =
        let (content, d) =
          delivery-step paths (goal_graph tools) env "delivery" p q h plain_config refl in
        delivered content (cc (advance-next_of paths (goal_graph tools) env "delivery" p q h))
          d.delivered (omega (arith, b, ap (λ n. get_default n 0) d.same_verify_round))
          (elim earned [
            | inl passed ↦ inl (passed.0, d.same_verification ∙ passed.1, passed.2)
            | inr (unset, approves) ↦
                inr (
                  d.same_verification ∙ unset,
                  (approves.0, d.same_review ∙ approves.1, approves.2),
                )
          ])

  pub at_goal_node :
      (p q : Config paths) (node : String) (st : Superstep paths (Any paths) (goal_graph tools) p q)
      → p.at ≡ some node
      → advance paths (goal_graph tools) st.env node p ≡ ok q
  at_goal_node p q node st e =
      let same : st.name ≡ node = cc (st.at_name, e) in
      subst (λ name. advance paths (goal_graph tools) st.env name p ≡ ok q) same st.advanced

  pub GoalInv-step :
      (m : ℕ) (p q : Config paths)
      → Superstep paths (Any paths) (goal_graph tools) p q
      → GoalInv m p
      → GoalInv m q
  GoalInv-step m p q st (planning at o b) = from_planner m st.env p q (at_goal_node p q _ st at) o b
  GoalInv-step m p q st (developing at o b) =
      from_developer m st.env p q (at_goal_node p q _ st at) o b
  GoalInv-step m p q st (calling at o b) = from_tools m st.env p q (at_goal_node p q _ st at) o b
  GoalInv-step m p q st (verifying at o b) = from_verify m st.env p q (at_goal_node p q _ st at) o b
  GoalInv-step m p q st (deciding at o b) =
      from_supervisor m st.env p q (at_goal_node p q _ st at) o b
  GoalInv-step m p q st (reviewing at o b e) =
      from_reviewer m st.env p q (at_goal_node p q _ st at) o b e
  GoalInv-step m p q st (delivering at o b e) =
      from_delivery m st.env p q (at_goal_node p q _ st at) b e
  GoalInv-step m p q st (halted at o b w) = absurd (cc (st.at_name, at))
  GoalInv-step m p q st (delivered content at d b e) = absurd (cc (st.at_name, at))
