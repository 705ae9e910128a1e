-- ===== src/Graph/Goal/Rounds.antt =====
-- How often the oracle runs in a run of the `goal` preset.
use goal_driven_agent_room.Base.{
  ℕ, ◌+◌, Bool, false, ◌&&◌, String, Option, none, some, List, ◌≡◌, inl, inr, refl, sym, ap, str_eq,
  truthy, get_default, if◌then◌else◌, arith,
}
use goal_driven_agent_room.Schemas.{Tool}
use goal_driven_agent_room.State.{verify_round_of}
use goal_driven_agent_room.Tools.Safety.{Paths}
use goal_driven_agent_room.Graph.{StateGraph}
use goal_driven_agent_room.Graph.Steps.{planner-step, reviewer-step, delivery-step}
use goal_driven_agent_room.Graph.Workflow.{plain_config}
use goal_driven_agent_room.Graph.Workflow.Invariant.{Any}
use goal_driven_agent_room.Graph.Goal.{goal_graph}
use goal_driven_agent_room.Graph.Goal.Steps.{react-step, tools-step, supervisor-step, verifier-step}
use goal_driven_agent_room.Graph.Goal.Invariant.{
  GoalInv, planning, developing, calling, verifying, deciding, reviewing, delivering, halted,
  delivered, at_goal_node, GoalInv-step,
}
use goal_driven_agent_room.Graph.Runtime.{
  Env, Config, Runtime, Run, here, next, find_node, Superstep,
}

-- Whether a node is the verifier of the preset.
abbrev is_verify : Option String → Bool
is_verify none = false
is_verify (some name) = str_eq name "verify"

module _ (paths : Paths) where
  -- A superstep from here runs the oracle: it is the verifier's, and the task has a command.
  abbrev pub oracle_runs : Config paths → ℕ
  oracle_runs c = if is_verify c.at && truthy c.state.verify_command then 1 else 0

  -- The supersteps of a run that run the oracle.
  unfoldable pub verifications :
      {Lawful : Env paths → Type 0} {g : StateGraph} {rt : Runtime paths Lawful g}
      {p : Config paths} {n : ℕ} {c : Config paths}
      → Run paths rt p n c
      → ℕ
  verifications here = 0
  verifications (next {n} {q} {r} run step) = verifications run + oracle_runs q

module _ (paths : Paths) (tools : List Tool) where
  counts_none :
      (p q : Config paths) (node : String)
      → p.at ≡ some node
      → str_eq node "verify" ≡ false
      → q.state.verify_round ≡ p.state.verify_round
      → verify_round_of q.state ≡ verify_round_of p.state + oracle_runs paths p
  counts_none p q node at other same =
      let quiet : oracle_runs paths p ≡ 0 = rw (at, other) in
      omega (arith, quiet, ap (λ n. get_default n 0) same)

  -- The verifier counts its run, and no other node counts one.
  counts_oracle :
      (m : ℕ) (p q : Config paths)
      → Superstep paths (Any paths) (goal_graph tools) p q
      → GoalInv paths tools m p
      → verify_round_of q.state ≡ verify_round_of p.state + oracle_runs paths p
  unfolding find_node
  counts_oracle m p q st (planning at o b) =
      let h = at_goal_node paths tools p q "planner" st at in
      let same = planner-step paths (goal_graph tools) st.env "planner" p q h plain_config refl in
      counts_none p q "planner" at refl same.same_verify_round
  counts_oracle m p q st (developing at o b) =
      let h = at_goal_node paths tools p q "developer" st at in
      let same =
        react-step paths (goal_graph tools) st.env "developer" p q h plain_config tools 8 refl in
      counts_none p q "developer" at refl same.same_verify_round
  counts_oracle m p q st (calling at o b) =
      let h = at_goal_node paths tools p q "developer_tools" st at in
      let same =
        tools-step paths (goal_graph tools) st.env "developer_tools" p q h tools false refl in
      counts_none p q "developer_tools" at refl same.same_verify_round
  counts_oracle m p q st (verifying at o b) =
      let h = at_goal_node paths tools p q "verify" st at in
      elim (verifier-step paths (goal_graph tools) st.env "verify" p q h refl) [
        | inl (missing, cleared) ↦
            let quiet : oracle_runs paths p ≡ 0 = rw (at, missing) in
            omega (arith, quiet, ap (λ n. get_default n 0) cleared.same_verify_round)
        | inr (given, (v, ran)) ↦
            let counted : oracle_runs paths p ≡ 1 = rw (at, given) in
            omega (arith, counted, ap (λ n. get_default n 0) ran.counted)
      ]
  counts_oracle m p q st (deciding at o b) =
      let h = at_goal_node paths tools p q "supervisor" st at in
      let (d, same) =
        supervisor-step paths (goal_graph tools) st.env "supervisor" p q h plain_config refl in
      counts_none p q "supervisor" at refl same.same_verify_round
  counts_oracle m p q st (reviewing at o b e) =
      let h = at_goal_node paths tools p q "reviewer" st at in
      let (d, same) =
        reviewer-step paths (goal_graph tools) st.env "reviewer" p q h plain_config refl in
      counts_none p q "reviewer" at refl same.same_verify_round
  counts_oracle m p q st (delivering at o b e) =
      let h = at_goal_node paths tools p q "delivery" st at in
      let (content, same) =
        delivery-step paths (goal_graph tools) st.env "delivery" p q h plain_config refl in
      counts_none p q "delivery" at refl same.same_verify_round
  counts_oracle m p q st (halted at o b w) = absurd (cc (st.at_name, at))
  counts_oracle m p q st (delivered content at d b e) = absurd (cc (st.at_name, at))

  -- The round counter of the state counts the runs of the oracle.
  pub verifications-verify_round :
      (rt : Runtime paths (Any paths) (goal_graph tools)) (m : ℕ) {p : Config paths} {n : ℕ}
      {c : Config paths} (run : Run paths rt p n c)
      → verify_round_of p.state ≡ 0
      → GoalInv paths tools m p
      → (verifications paths run ≡ verify_round_of c.state) × GoalInv paths tools m c
  unfolding verifications
  verifications-verify_round rt m here none_yet inv = (sym none_yet, inv)
  verifications-verify_round rt m (next {n} {q} {r} run step) none_yet inv =
      let (counted, before) = verifications-verify_round rt m run none_yet inv in
      let st = rt.superstep q r step in
      (
        omega (arith, counted, counts_oracle m q r st before),
        GoalInv-step paths tools m q r st before,
      )
