-- ===== src/Graph/Control.antt =====
-- What a node that raises nothing changes of the fields that the routers read, and the inversion of a
-- superstep.
use mathlib.Core.Path.{subst}
use goal_driven_agent_room.Base.{String, Option, none, [], ◌∷◌, ◌≡◌, ap, sym, ◌∙◌}
use goal_driven_agent_room.Schemas.{
  ReviewerDecision, StuckDecision, planner, developer, delivery, output,
}
use goal_driven_agent_room.State.{TaskState, Write, Update, merge, revision_round_of}
use goal_driven_agent_room.Errors.{Result, ok, >>=-ok}
use goal_driven_agent_room.Texts.{TextLibrary, extract_text}
use goal_driven_agent_room.Guardrail.{GuardrailMode, Search, check}
use goal_driven_agent_room.Tools.Safety.{Paths}
use goal_driven_agent_room.Roles.Transport.{Transport, NodeConfig}
use goal_driven_agent_room.Roles.Planner.{planner_node, planner_update}
use goal_driven_agent_room.Roles.Developer.{developer_node, code_writes, developer_completed}
use goal_driven_agent_room.Roles.Reviewer.{reviewer_node, reviewer_update}
use goal_driven_agent_room.Roles.Supervisor.{supervisor_node, supervisor_update}
use goal_driven_agent_room.Roles.Delivery.{delivery_node, delivery_update}
use goal_driven_agent_room.Roles.Verifier.{Workspace}
use goal_driven_agent_room.Graph.{NodeImpl, StateGraph}
use goal_driven_agent_room.Graph.Nodes.{
  SameControl, IsReviewed, IsDelivered, IsDecided, planner_update-control, developer_update-control,
  reviewer_update-IsReviewed, delivery_update-IsDelivered, supervisor_update-IsDecided,
}
use goal_driven_agent_room.Graph.Runtime.{Env, Config, run_node, find_node, next_of, advance}

module _ (lib : TextLibrary TaskState) (tx : Transport) (c : NodeConfig) (s : TaskState)
    (u : Update) where
  pub planner_node-control : planner_node lib tx c s ≡ ok u → SameControl s (merge s u)
  unfolding planner_node
  planner_node-control h =
      let (response, answered, e) = >>=-ok (tx.invoke planner _ none c.model) _ h in
      let plan = extract_text response.content in
      let written : planner_update s plan ≡ u = cc e in
      subst (λ v. SameControl s (merge s v)) written (planner_update-control s plan)

  pub developer_node-control : developer_node lib tx c s ≡ ok u → SameControl s (merge s u)
  unfolding developer_node
  developer_node-control h =
      let (response, answered, e) = >>=-ok (tx.invoke developer _ none c.model) _ h in
      let round_no = revision_round_of s in
      let code = extract_text response.content in
      let written : Write.events (developer_completed round_no ∷ []) ∷ code_writes code round_no
          ≡ u =
        cc e in
      subst (λ v. SameControl s (merge s v)) written (developer_update-control s code round_no)

  pub reviewer_node-IsReviewed :
      reviewer_node lib tx c s ≡ ok u → (d : ReviewerDecision) × IsReviewed s d (merge s u)
  unfolding reviewer_node
  reviewer_node-IsReviewed h =
      let (d, answered, e) = >>=-ok (tx.review _ c.model) _ h in
      let written : reviewer_update s d ≡ u = cc e in
      (d, subst (λ v. IsReviewed s d (merge s v)) written (reviewer_update-IsReviewed s d))

  pub delivery_node-IsDelivered :
      (search : Search) (mode : GuardrailMode)
      → delivery_node lib tx c search mode s ≡ ok u
      → (content : String) × IsDelivered s content (merge s u)
  unfolding delivery_node
  delivery_node-IsDelivered search mode h =
      let (response, answered, later) = >>=-ok (tx.invoke delivery _ none c.model) _ h in
      let content = extract_text response.content in
      let (finding, passed, e) = >>=-ok (check search mode content output) _ later in
      let written : delivery_update content finding ≡ u = cc e in
      (
        content,
        subst (λ v. IsDelivered s content (merge s v)) written
            (delivery_update-IsDelivered s content finding),
      )

  pub supervisor_node-IsDecided :
      supervisor_node tx c s ≡ ok u → (d : StuckDecision) × IsDecided s d (merge s u)
  unfolding supervisor_node
  supervisor_node-IsDecided h =
      let (d, answered, e) = >>=-ok (tx.unstick _ c.model) _ h in
      let written : supervisor_update s d ≡ u = cc e in
      (d, subst (λ v. IsDecided s d (merge s v)) written (supervisor_update-IsDecided s d))

module _ (paths : Paths) (g : StateGraph) (env : Env paths) (name : String)
    (p q : Config paths) where
  -- The parts of a superstep: its node, its update, and the wire that it follows.
  pub record Advanced : Type 0 where
    pub impl : NodeImpl
    pub update : Update
    pub files : Workspace paths.FilePath
    pub found : find_node g.nodes name ≡ ok impl
    pub ran : run_node paths env impl p.state p.files ≡ ok (update, files)
    pub routed : next_of paths env g.wires name (merge p.state update) ≡ ok q.at
    pub merged : q.state ≡ merge p.state update

  advanced_by :
      (impl : NodeImpl) (u : Update) (files : Workspace paths.FilePath) (next : Option String)
      → find_node g.nodes name ≡ ok impl
      → run_node paths env impl p.state p.files ≡ ok (u, files)
      → next_of paths env g.wires name (merge p.state u) ≡ ok next
      → ◌≡◌ {A = Result (Config paths)}
          (ok (record { at = next; state = merge p.state u; files = files }))
          (ok q)
      → Advanced
  advanced_by impl u files next found ran routed e =
      let arrived : ◌≡◌ {A = Config paths}
          (record { at = next; state = merge p.state u; files = files }) q =
        cc e in
      record {
        impl = impl;
        update = u;
        files = files;
        found = found;
        ran = ran;
        routed = routed ∙ ap (λ (c : Config paths). ok c.at) arrived;
        merged = sym (ap (λ (c : Config paths). c.state) arrived);
      }

  pub advance-Advanced : advance paths g env name p ≡ ok q → Advanced
  unfolding advance
  advance-Advanced h =
      let (impl, found, h₁) = >>=-ok (find_node g.nodes name) _ h in
      let (ran, ran_ok, h₂) = >>=-ok (run_node paths env impl p.state p.files) _ h₁ in
      let (next, routed, e) = >>=-ok (next_of paths env g.wires name (merge p.state ran.0)) _ h₂ in
      advanced_by impl ran.0 ran.1 next found ran_ok routed e
