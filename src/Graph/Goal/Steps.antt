-- ===== src/Graph/Goal/Steps.antt =====
-- Supersteps at the nodes that the `goal` preset adds.
use mathlib.Core.Path.{subst}
use goal_driven_agent_room.Base.{
  ℕ, String, none, List, [], ◌∷◌, ◌≡◌, ◌⊎◌, inl, inr, refl, sym, Bool, true, false, if◌then◌else◌,
  truthy,
}
use goal_driven_agent_room.Schemas.{
  StuckDecision, VerificationResult, Tool, developer, Message, Reply, Event,
}
use goal_driven_agent_room.State.{TaskState, Write, Update, merge, revision_round_of}
use goal_driven_agent_room.Errors.{Result, ok, >>=-ok}
use goal_driven_agent_room.Texts.{TextLibrary}
use goal_driven_agent_room.Tools.Safety.{Paths, Shell}
use goal_driven_agent_room.Tools.Files.{Bytes, Trees}
use goal_driven_agent_room.Roles.Transport.{Transport, NodeConfig}
use goal_driven_agent_room.Roles.DeveloperReact.{
  ReactBindings, scan_tool_messages, new_tool_messages, developer_react_node, react_update,
}
use goal_driven_agent_room.Roles.Verifier.{
  Workspace, Outcome, verifier_node, verifier_update, reseed_verify_files,
}
use goal_driven_agent_room.Graph.{
  react_impl, supervisor_impl, verifier_impl, tools_impl, StateGraph,
}
use goal_driven_agent_room.Graph.Nodes.{
  SameControl, SameBudgets, IsDecided, IsVerified, react_update-control, tools-control,
  verifier_update-IsVerified,
}
use goal_driven_agent_room.Graph.Control.{supervisor_node-IsDecided}
use goal_driven_agent_room.Graph.Steps.{advance-run, with_files-ok}
use goal_driven_agent_room.Graph.Runtime.{Env, Config, run_node, find_node, advance}

react-written :
    (s : TaskState) (convo : List Message) (response : Reply) (events : List Event) (u : Update)
    → ◌≡◌ {A = Result Update} (ok (react_update s convo response events)) (ok u)
    → SameControl s (merge s u)
react-written s convo response events u e =
    let written : react_update s convo response events ≡ u = cc e in
    subst (λ v. SameControl s (merge s v)) written (react_update-control s convo response events)

developer_react_node-control :
    (lib : TextLibrary TaskState) (tx : Transport) (c : NodeConfig) (bindings : ReactBindings)
    (tools : List Tool) (rounds : ℕ) (s : TaskState) (u : Update)
    → developer_react_node lib tx c bindings tools rounds s ≡ ok u
    → SameControl s (merge s u)
unfolding developer_react_node
developer_react_node-control lib tx c bindings tools rounds s u h =
    let (events, scanned, h₁) =
      >>=-ok
        (scan_tool_messages bindings.search bindings.mode (revision_round_of s)
          (new_tool_messages s.dev_messages))
        _ h in
    let (llm_input, compressed, h₂) = >>=-ok (bindings.compress _) _ h₁ in
    let (response, answered, e) = >>=-ok (tx.invoke developer llm_input _ c.model) _ h₂ in
    react-written s _ response events u e

-- Without a command the verifier clears the verification, and changes nothing else.
pub record IsUnverified (s t : TaskState) : Type 0 where
  pub same_budgets : SameBudgets s t
  pub cleared : t.verification ≡ none
  pub same_verify_round : t.verify_round ≡ s.verify_round

cleared-IsUnverified : (s : TaskState) → IsUnverified s (merge s (Write.verification none ∷ []))
unfolding merge
cleared-IsUnverified s = record {
  same_budgets = record {
    same_delivery = refl;
    same_max_revisions = refl;
    same_max_iterations = refl;
  };
  cleared = refl;
  same_verify_round = refl;
}

-- The two branches of the node.
given_or_missing :
    {F : Type 0} (b : Bool) (r : Result (Update × F)) (files left : F) (u : Update)
    → (if b then r else ok (Write.verification none ∷ [], files)) ≡ ok (u, left)
    → ((b ≡ true) × (r ≡ ok (u, left))) ⊎ ((b ≡ false) × ((Write.verification none ∷ []) ≡ u))
given_or_missing true r files left u h = inl (refl, h)
given_or_missing false r files left u h = inr (refl, cc h)

verifier_update-written :
    {F : Type 0} (s : TaskState) (v : VerificationResult) (files left : F) (u : Update)
    → ◌≡◌ {A = Result (Update × F)} (ok (verifier_update s v, files)) (ok (u, left))
    → IsVerified s v (merge s u)
verifier_update-written s v files left u e =
    let written : verifier_update s v ≡ u = cc e in
    subst (λ w. IsVerified s v (merge s w)) written (verifier_update-IsVerified s v)

verifier_node-writes :
    (paths : Paths) (trees : Trees paths) (encode : String → Bytes) (strip : String → String)
    (shell : Shell) (root : paths.FilePath)
    (process : List String → Workspace paths.FilePath → Outcome × Workspace paths.FilePath)
    (allowlist : List String) (s : TaskState) (files left : Workspace paths.FilePath) (u : Update)
    → verifier_node paths trees encode strip shell root process allowlist s files ≡ ok (u, left)
    → ((truthy s.verify_command ≡ false) × IsUnverified s (merge s u))
      ⊎ ((truthy s.verify_command ≡ true) × ((v : VerificationResult) × IsVerified s v (merge s u)))
unfolding verifier_node
verifier_node-writes paths trees encode strip shell root process allowlist s files left u h =
    elim (given_or_missing (truthy s.verify_command) _ files left u h) [
      | inl (given, ran) ↦
          let (seeded, written, e) =
            >>=-ok (reseed_verify_files paths trees encode root s.verify_files files) _ ran in
          inr (given, (_, verifier_update-written s _ _ left u e))
      | inr (missing, cleared) ↦
          inl (missing, subst (λ w. IsUnverified s (merge s w)) cleared (cleared-IsUnverified s))
    ]

module _ (paths : Paths) (g : StateGraph) (env : Env paths) (name : String) (p q : Config paths)
    (h : advance paths g env name p ≡ ok q) where
  pub react-step :
      (c : NodeConfig) (tools : List Tool) (rounds : ℕ)
      → find_node g.nodes name ≡ ok (react_impl c tools rounds)
      → SameControl p.state q.state
  unfolding run_node
  react-step c tools rounds found =
      let (u, left, ran, merged) =
        advance-run paths g env name p q h (react_impl c tools rounds) found in
      subst (SameControl p.state) (sym merged) (
        developer_react_node-control env.lib env.tx c env.bindings tools rounds p.state u
          (with_files-ok paths _ left _ u ran))

  pub tools-step :
      (tools : List Tool) (wrapped : Bool)
      → find_node g.nodes name ≡ ok (tools_impl tools wrapped)
      → SameControl p.state q.state
  unfolding run_node
  tools-step tools wrapped found =
      let (u, left, ran, merged) =
        advance-run paths g env name p q h (tools_impl tools wrapped) found in
      let (answer, done, e) =
        >>=-ok (env.run_tools tools wrapped p.state.dev_messages p.files) _ ran in
      let written : (Write.dev_messages answer.0 ∷ []) ≡ u = cc e in
      subst (SameControl p.state) (sym merged) (
        subst (λ v. SameControl p.state (merge p.state v)) written (tools-control p.state answer.0))

  pub supervisor-step :
      (c : NodeConfig)
      → find_node g.nodes name ≡ ok (supervisor_impl c)
      → (d : StuckDecision) × IsDecided p.state d q.state
  unfolding run_node
  supervisor-step c found =
      let (u, left, ran, merged) = advance-run paths g env name p q h (supervisor_impl c) found in
      let (d, decided) =
        supervisor_node-IsDecided env.lib env.tx c p.state u (with_files-ok paths _ left _ u ran) in
      (d, subst (IsDecided p.state d) (sym merged) decided)

  pub verifier-step :
      find_node g.nodes name ≡ ok verifier_impl
      → ((truthy p.state.verify_command ≡ false) × IsUnverified p.state q.state)
        ⊎ ((truthy p.state.verify_command ≡ true)
            × ((v : VerificationResult) × IsVerified p.state v q.state))
  unfolding run_node
  verifier-step found =
      let (u, left, ran, merged) = advance-run paths g env name p q h verifier_impl found in
      subst
        (λ t.
          ((truthy p.state.verify_command ≡ false) × IsUnverified p.state t)
          ⊎ ((truthy p.state.verify_command ≡ true)
              × ((v : VerificationResult) × IsVerified p.state v t)))
        (sym merged)
        (verifier_node-writes paths env.trees env.encode env.lib.strip env.shell env.root
          env.process env.allowlist p.state p.files left u ran)
