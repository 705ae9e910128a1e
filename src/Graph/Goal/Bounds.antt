-- ===== src/Graph/Goal/Bounds.antt =====
-- What holds throughout a run of the `goal` preset.
use goal_driven_agent_room.Base.{
  ℕ, ◌≤◌, ◌<◌, true, false, none, some, List, ◌≡◌, ◌≢◌, ◌⊎◌, inl, inr, refl, arith, truthy, ap,
}
use goal_driven_agent_room.Schemas.{TaskRequest, Tool}
use goal_driven_agent_room.State.{TaskState, verify_round_of}
use goal_driven_agent_room.Tools.Safety.{Paths}
use goal_driven_agent_room.Routers.{materialize_status, running}
use goal_driven_agent_room.Service.{initial_state}
use goal_driven_agent_room.Roles.Verifier.{Workspace}
use goal_driven_agent_room.Graph.Workflow.Invariant.{Any, running_or}
use goal_driven_agent_room.Graph.Workflow.Bounds.{empty_delivery}
use goal_driven_agent_room.Graph.Goal.{goal_graph}
use goal_driven_agent_room.Graph.Runtime.{Config, Runtime, Run, Run-induction}
use goal_driven_agent_room.Graph.Goal.Rounds.{verifications, verifications-verify_round}
use goal_driven_agent_room.Graph.Goal.Invariant.{
  IsUndelivered, GoalInv-step, IsEarned, GoalInv, planning, developing, calling, verifying,
  deciding, reviewing, delivering, halted, delivered,
}

module _ (paths : Paths) (tools : List Tool) where
  rounds_within : {m : ℕ} (c : Config paths) → GoalInv paths tools m c → verify_round_of c.state ≤ m
  rounds_within c (planning at o b) = omega (arith, b)
  rounds_within c (developing at o b) = omega (arith, b)
  rounds_within c (calling at o b) = omega (arith, b)
  rounds_within c (verifying at o b) = omega (arith, b)
  rounds_within c (deciding at o b) = omega (arith, b)
  rounds_within c (reviewing at o b e) = omega (arith, b)
  rounds_within c (delivering at o b e) = b
  rounds_within c (halted at o b w) = b
  rounds_within c (delivered content at d b e) = b

  empty_handed :
      {m : ℕ} {A : Type 0} (s : TaskState) → IsUndelivered m s → truthy s.delivery ≡ true → A
  empty_handed s o h = absurd (cc (ap truthy o.undelivered, h))

  IsEarned-of :
      {m : ℕ} (c : Config paths)
      → GoalInv paths tools m c
      → truthy c.state.delivery ≡ true
      → IsEarned c.state
  IsEarned-of c (planning at o b) h = empty_handed c.state o h
  IsEarned-of c (developing at o b) h = empty_handed c.state o h
  IsEarned-of c (calling at o b) h = empty_handed c.state o h
  IsEarned-of c (verifying at o b) h = empty_handed c.state o h
  IsEarned-of c (deciding at o b) h = empty_handed c.state o h
  IsEarned-of c (reviewing at o b e) h = empty_handed c.state o h
  IsEarned-of c (delivering at o b e) h = e
  IsEarned-of c (halted at o b w) h = empty_handed c.state o h
  IsEarned-of c (delivered content at d b e) h = e

  goal_ended :
      {m : ℕ} (c : Config paths)
      → GoalInv paths tools m c
      → c.at ≡ none
      → (materialize_status c.state false ≢ running) ⊎ (c.state.delivery ≡ some "")
  goal_ended c (planning at o b) h = absurd (cc (at, h))
  goal_ended c (developing at o b) h = absurd (cc (at, h))
  goal_ended c (calling at o b) h = absurd (cc (at, h))
  goal_ended c (verifying at o b) h = absurd (cc (at, h))
  goal_ended c (deciding at o b) h = absurd (cc (at, h))
  goal_ended c (reviewing at o b e) h = absurd (cc (at, h))
  goal_ended c (delivering at o b e) h = absurd (cc (at, h))
  goal_ended c (halted at o b w) h = inl w
  goal_ended c (delivered content at d b e) h =
      elim (running_or (materialize_status c.state false)) [
        | inl still ↦ inr (empty_delivery paths c.state content d still)
        | inr stopped ↦ inl stopped
      ]

  -- Where the service starts a run.
  abbrev pub goal_start : TaskRequest → Workspace paths.FilePath → Config paths
  goal_start req files = record {
    at = some (goal_graph tools).entry;
    state = initial_state req;
    files = files;
  }

  module _ (rt : Runtime paths (Any paths) (goal_graph tools)) (req : TaskRequest)
      (files : Workspace paths.FilePath) (n : ℕ) (c : Config paths)
      (run : Run paths rt (goal_start req files) n c) (bounded : 0 < req.max_iterations) where
    run-GoalInv : GoalInv paths tools req.max_iterations c
    unfolding initial_state
    run-GoalInv =
        Run-induction paths rt (λ k d. GoalInv paths tools req.max_iterations d)
          (λ k p q st inv. GoalInv-step paths tools req.max_iterations p q st inv)
          (planning refl (record { limit = refl; undelivered = refl }) bounded) run

    -- In a run of the built `goal` graph, for a request that allows an iteration, the supersteps of
    -- the verifier on a task with a command are as many as the state's verify_round, and at most
    -- max_iterations, whatever the models and the tools do.
    pub goal_run_bounded :
        (verifications paths run ≡ verify_round_of c.state)
        × (verifications paths run ≤ req.max_iterations)
    unfolding initial_state
    goal_run_bounded =
        let (counted, inv) =
          verifications-verify_round paths tools rt req.max_iterations run refl
            (planning refl (record { limit = refl; undelivered = refl }) bounded) in
        (counted, omega (arith, counted, rounds_within c inv))

    -- In a run of the built `goal` graph that has delivered a text that is not empty, for a request
    -- that allows an iteration: the last verification has passed, or there is none and the latest
    -- review approves.
    pub goal_run-IsEarned : truthy c.state.delivery ≡ true → IsEarned c.state
    goal_run-IsEarned h = IsEarned-of c run-GoalInv h

    -- A run of the built `goal` graph that has ended, for a request that allows an iteration, has a
    -- status other than `running`, unless the delivered text is empty.
    pub goal_run_ended :
        c.at ≡ none → (materialize_status c.state false ≢ running) ⊎ (c.state.delivery ≡ some "")
    goal_run_ended ended = goal_ended c run-GoalInv ended
