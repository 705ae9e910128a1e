-- ===== src/Graph/Workflow/Bounds.antt =====
-- What holds throughout a run of the `full` preset.
use goal_driven_agent_room.Base.{
  ℕ, suc, ◌+◌, ◌*◌, ◌≤◌, true, false, String, none, some, ◌≡◌, ◌≢◌, ◌⊎◌, inl, inr, refl, arith,
  truthy,
}
use goal_driven_agent_room.Schemas.{TaskRequest}
use goal_driven_agent_room.State.{TaskState, revision_round_of}
use goal_driven_agent_room.Tools.Safety.{Paths}
use goal_driven_agent_room.Routers.{materialize_status, running}
use goal_driven_agent_room.Service.{initial_state}
use goal_driven_agent_room.Roles.Verifier.{Workspace}
use goal_driven_agent_room.Graph.Workflow.{full_graph}
use goal_driven_agent_room.Graph.Runtime.{Config, Runtime, Run, Run-induction}
use goal_driven_agent_room.Graph.Workflow.Invariant.{
  running_or, FullInv, IsApproved, Any, FullInv-step, IsOpen, planning, developing, reviewing,
  delivering, halted, delivered,
}

module _ (paths : Paths) where
  bounds_of :
      {m n : ℕ} {c : Config paths}
      → FullInv paths m n c
      → (n ≤ 2 * m + 4) × (revision_round_of c.state ≤ suc m)
  bounds_of (planning at o e) = (omega arith, ground (arith, o.rounds))
  bounds_of (developing r at o b e) = (omega arith, ground (arith, o.rounds))
  bounds_of (reviewing r at o b e) = (omega arith, ground (arith, o.rounds))
  bounds_of (delivering r at o a b e) = (omega arith, ground (arith, o.rounds))
  bounds_of (halted r at o why b e) = (omega arith, ground (arith, o.rounds))
  bounds_of (delivered r content at a d k b e) = (omega arith, ground (arith, k))

  not_delivered :
      {m r : ℕ} {s : TaskState} {A : Type 0} → IsOpen m r s → truthy s.delivery ≡ true → A
  not_delivered o h = absurd (ground (arith, o.undelivered))

  IsApproved-of :
      {m n : ℕ} {c : Config paths}
      → FullInv paths m n c
      → truthy c.state.delivery ≡ true
      → IsApproved c.state
  IsApproved-of (planning at o e) h = not_delivered o h
  IsApproved-of (developing r at o b e) h = not_delivered o h
  IsApproved-of (reviewing r at o b e) h = not_delivered o h
  IsApproved-of (delivering r at o a b e) h = a
  IsApproved-of (halted r at o why b e) h = not_delivered o h
  IsApproved-of (delivered r content at a d k b e) h = a

  pub empty_delivery :
      (s : TaskState) (content : String)
      → s.delivery ≡ some content
      → materialize_status s false ≡ running
      → s.delivery ≡ some ""
  unfolding materialize_status
  empty_delivery s String.[] d h = d
  empty_delivery s (String.◌∷◌ ch rest) d h = absurd (ground arith)

  ended_of :
      {m n : ℕ} {c : Config paths}
      → FullInv paths m n c
      → c.at ≡ none
      → materialize_status c.state false ≡ running
      → c.state.delivery ≡ some ""
  ended_of (planning at o e) ended h = absurd (cc (at, ended))
  ended_of (developing r at o b e) ended h = absurd (cc (at, ended))
  ended_of (reviewing r at o b e) ended h = absurd (cc (at, ended))
  ended_of (delivering r at o a b e) ended h = absurd (cc (at, ended))
  ended_of (halted r at o (inl why) b e) ended h = absurd (cc (why, h))
  ended_of (halted r at o (inr why) b e) ended h = absurd (cc (why, h))
  ended_of {c} (delivered r content at a d k b e) ended h = empty_delivery c.state content d h

  -- Where the service starts a run.
  abbrev pub start : TaskRequest → Workspace paths.FilePath → Config paths
  start req files = record { at = some full_graph.entry; state = initial_state req; files = files }

  module _ (rt : Runtime paths (Any paths) full_graph) (req : TaskRequest)
      (files : Workspace paths.FilePath) (n : ℕ) (c : Config paths)
      (run : Run paths rt (start req files) n c) where
    run-FullInv : FullInv paths req.max_revisions n c
    unfolding initial_state
    run-FullInv =
        Run-induction paths rt (λ k d. FullInv paths req.max_revisions k d)
          (λ k p q st inv. FullInv-step paths req.max_revisions k p q st inv)
          (planning refl
            (record {
              budget = refl;
              rounds = refl;
              undelivered = refl;
              unverified = refl;
              undecided = refl;
            })
            refl)
          run

    -- A run of the built `full` graph takes at most 2 * max_revisions + 4 supersteps, and counts at
    -- most max_revisions + 1 reviews, whatever the models answer.
    pub full_run_bounded :
        (n ≤ 2 * req.max_revisions + 4) × (revision_round_of c.state ≤ suc req.max_revisions)
    full_run_bounded = bounds_of run-FullInv

    -- In a run of the built `full` graph that has delivered a text that is not empty, the latest
    -- review approves.
    pub full_run-IsApproved : truthy c.state.delivery ≡ true → IsApproved c.state
    full_run-IsApproved h = IsApproved-of run-FullInv h

    -- A run of the built `full` graph that has ended has a status other than `running`, unless the
    -- delivered text is empty.
    pub full_run_ended :
        c.at ≡ none → (materialize_status c.state false ≢ running) ⊎ (c.state.delivery ≡ some "")
    full_run_ended ended = elim (running_or (materialize_status c.state false)) [
      | inl still ↦ inr (ended_of run-FullInv ended still)
      | inr stopped ↦ inl stopped
    ]
