-- ===== src/Examples/Workflow.antt =====
-- A run of the `full` preset from a request to its delivery.
use goal_driven_agent_room.Base.{◌+◌, ◌*◌, ◌≤◌, suc, false, String, some, ◌≡◌, ◌≢◌, ◌⊎◌, refl}
use goal_driven_agent_room.State.{merge, revision_round_of}
use goal_driven_agent_room.Errors.{Result, ok, err}
use goal_driven_agent_room.Routers.{review_router, materialize_status, running, completed}
use goal_driven_agent_room.Graph.Runtime.{Config, Superstep, Runtime, Run, advance, here, next}
use goal_driven_agent_room.Graph.Workflow.{full_graph}
use goal_driven_agent_room.Graph.Workflow.Invariant.{Any, IsApproved}
use goal_driven_agent_room.Graph.Workflow.Bounds.{
  start, full_run_bounded, full_run-IsApproved, full_run_ended,
}
use goal_driven_agent_room.Examples.World.{two_paths, small_env, small_request, no_files}

abbrev every_step : Runtime two_paths (Any two_paths) full_graph
every_step = record {
  Step = Superstep two_paths (Any two_paths) full_graph;
  superstep = λ p q step. step;
}

abbrev config_of : Result (Config two_paths) → Config two_paths → Config two_paths
config_of (ok c) d = c
config_of (err e) d = d

abbrev step_at : String → Config two_paths → Config two_paths
unfolding advance
step_at name c = config_of (advance two_paths full_graph small_env name c) c

abbrev started : Config two_paths
started = start two_paths small_request no_files

abbrev planned : Config two_paths
planned = step_at "planner" started

abbrev developed : Config two_paths
developed = step_at "developer" planned

abbrev reviewed : Config two_paths
reviewed = step_at "reviewer" developed

abbrev finished : Config two_paths
finished = step_at "delivery" reviewed

finished-completed : materialize_status finished.state false ≡ completed
unfolding step_at advance materialize_status merge
finished-completed = refl

step_of :
    (name : String) (c d : Config two_paths)
    → c.at ≡ some name
    → advance two_paths full_graph small_env name c ≡ ok d
    → Superstep two_paths (Any two_paths) full_graph c d
step_of name c d at e = record {
  env = small_env;
  lawful = tt;
  name = name;
  at_name = at;
  advanced = e;
}

whole_run : Run two_paths every_step started 4 finished
unfolding step_at advance merge review_router
whole_run =
    next
      (next
        (next (next here (step_of "planner" started planned refl refl))
          (step_of "developer" planned developed refl refl))
        (step_of "reviewer" developed reviewed refl refl))
      (step_of "delivery" reviewed finished refl refl)

full_run_bounded_example :
    (4 ≤ 2 * small_request.max_revisions + 4)
    × (revision_round_of finished.state ≤ suc small_request.max_revisions)
full_run_bounded_example =
    full_run_bounded two_paths every_step small_request no_files 4 finished whole_run

full_run-IsApproved_example : IsApproved finished.state
unfolding step_at advance merge review_router
full_run-IsApproved_example =
    full_run-IsApproved two_paths every_step small_request no_files 4 finished whole_run refl

full_run_ended_example :
    (materialize_status finished.state false ≢ running) ⊎ (finished.state.delivery ≡ some "")
unfolding step_at advance merge review_router
full_run_ended_example =
    full_run_ended two_paths every_step small_request no_files 4 finished whole_run refl
