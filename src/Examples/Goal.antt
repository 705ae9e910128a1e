-- ===== src/Examples/Goal.antt =====
-- A run of the `goal` preset in which the oracle passes at once.
use goal_driven_agent_room.Base.{
  ◌≤◌, false, String, none, some, List, [], ◌∷◌, ◌≡◌, ◌≢◌, ◌⊎◌, refl, arith, mem_text,
}
use goal_driven_agent_room.Schemas.{Tool}
use goal_driven_agent_room.State.{merge, verify_round_of}
use goal_driven_agent_room.Errors.{Result, ok, err}
use goal_driven_agent_room.Routers.{goal_router, materialize_status, running}
use goal_driven_agent_room.Service.{initial_state}
use goal_driven_agent_room.Graph.Runtime.{Config, Superstep, Runtime, Run, advance, here, next}
use goal_driven_agent_room.Graph.Workflow.Invariant.{Any}
use goal_driven_agent_room.Graph.Goal.{goal_graph}
use goal_driven_agent_room.Graph.Goal.Invariant.{IsEarned}
use goal_driven_agent_room.Graph.Goal.Rounds.{verifications}
use goal_driven_agent_room.Graph.Goal.Bounds.{
  goal_start, goal_run_bounded, goal_run-IsEarned, goal_run_ended,
}
use goal_driven_agent_room.Examples.World.{two_paths, small_env, small_request, no_files}

abbrev tool_named : String → Tool
tool_named name = record { name = name; read_only = none }

abbrev four_tools : List Tool
four_tools =
    tool_named "glob" ∷ tool_named "read_text" ∷ tool_named "write_text" ∷ tool_named "shell" ∷ []

abbrev goal_runtime : Runtime two_paths (Any two_paths) (goal_graph four_tools)
goal_runtime = record {
  Step = Superstep two_paths (Any two_paths) (goal_graph four_tools);
  superstep = λ p q step. step;
}

abbrev result_or : Result (Config two_paths) → Config two_paths → Config two_paths
result_or (ok c) d = c
result_or (err e) d = d

abbrev goal_step_at : String → Config two_paths → Config two_paths
unfolding advance
goal_step_at name c = result_or (advance two_paths (goal_graph four_tools) small_env name c) c

abbrev begun : Config two_paths
begun = goal_start two_paths four_tools small_request no_files

abbrev with_plan : Config two_paths
with_plan = goal_step_at "planner" begun

abbrev with_code : Config two_paths
with_code = goal_step_at "developer" with_plan

abbrev verified : Config two_paths
verified = goal_step_at "verify" with_code

abbrev handed_over : Config two_paths
handed_over = goal_step_at "delivery" verified

goal_step_of :
    (name : String) (c d : Config two_paths)
    → c.at ≡ some name
    → advance two_paths (goal_graph four_tools) small_env name c ≡ ok d
    → Superstep two_paths (Any two_paths) (goal_graph four_tools) c d
goal_step_of name c d at e = record {
  env = small_env;
  lawful = tt;
  name = name;
  at_name = at;
  advanced = e;
}

goal_whole_run : Run two_paths goal_runtime begun 4 handed_over
unfolding goal_step_at advance merge goal_router mem_text initial_state
goal_whole_run =
    next
      (next
        (next (next here (goal_step_of "planner" begun with_plan refl refl))
          (goal_step_of "developer" with_plan with_code refl refl))
        (goal_step_of "verify" with_code verified refl refl))
      (goal_step_of "delivery" verified handed_over refl refl)

goal_run_bounded_example :
    (verifications two_paths goal_whole_run ≡ verify_round_of handed_over.state)
    × (verifications two_paths goal_whole_run ≤ small_request.max_iterations)
goal_run_bounded_example =
    goal_run_bounded two_paths four_tools goal_runtime small_request no_files 4 handed_over
      goal_whole_run (omega arith)

goal_run-IsEarned_example : IsEarned handed_over.state
unfolding goal_step_at advance merge goal_router mem_text initial_state
goal_run-IsEarned_example =
    goal_run-IsEarned two_paths four_tools goal_runtime small_request no_files 4 handed_over
      goal_whole_run (omega arith) refl

goal_run_ended_example :
    (materialize_status handed_over.state false ≢ running) ⊎ (handed_over.state.delivery ≡ some "")
unfolding goal_step_at advance merge goal_router mem_text initial_state
goal_run_ended_example =
    goal_run_ended two_paths four_tools goal_runtime small_request no_files 4 handed_over
      goal_whole_run (omega arith) refl
