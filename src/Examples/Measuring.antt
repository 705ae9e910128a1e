-- ===== src/Examples/Measuring.antt =====
-- The evaluation of one variant on one task, at concrete inputs.
use goal_driven_agent_room.Base.{ℕ, suc, true, false, ◌≡◌, refl, none, some, [], ◌∷◌, get}
use goal_driven_agent_room.Errors.{ok}
use goal_driven_agent_room.Routers.{failed}
use goal_driven_agent_room.Service.Snapshot.{materialize_result}
use goal_driven_agent_room.Eval.Task.{RunRecord, verify_behavior}
use goal_driven_agent_room.Eval.Runner.{Cell, Variant, raised, timeout_error, run_matrix}
use goal_driven_agent_room.Eval.Runner.Cells.{Returns, IsQuiet, labels, run_matrix-Returns}
use goal_driven_agent_room.Eval.Report.{aggregate}
use goal_driven_agent_room.Eval.Report.Rows.{runs_of, IsRowOf, aggregate-IsRowOf}
use goal_driven_agent_room.Examples.World.{small_request, small_state}

-- A graph that raises; the world is the time.
abbrev broken : Cell ℕ
broken = record {
  task = "sum";
  request = small_request;
  follow_up = none;
  setup = λ w. (ok tt, w);
  build = λ w. (ok tt, w);
  run = λ req id w. (raised "ValueError: no model", suc w);
  resume = λ id decision node w. (timeout_error, w);
  snapshot = λ id w. (ok (materialize_result id (record { values = small_state; tasks = [] })), w);
  state_values = λ id w. (ok small_state, w);
  verify = λ outcome w. (ok (verify_behavior false outcome), w);
  teardown = λ w. w;
  timeout_s = "600.0";
  usage = λ w. [];
  clock = λ w. w;
}

broken-IsQuiet : IsQuiet broken
broken-IsQuiet = record {
  setup_returns = λ w. (tt, w, refl, tt);
  build_returns = λ w. (tt, w, refl, tt);
  snapshot_returns = λ id w. (_, w, refl, tt);
  values_return = λ id w. (_, w, refl, tt);
  verify_returns = λ outcome w. (_, w, refl, tt);
}

abbrev plain_variant : Variant
plain_variant = record { name = "baseline"; halt_node = "reviewer" }

run_matrix-Returns_example :
    Returns
      (λ rs. labels rs ≡ ("baseline", "sum") ∷ [])
      (run_matrix (λ w. "task-1") ((plain_variant, broken ∷ []) ∷ []) 0)
run_matrix-Returns_example =
    run_matrix-Returns (λ w. "task-1") ((plain_variant, broken ∷ []) ∷ []) 0
      ((broken-IsQuiet, tt), tt)

abbrev a_run : RunRecord
a_run = record {
  variant = "baseline";
  task = "sum";
  task_id = "task-1";
  passed = true;
  verdict_detail = "";
  final_status = failed;
  rounds = 0;
  decisions = [];
  elapsed = 20;
  escalated = false;
  completed_after_followup = none;
  prompt_tokens = none;
  completion_tokens = none;
  total_tokens = some 12;
  error = none;
  dev_messages = 0;
  verify_round = 0;
}

aggregate-IsRowOf_example :
    IsRowOf (runs_of "baseline" (a_run ∷ [])) (get "baseline" (aggregate (a_run ∷ [])))
aggregate-IsRowOf_example = aggregate-IsRowOf "baseline" (a_run ∷ [])
