-- ===== src/Eval/Runner.antt =====
-- agent_room/eval/runner.py: one run for each variant and task. The service, the fixture of a task
-- and the clock are functions of a world, which each call leaves changed.
pub mod Cells
use goal_driven_agent_room.Base.{
  ℕ, ◌+◌, ◌-◌, Bool, true, false, ◌&&◌, String, Option, none, some, List, [], ◌∷◌, ◌++◌, ◌⧺◌,
  length, get_default, if◌then◌else◌, is_none,
}
use goal_driven_agent_room.Schemas.{TaskRequest, ReviewVerdict, ReviewerDecision}
use goal_driven_agent_room.State.{TaskState, revision_round_of, verify_round_of}
use goal_driven_agent_room.Errors.{Error, Result, ok, err, ◌>>=◌}
use goal_driven_agent_room.Routers.{Status, running, awaiting_user, completed, failed}
use goal_driven_agent_room.Service.Snapshot.{TaskResult}
use goal_driven_agent_room.Eval.Task.{Outcome, Verdict, RunRecord}

-- A call under `wait_for`: it returns, runs out of time, or raises an exception of this text.
pub data Attempt : Type 0 where
  returned : TaskResult → Attempt
  timeout_error : Attempt
  raised : (exception : String) → Attempt

-- The token counts that a model reports, each of which may be missing.
pub record Usage : Type 0 where
  pub input_tokens : Option ℕ
  pub output_tokens : Option ℕ
  pub total_tokens : Option ℕ

pub record Variant : Type 0 where
  pub name : String
  pub halt_node : String

unfoldable pub sum_of : (Usage → Option ℕ) → List Usage → ℕ
sum_of field [] = 0
sum_of field (u ∷ us) = get_default (field u) 0 + sum_of field us

-- `_sum_usage`
unfoldable pub sum_usage : List Usage → Option ℕ × Option ℕ × Option ℕ
unfolding sum_of
sum_usage [] = (none, none, none)
sum_usage (u ∷ us) = (
  some (sum_of (λ (x : Usage). x.input_tokens) (u ∷ us)),
  some (sum_of (λ (x : Usage). x.output_tokens) (u ∷ us)),
  some (sum_of (λ (x : Usage). x.total_tokens) (u ∷ us)),
)

-- `_decision_of`
unfoldable pub decision_of : TaskResult → Option ReviewVerdict
decision_of result = elim result.review [ none ↦ none | some review ↦ some review.decision ]

abbrev pub is_awaiting_user : Status → Bool
is_awaiting_user awaiting_user = true
is_awaiting_user running = false
is_awaiting_user completed = false
is_awaiting_user failed = false

abbrev pub is_completed : Status → Bool
is_completed completed = true
is_completed running = false
is_completed awaiting_user = false
is_completed failed = false

-- A task, and the service over the graph that is built with its tools. What the code
-- lets out is what `setup`, `build`, `snapshot`, `state_values` and `verify` raise.
pub record Cell (World : Type 0) : Type 0 where
  pub task : String
  pub request : TaskRequest
  pub follow_up : Option String
  pub setup : World → Result (Unit {0}) × World
  pub build : World → Result (Unit {0}) × World
  pub run : TaskRequest → String → World → Attempt × World
  pub resume : String → String → (at_node : String) → World → Attempt × World
  pub snapshot : String → World → Result TaskResult × World
  pub state_values : String → World → Result TaskState × World
  pub verify : Outcome → World → Result Verdict × World
  pub teardown : World → World
  pub timeout_s : String
  pub usage : World → List Usage
  pub clock : World → ℕ

-- What the calls of the graph have shown.
pub record Seen : Type 0 where
  pub snap : TaskResult
  pub escalated : Bool
  pub decisions : List (Option ReviewVerdict)
  pub completed_after_followup : Option Bool
  pub error : Option String

module _ {World : Type 0} where
  -- One call after another, the second of which is not made when the first raises.
  abbrev pub and_then :
      {A B : Type 0} → (A → World → Result B × World) → Result A × World → Result B × World
  and_then later (err e, world) = (err e, world)
  and_then later (ok a, world) = later a world

  -- The handlers of the exceptions of a call.
  unfoldable pub failed_with :
      Cell World → String → List (Option ReviewVerdict) → String → World → Result Seen × World
  failed_with cell task_id decisions error world =
      and_then
        (λ snap w. (
          ok (record {
            snap = snap;
            escalated = is_awaiting_user snap.status;
            decisions = decisions;
            completed_after_followup = none;
            error = some error;
          }),
          w,
        ))
        (cell.snapshot task_id world)

  unfoldable pub timeout_text : Cell World → String
  unfolding ◌⧺◌
  timeout_text cell = "timeout after " ⧺ cell.timeout_s ⧺ "s"

  unfoldable pub after_resume :
      Cell World → String → List (Option ReviewVerdict) → Attempt × World → Result Seen × World
  unfolding failed_with decision_of timeout_text
  after_resume cell task_id decisions (returned snap, world) = (
    ok (record {
      snap = snap;
      escalated = true;
      decisions = decisions ++ (decision_of snap ∷ []);
      completed_after_followup = some (is_completed snap.status);
      error = none;
    }),
    world,
  )
  after_resume cell task_id decisions (timeout_error, world) =
      failed_with cell task_id decisions (timeout_text cell) world
  after_resume cell task_id decisions (raised exception, world) =
      failed_with cell task_id decisions exception world

  -- `if escalated and task.follow_up is not None`
  unfoldable pub follow :
      Variant
      → Cell World
      → String
      → TaskResult
      → (escalated : Bool) → (follow_up : Option String) → World
      → Result Seen × World
  unfolding after_resume decision_of
  follow variant cell task_id snap true (some decision) world =
      after_resume cell task_id (decision_of snap ∷ [])
        (cell.resume task_id decision variant.halt_node world)
  follow variant cell task_id snap true none world = (
    ok (record {
      snap = snap;
      escalated = true;
      decisions = decision_of snap ∷ [];
      completed_after_followup = none;
      error = none;
    }),
    world,
  )
  follow variant cell task_id snap false follow_up world = (
    ok (record {
      snap = snap;
      escalated = false;
      decisions = decision_of snap ∷ [];
      completed_after_followup = none;
      error = none;
    }),
    world,
  )

  unfoldable pub after_run : Variant → Cell World → String → Attempt × World → Result Seen × World
  unfolding failed_with follow timeout_text
  after_run variant cell task_id (returned snap, world) =
      follow variant cell task_id snap (is_awaiting_user snap.status) cell.follow_up world
  after_run variant cell task_id (timeout_error, world) =
      failed_with cell task_id [] (timeout_text cell) world
  after_run variant cell task_id (raised exception, world) =
      failed_with cell task_id [] exception world

  record_of :
      Variant → Cell World → String → ℕ → Seen → TaskState → Verdict → World → World → RunRecord
  unfolding sum_usage
  record_of variant cell task_id start seen values verdict stopped world =
      let used = sum_usage (cell.usage world) in
      record {
        variant = variant.name;
        task = cell.task;
        task_id = task_id;
        passed = verdict.passed;
        verdict_detail = verdict.detail;
        final_status = seen.snap.status;
        rounds = revision_round_of values;
        decisions = seen.decisions;
        elapsed = cell.clock stopped - start;
        escalated = seen.escalated;
        completed_after_followup = seen.completed_after_followup;
        prompt_tokens = used.0;
        completion_tokens = used.1;
        total_tokens = used.2;
        error = seen.error;
        dev_messages = length values.dev_messages;
        verify_round = verify_round_of values;
      }

  -- The rest of the `try` block, once the graph's calls are over.
  judge : Variant → Cell World → String → ℕ → Seen → World → Result RunRecord × World
  unfolding record_of
  judge variant cell task_id start seen stopped =
      and_then
        (λ values w.
          let outcome : Outcome = record {
            result = seen.snap;
            escalated = seen.escalated;
            completed_after_followup = seen.completed_after_followup;
            state_values = values;
            error = seen.error;
          } in
          and_then
            (λ verdict v.
              (ok (record_of variant cell task_id start seen values verdict stopped v), v))
            (cell.verify outcome w))
        (cell.state_values task_id stopped)

  -- The `try` block.
  unfoldable pub body : Variant → Cell World → String → ℕ → World → Result RunRecord × World
  unfolding after_run judge
  body variant cell task_id start world = and_then (judge variant cell task_id start) (
      and_then (λ built w. after_run variant cell task_id (cell.run cell.request task_id w))
        (cell.build world))

  abbrev pub finally : Cell World → Result RunRecord × World → Result RunRecord × World
  finally cell (r, world) = (r, cell.teardown world)

  -- `run_pair`
  unfoldable pub run_pair : Variant → Cell World → String → World → Result RunRecord × World
  unfolding body
  run_pair variant cell task_id world =
      and_then (λ ready w. finally cell (body variant cell task_id (cell.clock world) w))
        (cell.setup world)

  -- The inner loop of `run_matrix`, with what `new_task_id` gives.
  unfoldable pub run_row :
      (World → String) → Variant → List (Cell World) → World → Result (List RunRecord) × World
  unfolding run_pair
  run_row fresh variant [] world = (ok [], world)
  run_row fresh variant (cell ∷ cells) world =
      and_then (λ r w. and_then (λ rs v. (ok (r ∷ rs), v)) (run_row fresh variant cells w))
        (run_pair variant cell (fresh world) world)

  -- `run_matrix`; the cells of a variant are made with its bindings.
  unfoldable pub run_matrix :
      (World → String)
      → List (Variant × List (Cell World))
      → World
      → Result (List RunRecord) × World
  unfolding run_row
  run_matrix fresh [] world = (ok [], world)
  run_matrix fresh ((variant, cells) ∷ rest) world =
      and_then (λ rs w. and_then (λ later v. (ok (rs ++ later), v)) (run_matrix fresh rest w))
        (run_row fresh variant cells world)
