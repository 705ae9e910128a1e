-- ===== src/Examples/Routing.antt =====
-- The routers, the validation and the reducers at concrete states.
use goal_driven_agent_room.Base.{
  ℕ, true, false, none, some, List, [], ◌∷◌, ◌≡◌, ◌≢◌, ◌⊎◌, ◌↔◌, refl, arith,
}
use goal_driven_agent_room.Schemas.{need_user_decision, VerificationResult, abort, Tool, pos}
use goal_driven_agent_room.State.{TaskState}
use goal_driven_agent_room.Routers.{
  review_router, goal_router, stuck_router, planner_gate_router, materialize_status, halt, failed,
  awaiting_user, running,
}
use goal_driven_agent_room.Routers.Agreement.{
  review_router-halt_iff, goal_router-halt_iff, stuck_router-status, gate_without_plan,
}
use goal_driven_agent_room.Tools.Policy.{
  apply_policy, read_only, approval, unrestricted, IsDeclaredReadOnly, Lists, apply_policy_iff,
}
use goal_driven_agent_room.Examples.World.{small_state, verdict_of, carry_on}

-- A reviewer that asks the user.
abbrev asking : TaskState
asking = record small_state { review = some (verdict_of need_user_decision) }

review_router-halt_iff_example : (review_router asking ≡ halt) ↔ (
    (materialize_status asking false ≡ awaiting_user) ⊎ (materialize_status asking false ≡ failed))
review_router-halt_iff_example =
    review_router-halt_iff asking (verdict_of need_user_decision)
      (record { undelivered = refl; no_abort = refl; not_failing = refl }) refl

abbrev failed_check : VerificationResult
failed_check = record {
  passed = false;
  exit_code = some (pos 1);
  output_tail = "1 failed";
  round = 10;
}

abbrev exhausted : TaskState
exhausted = record small_state { verification = some failed_check; verify_round = some 10 }

goal_router-halt_iff_example :
    ((goal_router exhausted ≡ halt) ↔ (materialize_status exhausted false ≡ failed))
    × ((goal_router exhausted ≢ halt) ↔ (materialize_status exhausted false ≡ running))
goal_router-halt_iff_example =
    goal_router-halt_iff exhausted failed_check refl refl (omega arith) refl refl refl

abbrev stuck : TaskState
stuck = record small_state {
  verification = some failed_check;
  verify_round = some 3;
  stuck_decision = some carry_on;
}

stuck_router-status_example :
    ((stuck_router stuck ≡ halt) ↔ (
      (materialize_status stuck false ≡ awaiting_user) ⊎ (materialize_status stuck false ≡ failed)))
    × ((carry_on.action ≡ abort) ↔ (materialize_status stuck false ≡ failed))
stuck_router-status_example =
    stuck_router-status stuck carry_on refl refl (omega arith) (omega arith)
      ((λ e. cc e), λ e. cc e)

abbrev gated : TaskState
gated = record small_state { plan = some "write sum.py" }

gate_without_plan_example :
    (planner_gate_router small_state ≡ halt) × (materialize_status small_state false ≡ running)
gate_without_plan_example =
    gate_without_plan small_state
      (record { undelivered = refl; no_abort = refl; not_failing = refl }) refl refl

abbrev older : List ℕ
older = 1 ∷ 2 ∷ []

abbrev newer : List ℕ
newer = 3 ∷ []

abbrev newest : List ℕ
newest = 4 ∷ []

abbrev reader : Tool
reader = record { name = "fs_read"; read_only = some true }

abbrev writer : Tool
writer = record { name = "fs_write"; read_only = none }

apply_policy_iff_example :
    (Lists writer (apply_policy (reader ∷ writer ∷ []) read_only)
      ↔ (Lists writer (reader ∷ writer ∷ []) × IsDeclaredReadOnly writer))
    × (Lists writer (apply_policy (reader ∷ writer ∷ []) approval)
        ↔ Lists writer (reader ∷ writer ∷ []))
    × (Lists writer (apply_policy (reader ∷ writer ∷ []) unrestricted)
        ↔ Lists writer (reader ∷ writer ∷ []))
apply_policy_iff_example = apply_policy_iff writer (reader ∷ writer ∷ [])
