-- ===== src/Graph/Workflow.antt =====
-- Runs of the `full` preset: planner, developer and reviewer in a loop, delivery.
pub mod Invariant
pub mod Bounds
use mathlib.Core.Path.{subst}
use goal_driven_agent_room.Base.{
  ℕ, zero, suc, ◌+◌, ◌*◌, ◌≤◌, Bool, true, false, String, Option, none, some, List, [], ◌∷◌, ◌≡◌,
  ◌⊎◌, inl, inr, refl, arith, truthy, ap, sym,
}
use goal_driven_agent_room.Schemas.{
  TaskRequest, ReviewerDecision, planner, developer, reviewer, delivery, approved, Tool,
}
use goal_driven_agent_room.State.{TaskState, Update, merge, revision_round_of, max_revisions_of}
use goal_driven_agent_room.Errors.{Result, ok, err, ◌>>=◌, >>=-ok}
use goal_driven_agent_room.Tools.Safety.{Paths}
use goal_driven_agent_room.Texts.{TextLibrary}
use goal_driven_agent_room.Routers.{
  review_router, to_developer, to_delivery, halt, materialize_status, running, asks_user,
  wants_revision,
}
use goal_driven_agent_room.Spec.{Attribute, label}
use goal_driven_agent_room.Spec.Presets.{full, plain_node}
use goal_driven_agent_room.Roles.Transport.{Transport, NodeConfig}
use goal_driven_agent_room.Roles.Planner.{planner_node}
use goal_driven_agent_room.Roles.Developer.{developer_node}
use goal_driven_agent_room.Roles.Reviewer.{reviewer_node}
use goal_driven_agent_room.Roles.Delivery.{delivery_node}
use goal_driven_agent_room.Graph.{
  NodeImpl, planner_impl, developer_impl, reviewer_impl, delivery_impl, Wire, go, choose,
  StateGraph, Registry, build, config_of,
}
use goal_driven_agent_room.Graph.Nodes.{
  SameBudgets, SameControl, IsReviewed, IsDelivered, planner_update-control,
  developer_update-control, reviewer_update-IsReviewed, delivery_update-IsDelivered,
}
use goal_driven_agent_room.Graph.Runtime.{
  Env, Config, run_node, find_node, next_of, advance, Superstep, Runtime, Run, Run-induction,
}

abbrev pub plain_config : NodeConfig
plain_config = record { prompt_override = none; extra_context_keys = []; model = none }

-- What the builder makes of the preset.
abbrev pub full_graph : StateGraph
full_graph = record {
  entry = "planner";
  nodes =
      ("planner", planner_impl plain_config)
      ∷ ("developer", developer_impl plain_config)
      ∷ ("reviewer", reviewer_impl plain_config)
      ∷ ("delivery", delivery_impl plain_config)
      ∷ [];
  wires =
      go "planner" (some "developer")
      ∷ go "developer" (some "reviewer")
      ∷ choose "reviewer" (λ s. label (review_router s))
          (("developer", some "developer") ∷ ("delivery", some "delivery") ∷ ("halt", none) ∷ [])
      ∷ go "delivery" none
      ∷ [];
}

pub build-full :
    (import_attr : String → String → Attribute) (registry : Registry)
    → build import_attr registry full ≡ ok full_graph
unfolding build
build-full import_attr registry = refl
