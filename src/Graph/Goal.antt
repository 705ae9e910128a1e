-- ===== src/Graph/Goal.antt =====
-- The graph of the `goal` preset: a developer with tools and an objective oracle in a loop.
pub mod Steps
pub mod Routes
pub mod Invariant
pub mod Rounds
pub mod Bounds
use goal_driven_agent_room.Base.{String, Option, none, some, List, [], ◌∷◌, ◌≡◌, false}
use goal_driven_agent_room.Schemas.{Tool}
use goal_driven_agent_room.Errors.{ok}
use goal_driven_agent_room.Routers.{review_router, goal_router, stuck_router}
use goal_driven_agent_room.Spec.{Attribute, callable, label}
use goal_driven_agent_room.Spec.Presets.{goal}
use goal_driven_agent_room.Graph.{
  planner_impl, react_impl, reviewer_impl, delivery_impl, supervisor_impl, verifier_impl,
  tools_impl, go, choose, react, StateGraph, build,
}
use goal_driven_agent_room.Graph.Workflow.{plain_config}

-- What the builder makes of the preset, with the tools that the registry gives.
abbrev pub goal_graph : List Tool → StateGraph
goal_graph tools = record {
  entry = "planner";
  nodes =
      ("planner", planner_impl plain_config)
      ∷ ("developer", react_impl plain_config tools 8)
      ∷ ("developer_tools", tools_impl tools false)
      ∷ ("verify", verifier_impl)
      ∷ ("supervisor", supervisor_impl plain_config)
      ∷ ("reviewer", reviewer_impl plain_config)
      ∷ ("delivery", delivery_impl plain_config)
      ∷ [];
  wires =
      go "planner" (some "developer")
      ∷ react "developer" (some "developer_tools") (some "verify")
      ∷ go "developer_tools" (some "developer")
      ∷ choose "verify" (λ s. label (goal_router s))
          (("delivery", some "delivery")
            ∷ ("developer", some "developer")
            ∷ ("reviewer", some "reviewer")
            ∷ ("supervisor", some "supervisor")
            ∷ ("halt", none)
            ∷ [])
      ∷ choose "supervisor" (λ s. label (stuck_router s))
          (("developer", some "developer") ∷ ("planner", some "planner") ∷ ("halt", none) ∷ [])
      ∷ choose "reviewer" (λ s. label (review_router s))
          (("developer", some "developer") ∷ ("delivery", some "delivery") ∷ ("halt", none) ∷ [])
      ∷ go "delivery" none
      ∷ [];
}

-- The builder makes that graph of the preset, where `importlib` finds its two routers and the
-- registry holds its four tools.
pub build-goal :
    (import_attr : String → String → Attribute) (globber reader writer sheller : Tool)
    → import_attr "agent_room.routers" "goal_router" ≡ callable (λ s. label (goal_router s))
    → import_attr "agent_room.routers" "stuck_router" ≡ callable (λ s. label (stuck_router s))
    → build import_attr
        (("glob", globber)
          ∷ ("read_text", reader)
          ∷ ("write_text", writer)
          ∷ ("shell", sheller)
          ∷ [])
        goal
      ≡ ok (goal_graph (globber ∷ reader ∷ writer ∷ sheller ∷ []))
unfolding build
build-goal import_attr a b c d g s = rw (g, s)
