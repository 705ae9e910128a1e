-- ===== src/Spec/Presets.antt =====
-- The presets of agent_room/presets, as the loader parses them.
use goal_driven_agent_room.Base.{String, none, some, [], ◌∷◌}
use goal_driven_agent_room.Schemas.{
  Role, planner, developer, reviewer, delivery, verifier, supervisor,
}
use goal_driven_agent_room.Tools.Policy.{unrestricted}
use goal_driven_agent_room.Spec.{NodeSpec, BranchSpec, EdgeSpec, GraphSpec}

-- A node that sets its role only.
abbrev pub plain_node : Role → NodeSpec
plain_node role = record {
  role = role;
  variant = none;
  model = none;
  prompt_override = none;
  extra_context_keys = [];
  tools = [];
  tool_mode = none;
  max_dev_rounds = none;
}

-- The developer with the four built-in tools.
abbrev pub react_developer : NodeSpec
react_developer = record (plain_node developer) {
  tools = "glob" ∷ "read_text" ∷ "write_text" ∷ "shell" ∷ [];
  tool_mode = some unrestricted;
  max_dev_rounds = some 8;
}

abbrev edge : String → String → EdgeSpec
edge from to = record { from = from; to = some to; branches = []; router = none }

abbrev branch : String → String → BranchSpec
branch on to = record { on = on; to = to }

-- The edge after a reviewer.
abbrev review_edge : String → EdgeSpec
review_edge delivered = record {
  from = "reviewer";
  to = none;
  branches =
      branch "developer" "developer" ∷ branch "delivery" delivered ∷ branch "halt" "__end__" ∷ [];
  router = none;
}

-- presets/full.yaml
abbrev pub full : GraphSpec
full = record {
  name = "full";
  entry = "planner";
  nodes =
      ("planner", plain_node planner)
      ∷ ("developer", plain_node developer)
      ∷ ("reviewer", plain_node reviewer)
      ∷ ("delivery", plain_node delivery)
      ∷ [];
  edges =
      edge "planner" "developer"
      ∷ edge "developer" "reviewer"
      ∷ review_edge "delivery"
      ∷ edge "delivery" "__end__"
      ∷ [];
  state_class = none;
}

-- presets/full_react.yaml
abbrev pub full_react : GraphSpec
full_react = record {
  name = "full_react";
  entry = "planner";
  nodes =
      ("planner", plain_node planner)
      ∷ ("developer", react_developer)
      ∷ ("reviewer", plain_node reviewer)
      ∷ ("delivery", plain_node delivery)
      ∷ [];
  edges =
      edge "planner" "developer"
      ∷ edge "developer" "reviewer"
      ∷ review_edge "delivery"
      ∷ edge "delivery" "__end__"
      ∷ [];
  state_class = none;
}

-- presets/two_call_review.yaml
abbrev pub two_call_review : GraphSpec
two_call_review = record {
  name = "two_call_review";
  entry = "planner";
  nodes =
      ("planner", plain_node planner)
      ∷ ("developer", plain_node developer)
      ∷ ("reviewer", record (plain_node reviewer) { variant = some "two_call" })
      ∷ ("delivery", plain_node delivery)
      ∷ [];
  edges =
      edge "planner" "developer"
      ∷ edge "developer" "reviewer"
      ∷ review_edge "delivery"
      ∷ edge "delivery" "__end__"
      ∷ [];
  state_class = none;
}

-- presets/planner_gate.yaml
abbrev pub planner_gate : GraphSpec
planner_gate = record {
  name = "planner_gate";
  entry = "planner";
  nodes =
      ("planner", record (plain_node planner) { variant = some "gate" })
      ∷ ("developer", plain_node developer)
      ∷ ("reviewer", plain_node reviewer)
      ∷ ("delivery", plain_node delivery)
      ∷ [];
  edges =
      record {
        from = "planner";
        to = none;
        branches = branch "developer" "developer" ∷ branch "halt" "__end__" ∷ [];
        router = some "agent_room.routers:planner_gate_router";
      }
      ∷ edge "developer" "reviewer"
      ∷ review_edge "delivery"
      ∷ edge "delivery" "__end__"
      ∷ [];
  state_class = none;
}

-- presets/dev_review.yaml
abbrev pub dev_review : GraphSpec
dev_review = record {
  name = "dev_review";
  entry = "developer";
  nodes = ("developer", plain_node developer) ∷ ("reviewer", plain_node reviewer) ∷ [];
  edges = edge "developer" "reviewer" ∷ review_edge "__end__" ∷ [];
  state_class = none;
}

-- presets/solo.yaml
abbrev pub solo : GraphSpec
solo = record {
  name = "solo";
  entry = "developer";
  nodes =
      (
        "developer",
        record (plain_node developer) { extra_context_keys = "title" ∷ "description" ∷ [] },
      )
      ∷ [];
  edges = edge "developer" "__end__" ∷ [];
  state_class = none;
}

-- presets/goal.yaml
abbrev pub goal : GraphSpec
goal = record {
  name = "goal";
  entry = "planner";
  nodes =
      ("planner", plain_node planner)
      ∷ ("developer", react_developer)
      ∷ ("verify", plain_node verifier)
      ∷ ("supervisor", plain_node supervisor)
      ∷ ("reviewer", plain_node reviewer)
      ∷ ("delivery", plain_node delivery)
      ∷ [];
  edges =
      edge "planner" "developer"
      ∷ edge "developer" "verify"
      ∷ record {
        from = "verify";
        to = none;
        branches =
            branch "delivery" "delivery"
            ∷ branch "developer" "developer"
            ∷ branch "reviewer" "reviewer"
            ∷ branch "supervisor" "supervisor"
            ∷ branch "halt" "__end__"
            ∷ [];
        router = some "agent_room.routers:goal_router";
      }
      ∷ record {
        from = "supervisor";
        to = none;
        branches =
            branch "developer" "developer"
            ∷ branch "planner" "planner"
            ∷ branch "halt" "__end__"
            ∷ [];
        router = some "agent_room.routers:stuck_router";
      }
      ∷ review_edge "delivery"
      ∷ edge "delivery" "__end__"
      ∷ [];
  state_class = none;
}
