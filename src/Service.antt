-- ===== src/Service.antt =====
-- agent_room/service.py: the initial state, resuming a halted run, and the recursion limit.
pub mod Resuming
pub mod Snapshot
use goal_driven_agent_room.Base.{
  ℕ, ◌+◌, ◌*◌, max, String, none, some, [], ◌∷◌, str_eq, if◌then◌else◌,
}
use goal_driven_agent_room.Schemas.{TaskRequest, revision_required, Event, string}
use goal_driven_agent_room.State.{TaskState, Write, Update}
use goal_driven_agent_room.Errors.{value_error, type_error, Result, ok, err}

-- `_REACT_TURN_STEPS`, `_FIXED_OVERHEAD`, `GRAPH_RECURSION_LIMIT`
abbrev pub react_turn_steps : ℕ
react_turn_steps = 2 * 8 + 1

abbrev pub fixed_overhead : ℕ
fixed_overhead = 10

abbrev pub graph_recursion_limit : ℕ
graph_recursion_limit = fixed_overhead + (max 10 50 + 1) * (react_turn_steps + 1)

-- `_initial_state`; `open_questions`, `dev_messages` and `dev_round` are missing keys.
unfoldable pub initial_state : TaskRequest → TaskState
initial_state req = record {
  title = req.title;
  description = req.description;
  plan = none;
  code = none;
  review = none;
  delivery = none;
  revision_round = some 0;
  max_revisions = some req.max_revisions;
  artifacts = [];
  events = [];
  user_directives = [];
  open_questions = [];
  dev_messages = [];
  dev_round = none;
  verify_command = req.verify_command;
  verify_files = req.verify_files;
  verification = none;
  verify_round = some 0;
  max_iterations = some req.max_iterations;
  stuck_decision = none;
}

applied_event : String → String → Event
applied_event decision at_node = record {
  type = "user_decision_applied";
  role = none;
  round = none;
  payload = ("decision", string decision) ∷ ("at_node", string at_node) ∷ [];
}

-- The update of `resume(at_node="reviewer")`.
unfoldable pub resume_reviewer : String → Update
unfolding applied_event
resume_reviewer decision =
    Write.review (
      some (record {
        decision = revision_required;
        feedback = "See user directive in state.user_directives";
        issues = [];
        confidence = 100;
      }))
    ∷ Write.user_directives (decision ∷ [])
    ∷ Write.events (applied_event decision "reviewer" ∷ [])
    ∷ []

-- The update of `resume(at_node="planner")`.
unfoldable pub resume_planner : String → Update
unfolding applied_event
resume_planner decision =
    Write.review none
    ∷ Write.open_questions []
    ∷ Write.user_directives (decision ∷ [])
    ∷ Write.events (applied_event decision "planner" ∷ [])
    ∷ []

-- A user decision: a string, or a dict.
pub data UserDecision : Type 0 where
  words : String → UserDecision
  dict_decision : UserDecision

-- What `resume` does: it forwards the decision to the interrupt, or updates the state as a node.
pub data Resumption : Type 0 where
  forward : UserDecision → Resumption
  update_as : String → Update → Resumption

resume_words : String → UserDecision → Result Resumption
unfolding resume_reviewer resume_planner
resume_words at_node dict_decision =
    err
      (type_error "resume requires a string decision; dict decisions are only valid for tool_call")
resume_words at_node (words decision) =
    if str_eq at_node "reviewer"
    then ok (update_as "reviewer" (resume_reviewer decision))
    else if str_eq at_node "planner"
    then ok (update_as "planner" (resume_planner decision))
    else err (value_error "resume: at_node is not supported")

-- `AgentRoomService.resume`, up to the call of the graph.
unfoldable pub resume : UserDecision → String → Result Resumption
unfolding resume_words
resume decision at_node =
    if str_eq at_node "tool_call" then ok (forward decision) else resume_words at_node decision
