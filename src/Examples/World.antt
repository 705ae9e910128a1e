-- ===== src/Examples/World.antt =====
-- Concrete surroundings: a file system of two paths, a shell of one command, and a model that answers
-- every role with a fixed text.
use mathlib.Core.Bool.{Bool-discrete}
use goal_driven_agent_room.Base.{Bool, true, false, String, none, some, [], ◌∷◌}
use goal_driven_agent_room.Schemas.{
  TaskRequest, ReviewerDecision, ReviewVerdict, approved, StuckDecision, continue, str, pos,
}
use goal_driven_agent_room.Errors.{ok}
use goal_driven_agent_room.State.{TaskState}
use goal_driven_agent_room.Texts.{TextLibrary}
use goal_driven_agent_room.Guardrail.{off}
use goal_driven_agent_room.Tools.Safety.{Paths, Shell, tokens}
use goal_driven_agent_room.Tools.Files.{Bytes, Node, missing, directory, Trees}
use goal_driven_agent_room.Roles.Transport.{Transport}
use goal_driven_agent_room.Roles.DeveloperReact.{ReactBindings}
use goal_driven_agent_room.Roles.Verifier.{Workspace, exited}
use goal_driven_agent_room.Graph.Runtime.{Env}

-- `true` is the root, `false` the file in it.
abbrev pub two_paths : Paths
two_paths = record {
  FilePath = Bool;
  path_discrete = Bool-discrete;
  of_text = λ t. false;
  resolve = λ p. p;
  is_absolute = λ p. false;
  child = λ root p. p;
  is_relative_to = λ p root. true;
}

abbrev pub one_shell : Shell
one_shell = record {
  split = λ c. tokens ("pytest" ∷ "-q" ∷ []);
  join_args = λ args. "pytest -q";
  repr = λ s. s;
  repr_list = λ l. "";
}

abbrev pub plain_text : TextLibrary TaskState
plain_text = record {
  strip = λ s. s;
  is_blank = λ s. false;
  heading = λ k. k;
  value_of = λ s k. none;
}

abbrev pub verdict_of : ReviewVerdict → ReviewerDecision
verdict_of v = record { decision = v; feedback = "fine"; issues = []; confidence = 90 }

abbrev pub carry_on : StuckDecision
carry_on = record { action = continue; reasoning = "almost there"; question = "" }

abbrev pub fixed_model : Transport
fixed_model = record {
  invoke = λ role messages tools model. ok (record { content = str "text"; tool_calls = [] });
  review = λ messages model. ok (verdict_of approved);
  gate = λ messages model. ok (record { plan = "plan"; open_questions = []; rationale = "" });
  focus = λ messages model.
      ok (record { is_fully_specified = true; open_questions = []; rationale = "" });
  unstick = λ messages model. ok carry_on;
}

abbrev pub no_match : String → String → Bool
no_match pattern text = false

abbrev pub plain_bindings : ReactBindings
plain_bindings = record {
  content_str = λ c. "text";
  system_prompt_block = "";
  prefetch = λ q. "";
  compress = λ ms. ok ms;
  search = no_match;
  mode = off;
}

abbrev pub empty_root : Bool → Node
empty_root true = directory
empty_root false = missing

abbrev pub no_files : Workspace Bool
no_files = record { nodes = empty_root; links = λ p. p }

abbrev pub flat : Trees two_paths
flat = record {
  parent = λ p. true;
  with_parents = λ p. true ∷ [];
  relative_to = λ p root. "test_sum.py";
}

-- Every text is encoded by two bytes.
abbrev pub two_bytes_of : String → Bytes
two_bytes_of t = 104 ∷ 105 ∷ []

abbrev pub small_env : Env two_paths
small_env = record {
  lib = plain_text;
  tx = fixed_model;
  bindings = plain_bindings;
  shell = one_shell;
  trees = flat;
  encode = two_bytes_of;
  root = true;
  process = λ argv files. (exited (pos 0) "ok", files);
  allowlist = "pytest" ∷ [];
  run_tools = λ tools wrapped messages files. ok ([], files);
  wants_tools = λ messages. false;
}

abbrev pub small_request : TaskRequest
small_request = record {
  title = "sum";
  description = "add two numbers";
  max_revisions = 1;
  tenant_id = "default";
  verify_command = some "pytest -q";
  verify_files = ("test_sum.py", "assert True") ∷ [];
  max_iterations = 10;
  graph = none;
}

-- The state of a task that has just begun.
abbrev pub small_state : TaskState
small_state = record {
  title = "sum";
  description = "add two numbers";
  plan = none;
  code = none;
  review = none;
  delivery = none;
  revision_round = some 0;
  max_revisions = some 1;
  artifacts = [];
  events = [];
  user_directives = [];
  open_questions = [];
  dev_messages = [];
  dev_round = none;
  verify_command = some "pytest -q";
  verify_files = ("test_sum.py", "assert True") ∷ [];
  verification = none;
  verify_round = some 0;
  max_iterations = some 10;
  stuck_decision = none;
}
