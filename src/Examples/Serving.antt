-- ===== src/Examples/Serving.antt =====
-- The server's sessions, tasks, tools and streams at concrete inputs.
use goal_driven_agent_room.Base.{
  ℕ, true, false, ◌≡◌, ◌↔◌, refl, inl, inr, String, none, some, List, [], ◌∷◌, mem_text,
}
use goal_driven_agent_room.Schemas.{TaskRequest, Content, str, Tool, developer}
use goal_driven_agent_room.Errors.{Error, Result, ok, err}
use goal_driven_agent_room.Guardrail.{off}
use goal_driven_agent_room.Config.{Settings}
use goal_driven_agent_room.Service.Snapshot.{TaskResult, materialize_result}
use goal_driven_agent_room.Tools.Registry.{
  Entries, register, register_if, register_builtin_tools, by_name,
}
use goal_driven_agent_room.Spec.{NodeSpec}
use goal_driven_agent_room.Graph.{resolve_tool_names}
use goal_driven_agent_room.Server.Envelope.{
  build_server_registry, register_mcp, reconcile_node, reconcile_tools, reconcile_for,
  keep_available, grant, grant_all, permission_mode,
}
use goal_driven_agent_room.Server.Envelope.Resolving.{reconcile_node-resolves}
use goal_driven_agent_room.Server.Sessions.{
  Tables, SessionRecord, create, connected, insert_session, find_session, attach_task,
  insert_or_ignore, has_link, delete,
}
use goal_driven_agent_room.Server.Sessions.Invariant.{IsConsistent}
use goal_driven_agent_room.Server.Sessions.Steps.{
  Steps, created, attached, deleted, Steps-IsConsistent, no_rows,
}
use goal_driven_agent_room.Server.Api.{
  App, Service, Surroundings, create_task, stream_task, check_tenant_owns_task, screen,
  check_input_guardrail, validate_graph, selectable, record_task,
}
use goal_driven_agent_room.Server.Api.Tenants.{
  IsOpenTo, Rejects, check_tenant_owns_task_iff, created-Rejects,
}
use goal_driven_agent_room.Server.Api.Requests.{IsBadRequest, screened-unchanged}
use goal_driven_agent_room.Events.{RawEvent, on_chat_model_stream}
use goal_driven_agent_room.Events.Formatter.{Scrubber, new_formatter, scrubber_of, format_all}
use goal_driven_agent_room.Events.Formatter.Scrubbing.{pieces_in, unscrubbed, feed_all}
use goal_driven_agent_room.Events.Formatter.Scrubbing.Streams.{format_all-scrubs}
use goal_driven_agent_room.Examples.World.{small_request, small_state, no_match}

abbrev same_text : String → String
same_text s = s

abbrev row : SessionRecord
row = record { id = "sess-1"; name = "first"; created_at = 5; tenant_id = "acme" }

abbrev one_row : Tables
one_row = record { sessions = row ∷ []; links = [] }

abbrev one_link : Tables
one_link = record {
  sessions = row ∷ [];
  links = record { session_id = "sess-1"; task_id = "task-1"; attached_at = 6 } ∷ [];
}

-- A session is created, gets a task, and is deleted with its link.
three_calls : Steps same_text no_rows no_rows
unfolding create connected insert_session find_session attach_task insert_or_ignore has_link delete
three_calls =
    Steps.later
      (Steps.later (Steps.later Steps.start (created "sess-1" 5 "first" none "acme" row refl))
        (attached {t' = one_link} 6 "sess-1" "task-1" true refl))
      (deleted "sess-1" true refl)

Steps-IsConsistent_example : IsConsistent no_rows
Steps-IsConsistent_example = Steps-IsConsistent same_text no_rows three_calls

abbrev text_entry : String → Result String
text_entry tenant = ok tenant

abbrev the_result : TaskResult
the_result = materialize_result "task-1" (record { values = small_state; tasks = [] })

abbrev the_service : Service
the_service = record {
  run = λ req id. ok the_result;
  resume = λ id decision. ok the_result;
  snapshot = λ id. ok the_result;
}

abbrev surroundings : Surroundings
surroundings = record {
  search = no_match;
  mode = off;
  strip = same_text;
  keep_done = 5;
  service_for = λ id tenant graph. ok the_service;
}

abbrev empty_app : App
empty_app = record { tables = no_rows; runs = record { runs = []; order = [] } }

abbrev acme_request : TaskRequest
acme_request = record small_request { tenant_id = "acme" }

created-Rejects_example :
    Rejects surroundings "task-1" "other"
      ((create_task surroundings 5 "task-1" acme_request empty_app).1)
unfolding create_task screen check_input_guardrail validate_graph selectable record_task create
    connected insert_session find_session attach_task insert_or_ignore has_link
created-Rejects_example =
    created-Rejects surroundings 5 "task-1" "other" acme_request empty_app
      ((create_task surroundings 5 "task-1" acme_request empty_app).1)
      ((create_task surroundings 5 "task-1" acme_request empty_app).1) (inl (the_result, refl))
      Steps.start tt refl

check_tenant_owns_task_iff_example :
    (check_tenant_owns_task one_row "sess-1" "other" ≡ ok tt) ↔ IsOpenTo one_row "sess-1" "other"
check_tenant_owns_task_iff_example = check_tenant_owns_task_iff one_row "sess-1" "other"

abbrev solo_request : TaskRequest
solo_request = record small_request { graph = some "solo" }

screened-unchanged_example :
    (e : Error) × IsBadRequest e
    × (create_task surroundings 5 "task-1" solo_request empty_app ≡ (err e, empty_app))
    × (stream_task surroundings 5 "task-1" solo_request empty_app ≡ (err e, empty_app))
unfolding mem_text
screened-unchanged_example =
    screened-unchanged surroundings solo_request 5 "task-1" empty_app (inr refl)

abbrev settings : Settings ℕ
settings = record {
  db_path = "./agent_room.db";
  host = "127.0.0.1";
  port = 8765;
  default_model = "claude-sonnet-4-6";
  role_models = [];
  anthropic_base_url = none;
  anthropic_auth_token = none;
  anthropic_api_key = none;
  openai_api_key = none;
  graph_preset = "full_react";
  workspace_dir = "./workspace";
  shell_allowlist = [];
  tool_mode = "unrestricted";
  memory_enabled = true;
  memory_vector = false;
  vector_backend = "sqlite";
  embedding_model = "";
  qdrant_path = "";
  qdrant_url = none;
  sse_ping_seconds = 15;
  mcp_servers = [];
  max_tokens = none;
  max_tool_calls = none;
  max_cost_usd = none;
  price_per_1k_input = none;
  price_per_1k_output = none;
  guardrail_mode = off;
}

abbrev fetch : Tool
fetch = record { name = "fetch"; read_only = none }

abbrev registry : Entries
unfolding build_server_registry register_builtin_tools register register_if register_mcp
registry = elim (build_server_registry settings true (fetch ∷ [])) [ err e ↦ [] | ok es ↦ es ]

-- A developer that lists a shell, which the settings do not allow.
abbrev listing : NodeSpec
listing = record {
  role = developer;
  variant = none;
  model = none;
  prompt_override = none;
  extra_context_keys = [];
  tools = "read_text" ∷ "shell" ∷ [];
  tool_mode = none;
  max_dev_rounds = none;
}

abbrev reconciled : NodeSpec
unfolding reconcile_node reconcile_tools reconcile_for keep_available grant grant_all
    permission_mode mem_text
reconciled = elim (reconcile_node settings ("fetch" ∷ []) listing) [ err e ↦ listing | ok n ↦ n ]

reconcile_node-resolves_example :
    (ts : List Tool) × (resolve_tool_names reconciled.tools (by_name registry) ≡ ok ts)
unfolding reconcile_node reconcile_tools reconcile_for keep_available grant grant_all
    permission_mode mem_text build_server_registry register_builtin_tools register register_if
    register_mcp reconciled registry
reconcile_node-resolves_example =
    reconcile_node-resolves settings (fetch ∷ []) registry listing reconciled refl refl refl

-- A scrubber that holds back the last text that it is given.
abbrev delaying : Scrubber
delaying = record {
  State = String;
  initial = "";
  feed = λ held piece. (held, piece);
  flush = λ held. (held, "");
}

abbrev piece : String → String → RawEvent
piece task words = record {
  kind = on_chat_model_stream (some (str words));
  task_id = some task;
  tags = [];
  langgraph_node = some "developer";
}

abbrev two_tasks : List RawEvent
two_tasks = piece "task-1" "one" ∷ piece "task-2" "two" ∷ piece "task-1" "three" ∷ []

abbrev plain : Content → String
plain c = ""

format_all-scrubs_example :
    let after = format_all delaying plain two_tasks (new_formatter delaying) in
    let alone =
      feed_all delaying
        (scrubber_of delaying "task-1" (new_formatter delaying))
        (pieces_in "task-1" (unscrubbed plain two_tasks)) in
    (pieces_in "task-1" (after.0) ≡ alone.0) × (scrubber_of delaying "task-1" (after.1) ≡ alone.1)
format_all-scrubs_example =
    format_all-scrubs delaying plain "task-1" two_tasks (new_formatter delaying)
