-- ===== src/Config.antt =====
-- agent_room/config.py: the settings, and how they are read from the environment. The string methods
-- `strip` and `lower`, the numbers of texts and the JSON of the MCP servers are parameters; whole
-- numbers are natural, and an amount of money is of a type of its own.
pub mod Models
use goal_driven_agent_room.Base.{
  ℕ, Bool, not, String, Option, none, some, List, [], ◌∷◌, ◌++◌, mem_text, map, get_default,
  or_none, blank, split_on, str_eq, is_none, ◌&&◌, if◌then◌else◌,
}
use goal_driven_agent_room.Errors.{value_error, Result, ok, err, ◌>>=◌}
use goal_driven_agent_room.Guardrail.{GuardrailMode, off, warn, block}
use goal_driven_agent_room.Budget.{Money, Budget}

pub record Settings (Amount : Type 0) : Type 0 where
  pub db_path : String
  pub host : String
  pub port : ℕ
  pub default_model : String
  pub role_models : List (String × String)
  pub anthropic_base_url : Option String
  pub anthropic_auth_token : Option String
  pub anthropic_api_key : Option String
  pub openai_api_key : Option String
  pub graph_preset : String
  pub workspace_dir : String
  pub shell_allowlist : List String
  pub tool_mode : String
  pub memory_enabled : Bool
  pub memory_vector : Bool
  pub vector_backend : String
  pub embedding_model : String
  pub qdrant_path : String
  pub qdrant_url : Option String
  pub sse_ping_seconds : ℕ
  pub mcp_servers : List (String × String)
  pub max_tokens : Option ℕ
  pub max_tool_calls : Option ℕ
  pub max_cost_usd : Option Amount
  pub price_per_1k_input : Option Amount
  pub price_per_1k_output : Option Amount
  pub guardrail_mode : GuardrailMode

-- `json.loads` of the servers: `none` where it is not an object.
pub record Parsers (Amount : Type 0) : Type 0 where
  pub strip : String → String
  pub lower : String → String
  pub to_int : String → Result ℕ
  pub to_float : String → Result Amount
  pub to_servers : String → Result (Option (List (String × String)))

-- `Settings.budget`
unfoldable pub budget : (money : Money) → Settings money.Amount → Option (Budget money)
budget money s =
    if is_none s.max_tokens && is_none s.max_tool_calls && is_none s.max_cost_usd
    then none
    else some (record {
      max_tokens_of = s.max_tokens;
      max_tool_calls_of = s.max_tool_calls;
      max_cost_of = s.max_cost_usd;
      price_per_1k_input = s.price_per_1k_input;
      price_per_1k_output = s.price_per_1k_output;
    })

abbrev pub default_allowlist : List String
default_allowlist = "pytest" ∷ "python" ∷ "python3" ∷ "ruff" ∷ []

abbrev pub comma : ℕ
comma = 44

module _ (strip : String → String) where
  -- The items that are not blank, stripped.
  unfoldable pub stripped_items : List String → List String
  stripped_items [] = []
  stripped_items (item ∷ items) =
      let rest = stripped_items items in if blank (strip item) then rest else strip item ∷ rest

  -- `_parse_allowlist`
  unfoldable pub parse_allowlist : Option String → List String
  unfolding stripped_items split_on
  parse_allowlist none = default_allowlist
  parse_allowlist (some raw) = stripped_items (split_on comma raw)

  -- `_parse_optional_int` and `_parse_optional_float`
  unfoldable pub parse_optional :
      {A : Type 0} → (String → Result A) → Option String → Result (Option A)
  parse_optional to_value none = ok none
  parse_optional to_value (some raw) =
      if blank (strip raw) then ok none else (to_value raw >>= λ value. ok (some value))

-- The error of a mapping that is missing.
object_or_error : Option (List (String × String)) → Result (List (String × String))
object_or_error (some servers) = ok servers
object_or_error none =
    err (value_error "AGENT_ROOM_MCP_SERVERS must be a JSON object of {name: connection}")

-- `AGENT_ROOM_{role.upper()}_MODEL` for the roles that have a model.
abbrev pub model_keys : List (String × String)
model_keys =
    ("planner", "AGENT_ROOM_PLANNER_MODEL")
    ∷ ("developer", "AGENT_ROOM_DEVELOPER_MODEL")
    ∷ ("reviewer", "AGENT_ROOM_REVIEWER_MODEL")
    ∷ ("delivery", "AGENT_ROOM_DELIVERY_MODEL")
    ∷ ("supervisor", "AGENT_ROOM_SUPERVISOR_MODEL")
    ∷ []

-- The loop over the roles; an empty value is left out.
unfoldable pub read_role_models :
    (String → Option String) → List (String × String) → List (String × String)
read_role_models env [] = []
read_role_models env ((role, key) ∷ rest) = elim (or_none (env key)) [
  | some value ↦ (role, value) ∷ read_role_models env rest
  | none ↦ read_role_models env rest
]

abbrev pub default_fallback : String
default_fallback = "claude-sonnet-4-6"

-- `a or b or default`
unfoldable pub first_text : Option String → Option String → String → String
first_text a b fallback = get_default (or_none a) (get_default (or_none b) fallback)

abbrev pub is_on : (String → String) → String → Bool
is_on lower s = not (mem_text (lower s) ("0" ∷ "false" ∷ "no" ∷ "" ∷ []))

module _ {Amount : Type 0} (parsers : Parsers Amount) where
  open parsers use {strip, lower, to_int, to_float, to_servers}

  -- `_parse_mcp_servers`
  unfoldable pub parse_mcp_servers : Option String → Result (List (String × String))
  unfolding object_or_error
  parse_mcp_servers none = ok []
  parse_mcp_servers (some raw) =
      if blank (strip raw) then ok [] else (to_servers raw >>= object_or_error)

  -- `_parse_guardrail_mode`
  unfoldable pub parse_guardrail_mode : Option String → Result GuardrailMode
  unfolding first_text
  parse_guardrail_mode raw =
      let mode = lower (strip (first_text raw none "off")) in
      if str_eq mode "off"
      then ok off
      else if str_eq mode "warn"
      then ok warn
      else if str_eq mode "block"
      then ok block
      else err (value_error "AGENT_ROOM_GUARDRAIL must be off/warn/block")

  -- `_parse_vector_backend`
  unfoldable pub parse_vector_backend : Option String → Result String
  unfolding first_text
  parse_vector_backend raw =
      let backend = lower (strip (first_text raw none "sqlite")) in
      if mem_text backend ("sqlite" ∷ "qdrant" ∷ [])
      then ok backend
      else err (value_error "AGENT_ROOM_VECTOR_BACKEND must be sqlite/qdrant")

  -- `load_settings`; `env` is `os.getenv`, after the file `.env` is read.
  unfoldable pub load_settings : (String → Option String) → Result (Settings Amount)
  unfolding read_role_models first_text parse_allowlist parse_optional parse_mcp_servers
      parse_guardrail_mode parse_vector_backend
  load_settings env = do
    port ← to_int (get_default (env "AGENT_ROOM_PORT") "8765")
    vector_backend ← parse_vector_backend (env "AGENT_ROOM_VECTOR_BACKEND")
    sse_ping ← to_int (get_default (env "AGENT_ROOM_SSE_PING") "15")
    servers ← parse_mcp_servers (env "AGENT_ROOM_MCP_SERVERS")
    max_tokens ← parse_optional strip to_int (env "AGENT_ROOM_MAX_TOKENS")
    max_tool_calls ← parse_optional strip to_int (env "AGENT_ROOM_MAX_TOOL_CALLS")
    max_cost ← parse_optional strip to_float (env "AGENT_ROOM_MAX_COST_USD")
    price_in ← parse_optional strip to_float (env "AGENT_ROOM_PRICE_PER_1K_INPUT")
    price_out ← parse_optional strip to_float (env "AGENT_ROOM_PRICE_PER_1K_OUTPUT")
    mode ← parse_guardrail_mode (env "AGENT_ROOM_GUARDRAIL")
    ok (record {
      db_path = get_default (env "AGENT_ROOM_DB") "./agent_room.db";
      host = get_default (env "AGENT_ROOM_HOST") "127.0.0.1";
      port = port;
      default_model =
          first_text (env "AGENT_ROOM_DEFAULT_MODEL") (env "ANTHROPIC_MODEL") default_fallback;
      role_models = read_role_models env model_keys;
      anthropic_base_url = or_none (env "ANTHROPIC_BASE_URL");
      anthropic_auth_token = or_none (env "ANTHROPIC_AUTH_TOKEN");
      anthropic_api_key = or_none (env "ANTHROPIC_API_KEY");
      openai_api_key = or_none (env "OPENAI_API_KEY");
      graph_preset = get_default (env "AGENT_ROOM_GRAPH") "full_react";
      workspace_dir = get_default (env "AGENT_ROOM_WORKSPACE") "./workspace";
      shell_allowlist = parse_allowlist strip (env "AGENT_ROOM_SHELL_ALLOWLIST");
      tool_mode = get_default (env "AGENT_ROOM_TOOL_MODE") "unrestricted";
      memory_enabled = is_on lower (get_default (env "AGENT_ROOM_MEMORY") "1");
      memory_vector = is_on lower (get_default (env "AGENT_ROOM_MEMORY_VECTOR") "0");
      vector_backend = vector_backend;
      embedding_model =
          get_default (env "AGENT_ROOM_EMBEDDING_MODEL") "jinaai/jina-embeddings-v2-base-zh";
      qdrant_path = get_default (env "AGENT_ROOM_QDRANT_PATH") "./.agent_room_qdrant";
      qdrant_url = or_none (env "AGENT_ROOM_QDRANT_URL");
      sse_ping_seconds = sse_ping;
      mcp_servers = servers;
      max_tokens = max_tokens;
      max_tool_calls = max_tool_calls;
      max_cost_usd = max_cost;
      price_per_1k_input = price_in;
      price_per_1k_output = price_out;
      guardrail_mode = mode;
    })
