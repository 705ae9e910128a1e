-- ===== src/Server/Api.antt =====
-- agent_room/server/api.py: the handlers of the tasks. A handler takes the application's state to
-- its answer, or to the exception that it raises, and the state after it. What a compiled graph does
-- is the record of functions `Service`, which `service_for` makes for a tenant and a graph.
pub mod Tenants
pub mod Requests
use goal_driven_agent_room.Base.{
  ℕ, suc, Bool, true, false, not, ◌&&◌, String, Option, none, some, List, [], ◌∷◌, ◌⧺◌, mem_text,
  is_empty, is_none, get, get_default, or_none, put, str_eq, if◌then◌else◌,
}
use goal_driven_agent_room.Schemas.{TaskRequest, Category, injection, pii, input, GuardrailFinding}
use goal_driven_agent_room.Errors.{
  Error, guardrail_tripwire, http_exception, Result, ok, err, ◌>>=◌, ◌>>◌, require,
}
use goal_driven_agent_room.Guardrail.{GuardrailMode, Search, check}
use goal_driven_agent_room.Runs.{RunManager, start, cancel, lookup}
use goal_driven_agent_room.Server.Sessions.{
  Tables, SessionRecord, SessionStore, create, get_session, attach_task,
}
use goal_driven_agent_room.Service.Snapshot.{TaskResult}

abbrev pub user_selectable_graphs : List String
user_selectable_graphs = "full_react" ∷ "goal" ∷ []

-- A compiled graph behind `AgentRoomService`.
pub record Service : Type 0 where
  pub run : TaskRequest → String → Result TaskResult
  pub resume : String → String → Result TaskResult
  pub snapshot : String → Result TaskResult

pub record App : Type 0 where
  pub tables : Tables
  pub runs : RunManager

-- What the handlers are given: the guardrail, `str.strip`, the number of finished runs that are
-- kept, and `task_service_for`.
pub record Surroundings : Type 0 where
  pub search : Search
  pub mode : GuardrailMode
  pub strip : String → String
  pub keep_done : ℕ
  pub service_for : (task_id tenant_id : String) → (graph : Option String) → Result Service

-- A dict whose keys are the presets that are built, and the spec that a request gets.
unfoldable pub spec_for :
    {Spec : Type 0}
    → (String → Result Spec)
    → Spec
    → Option String
    → List (String × Spec)
    → Result (Spec × List (String × Spec))
spec_for build default_spec none cache = ok (default_spec, cache)
spec_for build default_spec (some graph) cache = elim (get graph cache) [
  | some spec ↦ ok (spec, cache)
  | none ↦ (build graph >>= λ spec. ok (spec, put graph spec cache))
]

category_name : Category → String
category_name injection = "injection"
category_name pii = "pii"

tripwire_detail : GuardrailFinding → String
unfolding category_name ◌⧺◌
tripwire_detail f = "rejected by guardrail: " ⧺ category_name f.category ⧺ " pattern matched"

-- The `except` clause for a tripwire.
reject_tripwire : Result (Option GuardrailFinding) → Result (Unit {0})
unfolding tripwire_detail
reject_tripwire (ok found) = ok tt
reject_tripwire (err (guardrail_tripwire f)) = err (http_exception 400 (tripwire_detail f))
reject_tripwire (err e) = err e

abbrev pub graph_detail : String
graph_detail = "graph must be one of ['full_react', 'goal'] or omitted"

unfoldable pub selectable : Option String → Result (Unit {0})
selectable none = ok tt
selectable (some graph) =
    require (mem_text graph user_selectable_graphs) (http_exception 400 graph_detail)

-- `_validate_graph`
unfoldable pub validate_graph : TaskRequest → Result (Unit {0})
unfolding selectable
validate_graph req = selectable req.graph

owned_by : Option SessionRecord → String → Result (Unit {0})
owned_by none tenant_id = ok tt
owned_by (some r) tenant_id =
    require (str_eq r.tenant_id tenant_id) (http_exception 404 "task not found")

-- `_check_tenant_owns_task`
unfoldable pub check_tenant_owns_task : Tables → String → String → Result (Unit {0})
unfolding owned_by get_session
check_tenant_owns_task tables task_id tenant_id = do
  record_of_task ← get_session task_id (some tables)
  owned_by record_of_task tenant_id

module _ (env : Surroundings) where
  open env use {search, mode, strip, keep_done, service_for}

  -- `_check_input_guardrail`
  unfoldable pub check_input_guardrail : TaskRequest → Result (Unit {0})
  unfolding reject_tripwire check ◌⧺◌
  check_input_guardrail req =
      reject_tripwire (check search mode (req.title ⧺ "\n" ⧺ req.description) input)

  -- The session of a new task, and its link.
  unfoldable pub record_task : (now : ℕ) → String → TaskRequest → Tables → Result Tables
  unfolding create attach_task
  record_task now task_id req tables = do
    made ←
        create strip task_id now (get_default (or_none (some (strip req.title))) task_id)
          (some task_id) req.tenant_id (some tables)
    linked ← attach_task now task_id task_id (some (made.1))
    ok (linked.1)

  with_tables : App → Result Tables → App
  with_tables app (ok tables) = record app { tables = tables }
  with_tables app (err e) = app

  unfoldable pub screen : TaskRequest → Result (Unit {0})
  unfolding check_input_guardrail validate_graph
  screen req = check_input_guardrail req >> validate_graph req

  -- `create_task`
  unfoldable pub create_task : (now : ℕ) → String → TaskRequest → App → Result TaskResult × App
  unfolding screen record_task with_tables
  create_task now task_id req app =
      let recorded = screen req >> record_task now task_id req app.tables in
      (
        (do
          tables ← recorded
          service ← service_for task_id req.tenant_id req.graph
          service.run req task_id),
        with_tables app recorded,
      )

  started : String → App → Result Tables → App
  started task_id app (ok tables) = record {
    tables = tables;
    runs = start keep_done task_id app.runs;
  }
  started task_id app (err e) = app

  -- `stream_task`, whose answer is the id that is subscribed to
  unfoldable pub stream_task : (now : ℕ) → String → TaskRequest → App → Result String × App
  unfolding screen record_task started
  stream_task now task_id req app =
      let recorded = (do
        screen req
        service ← service_for task_id req.tenant_id req.graph
        record_task now task_id req app.tables) in
      ((recorded >>= λ tables. ok task_id), started task_id app recorded)

  -- `resume_stream`: where the subscription starts. `to_last` reads a number, where the text is one
  -- that is not negative.
  unfoldable pub resume_stream :
      (String → Option ℕ) → (header query : Option String) → String → String → App → Result ℕ
  unfolding check_tenant_owns_task lookup
  resume_stream to_last header query task_id tenant_id app = do
    check_tenant_owns_task app.tables task_id tenant_id
    require (not (is_none (lookup task_id app.runs.runs))) (http_exception 409 "run not resumable")
    let raw : Option String = elim header [ some h ↦ some h | none ↦ query ]
    ok (elim (to_last (get_default raw "-1")) [ none ↦ 0 | some last ↦ suc last ])

  -- `cancel_task`
  unfoldable pub cancel_task : String → String → App → Result String
  unfolding check_tenant_owns_task cancel
  cancel_task task_id tenant_id app = do
    check_tenant_owns_task app.tables task_id tenant_id
    require (cancel task_id app.runs) (http_exception 409 "no running task to cancel")
    ok task_id

  is_unseen : TaskResult → Option SessionRecord → Bool
  is_unseen result session = is_empty result.artifacts && is_empty result.events && is_none session

  -- `get_task`
  unfoldable pub get_task : String → String → App → Result TaskResult
  unfolding check_tenant_owns_task is_unseen get_session
  get_task task_id tenant_id app = do
    check_tenant_owns_task app.tables task_id tenant_id
    service ← service_for task_id tenant_id none
    result ← service.snapshot task_id
    session ← get_session task_id (some app.tables)
    require (not (is_unseen result session)) (http_exception 404 "task not found")
    ok result

  -- `resume_task`
  unfoldable pub resume_task : String → String → String → App → Result TaskResult
  unfolding check_tenant_owns_task
  resume_task task_id decision tenant_id app = do
    check_tenant_owns_task app.tables task_id tenant_id
    service ← service_for task_id tenant_id none
    service.resume task_id decision
