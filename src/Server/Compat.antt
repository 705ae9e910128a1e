-- ===== src/Server/Compat.antt =====
-- agent_room/server/compat_v1.py: the routes of the sessions. A handler takes the application's state
-- to its answer, or to the exception that it raises; those that change the tables give the state too.
pub mod Missing
pub mod Listing
use goal_driven_agent_room.Base.{
  ℕ, Bool, true, false, not, ◌&&◌, String, Option, none, some, List, [], ◌∷◌, map, blank, is_empty,
  is_none, leb, str_length, if◌then◌else◌,
}
use goal_driven_agent_room.Schemas.{TaskRequest}
use goal_driven_agent_room.Errors.{
  Error, value_error, http_exception, Result, ok, err, ◌>>=◌, ◌>>◌, require,
}
use goal_driven_agent_room.Routers.{Status}
use goal_driven_agent_room.Service.Snapshot.{TaskResult}
use goal_driven_agent_room.Server.Api.{Service}
use goal_driven_agent_room.Server.Sessions.{
  Tables, SessionRecord, SessionTaskLink, SessionStore, create, get_session, list_all, delete,
  attach_task, list_tasks,
}

pub record SessionPayload : Type 0 where
  pub id : String
  pub name : String
  pub created_at : ℕ
  pub status : Option Status

pub record SessionTaskListPayload : Type 0 where
  pub session_id : String
  pub task_ids : List String

-- What the routes read of `app.state`; an attribute may not be set.
pub record AppState : Type 0 where
  pub session_store : Option SessionStore
  pub service : Option Service

-- `SessionPayload.from_record`
unfoldable pub from_record : SessionRecord → Option Status → SessionPayload
from_record rec status = record {
  id = rec.id;
  name = rec.name;
  created_at = rec.created_at;
  status = status;
}

attribute : {A : Type 0} → String → Option A → Result A
attribute detail none = err (http_exception 503 detail)
attribute detail (some a) = ok a

-- `_store`
unfoldable pub store_of : AppState → Result SessionStore
unfolding attribute
store_of app = attribute "session store not initialized" app.session_store

-- `_service`
unfoldable pub service_of : AppState → Result Service
unfolding attribute
service_of app = attribute "service not initialized" app.service

abbrev pub with_tables : AppState → Tables → AppState
with_tables app t = record app { session_store = some (some t) }

abbrev pub status_of : TaskResult → Option Status
status_of snap = if is_empty snap.artifacts && is_empty snap.events then none else some snap.status

payloads : Service → List SessionRecord → Result (List SessionPayload)
unfolding from_record
payloads service [] = ok []
payloads service (r ∷ rs) = service.snapshot r.id >>= λ snap.
    payloads service rs >>= λ rest. ok (from_record r (status_of snap) ∷ rest)

-- `list_sessions`
unfoldable pub list_sessions : AppState → Result (List SessionPayload)
unfolding store_of service_of list_all payloads
list_sessions app = do
  store ← store_of app
  records ← list_all none store
  service ← service_of app
  payloads service records

-- `CreateSessionBody`
unfoldable pub valid_name : String → Result (Unit {0})
unfolding str_length
valid_name name =
    require (leb 1 (str_length name) && leb (str_length name) 200)
      (http_exception 422 "name must have 1 to 200 characters")

abbrev pub unprocessable : {A : Type 0} → Result A → Result A
unprocessable (ok a) = ok a
unprocessable (err (value_error why)) = err (http_exception 422 why)
unprocessable (err e) = err e

after_create : AppState → Result (SessionRecord × Tables) → Result SessionPayload × AppState
unfolding from_record
after_create app (err e) = (err e, app)
after_create app (ok made) = (ok (from_record made.0 none), with_tables app (made.1))

-- `create_session`; `fresh` is what `new_session_id` gives, and `now` the time.
unfoldable pub create_session :
    (String → String)
    → (fresh : String) → (now : ℕ) → String
    → AppState
    → Result SessionPayload × AppState
unfolding valid_name store_of create after_create
create_session strip fresh now name app = after_create app (
    valid_name name
    >> (store_of app >>= λ store. unprocessable (create strip fresh now name none "default" store)))

abbrev pub session_not_found : Error
session_not_found = http_exception 404 "session not found"

abbrev pub found : {A : Type 0} → Option A → Result A
found none = err session_not_found
found (some a) = ok a

-- `get_session`
unfoldable pub show_session : String → AppState → Result SessionPayload
unfolding store_of get_session from_record
show_session session_id app = do
  store ← store_of app
  row ← get_session session_id store
  rec ← found row
  ok (from_record rec none)

after_delete : AppState → Result (Bool × Tables) → Result (Unit {0}) × AppState
after_delete app (err e) = (err e, app)
after_delete app (ok ended) = (require (ended.0) session_not_found, with_tables app (ended.1))

-- `delete_session`
unfoldable pub remove_session : String → AppState → Result (Unit {0}) × AppState
unfolding store_of delete after_delete
remove_session session_id app = after_delete app (store_of app >>= λ store. delete session_id store)

-- `list_session_tasks`
unfoldable pub list_session_tasks : String → AppState → Result SessionTaskListPayload
unfolding store_of get_session list_tasks
list_session_tasks session_id app = do
  store ← store_of app
  row ← get_session session_id store
  rec ← found row
  links ← list_tasks session_id store
  ok (record { session_id = session_id; task_ids = map (λ (l : SessionTaskLink). l.task_id) links })

after_attach :
    TaskRequest → String → AppState → Result (Service × Tables) → Result TaskResult × AppState
after_attach req task_id app (err e) = (err e, app)
after_attach req task_id app (ok linked) = ((linked.0).run req task_id, with_tables app (linked.1))

-- `create_session_task`; `task_id` is what `new_task_id` gives.
unfoldable pub create_session_task :
    (now : ℕ) → (task_id : String) → String → TaskRequest → AppState → Result TaskResult × AppState
unfolding store_of service_of get_session attach_task after_attach
create_session_task now task_id session_id req app = after_attach req task_id app (do
  store ← store_of app
  service ← service_of app
  row ← get_session session_id store
  rec ← found row
  linked ← attach_task now session_id task_id store
  ok (service, linked.1))

abbrev pub decision_text : (String → String) → Option String → Result String
decision_text strip none = err (http_exception 422 "decision must be a non-empty string")
decision_text strip (some decision) =
    if blank (strip decision)
    then err (http_exception 422 "decision must be a non-empty string")
    else ok decision

-- `resume_session_task`; the decision is `none` where it is missing or not a string.
unfoldable pub resume_session_task :
    (String → String)
    → (session_id task_id : String) → (decision : Option String) → AppState
    → Result TaskResult
unfolding store_of service_of get_session
resume_session_task strip session_id task_id decision app = do
  store ← store_of app
  service ← service_of app
  row ← get_session session_id store
  rec ← found row
  text ← decision_text strip decision
  service.resume task_id text
