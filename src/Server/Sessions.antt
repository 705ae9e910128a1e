-- ===== src/Server/Sessions.antt =====
-- agent_room/server/sessions.py: the two tables, with what their keys and the SQL statements ask
-- for. A time is a number, rows of equal times stand in the order of their insertion, and a store
-- that is not initialized is `none`.
pub mod Invariant
pub mod Steps
pub mod Ownership
pub mod Listing
use goal_driven_agent_room.Base.{
  ℕ, Bool, true, false, not, ◌&&◌, ◌||◌, String, Option, none, some, List, [], ◌∷◌, ◌++◌, str_eq,
  is_empty, is_none, length, blank, or_none, get_default, if◌then◌else◌, ltb, ◌==◌,
}
use goal_driven_agent_room.Errors.{
  value_error, runtime_error, integrity_error, Result, ok, err, ◌>>=◌, ◌>>◌, require,
}

pub record SessionRecord : Type 0 where
  pub id : String
  pub name : String
  pub created_at : ℕ
  pub tenant_id : String

pub record SessionTaskLink : Type 0 where
  pub session_id : String
  pub task_id : String
  pub attached_at : ℕ

-- `agent_room_sessions` and `agent_room_session_tasks`
pub record Tables : Type 0 where
  pub sessions : List SessionRecord
  pub links : List SessionTaskLink

abbrev pub SessionStore : Type 0
SessionStore = Option Tables

unfoldable pub initialize : SessionStore
initialize = some (record { sessions = []; links = [] })

-- `SELECT ... WHERE id = ?`
unfoldable pub find_session : String → List SessionRecord → Option SessionRecord
find_session id [] = none
find_session id (r ∷ rs) =
    let later = find_session id rs in if str_eq r.id id then some r else later

-- `DELETE ... WHERE id = ?`
unfoldable pub delete_session : String → List SessionRecord → List SessionRecord
delete_session id [] = []
delete_session id (r ∷ rs) =
    let later = delete_session id rs in if str_eq r.id id then later else r ∷ later

-- `ON DELETE CASCADE`
unfoldable pub delete_links : String → List SessionTaskLink → List SessionTaskLink
delete_links id [] = []
delete_links id (l ∷ ls) =
    let later = delete_links id ls in if str_eq l.session_id id then later else l ∷ later

-- `PRIMARY KEY (session_id, task_id)`
unfoldable pub has_link : String → String → List SessionTaskLink → Bool
has_link session_id task_id [] = false
has_link session_id task_id (l ∷ ls) =
    let later = has_link session_id task_id ls in
    (str_eq l.session_id session_id && str_eq l.task_id task_id) || later

-- The rows in the order of `ORDER BY ... DESC`.
insert_desc : {A : Type 0} → (A → ℕ) → A → List A → List A
insert_desc time r [] = r ∷ []
insert_desc time r (s ∷ ss) =
    let later = insert_desc time r ss in if ltb (time r) (time s) then s ∷ later else r ∷ s ∷ ss

unfoldable pub order_desc : {A : Type 0} → (A → ℕ) → List A → List A
unfolding insert_desc
order_desc time [] = []
order_desc time (r ∷ rs) = insert_desc time r (order_desc time rs)

unfoldable pub of_tenant : String → List SessionRecord → List SessionRecord
of_tenant tenant [] = []
of_tenant tenant (r ∷ rs) =
    let later = of_tenant tenant rs in if str_eq r.tenant_id tenant then r ∷ later else later

unfoldable pub of_session : String → List SessionTaskLink → List SessionTaskLink
of_session id [] = []
of_session id (l ∷ ls) =
    let later = of_session id ls in if str_eq l.session_id id then l ∷ later else later

-- The tables of a store that is initialized.
unfoldable pub connected : SessionStore → Result Tables
connected none = err (runtime_error "SessionStore not initialized")
connected (some t) = ok t

-- The `INSERT` of a session.
unfoldable pub insert_session : SessionRecord → Tables → Result Tables
unfolding find_session
insert_session r t =
    if is_none (find_session r.id t.sessions)
    then ok (record t { sessions = t.sessions ++ (r ∷ []) })
    else err (integrity_error "UNIQUE constraint failed: agent_room_sessions.id")

abbrev pub row_of : String → String → ℕ → String → SessionRecord
row_of id name now tenant_id = record {
  id = id;
  name = name;
  created_at = now;
  tenant_id = tenant_id;
}

-- `create`, with the tables after it; `fresh` is what `new_session_id` gives, and `now` the time.
unfoldable pub create :
    (String → String)
    → (fresh : String) → (now : ℕ) → (name : String) → (session_id : Option String)
    → (tenant_id : String) → SessionStore
    → Result (SessionRecord × Tables)
unfolding connected insert_session
create strip fresh now name session_id tenant_id store = do
  t ← connected store
  require (not (blank (strip name))) (value_error "session name must not be empty")
  let r = row_of (get_default (or_none session_id) fresh) (strip name) now tenant_id
  t' ← insert_session r t
  ok (r, t')

-- `get`
unfoldable pub get_session : String → SessionStore → Result (Option SessionRecord)
unfolding connected find_session
get_session id store = do t ← connected store; ok (find_session id t.sessions)

rows_of : Option String → Tables → List SessionRecord
unfolding of_tenant
rows_of none t = t.sessions
rows_of (some tenant) t = of_tenant tenant t.sessions

-- `list_all`
unfoldable pub list_all : Option String → SessionStore → Result (List SessionRecord)
unfolding connected rows_of order_desc
list_all tenant_id store = do
  t ← connected store
  ok (order_desc (λ (r : SessionRecord). r.created_at) (rows_of tenant_id t))

-- `delete`: whether a row was removed, and the tables.
unfoldable pub delete : String → SessionStore → Result (Bool × Tables)
unfolding connected find_session delete_session delete_links
delete id store = do
  t ← connected store
  ok (
    not (is_none (find_session id t.sessions)),
    record { sessions = delete_session id t.sessions; links = delete_links id t.links },
  )

-- `INSERT OR IGNORE`
unfoldable pub insert_or_ignore : SessionTaskLink → Tables → Tables
unfolding has_link
insert_or_ignore l t =
    if has_link l.session_id l.task_id t.links then t else record t { links = t.links ++ (l ∷ []) }

-- `attach_task`
unfoldable pub attach_task : (now : ℕ) → String → String → SessionStore → Result (Bool × Tables)
unfolding connected find_session insert_or_ignore
attach_task now session_id task_id store = do
  t ← connected store
  let link : SessionTaskLink = record {
    session_id = session_id;
    task_id = task_id;
    attached_at = now;
  }
  if is_none (find_session session_id t.sessions)
      then ok (false, t)
      else ok (true, insert_or_ignore link t)

-- `list_tasks`
unfoldable pub list_tasks : String → SessionStore → Result (List SessionTaskLink)
unfolding connected of_session order_desc
list_tasks session_id store = do
  t ← connected store
  ok (order_desc (λ (l : SessionTaskLink). l.attached_at) (of_session session_id t.links))
