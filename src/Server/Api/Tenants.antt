-- ===== src/Server/Api/Tenants.antt =====
-- agent_room/server/api.py: requests that name another tenant than the one of the task.
use mathlib.Core.Path.{subst}
use goal_driven_agent_room.Base.{
  ℕ, false, ◌≡◌, ◌↔◌, ◌⊎◌, refl, sym, ap, ◌∙◌, inl, inr, Bool, String, Option, none, some, str_eq,
  eq_iff, or_none, get_default,
}
use goal_driven_agent_room.Schemas.{TaskRequest}
use goal_driven_agent_room.Errors.{
  Error, http_exception, ok, err, ◌>>◌, ◌>>=◌, >>=-ok, require-ok, ok-injective,
}
use goal_driven_agent_room.Server.Sessions.{
  Tables, SessionRecord, find_session, get_session, connected, create, attach_task,
}
use goal_driven_agent_room.Server.Sessions.Steps.{Steps, create-id, attach_task-ok}
use goal_driven_agent_room.Server.Sessions.Ownership.{SparesAll, Steps-keep, create-get_session}
use goal_driven_agent_room.Service.Snapshot.{TaskResult}
use goal_driven_agent_room.Server.Api.{
  App, Surroundings, owned_by, check_tenant_owns_task, screen, record_task, create_task,
  stream_task, resume_stream, cancel_task, get_task, resume_task, with_tables, started,
}

-- What a task's request needs of the tables: no session has its id, or that session is the tenant's.
abbrev pub IsOpenTo : Tables → String → String → Type 0
IsOpenTo tables task_id tenant_id =
    (find_session task_id tables.sessions ≡ none)
    ⊎ ((r : SessionRecord) × (find_session task_id tables.sessions ≡ some r)
        × (r.tenant_id ≡ tenant_id))

owned_by-ok :
    (o : Option SessionRecord) (tenant_id : String)
    → owned_by o tenant_id ≡ ok tt
    → (o ≡ none) ⊎ ((r : SessionRecord) × (o ≡ some r) × (r.tenant_id ≡ tenant_id))
unfolding owned_by
owned_by-ok none tenant_id h = inl refl
owned_by-ok (some r) tenant_id h =
    inr (r, refl, (eq_iff r.tenant_id tenant_id).0 (require-ok (str_eq r.tenant_id tenant_id) _ h))

-- The check lets a request through exactly when no session has the task's id, as after the session
-- is deleted, or the session is the tenant's.
pub check_tenant_owns_task_iff :
    (tables : Tables) (task_id tenant_id : String)
    → (check_tenant_owns_task tables task_id tenant_id ≡ ok tt) ↔ IsOpenTo tables task_id tenant_id
unfolding check_tenant_owns_task get_session connected owned_by
check_tenant_owns_task_iff tables task_id tenant_id = (
  λ h. owned_by-ok (find_session task_id tables.sessions) tenant_id h,
  λ h. elim h [
    | inl gone ↦ rw gone
    | inr (r, found, own) ↦ rw (found, (eq_iff r.tenant_id tenant_id).1 own)
  ],
)

abbrev pub not_found : Error
not_found = http_exception 404 "task not found"

check_tenant_owns_task-foreign :
    (tables : Tables) (task_id tenant_id : String) (r : SessionRecord)
    → find_session task_id tables.sessions ≡ some r
    → str_eq r.tenant_id tenant_id ≡ false
    → check_tenant_owns_task tables task_id tenant_id ≡ err not_found
unfolding check_tenant_owns_task get_session connected owned_by
check_tenant_owns_task-foreign tables task_id tenant_id r found other = rw (found, other)

get_session-find :
    (id : String) (t : Tables) (o : Option SessionRecord)
    → get_session id (some t) ≡ ok o
    → find_session id t.sessions ≡ o
unfolding get_session connected
get_session-find id t o h = ok-injective h

module _ (env : Surroundings) where
  -- All the requests on a task are answered with 404.
  abbrev pub Rejects : String → String → App → Type 0
  Rejects task_id tenant_id app =
      (get_task env task_id tenant_id app ≡ err not_found)
      × (cancel_task env task_id tenant_id app ≡ err not_found)
      × ((decision : String) → resume_task env task_id decision tenant_id app ≡ err not_found)
      × ((to_last : String → Option ℕ) (header query : Option String)
          → resume_stream env to_last header query task_id tenant_id app ≡ err not_found)

  foreign-Rejects :
      (task_id tenant_id : String) (app : App) (r : SessionRecord)
      → find_session task_id app.tables.sessions ≡ some r
      → str_eq r.tenant_id tenant_id ≡ false
      → Rejects task_id tenant_id app
  unfolding get_task cancel_task resume_task resume_stream
  foreign-Rejects task_id tenant_id app r found other =
      let denied = check_tenant_owns_task-foreign app.tables task_id tenant_id r found other in
      (rw denied, rw denied, λ decision. rw denied, λ to_last header query. rw denied)

  same_id : (task_id : String) → get_default (or_none (some task_id)) task_id ≡ task_id
  same_id String.[] = refl
  same_id (String.◌∷◌ c s) = refl

  attach-found :
      (now : ℕ) (task_id : String) (t t' : Tables) (b : Bool) (r : SessionRecord)
      → attach_task now task_id task_id (some t) ≡ ok (b, t')
      → find_session task_id t.sessions ≡ some r
      → find_session task_id t'.sessions ≡ some r
  attach-found now task_id t t' b r h found = elim (attach_task-ok now task_id task_id b t t' h) [
    | inl same ↦ ap (λ (x : Tables). find_session task_id x.sessions) (sym same) ∙ found
    | inr (there, fresh, same) ↦
        ap (λ (x : Tables). find_session task_id x.sessions) (sym same) ∙ found
  ]

  record_task-found :
      (now : ℕ) (task_id : String) (req : TaskRequest) (t t' : Tables)
      → record_task env now task_id req t ≡ ok t'
      → (r : SessionRecord) × (find_session task_id t'.sessions ≡ some r)
        × (r.tenant_id ≡ req.tenant_id)
  unfolding record_task
  record_task-found now task_id req t t' h =
      let ((r, t1), made, rest) =
        >>=-ok (create env.strip task_id now _ (some task_id) req.tenant_id (some t)) _ h in
      let ((b, t2), linked, last) = >>=-ok (attach_task now task_id task_id (some t1)) _ rest in
      let (got, owner) =
        create-get_session env.strip task_id now _ (some task_id) req.tenant_id t t1 r made in
      let named =
        sym (same_id task_id)
        ∙ create-id env.strip task_id now _ (some task_id) req.tenant_id t t1 r made in
      let first =
        ap (λ i. find_session i t1.sessions) named ∙ get_session-find r.id t1 (some r) got in
      let second = attach-found now task_id t1 t2 b r linked first in
      (
        r,
        ap (λ (x : Tables). find_session task_id x.sessions) (sym (ok-injective last)) ∙ second,
        owner,
      )

  -- A session of the tenant of a request.
  abbrev pub HasSession : String → TaskRequest → App → Type 0
  HasSession task_id req app =
      (r : SessionRecord) × (find_session task_id app.tables.sessions ≡ some r)
      × (r.tenant_id ≡ req.tenant_id)

  create_task-HasSession :
      (now : ℕ) (task_id : String) (req : TaskRequest) (app : App) (result : TaskResult)
      → (create_task env now task_id req app).0 ≡ ok result
      → HasSession task_id req ((create_task env now task_id req app).1)
  unfolding create_task with_tables
  create_task-HasSession now task_id req app result h =
      let recorded = screen env req >> record_task env now task_id req app.tables in
      let (tables, made, rest) = >>=-ok recorded _ h in
      let (u, screened, stored) = >>=-ok (screen env req) _ made in
      subst (λ x. HasSession task_id req (with_tables env app x)) (sym made)
        (record_task-found now task_id req app.tables tables stored)

  stream_task-HasSession :
      (now : ℕ) (task_id : String) (req : TaskRequest) (app : App) (answer : String)
      → (stream_task env now task_id req app).0 ≡ ok answer
      → HasSession task_id req ((stream_task env now task_id req app).1)
  unfolding stream_task started
  stream_task-HasSession now task_id req app answer h =
      let recorded =
        screen env req
        >> (env.service_for task_id req.tenant_id req.graph >>= λ service.
            record_task env now task_id req app.tables) in
      let (tables, made, rest) = >>=-ok recorded _ h in
      let (u, screened, served) = >>=-ok (screen env req) _ made in
      let (service, compiled, stored) =
        >>=-ok (env.service_for task_id req.tenant_id req.graph) _ served in
      subst (λ x. HasSession task_id req (started env task_id app x)) (sym made)
        (record_task-found now task_id req app.tables tables stored)

  after-Rejects :
      (task_id other : String) (req : TaskRequest) (app later : App)
      → HasSession task_id req app
      → (steps : Steps env.strip app.tables later.tables) → SparesAll env.strip task_id steps
      → str_eq req.tenant_id other ≡ false
      → Rejects task_id other later
  after-Rejects task_id other req app later (r, found, owner) steps spares differs =
      foreign-Rejects task_id other later r
        (Steps-keep env.strip task_id r app.tables later.tables steps spares found)
        (ap (λ x. str_eq x other) owner ∙ differs)

  made-HasSession :
      (now : ℕ) (task_id : String) (req : TaskRequest) (app made : App)
      → ((result : TaskResult) × (create_task env now task_id req app ≡ (ok result, made)))
        ⊎ ((answer : String) × (stream_task env now task_id req app ≡ (ok answer, made)))
      → HasSession task_id req made
  made-HasSession now task_id req app made (inl (result, h)) =
      subst (HasSession task_id req) (ap (λ p. p.1) h)
        (create_task-HasSession now task_id req app result (ap (λ p. p.0) h))
  made-HasSession now task_id req app made (inr (answer, h)) =
      subst (HasSession task_id req) (ap (λ p. p.1) h)
        (stream_task-HasSession now task_id req app answer (ap (λ p. p.0) h))

  -- After a task is created or streamed, and after any later calls on the sessions but the deletion
  -- of its own, every request on the task that names another tenant is answered with 404.
  pub created-Rejects :
      (now : ℕ) (task_id other : String) (req : TaskRequest) (app made later : App)
      → ((result : TaskResult) × (create_task env now task_id req app ≡ (ok result, made)))
        ⊎ ((answer : String) × (stream_task env now task_id req app ≡ (ok answer, made)))
      → (steps : Steps env.strip made.tables later.tables) → SparesAll env.strip task_id steps
      → str_eq req.tenant_id other ≡ false
      → Rejects task_id other later
  created-Rejects now task_id other req app made later h steps spares differs =
      after-Rejects task_id other req made later (made-HasSession now task_id req app made h) steps
        spares differs
