-- ===== src/Server/Compat/Listing.antt =====
-- agent_room/server/compat_v1.py: a task that is created in a session.
use goal_driven_agent_room.Base.{
  ℕ, true, ◌≡◌, refl, ap, ◌∙◌, String, some, List, mem_text, is_none, Bool-cases, inl, inr,
}
use goal_driven_agent_room.Schemas.{TaskRequest}
use goal_driven_agent_room.Errors.{ok}
use goal_driven_agent_room.Server.Api.{Service}
use goal_driven_agent_room.Server.Sessions.{
  SessionRecord, Tables, find_session, connected, get_session, attach_task, list_tasks,
  insert_or_ignore, order_desc, of_session, SessionTaskLink, has_link,
}
use goal_driven_agent_room.Server.Sessions.Listing.{
  task_ids, list_tasks-has_link, attach_task-has_link,
}
use goal_driven_agent_room.Server.Compat.{
  store_of, service_of, list_session_tasks, create_session_task,
}
use goal_driven_agent_room.Server.Compat.Missing.{serving}

abbrev link_of : String → String → ℕ → SessionTaskLink
link_of session task now = record { session_id = session; task_id = task; attached_at = now }

insert_or_ignore-sessions :
    (l : SessionTaskLink) (t : Tables) → (insert_or_ignore l t).sessions ≡ t.sessions
unfolding insert_or_ignore
insert_or_ignore-sessions l t = elim (Bool-cases (has_link l.session_id l.task_id t.links)) [
  | inl linked ↦ rw linked
  | inr fresh ↦ rw fresh
]

attach_task-there :
    (now : ℕ) (session task : String) (t : Tables) (r : SessionRecord)
    → find_session session t.sessions ≡ some r
    → attach_task now session task (some t)
      ≡ ok (true, insert_or_ignore (link_of session task now) t)
unfolding attach_task connected
attach_task-there now session task t r h = rw h

list_session_tasks-mem :
    (session task : String) (t : Tables) (service : Service) (r : SessionRecord)
    → find_session session t.sessions ≡ some r
    → has_link session task t.links ≡ true
    → (ids : List String) × (list_session_tasks session (serving t service)
        ≡ ok (record { session_id = session; task_ids = ids }))
      × (mem_text task ids ≡ true)
unfolding list_session_tasks store_of get_session connected list_tasks
list_session_tasks-mem session task t service r h linked =
    let ls = order_desc (λ (l : SessionTaskLink). l.attached_at) (of_session session t.links) in
    (task_ids ls, rw h, list_tasks-has_link session task t ls refl ∙ linked)

-- A task that is created in a session that is there runs as it was asked for, whatever its text,
-- and afterwards, also when the run has raised, the session lists it.
pub create_session_task-listed :
    (now : ℕ) (session task : String) (req : TaskRequest) (t : Tables) (service : Service)
    (r : SessionRecord)
    → find_session session t.sessions ≡ some r
    → ((create_session_task now task session req (serving t service)).0 ≡ service.run req task)
      × ((ids : List String) × (list_session_tasks session
              ((create_session_task now task session req (serving t service)).1)
            ≡ ok (record { session_id = session; task_ids = ids }))
          × (mem_text task ids ≡ true))
unfolding create_session_task store_of service_of get_session connected
create_session_task-listed now session task req t service r h =
    let link = link_of session task now in
    let after = insert_or_ignore link t in
    let attached = attach_task-there now session task t r h in
    let linked = attach_task-has_link now session task true t after (ap is_none h) attached in
    let there =
      ap (λ (x : List SessionRecord). find_session session x) (insert_or_ignore-sessions link t)
      ∙ h in
    rw h (refl, list_session_tasks-mem session task after service r there linked)
