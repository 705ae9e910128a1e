-- ===== src/Server/Compat/Missing.antt =====
-- agent_room/server/compat_v1.py: requests on a session that is not there.
use goal_driven_agent_room.Base.{
  ℕ, ◌≡◌, refl, sym, ap, ◌∙◌, inl, inr, String, Option, none, some, List, [], ◌∷◌, str_eq, eq_iff,
  is_none, Bool-cases,
}
use goal_driven_agent_room.Schemas.{TaskRequest}
use goal_driven_agent_room.Errors.{err}
use goal_driven_agent_room.Server.Api.{Service}
use goal_driven_agent_room.Server.Sessions.{
  SessionRecord, SessionTaskLink, Tables, find_session, delete_session, delete_links, connected,
  get_session, delete,
}
use goal_driven_agent_room.Server.Sessions.Invariant.{IsConsistent, Resolve}
use goal_driven_agent_room.Server.Compat.{
  AppState, store_of, service_of, session_not_found, show_session, remove_session,
  list_session_tasks, create_session_task, resume_session_task,
}

delete_session-missing :
    (id : String) (rs : List SessionRecord) → find_session id rs ≡ none → delete_session id rs ≡ rs
unfolding find_session delete_session
delete_session-missing id [] h = refl
delete_session-missing id (r ∷ rs) h = elim (Bool-cases (str_eq r.id id)) [
  | inl here ↦ absurd (cc (rw here at h))
  | inr other ↦ rw (other, delete_session-missing id rs (rw other at h))
]

delete_links-missing :
    (id : String) (rs : List SessionRecord) (ls : List SessionTaskLink)
    → find_session id rs ≡ none
    → Resolve rs ls
    → delete_links id ls ≡ ls
unfolding delete_links
delete_links-missing id rs [] h resolve = refl
delete_links-missing id rs (l ∷ ls) h resolve = elim (Bool-cases (str_eq l.session_id id)) [
  | inl here ↦ absurd (
      cc (
        sym (resolve.0)
        ∙ ap (λ x. is_none (find_session x rs)) ((eq_iff l.session_id id).0 here)
        ∙ ap is_none h))
  | inr other ↦ rw (other, delete_links-missing id rs ls h (resolve.1))
]

-- The application once it has started.
abbrev pub serving : Tables → Service → AppState
serving t service = record { session_store = some (some t); service = some service }

module _ (t : Tables) (service : Service) where
  -- Every request on a session is answered with 404, and those that may change the state do not.
  abbrev pub NotFound : String → Type 0
  NotFound id =
      (show_session id (serving t service) ≡ err session_not_found)
      × (remove_session id (serving t service) ≡ (err session_not_found, serving t service))
      × (list_session_tasks id (serving t service) ≡ err session_not_found)
      × ((now : ℕ) (task_id : String) (req : TaskRequest)
          → create_session_task now task_id id req (serving t service)
            ≡ (err session_not_found, serving t service))
      × ((strip : String → String) (task_id : String) (decision : Option String)
          → resume_session_task strip id task_id decision (serving t service)
            ≡ err session_not_found)

  remove_session-missing :
      (id : String)
      → IsConsistent t
      → find_session id t.sessions ≡ none
      → remove_session id (serving t service) ≡ (err session_not_found, serving t service)
  unfolding remove_session store_of delete connected
  remove_session-missing id valid h = rw (
    h,
    delete_session-missing id t.sessions h,
    delete_links-missing id t.sessions t.links h valid.resolve,
  )

  -- When the tables are consistent and hold no session of an id, every route on this session
  -- answers with 404, and those that may change the state leave it as it is.
  pub missing-NotFound :
      (id : String) → IsConsistent t → find_session id t.sessions ≡ none → NotFound id
  unfolding show_session list_session_tasks create_session_task resume_session_task store_of
      service_of get_session connected
  missing-NotFound id valid h = (
    rw h,
    remove_session-missing id valid h,
    rw h,
    λ now task_id req. rw h,
    λ strip task_id decision. rw h,
  )
