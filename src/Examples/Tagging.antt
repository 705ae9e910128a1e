-- ===== src/Examples/Tagging.antt =====
-- The routes of the sessions at concrete inputs.
use goal_driven_agent_room.Base.{true, ◌≡◌, refl, String, List, [], ◌∷◌, mem_text}
use goal_driven_agent_room.Errors.{ok}
use goal_driven_agent_room.Service.Snapshot.{TaskResult, materialize_result}
use goal_driven_agent_room.Server.Api.{Service}
use goal_driven_agent_room.Server.Sessions.{Tables, SessionRecord, find_session}
use goal_driven_agent_room.Server.Compat.{list_session_tasks, create_session_task}
use goal_driven_agent_room.Server.Compat.Missing.{serving, NotFound, missing-NotFound}
use goal_driven_agent_room.Server.Compat.Listing.{create_session_task-listed}
use goal_driven_agent_room.Examples.World.{small_request, small_state}

abbrev tagged : SessionRecord
tagged = record { id = "sess-1"; name = "first"; created_at = 5; tenant_id = "default" }

abbrev one_session : Tables
one_session = record { sessions = tagged ∷ []; links = [] }

abbrev the_result : TaskResult
the_result = materialize_result "task-1" (record { values = small_state; tasks = [] })

abbrev the_service : Service
the_service = record {
  run = λ req id. ok the_result;
  resume = λ id decision. ok the_result;
  snapshot = λ id. ok the_result;
}

missing-NotFound_example : NotFound one_session the_service "sess-2"
unfolding find_session
missing-NotFound_example =
    missing-NotFound one_session the_service "sess-2"
      (record { ids = (refl, tt); links = tt; resolve = tt }) refl

create_session_task-listed_example :
    ((create_session_task 6 "task-1" "sess-1" small_request (serving one_session the_service)).0
      ≡ ok the_result)
    × ((ids : List String) × (list_session_tasks "sess-1" (
            (create_session_task 6 "task-1" "sess-1" small_request
              (serving one_session the_service)).1)
          ≡ ok (record { session_id = "sess-1"; task_ids = ids }))
        × (mem_text "task-1" ids ≡ true))
unfolding find_session
create_session_task-listed_example =
    create_session_task-listed 6 "sess-1" "task-1" small_request one_session the_service tagged refl
