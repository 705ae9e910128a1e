-- ===== src/Runs.antt =====
-- agent_room/server/runs.py: the buffer of a run, the manager of the runs, and what drives one.
-- A run is driven by the list of its frames and by the way in which its producer ends. A condition
-- variable's wait is a later call of `poll`; what is wrapped in the text of a terminal frame is an
-- argument. `tasks` of the event loop are not modelled.
use goal_driven_agent_room.Base.{
  ℕ, ◌+◌, ◌-◌, ◌≡◌, Bool, true, false, not, ◌&&◌, String, Option, none, some, List, [], ◌∷◌, ◌++◌,
  length, drop, max, if◌then◌else◌, ltb, str_eq, get_default,
}
use goal_driven_agent_room.Errors.{Error}
pub mod Buffer
pub mod Eviction

pub record Frame : Type 0 where
  pub event : String
  pub payload : String

-- `_Run`; an event is a frame with its id.
pub record Run : Type 0 where
  pub task_id : String
  pub events : List (ℕ × Frame)
  pub done : Bool
  pub base_seq : ℕ

unfoldable pub new_run : String → Run
new_run task_id = record { task_id = task_id; events = []; done = false; base_seq = 0 }

-- `_append`
unfoldable pub append : ℕ → Run → Frame → Run
append max_buffer run frame =
    let events = run.events ++ ((run.base_seq + length run.events, frame) ∷ []) in
    let excess = length events - max_buffer in
    if ltb max_buffer (length events)
    then record run { events = drop excess events; base_seq = run.base_seq + excess }
    else record run { events = events }

unfoldable pub append_all : ℕ → Run → List Frame → Run
unfolding append
append_all max_buffer run [] = run
append_all max_buffer run (frame ∷ frames) =
    append_all max_buffer (append max_buffer run frame) frames

-- How `produce()` ends: it is exhausted, cancelled, or raises.
pub data Ending : Type 0 where
  exhausted : Ending
  cancelled : Ending
  raised : Error → Ending

-- The terminal frame of `_drive`; `error_data` is the JSON text of the exception.
unfoldable pub terminal : String → (Error → String) → Ending → List Frame
terminal cancel_data error_data exhausted = []
terminal cancel_data error_data cancelled =
    record { event = "task_error"; payload = cancel_data } ∷ []
terminal cancel_data error_data (raised e) =
    record { event = "task_error"; payload = error_data e } ∷ []

-- `_drive`
unfoldable pub drive : ℕ → String → (Error → String) → Run → List Frame → Ending → Run
unfolding append_all terminal
drive max_buffer cancel_data error_data run frames ending =
    record (append_all max_buffer run (frames ++ terminal cancel_data error_data ending)) {
      done = true;
    }

-- One pass of the loop in `subscribe`: the frames that it yields at `idx`. The next pass goes on at
-- `buffered_end`.
unfoldable pub poll : Run → ℕ → List (ℕ × Frame)
poll run idx = drop (idx - run.base_seq) run.events

unfoldable pub first_index : Run → ℕ → ℕ
first_index run resume_from = max resume_from run.base_seq

unfoldable pub buffered_end : Run → ℕ
buffered_end run = run.base_seq + length run.events

-- `RunManager`
pub record RunManager : Type 0 where
  pub runs : List (String × Run)
  pub order : List String

unfoldable pub lookup : String → List (String × Run) → Option Run
lookup t [] = none
lookup t ((k, r) ∷ rest) = if str_eq k t then some r else lookup t rest

-- `self._runs.pop(victim, None)`
unfoldable pub pop_run : String → List (String × Run) → List (String × Run)
pop_run t [] = []
pop_run t ((k, r) ∷ rest) = let tail = pop_run t rest in if str_eq k t then tail else (k, r) ∷ tail

-- `self._runs[task_id] = run`, which keeps the place of a key that is there.
unfoldable pub put_run : String → Run → List (String × Run) → List (String × Run)
put_run t run [] = (t, run) ∷ []
put_run t run ((k, r) ∷ rest) =
    let tail = put_run t run rest in if str_eq k t then (k, run) ∷ rest else (k, r) ∷ tail

-- `self._order.remove(victim)`
unfoldable pub remove_first : String → List String → List String
remove_first t [] = []
remove_first t (k ∷ rest) = let tail = remove_first t rest in if str_eq k t then rest else k ∷ tail

unfoldable pub is_done : List (String × Run) → String → Bool
unfolding lookup
is_done runs t = elim (lookup t runs) [ none ↦ false | some r ↦ r.done ]

unfoldable pub done_ids : List (String × Run) → List String → List String
unfolding is_done
done_ids runs [] = []
done_ids runs (t ∷ ts) = let rest = done_ids runs ts in if is_done runs t then t ∷ rest else rest

-- The loop of `_evict_done` over the finished ids, the oldest first.
unfoldable pub evict : ℕ → List String → RunManager → RunManager
unfolding pop_run remove_first
evict keep_done [] m = m
evict keep_done (victim ∷ later) m =
    let rest =
      evict keep_done later
        (record { runs = pop_run victim m.runs; order = remove_first victim m.order }) in
    if ltb keep_done (length (victim ∷ later)) then rest else m

unfoldable pub evict_done : ℕ → RunManager → RunManager
unfolding evict done_ids
evict_done keep_done m = evict keep_done (done_ids m.runs m.order) m

-- `start`, up to the background task
unfoldable pub start : ℕ → String → RunManager → RunManager
unfolding evict_done put_run new_run
start keep_done task_id m =
    let m' = evict_done keep_done m in
    record { runs = put_run task_id (new_run task_id) m'.runs; order = m'.order ++ (task_id ∷ []) }

-- `cancel`, its answer: whether there is an unfinished run to stop.
unfoldable pub cancel : String → RunManager → Bool
unfolding lookup
cancel t m = elim (lookup t m.runs) [ none ↦ false | some r ↦ not r.done ]
