-- ===== src/State.antt =====
-- agent_room/state.py: the state that every node reads and writes, and how an update is merged.
-- A key that the TypedDict may lack is `none` where the code distinguishes it by a default.
mod Reducers
pub use Reducers.{events_soft_cap, capped_append-length_le, capped_append_assoc}
unfoldable pub use Reducers.{capped_append}
use goal_driven_agent_room.Base.{
  ℕ, Bool, String, Option, none, some, List, [], ◌∷◌, ◌++◌, get_default, ◌≡◌,
}
use goal_driven_agent_room.Schemas.{
  Artifact, Event, Message, ReviewerDecision, StuckDecision, VerificationResult,
}

pub record TaskState : Type 0 where
  pub title : String
  pub description : String
  pub plan : Option String
  pub code : Option String
  pub review : Option ReviewerDecision
  pub delivery : Option String
  pub revision_round : Option ℕ
  pub max_revisions : Option ℕ
  pub artifacts : List Artifact
  pub events : List Event
  pub user_directives : List String
  pub open_questions : List String
  pub dev_messages : List Message
  pub dev_round : Option ℕ
  pub verify_command : Option String
  pub verify_files : List (String × String)
  pub verification : Option VerificationResult
  pub verify_round : Option ℕ
  pub max_iterations : Option ℕ
  pub stuck_decision : Option StuckDecision

-- One key of the dict that a node returns.
pub data Write : Type 0 where
  plan : String → Write
  code : String → Write
  review : Option ReviewerDecision → Write
  delivery : String → Write
  revision_round : ℕ → Write
  artifacts : List Artifact → Write
  events : List Event → Write
  user_directives : List String → Write
  open_questions : List String → Write
  dev_messages : List Message → Write
  dev_round : ℕ → Write
  verification : Option VerificationResult → Write
  verify_round : ℕ → Write
  stuck_decision : Option StuckDecision → Write

abbrev pub Update : Type 0
Update = List Write

-- The reducer of each key: `add`, `capped_append(EVENTS_SOFT_CAP)`, or the new value.
unfoldable pub reduce : TaskState → Write → TaskState
unfolding capped_append
reduce s (plan p) = record s { plan = some p }
reduce s (code c) = record s { code = some c }
reduce s (review r) = record s { review = r }
reduce s (delivery d) = record s { delivery = some d }
reduce s (revision_round n) = record s { revision_round = some n }
reduce s (artifacts l) = record s { artifacts = s.artifacts ++ l }
reduce s (events l) = record s { events = capped_append events_soft_cap s.events l }
reduce s (user_directives l) = record s { user_directives = s.user_directives ++ l }
reduce s (open_questions l) = record s { open_questions = l }
reduce s (dev_messages l) = record s { dev_messages = s.dev_messages ++ l }
reduce s (dev_round n) = record s { dev_round = some n }
reduce s (verification v) = record s { verification = v }
reduce s (verify_round n) = record s { verify_round = some n }
reduce s (stuck_decision d) = record s { stuck_decision = d }

unfoldable pub merge : TaskState → Update → TaskState
unfolding reduce
merge s [] = s
merge s (w ∷ u) = merge (reduce s w) u

-- `state.get(key, default)` of the counters, with the defaults that the code gives.
abbrev pub revision_round_of : TaskState → ℕ
revision_round_of s = get_default s.revision_round 0

abbrev pub max_revisions_of : TaskState → ℕ
max_revisions_of s = get_default s.max_revisions 2

abbrev pub verify_round_of : TaskState → ℕ
verify_round_of s = get_default s.verify_round 0

abbrev pub max_iterations_of : TaskState → ℕ
max_iterations_of s = get_default s.max_iterations 10

abbrev pub dev_round_of : TaskState → ℕ
dev_round_of s = get_default s.dev_round 0
