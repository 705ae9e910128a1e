-- ===== src/Examples/Streams.antt =====
-- The run buffer and the budget at short sequences.
use goal_driven_agent_room.Base.{
  ℕ, ◌+◌, true, false, String, none, some, List, [], ◌∷◌, ◌≡◌, refl, length, arith, ltb,
}
use goal_driven_agent_room.Errors.{Error}
use goal_driven_agent_room.Runs.{
  Frame, Run, RunManager, poll, buffered_end, append_all, new_run, lookup, start, cancel,
}
use goal_driven_agent_room.Runs.Buffer.{IsLog, numbered, poll-next}
use goal_driven_agent_room.Runs.Eviction.{start-keeps_live}
use goal_driven_agent_room.Budget.{Money, Usage, Budget, Tracker}

abbrev frame : String → Frame
frame name = record { event = name; payload = "{}" }

abbrev frames : List Frame
frames = frame "plan_completed" ∷ frame "code_completed" ∷ frame "review_completed" ∷ []

abbrev no_data : Error → String
no_data e = "error"

-- A run that holds the last two of three frames.
abbrev held : Run
held = record {
  task_id = "t1";
  events = (1, frame "code_completed") ∷ (2, frame "review_completed") ∷ [];
  done = false;
  base_seq = 1;
}

held-IsLog : IsLog 2 held frames
unfolding IsLog
held-IsLog = (refl, refl)

abbrev further : List Frame
further = frame "delivery_completed" ∷ []

poll-next_example :
    poll (append_all 2 held further) (buffered_end held) ≡ numbered (length frames) further
poll-next_example = poll-next 2 held frames further held-IsLog (omega arith)

abbrev ended : Run
ended = record held { done = true }

abbrev manager : RunManager
manager = record { runs = ("t0", ended) ∷ ("t1", held) ∷ []; order = "t0" ∷ "t1" ∷ [] }

start-keeps_live_example :
    (lookup "t2" (start 0 "t2" manager).runs ≡ some (new_run "t2"))
    × (lookup "t1" (start 0 "t2" manager).runs ≡ some held)
    × (cancel "t1" (start 0 "t2" manager) ≡ true)
unfolding lookup
start-keeps_live_example = start-keeps_live 0 "t2" "t1" manager held refl refl refl

abbrev pub cents : Money
cents = record {
  Amount = ℕ;
  nothing = 0;
  plus = λ a b. a + b;
  exceeds = λ a b. ltb b a;
  price = λ n p. n + p;
}

abbrev hundred_tokens : Budget cents
hundred_tokens = record {
  max_tokens_of = some 100;
  max_tool_calls_of = none;
  max_cost_of = none;
  price_per_1k_input = none;
  price_per_1k_output = none;
}

abbrev fresh : Tracker cents
fresh = record { budget = some hundred_tokens; tokens = 0; tool_calls = 0; cost = 0 }

abbrev two_calls : List Usage
two_calls =
    record { prompt_tokens = 30; completion_tokens = 10; total_tokens = 40; cached_tokens = 0 }
    ∷ record { prompt_tokens = 40; completion_tokens = 10; total_tokens = 50; cached_tokens = 0 }
    ∷ []
