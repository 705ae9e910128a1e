-- ===== src/Events/Formatter.antt =====
-- agent_room/events.py: `StreamEventFormatter`, which keeps one scrubber for each task.
pub mod Scrubbing
use goal_driven_agent_room.Base.{
  Bool, true, false, String, Option, none, some, List, [], ◌∷◌, ◌++◌, get, put, get_default, blank,
  or_none, if◌then◌else◌,
}
use goal_driven_agent_room.Schemas.{Content}
use goal_driven_agent_room.Events.{
  RawEvent, StreamEvent, Shown, token, format_stream_event, node_start, node_end,
  verification_completed, supervisor_decided, tool_call, tool_result, usage,
}

-- `StreamingContextScrubber`: its state, and the texts that it releases.
pub record Scrubber : Type 1 where
  pub State : Type 0
  pub initial : State
  pub feed : State → String → String × State
  pub flush : State → String × State

-- `_scrubber_key`
unfoldable pub scrubber_key : Option String → String
scrubber_key task_id = get_default (or_none task_id) "__default__"

-- An event that is yielded, if there is one, before the later ones.
abbrev pub cons_if : Option StreamEvent → List StreamEvent → List StreamEvent
cons_if none later = later
cons_if (some e) later = e ∷ later

module _ (scrubber : Scrubber) where
  open scrubber use {State, initial, feed}

  pub record Formatter : Type 0 where
    pub scrubbers : List (String × State)
    pub last_token_meta : List (String × (Option String × Option String))

  unfoldable pub new_formatter : Formatter
  new_formatter = record { scrubbers = []; last_token_meta = [] }

  -- The scrubber of a key, which is new where there is none.
  unfoldable pub scrubber_of : String → Formatter → State
  scrubber_of key f = get_default (get key f.scrubbers) initial

  -- What is done with the text of a token.
  scrub : Option String → Option String → String → Formatter → Option StreamEvent × Formatter
  unfolding scrubber_key scrubber_of
  scrub role task_id piece f =
      let key = scrubber_key task_id in
      let fed = feed (scrubber_of key f) piece in
      (
        (if blank (fed.0)
            then none
            else some (record { shown = token role (fed.0); task_id = task_id })),
        record {
          scrubbers = put key (fed.1) f.scrubbers;
          last_token_meta = put key (role, task_id) f.last_token_meta;
        },
      )

  pass_shown : Shown → Option String → Formatter → Option StreamEvent × Formatter
  unfolding scrub
  pass_shown (token role piece) task_id f = scrub role task_id piece f
  pass_shown s task_id f = (some (record { shown = s; task_id = task_id }), f)

  pass : Option StreamEvent → Formatter → Option StreamEvent × Formatter
  unfolding pass_shown
  pass none f = (none, f)
  pass (some e) f = pass_shown e.shown e.task_id f

  -- `format`
  unfoldable pub format : (Content → String) → RawEvent → Formatter → Option StreamEvent × Formatter
  unfolding pass format_stream_event
  format show_content e f = pass (format_stream_event show_content e) f

  meta_of : Formatter → String → Option String × Option String
  meta_of f key = get_default (get key f.last_token_meta) (none, none)

  flush_events : Formatter → List (String × State) → List StreamEvent
  unfolding meta_of
  flush_events f [] = []
  flush_events f ((key, s) ∷ rest) =
      let later = flush_events f rest in
      let released = (scrubber.flush s).0 in
      let meta = meta_of f key in
      if blank released
      then later
      else record { shown = token (meta.0) released; task_id = meta.1 } ∷ later

  -- `flush`, with the formatter after it
  unfoldable pub flush_all : Formatter → List StreamEvent × Formatter
  unfolding flush_events new_formatter
  flush_all f = (flush_events f f.scrubbers, new_formatter)

  -- The events of a stream.
  unfoldable pub format_all :
      (Content → String) → List RawEvent → Formatter → List StreamEvent × Formatter
  unfolding format
  format_all show_content [] f = ([], f)
  format_all show_content (e ∷ es) f =
      let one = format show_content e f in
      let rest = format_all show_content es (one.1) in (cons_if (one.0) (rest.0), rest.1)
