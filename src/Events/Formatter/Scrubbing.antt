-- ===== src/Events/Formatter/Scrubbing.antt =====
-- agent_room/events.py: the texts of one task in a stream of several.
pub mod Streams
use goal_driven_agent_room.Base.{
  Bool, true, false, ◌≡◌, refl, sym, ap, ◌∙◌, inl, inr, String, Option, none, some, List, [], ◌∷◌,
  ◌++◌, get, put, get-put, get_default, blank, str_eq, eq_iff, if◌then◌else◌, Bool-cases, arith,
}
use goal_driven_agent_room.Schemas.{Content}
use goal_driven_agent_room.Events.{
  RawEvent, StreamEvent, Shown, token, format_stream_event, node_start, node_end,
  verification_completed, supervisor_decided, tool_call, tool_result, usage,
}
use goal_driven_agent_room.Events.Formatter.{
  Scrubber, scrubber_key, Formatter, scrubber_of, scrub, pass_shown, pass, format, format_all,
  cons_if, new_formatter,
}

-- The text of a token under a key.
piece_in : String → Shown → Option String → List String
unfolding scrubber_key
piece_in key (token role piece) task_id =
    if str_eq (scrubber_key task_id) key then piece ∷ [] else []
piece_in key s task_id = []

-- The texts of the tokens under a key.
abbrev pub pieces_in : String → List StreamEvent → List String
unfolding piece_in
pieces_in key [] = []
pieces_in key (e ∷ es) = piece_in key e.shown e.task_id ++ pieces_in key es

-- The events of a stream as they are without a scrubber.
abbrev pub unscrubbed : (Content → String) → List RawEvent → List StreamEvent
unfolding format_stream_event
unscrubbed show_content [] = []
unscrubbed show_content (e ∷ es) =
    cons_if (format_stream_event show_content e) (unscrubbed show_content es)

module _ (scrubber : Scrubber) where
  open scrubber use {State, initial, feed}

  -- A text where it is not empty.
  abbrev pub kept : String → List String → List String
  kept piece later = if blank piece then later else piece ∷ later

  -- What one scrubber releases for texts in turn.
  abbrev pub feed_all : State → List String → List String × State
  feed_all s [] = ([], s)
  feed_all s (p ∷ ps) =
      let fed = feed s p in let rest = feed_all (fed.1) ps in (kept (fed.0) (rest.0), rest.1)

  -- After one event a key has the scrubber, and the stream the texts, that the key's own texts give.
  abbrev pub Agrees :
      String → Formatter scrubber → List String → Option StreamEvent × Formatter scrubber → Type 0
  Agrees key f own one =
      let alone = feed_all (scrubber_of scrubber key f) own in
      (scrubber_of scrubber key (one.1) ≡ alone.1)
      × ((later : List StreamEvent)
          → pieces_in key (cons_if (one.0) later) ≡ alone.0 ++ pieces_in key later)

  emitted : Option String → Option String → String → Option StreamEvent
  emitted role task_id x =
      if blank x then none else some (record { shown = token role x; task_id = task_id })

  emitted-own :
      (key : String) (role task_id : Option String) (x : String) (later : List StreamEvent)
      → str_eq (scrubber_key task_id) key ≡ true
      → pieces_in key (cons_if (emitted role task_id x) later) ≡ kept x [] ++ pieces_in key later
  unfolding emitted piece_in
  emitted-own key role task_id x later same = elim (Bool-cases (blank x)) [
    | inl empty ↦ rw empty
    | inr full ↦ rw full (rw same)
  ]

  emitted-other :
      (key : String) (role task_id : Option String) (x : String) (later : List StreamEvent)
      → str_eq (scrubber_key task_id) key ≡ false
      → pieces_in key (cons_if (emitted role task_id x) later) ≡ pieces_in key later
  unfolding emitted piece_in
  emitted-other key role task_id x later differs = elim (Bool-cases (blank x)) [
    | inl empty ↦ rw empty
    | inr full ↦ rw full (rw differs)
  ]

  put-scrubber :
      (key k : String) (s : State) (f : Formatter scrubber)
      → get_default (get key (put k s f.scrubbers)) initial
        ≡ (if str_eq k key then s else scrubber_of scrubber key f)
  unfolding scrubber_of
  put-scrubber key k s f =
      let stored = get-put key k s f.scrubbers in
      elim (Bool-cases (str_eq k key)) [
        | inl same ↦
            let found : get key (put k s f.scrubbers) ≡ some s = stored ∙ rw same in
            rw (found, same)
        | inr other ↦
            let found : get key (put k s f.scrubbers) ≡ get key f.scrubbers = stored ∙ rw other in
            rw (found, other)
      ]

  scrub-own :
      (key : String) (role task_id : Option String) (piece : String) (f : Formatter scrubber)
      → scrubber_key task_id ≡ key
      → Agrees key f (piece ∷ []) (scrub scrubber role task_id piece f)
  unfolding scrub emitted
  scrub-own key role task_id piece f same =
      let k = scrubber_key task_id in
      let hit : str_eq k key ≡ true = (eq_iff k key).1 same in
      let eq : feed (scrubber_of scrubber k f) piece ≡ feed (scrubber_of scrubber key f) piece =
        ap (λ x. feed (scrubber_of scrubber x f) piece) same in
      (
        put-scrubber key k _ f ∙ rw hit (ap (λ p. p.1) eq),
        λ later.
            emitted-own key role task_id _ later hit
            ∙ ap (λ p. kept (p.0) [] ++ pieces_in key later) eq,
      )

  scrub-other :
      (key : String) (role task_id : Option String) (piece : String) (f : Formatter scrubber)
      → str_eq (scrubber_key task_id) key ≡ false
      → Agrees key f [] (scrub scrubber role task_id piece f)
  unfolding scrub emitted
  scrub-other key role task_id piece f differs = (
    put-scrubber key (scrubber_key task_id) _ f ∙ rw differs,
    λ later. emitted-other key role task_id _ later differs,
  )

  pass_shown-Agrees :
      (key : String) (s : Shown) (task_id : Option String) (f : Formatter scrubber)
      → Agrees key f (piece_in key s task_id) (pass_shown scrubber s task_id f)
  unfolding pass_shown piece_in
  pass_shown-Agrees key (token role piece) task_id f =
      elim (Bool-cases (str_eq (scrubber_key task_id) key)) [
        | inl same ↦
            rw same
              (scrub-own key role task_id piece f ((eq_iff (scrubber_key task_id) key).0 same))
        | inr other ↦ rw other (scrub-other key role task_id piece f other)
      ]
  pass_shown-Agrees key s task_id f = (refl, λ later. refl)

  own_of : String → Option StreamEvent → List String
  unfolding piece_in
  own_of key none = []
  own_of key (some e) = piece_in key e.shown e.task_id

  pass-Agrees :
      (key : String) (o : Option StreamEvent) (f : Formatter scrubber)
      → Agrees key f (own_of key o) (pass scrubber o f)
  unfolding pass own_of
  pass-Agrees key none f = (refl, λ later. refl)
  pass-Agrees key (some e) f = pass_shown-Agrees key e.shown e.task_id f

  pieces_in-cons_if :
      (key : String) (o : Option StreamEvent) (later : List StreamEvent)
      → pieces_in key (cons_if o later) ≡ own_of key o ++ pieces_in key later
  unfolding own_of
  pieces_in-cons_if key none later = refl
  pieces_in-cons_if key (some e) later = refl
