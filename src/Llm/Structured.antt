-- ===== src/Llm/Structured.antt =====
-- agent_room/llm/transport.py, `LangChainTransport.structured`, and agent_room/llm/_retry.py. A
-- provider answers requests in turn, so that an answer depends on the requests before it, which are
-- counted by their kind, and a call returns an answer with the requests made so far. `with_retry` of langchain is a
-- parameter, and so are the parser, the lower case of a text and the text of a reply.
pub mod Requests
pub mod Failures
use goal_driven_agent_room.Base.{
  ℕ, suc, zero, String, Bool, true, false, ◌&&◌, ◌||◌, ◌==◌, Option, none, some, List, [], ◌∷◌, max,
  join, str_eq, contains, if◌then◌else◌, ltb,
}
use goal_driven_agent_room.Schemas.{Role, role_name, Content, Block, str, blocks, bare, text, other}

-- An `OutputParserException`, and any other exception, with their texts.
pub data Raised : Type 0 where
  parser_exception : String → Raised
  exception : String → Raised

pub data Answer (A : Type 0) : Type 0 where
  answered : A → Answer A
  raised : Raised → Answer A

-- The requests so far: for structured output, and with the JSON prompt.
pub record Asked : Type 0 where
  pub structured_requests : ℕ
  pub json_requests : ℕ

-- `Runnable.ainvoke` on fixed messages.
abbrev pub Runnable : Type 0 → Type 0
Runnable A = Asked → Answer A × Asked

-- `runnable.with_retry(stop_after_attempt=...)` for parser exceptions.
abbrev pub WithRetry : Type 0 → Type 0
WithRetry A = Runnable A → ℕ → Runnable A

-- `retry_on_parser_error`
unfoldable pub retry_on_parser_error :
    {A : Type 0} → WithRetry A → Runnable A → ℕ → Answer (Runnable A)
retry_on_parser_error with_retry runnable attempts =
    if ltb attempts 1
    then raised (exception "attempts must be >= 1")
    else if attempts == 1
    then answered runnable
    else answered (with_retry runnable attempts)

-- One request for structured output.
abbrev pub once : {A : Type 0} → (Asked → Answer A) → Runnable A
once provider k = (provider k, record k { structured_requests = suc k.structured_requests })

-- One more request with the JSON prompt.
abbrev pub asked_json : Asked → Asked
asked_json k = record k { json_requests = suc k.json_requests }

run_prepared : {A : Type 0} → Answer (Runnable A) → Runnable A
run_prepared (answered runnable) k = runnable k
run_prepared (raised e) k = (raised e, k)

mentions_support : String → Bool
unfolding contains
mentions_support msg =
    contains msg "tool_choice" || contains msg "thinking mode" || contains msg "structured output"

-- `_structured_output_unsupported`
unfoldable pub structured_output_unsupported : (String → String) → Raised → Bool
unfolding mentions_support
structured_output_unsupported lower (parser_exception msg) = true
structured_output_unsupported lower (exception msg) = mentions_support (lower msg)

same_override : Option String → Option String → Bool
same_override none none = true
same_override (some a) (some b) = str_eq a b
same_override none (some b) = false
same_override (some a) none = false

abbrev pub Key : Type 0
Key = Role × Option String

-- `key in self._needs_json_fallback`
unfoldable pub has_key : List Key → Key → Bool
unfolding same_override
has_key [] key = false
has_key ((role, override) ∷ rest) key =
    let later = has_key rest key in
    (str_eq (role_name role) (role_name (key.0)) && same_override override (key.1)) || later

text_parts : List Block → List String
text_parts [] = []
text_parts (bare s ∷ rest) = s ∷ text_parts rest
text_parts (text s ∷ rest) = s ∷ text_parts rest
text_parts (other ∷ rest) = text_parts rest

-- `_message_text`
unfoldable pub message_text : Content → String
unfolding text_parts join
message_text (str s) = s
message_text (blocks parts) = join "" (text_parts parts)

-- A provider for one schema: the answers of the model that is asked for structured output, of the
-- plain model that is given the format instructions, and `parser.parse`.
pub record Provider (A : Type 0) : Type 0 where
  pub with_structured_output : Asked → Answer (Option A)
  pub ainvoke : Asked → Answer Content
  pub parse : String → Answer A
  pub lower : String → String

module _ {A : Type 0} (provider : Provider A) where
  open provider use {with_structured_output, ainvoke, parse, lower}

  -- A request of the loop: what the model answers, parsed.
  unfoldable pub parsed_reply : Answer Content → Answer A
  unfolding message_text
  parsed_reply (answered content) = parse (message_text content)
  parsed_reply (raised e) = raised e

  -- An exception that the loop's `except` catches: one of the parser.
  unfoldable pub is_caught : Answer Content → Bool
  unfolding message_text
  is_caught (raised e) = false
  is_caught (answered content) = elim (parse (message_text content)) [
    | answered a ↦ false
    | raised (parser_exception msg) ↦ true
    | raised (exception msg) ↦ false
  ]

  -- The loop of `_structured_via_json_prompt`, with the last exception.
  unfoldable pub json_loop : ℕ → Answer A → Runnable A
  unfolding parsed_reply is_caught
  json_loop zero last k = (last, k)
  json_loop (suc n) last k =
      let later = json_loop n (parsed_reply (ainvoke k)) (asked_json k) in
      if is_caught (ainvoke k) then later else (parsed_reply (ainvoke k), asked_json k)

  -- `_structured_via_json_prompt`
  unfoldable pub structured_via_json_prompt : ℕ → Runnable A
  unfolding json_loop
  structured_via_json_prompt attempts =
      json_loop (max attempts 1) (raised (exception "AssertionError"))

  -- The call of the runnable that retries.
  unfoldable pub primary : WithRetry (Option A) → ℕ → Runnable (Option A)
  unfolding retry_on_parser_error run_prepared
  primary with_retry attempts =
      run_prepared (retry_on_parser_error with_retry (once with_structured_output) attempts)

  -- What `structured` makes of the primary's answer: the keys are those after the call.
  unfoldable pub after_primary :
      ℕ → Key → List Key → Answer (Option A) × Asked → Answer A × Asked × List Key
  unfolding structured_via_json_prompt structured_output_unsupported
  after_primary attempts key keys (answered (some a), k) = (answered a, k, keys)
  after_primary attempts key keys (answered none, k) =
      let fallback = structured_via_json_prompt attempts k in (fallback.0, fallback.1, key ∷ keys)
  after_primary attempts key keys (raised e, k) =
      let fallback = structured_via_json_prompt attempts k in
      if structured_output_unsupported lower e
      then (fallback.0, fallback.1, key ∷ keys)
      else (raised e, k, keys)

  -- `structured`
  unfoldable pub structured :
      WithRetry (Option A) → ℕ → Key → List Key → Asked → Answer A × Asked × List Key
  unfolding has_key primary after_primary structured_via_json_prompt
  structured with_retry attempts key keys k =
      let fallback = structured_via_json_prompt attempts k in
      if has_key keys key
      then (fallback.0, fallback.1, keys)
      else after_primary attempts key keys (primary with_retry attempts k)
