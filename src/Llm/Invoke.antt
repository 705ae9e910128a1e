-- ===== src/Llm/Invoke.antt =====
-- agent_room/llm/transport.py: `LangChainTransport.invoke` and the budget of a task. The model is
-- a parameter; a transport without a budget is one whose tracker has none.
pub mod Within
pub mod Task
use goal_driven_agent_room.Base.{ℕ, String, Option, none, some, List, [], ◌∷◌, length, get_default}
use goal_driven_agent_room.Schemas.{Message, Reply, Tool}
use goal_driven_agent_room.Errors.{Result, ok, err}
use goal_driven_agent_room.Budget.{Money, Usage, Tracker, record_usage, record_tool_calls, and_then}

-- `usage_metadata`, where it is not empty; a key that is missing is `none`.
pub record UsageMetadata : Type 0 where
  pub input_tokens : Option ℕ
  pub output_tokens : Option ℕ
  pub total_tokens : Option ℕ
  pub cache_read : Option ℕ

-- An `AIMessage` with its usage.
pub record RawReply : Type 0 where
  pub reply : Reply
  pub usage_metadata : Option UsageMetadata

-- `_extract_usage`
unfoldable pub extract_usage : Option UsageMetadata → Option Usage
extract_usage none = none
extract_usage (some metadata) = some (record {
  prompt_tokens = get_default metadata.input_tokens 0;
  completion_tokens = get_default metadata.output_tokens 0;
  total_tokens = get_default metadata.total_tokens 0;
  cached_tokens = get_default metadata.cache_read 0;
})

pub record NormalizedResponse : Type 0 where
  pub message : Reply
  pub usage : Option Usage

-- `list(tools)` where there are some, so that they are bound.
unfoldable pub tools_to_bind : Option (List Tool) → List Tool
tools_to_bind none = []
tools_to_bind (some tools) = tools

module _ (money : Money) where
  -- The two records of a reply: its usage, then its tool calls.
  unfoldable pub record_reply : RawReply → Tracker money → Tracker money × Result (Unit {0})
  unfolding extract_usage record_usage record_tool_calls and_then
  record_reply raw t =
      let first = record_usage money (extract_usage raw.usage_metadata) t in
      and_then first (record_tool_calls money (length raw.reply.tool_calls) (first.0))

  finish : RawReply → Tracker money × Result (Unit {0}) → Tracker money × Result NormalizedResponse
  unfolding extract_usage
  finish raw (t, err e) = (t, err e)
  finish raw (t, ok v) =
      (t, ok (record { message = raw.reply; usage = extract_usage raw.usage_metadata }))

  finish_answer : Result RawReply → Tracker money → Tracker money × Result NormalizedResponse
  unfolding record_reply finish
  finish_answer (err e) t = (t, err e)
  finish_answer (ok raw) t = finish raw (record_reply raw t)

  -- `invoke`
  unfoldable pub invoke :
      (List Message → List Tool → Result RawReply)
      → List Message
      → Option (List Tool)
      → Tracker money
      → Tracker money × Result NormalizedResponse
  unfolding finish_answer tools_to_bind
  invoke ainvoke messages tools t = finish_answer (ainvoke messages (tools_to_bind tools)) t
