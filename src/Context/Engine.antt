-- ===== src/Context/Engine.antt =====
-- agent_room/context/engine.py: `WindowedContextEngine`. `scale n` is `int(n * target_ratio)`. The
-- marker, which a summarizing engine replaces by its own, is an argument.
use mathlib.Core.List.{reverse}
use goal_driven_agent_room.Base.{
  ℕ, ◌+◌, ◌-◌, Bool, true, false, not, ◌&&◌, ◌||◌, Option, none, some, List, [], ◌∷◌, ◌++◌, ◌⧺◌,
  length, take, drop, last_slice, is_empty, is_none, show, if◌then◌else◌, leb, ltb, get_default,
}
use goal_driven_agent_room.Schemas.{Message, system, human, ai, tool, str, is_tool_message}
use goal_driven_agent_room.Errors.{value_error, Result, ok, ◌>>◌, require}
use goal_driven_agent_room.Context.Tokens.{Encoder, count_message_tokens, count_tokens}

pub record Windowed : Type 0 where
  pub max_messages : Option ℕ
  pub max_tokens : Option ℕ
  pub protect_first_n : ℕ
  pub protect_last_n : ℕ
  pub ratio_in_range : Bool
  pub scale : ℕ → ℕ

abbrev pub same_flag : Bool → Bool → Bool
same_flag true b = b
same_flag false b = not b

abbrev pub fits : Option ℕ → ℕ → Bool
fits none budget = true
fits (some n) budget = leb budget n

-- `__init__`; the sizes are natural numbers, so the tests for negative ones do not arise.
unfoldable pub new_engine : Windowed → Result Windowed
new_engine e = do
  require (not (same_flag (is_none e.max_messages) (is_none e.max_tokens)))
      (value_error "set exactly one of max_messages or max_tokens")
  require (fits e.max_messages (e.protect_first_n + e.protect_last_n + 1))
      (value_error "max_messages must be >= protect_first_n + protect_last_n + 1")
  require (is_none e.max_tokens || e.ratio_in_range) (value_error "target_ratio must be in (0, 1]")
  ok e

-- `_is_ai_with_tool_calls`
abbrev pub is_ai_with_tool_calls : Message → Bool
is_ai_with_tool_calls (ai c calls) = not (is_empty calls)
is_ai_with_tool_calls (system c) = false
is_ai_with_tool_calls (human c) = false
is_ai_with_tool_calls (tool c n i) = false

-- `while head and _is_ai_with_tool_calls(head[-1]): head.pop()`
unfoldable pub trim_head : List Message → List Message
trim_head [] = []
trim_head (m ∷ ms) =
    let rest = trim_head ms in if is_empty rest && is_ai_with_tool_calls m then [] else m ∷ rest

-- `while tail and isinstance(tail[0], ToolMessage): tail.pop(0)`
unfoldable pub trim_tail : List Message → List Message
trim_tail [] = []
trim_tail (m ∷ ms) = let rest = trim_tail ms in if is_tool_message m then rest else m ∷ ms

-- `messages[len(head) : len(messages) - len(tail)]`
abbrev pub middle_of : List Message → List Message → List Message → List Message
middle_of messages head tail =
    take (length messages - length tail - length head) (drop (length head) messages)

pub record Parts : Type 0 where
  pub head : List Message
  pub middle : List Message
  pub tail : List Message

abbrev pub parts_of : List Message → List Message → List Message → Parts
parts_of messages head tail = record {
  head = head;
  middle = middle_of messages head tail;
  tail = tail;
}

-- `messages[-n:] if n > 0 else []`
abbrev pub last_n : ℕ → List Message → List Message
last_n n messages = if ltb 0 n then last_slice n messages else []

unfoldable pub partition_by_count : Windowed → List Message → Parts
unfolding trim_head trim_tail
partition_by_count e messages =
    parts_of messages (trim_head (take e.protect_first_n messages))
      (trim_tail (last_n e.protect_last_n messages))

module _ (encoder : Encoder) where
  -- The loop that fills the tail from the newest message back.
  unfoldable pub fill_tail : ℕ → List Message → List Message → ℕ → List Message
  unfolding count_message_tokens
  fill_tail budget [] tail used = tail
  fill_tail budget (m ∷ older) tail used =
      let cost = count_message_tokens encoder m in
      let filled = fill_tail budget older (m ∷ tail) (used + cost) in
      if not (is_empty tail) && ltb budget (used + cost) then tail else filled

  -- `tail_budget` of `_partition_by_tokens`
  abbrev pub tail_budget : Windowed → ℕ → List Message → ℕ
  unfolding count_tokens
  tail_budget e max_tokens head =
      if leb max_tokens (count_tokens encoder head)
      then 0
      else e.scale (max_tokens - count_tokens encoder head)

  unfoldable pub partition_by_tokens : Windowed → ℕ → List Message → Parts
  unfolding fill_tail trim_head trim_tail
  partition_by_tokens e max_tokens messages =
      let head = trim_head (take e.protect_first_n messages) in
      let older = reverse (drop (length head) messages) in
      parts_of messages head (trim_tail (fill_tail (tail_budget e max_tokens head) older [] 0))

  -- `_partition`
  unfoldable pub partition : Windowed → List Message → Parts
  unfolding partition_by_count partition_by_tokens
  partition e messages = elim e.max_tokens [
    | some n ↦ partition_by_tokens e n messages
    | none ↦ partition_by_count e messages
  ]

  -- `should_compress`
  unfoldable pub should_compress : Windowed → List Message → Bool
  unfolding count_tokens
  should_compress e messages = elim e.max_tokens [
    | some n ↦ ltb n (count_tokens encoder messages)
    | none ↦ ltb (get_default e.max_messages 0) (length messages)
  ]

  -- `compress`; `apply` tests `should_compress` once more, and gives the same.
  unfoldable pub compress : Windowed → (List Message → Message) → List Message → List Message
  unfolding partition should_compress
  compress e build_marker messages =
      let parts = partition e messages in
      if not (should_compress e messages)
      then messages
      else if is_empty parts.middle
      then messages
      else parts.head ++ build_marker parts.middle ∷ parts.tail

-- `_build_marker`
unfoldable pub build_marker : List Message → Message
unfolding ◌⧺◌ show
build_marker middle =
    human (str ("[context truncated: " ⧺ show (length middle) ⧺ " messages omitted]"))
