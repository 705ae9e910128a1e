-- ===== src/Context/Tokens.antt =====
-- agent_room/context/tokens.py. The encoder, the text of a content and `str(tool_call)` are
-- parameters.
use goal_driven_agent_room.Base.{ℕ, ◌+◌, String, List, [], ◌∷◌, join, map}
use goal_driven_agent_room.Schemas.{Message, Content, ToolCall, system, human, ai, tool}

pub record Encoder : Type 0 where
  pub encode_len : String → ℕ
  pub text_of : Content → String
  pub show_call : ToolCall → String

abbrev pub per_message_overhead : ℕ
per_message_overhead = 4

module _ (encoder : Encoder) where
  open encoder use {encode_len, text_of, show_call}

  content_tokens : Content → ℕ
  content_tokens c = encode_len (text_of c) + per_message_overhead

  call_tokens : List ToolCall → ℕ
  unfolding join
  call_tokens [] = 0
  call_tokens (c ∷ cs) = encode_len (join " " (map show_call (c ∷ cs)))

  unfoldable pub count_message_tokens : Message → ℕ
  unfolding content_tokens call_tokens
  count_message_tokens (system c) = content_tokens c
  count_message_tokens (human c) = content_tokens c
  count_message_tokens (ai c calls) = content_tokens c + call_tokens calls
  count_message_tokens (tool c name id) = content_tokens c

  unfoldable pub count_tokens : List Message → ℕ
  unfolding count_message_tokens
  count_tokens [] = 0
  count_tokens (m ∷ ms) = count_message_tokens m + count_tokens ms
