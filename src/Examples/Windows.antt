-- ===== src/Examples/Windows.antt =====
-- The context engine at a short conversation.
use goal_driven_agent_room.Base.{
  true, false, mem_text, take, ◌⊎◌, ◌↔◌, none, some, List, [], ◌∷◌, ◌++◌, ◌≡◌, refl, arith,
}
use goal_driven_agent_room.Schemas.{Message, Content, ToolCall, system, human, ai, tool, str}
use goal_driven_agent_room.Context.Tokens.{Encoder, count_message_tokens}
use goal_driven_agent_room.Context.Engine.{Windowed, compress, should_compress, build_marker}
use goal_driven_agent_room.Context.Alignment.{IsLegal, legal, allowed, open_after, open_calls}
use goal_driven_agent_room.Context.Alignment.Head.{ends_with_tool}
use goal_driven_agent_room.Context.Alignment.Compress.{compress-IsLegal}
use goal_driven_agent_room.Context.Pressure.{should_compress-compress}

-- Every text costs ten tokens.
abbrev tens : Encoder
tens = record { encode_len = λ t. 10; text_of = λ c. "text"; show_call = λ c. c.name }

abbrev three_messages : Windowed
three_messages = record {
  max_messages = some 3;
  max_tokens = none;
  protect_first_n = 1;
  protect_last_n = 1;
  ratio_in_range = true;
  scale = λ n. n;
}

abbrev twelve_tokens : Windowed
twelve_tokens = record {
  max_messages = none;
  max_tokens = some 12;
  protect_first_n = 1;
  protect_last_n = 1;
  ratio_in_range = true;
  scale = λ n. n;
}

abbrev call : ToolCall
call = record { name = "fs_read"; args = "sum.py"; id = "call_1" }

abbrev words : Message
words = human (str "text")

-- A task, a tool call with its result, an answer, and a further message.
abbrev conversation : List Message
conversation =
    system (str "text")
    ∷ words
    ∷ ai (str "text") (call ∷ [])
    ∷ tool (str "text") "fs_read" "call_1"
    ∷ ai (str "text") []
    ∷ []

abbrev omitted : List Message → Content
omitted middle = str "omitted"

compress-IsLegal_example :
    IsLegal (compress tens three_messages (λ middle. human (omitted middle)) conversation) ↔ (
      (compress tens three_messages (λ middle. human (omitted middle)) conversation ≡ conversation)
      ⊎ ((ends_with_tool (take 1 conversation) ≡ false)
          ⊎ (open_calls [] (take 1 conversation) ≡ [])))
unfolding IsLegal allowed open_after
compress-IsLegal_example = compress-IsLegal tens three_messages omitted conversation refl

abbrev second_call : ToolCall
second_call = record { name = "fs_read"; args = "test.py"; id = "call_2" }

-- A batch of two calls, whose second result is beyond the protected head.
abbrev batch : List Message
batch =
    ai (str "text") (call ∷ second_call ∷ [])
    ∷ tool (str "text") "fs_read" "call_1"
    ∷ tool (str "text") "fs_read" "call_2"
    ∷ words
    ∷ words
    ∷ words
    ∷ []

abbrev two_protected : Windowed
two_protected = record three_messages { max_messages = some 4; protect_first_n = 2 }

batch-legal : legal [] batch ≡ true
unfolding allowed open_after mem_text
batch-legal = refl

batch-cut : legal [] (compress tens two_protected build_marker batch) ≡ false
unfolding allowed open_after mem_text compress build_marker
batch-cut = refl

should_compress-compress_example :
    should_compress tens twelve_tokens
      (compress tens twelve_tokens build_marker (conversation ++ (words ∷ [])))
    ≡ true
unfolding count_message_tokens
should_compress-compress_example =
    should_compress-compress tens twelve_tokens 12 refl build_marker conversation words refl
      (omega arith) (omega arith)
