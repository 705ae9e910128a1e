-- ===== src/Context/Pressure.antt =====
-- agent_room/context/engine.py in token mode: the newest message against the budget.
use mathlib.Core.List.{reverse, reverse-append}
use native.Mathlib.Nat.{zero-add}
use goal_driven_agent_room.Context.Window.{length-trim_head}
use goal_driven_agent_room.Base.{
  ℕ, ◌+◌, ◌≤◌, ◌<◌, ◌≡◌, refl, sym, ◌∙◌, true, false, some, List, [], ◌∷◌, ◌++◌, ltb, arith,
  Bool-cases, inl, inr, not, ◌&&◌, is_empty, append_assoc, take, drop, length, drop-append_le,
  length-take,
}
use goal_driven_agent_room.Schemas.{Message, is_tool_message}
use goal_driven_agent_room.Context.Tokens.{Encoder, count_message_tokens, count_tokens}
use goal_driven_agent_room.Context.Engine.{
  Windowed, fill_tail, trim_tail, should_compress, compress, partition, partition_by_tokens,
  tail_budget, trim_head,
}

count_tokens-append :
    (encoder : Encoder) (xs ys : List Message)
    → count_tokens encoder (xs ++ ys) ≡ count_tokens encoder xs + count_tokens encoder ys
unfolding count_tokens
count_tokens-append encoder [] ys = omega arith
count_tokens-append encoder (x ∷ xs) ys = omega (arith, count_tokens-append encoder xs ys)

fill_tail-keeps :
    (encoder : Encoder) (budget : ℕ) (older tail : List Message) (used : ℕ)
    → (pre : List Message) × (fill_tail encoder budget older tail used ≡ pre ++ tail)
unfolding fill_tail
fill_tail-keeps encoder budget [] tail used = ([], refl)
fill_tail-keeps encoder budget (m ∷ older) tail used =
    let cost = count_message_tokens encoder m in
    let deeper = fill_tail-keeps encoder budget older (m ∷ tail) (used + cost) in
    elim (Bool-cases (not (is_empty tail) && ltb budget (used + cost))) [
      | inl full ↦ ([], rw full)
      | inr room ↦
          (deeper.0 ++ (m ∷ []), rw room (deeper.1 ∙ sym (append_assoc (deeper.0) (m ∷ []) tail)))
    ]

trim_tail-keeps :
    (encoder : Encoder) (pre : List Message) (m : Message)
    → is_tool_message m ≡ false
    → count_message_tokens encoder m ≤ count_tokens encoder (trim_tail (pre ++ (m ∷ [])))
unfolding trim_tail count_tokens
trim_tail-keeps encoder [] m h = rw h (omega arith)
trim_tail-keeps encoder (x ∷ pre) m h =
    let rest = trim_tail-keeps encoder pre m h in
    elim (Bool-cases (is_tool_message x)) [
      | inl dropped ↦ rw dropped rest
      | inr kept ↦ rw kept (omega (arith, count_tokens-append encoder pre (m ∷ [])))
    ]

-- The end of the conversation that `_partition_by_tokens` keeps holds its newest message.
newest-kept :
    (encoder : Encoder) (budget : ℕ) (kept : List Message) (m : Message)
    → is_tool_message m ≡ false
    → count_message_tokens encoder m
      ≤ count_tokens encoder
          (trim_tail (fill_tail encoder budget (reverse (kept ++ (m ∷ []))) [] 0))
unfolding fill_tail
newest-kept encoder budget kept m h =
    let older = reverse kept in
    let cost = count_message_tokens encoder m in
    let (pre, e) = fill_tail-keeps encoder budget older (m ∷ []) cost in
    rw (reverse-append kept (m ∷ []), zero-add, e) (trim_tail-keeps encoder pre m h)

module _ (encoder : Encoder) (e : Windowed) (n : ℕ) (limit : e.max_tokens ≡ some n) where
  over_budget :
      (messages : List Message)
      → n < count_tokens encoder messages
      → should_compress encoder e messages ≡ true
  unfolding should_compress
  over_budget messages h = rw limit (ground arith)

  tail-cost :
      (init : List Message) (m : Message)
      → is_tool_message m ≡ false
      → e.protect_first_n ≤ length init
      → count_message_tokens encoder m
        ≤ count_tokens encoder (partition encoder e (init ++ (m ∷ []))).tail
  unfolding partition partition_by_tokens count_tokens
  tail-cost init m h short =
      let messages = init ++ (m ∷ []) in
      let head = trim_head (take e.protect_first_n messages) in
      let size : length head ≤ length init = omega (
        arith,
        length-trim_head (take e.protect_first_n messages),
        length-take e.protect_first_n messages,
      ) in
      rw (limit, drop-append_le (length head) init (m ∷ []) size)
        (newest-kept encoder (tail_budget encoder e n head) (drop (length head) init) m h)

  -- In token mode, when the newest message is no tool result, is not among the protected first ones
  -- and alone exceeds the budget, compression leaves a list that asks for compression again.
  pub should_compress-compress :
      (marker : List Message → Message) (init : List Message) (m : Message)
      → is_tool_message m ≡ false
      → e.protect_first_n ≤ length init
      → n < count_message_tokens encoder m
      → should_compress encoder e (compress encoder e marker (init ++ (m ∷ []))) ≡ true
  unfolding compress count_tokens
  should_compress-compress marker init m h short big =
      let messages = init ++ (m ∷ []) in
      let parts = partition encoder e messages in
      let whole : n < count_tokens encoder messages =
        omega (arith, count_tokens-append encoder init (m ∷ [])) in
      let asks = over_budget messages whole in
      elim (Bool-cases (is_empty parts.middle)) [
        | inl gone ↦ rw (asks, gone) asks
        | inr there ↦
            rw (asks, there)
              (over_budget (parts.head ++ marker parts.middle ∷ parts.tail) (
                omega (
                  arith,
                  count_tokens-append encoder parts.head (marker parts.middle ∷ parts.tail),
                  tail-cost init m h short,
                )))
      ]
