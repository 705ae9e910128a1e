-- ===== src/Context/Alignment/Partition.antt =====
-- agent_room/context/engine.py: where the head and the tail of either partition are cut.
use mathlib.Core.List.{reverse, reverse_aux, reverse_aux-eq, reverse-reverse}
use goal_driven_agent_room.Base.{
  ℕ, ◌+◌, ◌-◌, ◌≡◌, refl, sym, ap, ◌∙◌, inl, inr, not, ◌&&◌, List, [], ◌∷◌, ◌++◌, length, take,
  drop, is_empty, ltb, take-append-drop, append_assoc, Bool-cases, Option-cases, append-nil, ◌==◌,
}
use goal_driven_agent_room.Schemas.{Message, is_tool_message}
use goal_driven_agent_room.Context.Tokens.{Encoder, count_message_tokens}
use goal_driven_agent_room.Context.Engine.{
  Windowed, trim_head, trim_tail, last_n, partition_by_count, fill_tail, partition_by_tokens,
  tail_budget, partition, is_ai_with_tool_calls,
}

-- The tail is what is left of the conversation after a cut.
pub trim_tail-end : (ms : List Message) → (pre : List Message) × (ms ≡ pre ++ trim_tail ms)
unfolding trim_tail
trim_tail-end [] = ([], refl)
trim_tail-end (m ∷ ms) = elim (Bool-cases (is_tool_message m)) [
  | inl hit ↦ let r = trim_tail-end ms in (m ∷ r.0, rw hit (ap (λ l. m ∷ l) (r.1)))
  | inr miss ↦ ([], rw miss)
]

pub trim_head-start : (ms : List Message) → (post : List Message) × (ms ≡ trim_head ms ++ post)
unfolding trim_head
trim_head-start [] = ([], refl)
trim_head-start (m ∷ ms) = elim (Bool-cases (is_empty (trim_head ms) && is_ai_with_tool_calls m)) [
  | inl hit ↦ (m ∷ ms, rw hit)
  | inr miss ↦ let r = trim_head-start ms in (r.0, rw miss (ap (λ l. m ∷ l) (r.1)))
]

fill_tail-end :
    (encoder : Encoder) (budget : ℕ) (older tail : List Message) (used : ℕ)
    → (pre : List Message) × (reverse_aux older tail
        ≡ pre ++ fill_tail encoder budget older tail used)
unfolding fill_tail
fill_tail-end encoder budget [] tail used = ([], refl)
fill_tail-end encoder budget (m ∷ older) tail used =
    let cost = count_message_tokens encoder m in
    elim (Bool-cases (not (is_empty tail) && ltb budget (used + cost))) [
      | inl hit ↦ (reverse_aux older (m ∷ []), rw hit (reverse_aux-eq (m ∷ older) tail))
      | inr miss ↦
          let r = fill_tail-end encoder budget older (m ∷ tail) (used + cost) in
          (r.0, rw miss (r.1))
    ]

-- The tail of either partition is the trimmed end of the conversation.
abbrev pub IsEndOf : List Message → List Message → Type 0
IsEndOf tail messages =
    (pre : List Message) × (rest : List Message) × (messages ≡ pre ++ rest)
    × (tail ≡ trim_tail rest)

abbrev pub IsStartOf : List Message → List Message → Type 0
IsStartOf head messages =
    (rest : List Message) × (post : List Message) × (messages ≡ rest ++ post)
    × (head ≡ trim_head rest)

pub last_n-end :
    (n : ℕ) (messages : List Message) → (pre : List Message) × (messages ≡ pre ++ last_n n messages)
last_n-end n messages = elim (Bool-cases (ltb 0 n)) [
  | inl hit ↦ elim (Bool-cases (n == 0)) [
    | inl all ↦ ([], rw (hit, all))
    | inr more ↦ (
      take (length messages - n) messages,
      rw (hit, more) (sym (take-append-drop (length messages - n) messages)),
    )
  ]
  | inr miss ↦ (messages, rw miss (sym (append-nil messages)))
]

pub partition-head :
    (encoder : Encoder) (e : Windowed) (messages : List Message)
    → IsStartOf (partition encoder e messages).head messages
unfolding partition partition_by_count partition_by_tokens
partition-head encoder e messages =
    let n = e.protect_first_n in
    let cut = sym (take-append-drop n messages) in
    elim (Option-cases e.max_tokens) [
      | inl missing ↦ (take n messages, drop n messages, cut, rw missing)
      | inr given ↦ (take n messages, drop n messages, cut, rw (given.1))
    ]

drop-end :
    (h : ℕ) (messages end : List Message)
    → ((pre : List Message) × (drop h messages ≡ pre ++ end))
    → (pre : List Message) × (messages ≡ pre ++ end)
drop-end h messages end cut = (
  take h messages ++ cut.0,
  sym (take-append-drop h messages)
      ∙ ap (λ l. take h messages ++ l) (cut.1)
      ∙ sym (append_assoc (take h messages) (cut.0) end),
)

tokens-end :
    (encoder : Encoder) (budget h : ℕ) (messages : List Message)
    → (pre : List Message) × (messages
        ≡ pre ++ fill_tail encoder budget (reverse (drop h messages)) [] 0)
tokens-end encoder budget h messages =
    let older = reverse (drop h messages) in
    let cut = fill_tail-end encoder budget older [] 0 in
    drop-end h messages (fill_tail encoder budget older [] 0)
      (cut.0, sym (reverse-reverse (drop h messages)) ∙ cut.1)

pub partition-tail :
    (encoder : Encoder) (e : Windowed) (messages : List Message)
    → IsEndOf (partition encoder e messages).tail messages
unfolding partition partition_by_count partition_by_tokens
partition-tail encoder e messages = elim (Option-cases e.max_tokens) [
  | inl missing ↦
      let cut = last_n-end e.protect_last_n messages in
      (cut.0, last_n e.protect_last_n messages, cut.1, rw missing)
  | inr given ↦
      let n = given.0 in
      let head = trim_head (take e.protect_first_n messages) in
      let budget = tail_budget encoder e n head in
      let cut = tokens-end encoder budget (length head) messages in
      (
        cut.0,
        fill_tail encoder budget (reverse (drop (length head) messages)) [] 0,
        cut.1,
        rw (given.1),
      )
]
