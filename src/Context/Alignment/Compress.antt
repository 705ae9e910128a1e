-- ===== src/Context/Alignment/Compress.antt =====
-- agent_room/context/engine.py: tool calls and their results in what `compress` returns.
use goal_driven_agent_room.Base.{
  ◌≡◌, refl, sym, ap, ◌∙◌, ◌⊎◌, ◌↔◌, inl, inr, true, false, not, List, [], ◌∷◌, ◌++◌, is_empty,
  ◌&&◌, append_assoc, Bool-cases, Bool, Option-cases, take, drop, take-append-drop,
}
use goal_driven_agent_room.Schemas.{Message, Content, human}
use goal_driven_agent_room.Context.Tokens.{Encoder}
use goal_driven_agent_room.Context.Engine.{
  Windowed, trim_tail, trim_head, partition, partition_by_count, partition_by_tokens, compress,
  should_compress,
}
use goal_driven_agent_room.Context.Alignment.{
  legal, fits, allowed, open_after, open_calls, legal-append, trim_tail-starts, legal-end,
  fits-start, IsLegal,
}
use goal_driven_agent_room.Context.Alignment.Head.{ends_with_tool, trim_head-open_calls}
use goal_driven_agent_room.Context.Alignment.Partition.{
  IsEndOf, partition-head, partition-tail, trim_tail-end, trim_head-start,
}

tail_legal :
    (tail messages : List Message) → IsEndOf tail messages → IsLegal messages → legal [] tail ≡ true
unfolding IsLegal
tail_legal tail messages cut h =
    let rest = cut.1 in
    let more = trim_tail-end rest in
    let split =
      cut.2
      ∙ ap (λ l. cut.0 ++ l) (more.1)
      ∙ sym (append_assoc (cut.0) (more.0) (trim_tail rest)) in
    rw (cut.3) (
      legal-end (cut.0 ++ more.0) (trim_tail rest) (ap (legal []) (sym split) ∙ h)
        (trim_tail-starts rest))

-- Either partition protects the first messages, without calls at their end.
head_of :
    (encoder : Encoder) (e : Windowed) (messages : List Message)
    → (partition encoder e messages).head ≡ trim_head (take e.protect_first_n messages)
unfolding partition partition_by_count partition_by_tokens
head_of encoder e messages = elim (Option-cases e.max_tokens) [
  | inl missing ↦ rw missing
  | inr (n, given) ↦ rw given
]

-- The protected head is the beginning of the conversation.
head-start :
    (encoder : Encoder) (e : Windowed) (messages : List Message)
    → (post : List Message) × (messages ≡ (partition encoder e messages).head ++ post)
head-start encoder e messages =
    let start = partition-head encoder e messages in
    let trimmed = trim_head-start (start.0) in
    (
      trimmed.0 ++ start.1,
      start.2
          ∙ ap (λ l. l ++ start.1) (trimmed.1)
          ∙ append_assoc (trim_head (start.0)) (trimmed.0) (start.1)
          ∙ ap (λ l. l ++ (trimmed.0 ++ start.1)) (sym (start.3)),
    )

is_empty-nil : {A : Type 0} (xs : List A) → is_empty xs ≡ true → xs ≡ []
is_empty-nil [] h = refl
is_empty-nil (x ∷ xs) h = absurd (cc h)

module _ (encoder : Encoder) (e : Windowed) (marker : List Message → Content)
    (messages : List Message) (h : IsLegal messages) where
  -- With the marker and the tail, the head is legal when none of its calls waits.
  joined :
      let parts = partition encoder e messages in
      legal [] (parts.head ++ human (marker parts.middle) ∷ parts.tail)
      ≡ is_empty (open_calls [] parts.head)
  unfolding IsLegal legal allowed open_after
  joined =
      let parts = partition encoder e messages in
      let (post, cut) = head-start encoder e messages in
      let fitting : fits [] parts.head ≡ true =
        fits-start parts.head post (ap (legal []) (sym cut) ∙ h) in
      let tail : legal [] parts.tail ≡ true =
        tail_legal parts.tail messages (partition-tail encoder e messages) h in
      legal-append [] parts.head (human (marker parts.middle) ∷ parts.tail)
      ∙ ap (λ b. b && (is_empty (open_calls [] parts.head) && legal [] parts.tail)) fitting
      ∙ ap (λ b. is_empty (open_calls [] parts.head) && b) tail
      ∙ and_true (is_empty (open_calls [] parts.head))
    where
      and_true : (b : Bool) → (b && true) ≡ b
      and_true true = refl
      and_true false = refl

  -- No call of the protected head waits exactly when the messages that it is cut from do not end
  -- with a tool result, or have all their calls answered.
  head-closed : (open_calls [] (partition encoder e messages).head ≡ []) ↔ (
      (ends_with_tool (take e.protect_first_n messages) ≡ false)
      ⊎ (open_calls [] (take e.protect_first_n messages) ≡ []))
  unfolding IsLegal
  head-closed =
      let n = e.protect_first_n in
      let fitting : fits [] (take n messages) ≡ true =
        fits-start (take n messages) (drop n messages)
          (ap (legal []) (take-append-drop n messages) ∙ h) in
      let (only, enough) = trim_head-open_calls (take n messages) fitting in
      (
        λ closed. only (ap (open_calls []) (sym (head_of encoder e messages)) ∙ closed),
        λ either. ap (open_calls []) (head_of encoder e messages) ∙ enough either,
      )

  -- Take a conversation in which every call is answered by its id before a message of another kind,
  -- and nothing else is answered. With any user message for the marker, compressing it gives such a
  -- conversation exactly when it is left as it is, or its first protect_first_n messages do not end
  -- with a tool result, or all the calls in them are answered there.
  pub compress-IsLegal : IsLegal (compress encoder e (λ middle. human (marker middle)) messages) ↔ (
      (compress encoder e (λ middle. human (marker middle)) messages ≡ messages)
      ⊎ ((ends_with_tool (take e.protect_first_n messages) ≡ false)
          ⊎ (open_calls [] (take e.protect_first_n messages) ≡ [])))
  unfolding IsLegal compress
  compress-IsLegal = elim (Bool-cases (not (should_compress encoder e messages))) [
    | inl small ↦ rw small (λ l. inl refl, λ l. h)
    | inr large ↦ elim (Bool-cases (is_empty (partition encoder e messages).middle)) [
      | inl none_left ↦ rw (large, none_left) (λ l. inl refl, λ l. h)
      | inr some_left ↦
          rw (large, some_left)
            (
              λ l. inr (
                  head-closed.0 (
                    is_empty-nil (open_calls [] (partition encoder e messages).head)
                      (sym joined ∙ l))),
              λ l. elim l [
                | inl same ↦ ap (legal []) same ∙ h
                | inr either ↦ joined ∙ ap is_empty (head-closed.1 either)
              ],
            )
    ]
  ]
