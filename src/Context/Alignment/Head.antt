-- ===== src/Context/Alignment/Head.antt =====
-- agent_room/context/engine.py: the calls that wait after the protected head.
use goal_driven_agent_room.Base.{
  ◌≡◌, refl, sym, ap, ◌∙◌, ◌⊎◌, ◌↔◌, inl, inr, Bool, true, false, ◌&&◌, String, List, [], ◌∷◌,
  is_empty, if◌then◌else◌, Bool-cases,
}
use goal_driven_agent_room.Schemas.{Message, system, human, ai, tool, is_tool_message}
use goal_driven_agent_room.Context.Engine.{trim_head, is_ai_with_tool_calls}
use goal_driven_agent_room.Context.Alignment.{open_after, allowed, fits, open_calls, both}

-- Whether some messages end with a tool result.
abbrev pub ends_with_tool : List Message → Bool
ends_with_tool [] = false
ends_with_tool (m ∷ ms) =
    let rest = ends_with_tool ms in if is_empty ms then is_tool_message m else rest

-- Nothing is taken off behind a tool result.
trim_head-kept : (ms : List Message) → ends_with_tool ms ≡ true → trim_head ms ≡ ms
unfolding trim_head
trim_head-kept [] h = absurd (cc h)
trim_head-kept (tool c n i ∷ []) h = refl
trim_head-kept (ai c calls ∷ []) h = absurd (cc h)
trim_head-kept (system c ∷ []) h = absurd (cc h)
trim_head-kept (human c ∷ []) h = absurd (cc h)
trim_head-kept (m ∷ x ∷ xs) h = let later = trim_head-kept (x ∷ xs) h in rw later

no_call_waits :
    (pending : List String) (m : Message)
    → allowed pending m ≡ true
    → is_ai_with_tool_calls m ≡ true
    → pending ≡ []
unfolding allowed
no_call_waits [] m fine calls = refl
no_call_waits (i ∷ is) (ai c calls) fine h = absurd (cc fine)
no_call_waits (i ∷ is) (system c) fine h = absurd (cc fine)
no_call_waits (i ∷ is) (human c) fine h = absurd (cc fine)
no_call_waits (i ∷ is) (tool c n id) fine h = absurd (cc h)

-- Of messages that are all taken off the first has calls, so that none waited before it.
all_trimmed :
    (pending : List String) (m : Message) (ms : List Message)
    → allowed pending m ≡ true
    → is_empty (trim_head (m ∷ ms)) ≡ true
    → pending ≡ []
unfolding trim_head
all_trimmed pending m ms fine h =
    elim (Bool-cases (is_empty (trim_head ms) && is_ai_with_tool_calls m)) [
      | inl hit ↦
          let (empty, calls) = both (is_empty (trim_head ms)) (is_ai_with_tool_calls m) hit in
          no_call_waits pending m fine calls
      | inr miss ↦ absurd (cc (rw miss at h))
    ]

closed_after :
    (pending : List String) (m : Message) (ms : List Message)
    → fits (open_after pending m) ms ≡ true
    → ends_with_tool (m ∷ ms) ≡ false
    → is_empty (trim_head ms) ≡ true
    → is_ai_with_tool_calls m ≡ false
    → open_after pending m ≡ []
unfolding open_after fits
closed_after pending (ai c []) [] h e empty plain = refl
closed_after pending (ai c (x ∷ xs)) [] h e empty plain = absurd (cc plain)
closed_after pending (system c) [] h e empty plain = refl
closed_after pending (human c) [] h e empty plain = refl
closed_after pending (tool c n i) [] h e empty plain = absurd (cc e)
closed_after pending m (x ∷ xs) h e empty plain =
    let (fine, later) = both (allowed (open_after pending m) x) _ h in
    all_trimmed (open_after pending m) x xs fine empty

ends_later :
    (m : Message) (ms : List Message) → ends_with_tool (m ∷ ms) ≡ false → ends_with_tool ms ≡ false
ends_later m [] h = refl
ends_later m (x ∷ xs) h = h

-- When the messages do not end with a tool result, no call waits once they are trimmed.
trim_head-closed :
    (pending : List String) (ms : List Message)
    → fits pending ms ≡ true
    → ends_with_tool ms ≡ false
    → (is_empty (trim_head ms) ≡ false) ⊎ (pending ≡ [])
    → open_calls pending (trim_head ms) ≡ []
unfolding trim_head open_calls allowed fits
trim_head-closed pending [] h e (inl filled) = absurd (cc filled)
trim_head-closed pending [] h e (inr closed) = closed
trim_head-closed pending (m ∷ ms) h e start =
    let (fine, later) = both (allowed pending m) (fits (open_after pending m) ms) h in
    elim (Bool-cases (is_empty (trim_head ms) && is_ai_with_tool_calls m)) [
      | inl hit ↦ elim start [
        | inl filled ↦ absurd (cc (rw hit at filled))
        | inr closed ↦ rw hit closed
      ]
      | inr miss ↦ rw miss (
          trim_head-closed (open_after pending m) ms later (ends_later m ms e)
            (elim (Bool-cases (is_empty (trim_head ms))) [
              | inr filled ↦ inl filled
              | inl empty ↦ inr (closed_after pending m ms later e empty (rw empty at miss))
            ]))
    ]

-- No call of a trimmed head waits exactly when the head does not end with a tool result, or none of
-- its calls waits before it is trimmed.
pub trim_head-open_calls :
    (ms : List Message)
    → fits [] ms ≡ true
    → (open_calls [] (trim_head ms) ≡ []) ↔ ((ends_with_tool ms ≡ false) ⊎ (open_calls [] ms ≡ []))
trim_head-open_calls ms h = elim (Bool-cases (ends_with_tool ms)) [
  | inr other ↦ (λ closed. inl other, λ either. trim_head-closed [] ms h other (inr refl))
  | inl result ↦
      let kept = trim_head-kept ms result in
      (
        λ closed. inr (ap (open_calls []) (sym kept) ∙ closed),
        λ either. elim either [
          | inl other ↦ absurd (cc (sym result ∙ other))
          | inr closed ↦ ap (open_calls []) kept ∙ closed
        ],
      )
]
