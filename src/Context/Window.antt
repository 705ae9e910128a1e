-- ===== src/Context/Window.antt =====
-- agent_room/context/engine.py in message mode: what `_partition` cuts and `compress` keeps.
use goal_driven_agent_room.Base.{
  ℕ, ◌+◌, ◌-◌, ◌≤◌, ◌≡◌, refl, sym, ap, ◌∙◌, inl, inr, true, false, not, Option, none, some, List,
  [], ◌∷◌, ◌++◌, length, take, drop, is_empty, is_none, ltb, leb→le, take-append-drop, append_assoc,
  arith, Bool-cases, length-append, length-take, length-drop, drop-drop,
}
use goal_driven_agent_room.Schemas.{Message}
use goal_driven_agent_room.Errors.{ok, require, >>=-ok, require-ok}
use goal_driven_agent_room.Context.Tokens.{Encoder}
use goal_driven_agent_room.Context.Engine.{
  Windowed, trim_head, trim_tail, last_n, partition_by_count, partition, compress, should_compress,
  new_engine, fits, same_flag,
}
use goal_driven_agent_room.Context.Alignment.Partition.{trim_head-start, trim_tail-end, last_n-end}

drop-length_append : {A : Type 0} (xs ys : List A) → drop (length xs) (xs ++ ys) ≡ ys
drop-length_append [] ys = refl
drop-length_append (x ∷ xs) ys = drop-length_append xs ys

length-empty : {A : Type 0} (xs : List A) → is_empty xs ≡ true → length xs ≡ 0
length-empty xs h = ground arith

-- A start and an end that do not overlap, and what is between them, are the whole list.
between :
    {A : Type 0} (messages h post pre t : List A)
    → messages ≡ h ++ post
    → messages ≡ pre ++ t
    → length h + length t ≤ length messages
    → h ++ take (length messages - length t - length h) (drop (length h) messages) ++ t ≡ messages
between messages h post pre t start end fit =
    let lengths = ap length end ∙ length-append pre t in
    let k = length messages - length t - length h in
    let past : drop (length h) messages ≡ post =
      ap (drop (length h)) start ∙ drop-length_append h post in
    let rest : drop k post ≡ t =
      ap (drop k) (sym past)
      ∙ drop-drop k (length h) messages
      ∙ ap (λ n. drop n messages) (omega (arith, lengths))
      ∙ ap (drop (length pre)) end
      ∙ drop-length_append pre t in
    ap (λ l. h ++ take k l ++ t) past
    ∙ ap (λ l. h ++ take k post ++ l) (sym rest)
    ∙ append_assoc h (take k post) (drop k post)
    ∙ ap (λ l. h ++ l) (take-append-drop k post)
    ∙ sym start

pub length-trim_head : (ms : List Message) → length (trim_head ms) ≤ length ms
length-trim_head ms =
    omega
      (arith, ap length (trim_head-start ms).1, length-append (trim_head ms) (trim_head-start ms).0)

length-trim_tail : (ms : List Message) → length (trim_tail ms) ≤ length ms
length-trim_tail ms =
    omega (arith, ap length (trim_tail-end ms).1, length-append (trim_tail-end ms).0 (trim_tail ms))

length-last_n : (n : ℕ) (ms : List Message) → length (last_n n ms) ≤ n
length-last_n n ms = ground (arith, length-drop (length ms - n) ms)

message_mode :
    (a b : Option ℕ) (n : ℕ)
    → a ≡ some n
    → not (same_flag (is_none a) (is_none b)) ≡ true
    → b ≡ none
message_mode a none n h s = refl
message_mode a (some x) n h s = ground (arith, h)

fits-some : (a : Option ℕ) (n k : ℕ) → a ≡ some n → fits a k ≡ true → k ≤ n
fits-some a n k h f = leb→le k n (ap (λ o. fits o k) (sym h) ∙ f)

valid_engine :
    (e : Windowed) (n : ℕ)
    → new_engine e ≡ ok e
    → e.max_messages ≡ some n
    → (e.max_tokens ≡ none) × (e.protect_first_n + e.protect_last_n + 1 ≤ n)
unfolding new_engine
valid_engine e n h m =
    let (u, one, later) =
      >>=-ok (require (not (same_flag (is_none e.max_messages) (is_none e.max_tokens))) _) _ h in
    let (v, room, last) =
      >>=-ok (require (fits e.max_messages (e.protect_first_n + e.protect_last_n + 1)) _) _ later in
    (
      message_mode e.max_messages e.max_tokens n m (require-ok _ _ one),
      fits-some e.max_messages n _ m (require-ok _ _ room),
    )

partition-lengths :
    (encoder : Encoder) (e : Windowed) (messages : List Message)
    → e.max_tokens ≡ none
    → (length (partition encoder e messages).head ≤ e.protect_first_n)
      × (length (partition encoder e messages).tail ≤ e.protect_last_n)
unfolding partition partition_by_count
partition-lengths encoder e messages h =
    let first = e.protect_first_n in
    let last = e.protect_last_n in
    rw h (
      omega (arith, length-trim_head (take first messages), length-take first messages),
      omega (arith, length-trim_tail (last_n last messages), length-last_n last messages),
    )

partition_by_count-covers :
    (e : Windowed) (messages : List Message)
    → e.protect_first_n + e.protect_last_n ≤ length messages
    → (partition_by_count e messages).head
        ++ (partition_by_count e messages).middle
        ++ (partition_by_count e messages).tail
      ≡ messages
unfolding partition_by_count
partition_by_count-covers e messages fit =
    let first = e.protect_first_n in
    let last = e.protect_last_n in
    let start = trim_head-start (take first messages) in
    let cut = last_n-end last messages in
    let end = trim_tail-end (last_n last messages) in
    between messages (trim_head (take first messages)) (start.0 ++ drop first messages)
      (cut.0 ++ end.0) (trim_tail (last_n last messages))
      (sym (take-append-drop first messages)
        ∙ ap (λ l. l ++ drop first messages) (start.1)
        ∙ append_assoc _ (start.0) (drop first messages))
      (cut.1 ∙ ap (λ l. cut.0 ++ l) (end.1) ∙ sym (append_assoc (cut.0) (end.0) _))
      (omega (
        arith,
        length-trim_head (take first messages),
        length-take first messages,
        length-trim_tail (last_n last messages),
        length-last_n last messages,
      ))

module _ (encoder : Encoder) (e : Windowed) (n : ℕ) (valid : new_engine e ≡ ok e)
    (limit : e.max_messages ≡ some n) where
  over_limit :
      (messages : List Message) → should_compress encoder e messages ≡ ltb n (length messages)
  unfolding should_compress
  over_limit messages = rw ((valid_engine e n valid limit).0, limit)

  -- With a valid configuration in message mode, and a list over the limit, head, middle and tail
  -- are the list.
  pub partition-covers :
      (messages : List Message)
      → should_compress encoder e messages ≡ true
      → (partition encoder e messages).head
          ++ (partition encoder e messages).middle
          ++ (partition encoder e messages).tail
        ≡ messages
  unfolding partition
  partition-covers messages over =
      let (unset, room) = valid_engine e n valid limit in
      rw unset
        (partition_by_count-covers e messages (ground (arith, over_limit messages, over, room)))

  -- What an engine whose configuration is valid, in message mode, returns is within its limit.
  pub compress-length_le :
      (marker : List Message → Message) (messages : List Message)
      → length (compress encoder e marker messages) ≤ n
  unfolding compress
  compress-length_le marker messages =
      let (unset, room) = valid_engine e n valid limit in
      let parts = partition encoder e messages in
      let (fst, lst) = partition-lengths encoder e messages unset in
      elim (Bool-cases (should_compress encoder e messages)) [
        | inr small ↦ rw small (ground (arith, small, over_limit messages))
        | inl large ↦ elim (Bool-cases (is_empty parts.middle)) [
          | inl gone ↦
              rw (large, gone)
                (omega (
                  arith,
                  ap length (partition-covers messages large),
                  length-empty parts.middle gone,
                  length-append parts.head parts.middle,
                  length-append (parts.head ++ parts.middle) parts.tail,
                  fst,
                  lst,
                  room,
                ))
          | inr there ↦
              rw (large, there)
                (omega (arith, length-append parts.head (marker parts.middle ∷ parts.tail)))
        ]
      ]

  keep_small :
      (marker : List Message → Message) (messages : List Message)
      → should_compress encoder e messages ≡ false
      → compress encoder e marker messages ≡ messages
  unfolding compress
  keep_small marker messages h = rw h

  -- With a valid configuration in message mode, compressing again changes nothing.
  pub compress-idempotent :
      (marker : List Message → Message) (messages : List Message)
      → compress encoder e marker (compress encoder e marker messages)
        ≡ compress encoder e marker messages
  compress-idempotent marker messages = keep_small marker (compress encoder e marker messages) (
      ground (
        arith,
        over_limit (compress encoder e marker messages),
        compress-length_le marker messages,
      ))
