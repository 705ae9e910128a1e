-- ===== src/Llm/Structured/Failures.antt =====
-- agent_room/llm/transport.py: when `structured` raises an exception of the parser.
use goal_driven_agent_room.Base.{
  ℕ, zero, suc, ◌+◌, ◌<◌, ◌≡◌, ◌⊎◌, refl, ap, ◌∙◌, max, String, true, false, inl, inr, Option, none,
  some, List, Bool-cases, arith,
}
use goal_driven_agent_room.Schemas.{Content}
use goal_driven_agent_room.Llm.Structured.{
  Asked, asked_json, Answer, answered, raised, parser_exception, exception, WithRetry, Provider,
  Key, has_key, is_caught, parsed_reply, json_loop, structured_via_json_prompt, after_primary,
  structured, structured_output_unsupported, message_text,
}

module _ {A : Type 0} (provider : Provider A) where
  open provider use {ainvoke, parse, lower}

  -- The requests after i more with the JSON prompt.
  abbrev pub plus : Asked → ℕ → Asked
  plus start i = record start { json_requests = start.json_requests + i }

  -- A run of JSON requests whose replies cannot be parsed.
  abbrev pub AllUnparsable : Asked → ℕ → Type 0
  AllUnparsable start n = (i : ℕ) → i < n → is_caught provider (ainvoke (plus start i)) ≡ true

  -- A model that raises an exception of the parser itself.
  abbrev pub RaisesItself : Type 0
  RaisesItself = (i : Asked) × (msg : String) × (ainvoke i ≡ raised (parser_exception msg))

  settled_parser :
      (k : Asked) (msg : String)
      → is_caught provider (ainvoke k) ≡ false
      → parsed_reply provider (ainvoke k) ≡ raised (parser_exception msg)
      → ainvoke k ≡ raised (parser_exception msg)
  unfolding is_caught parsed_reply
  settled_parser k msg fine h = settled (ainvoke k) fine h
    where
      settled_parse :
          (c : Content) (a : Answer A)
          → parse (message_text c) ≡ a
          → is_caught provider (answered c) ≡ false
          → a ≡ raised (parser_exception msg)
          → ⊥
      settled_parse c a e fine h =
          let same : parse (message_text c) ≡ raised (parser_exception msg) = e ∙ h in
          cc (rw (is_caught, same) at fine)

      settled :
          (r : Answer Content)
          → is_caught provider r ≡ false
          → parsed_reply provider r ≡ raised (parser_exception msg)
          → r ≡ raised (parser_exception msg)
      settled (raised e) fine h = cc h
      settled (answered c) fine h = absurd (settled_parse c (parse (message_text c)) refl fine h)

  all_from :
      (k : Asked) (n : ℕ)
      → is_caught provider (ainvoke k) ≡ true
      → AllUnparsable (asked_json k) n
      → AllUnparsable k (suc n)
  all_from k n first later zero h =
      ap (λ j. is_caught provider (ainvoke (record k { json_requests = j }))) (omega arith) ∙ first
  all_from k n first later (suc i) h =
      ap (λ j. is_caught provider (ainvoke (record k { json_requests = j }))) (omega arith)
      ∙ later i (omega arith)

  json_loop-parser_exception :
      (n : ℕ) (last : Answer A) (k : Asked) (msg : String)
      → (json_loop provider n last k).0 ≡ raised (parser_exception msg)
      → AllUnparsable k n ⊎ RaisesItself
  unfolding json_loop
  json_loop-parser_exception zero last k msg h = inl (λ i small. absurd (omega arith))
  json_loop-parser_exception (suc n) last k msg h =
      elim (Bool-cases (is_caught provider (ainvoke k))) [
        | inl caught ↦
            elim (json_loop-parser_exception n (parsed_reply provider (ainvoke k)) (asked_json k)
              msg (rw caught at h)) [
                | inl later ↦ inl (all_from k n caught later)
                | inr itself ↦ inr itself
              ]
        | inr fine ↦ inr (k, msg, settled_parser k msg fine (rw fine at h))
      ]

  -- Every reply to a run of JSON requests was unparsable, or the model raised the exception.
  abbrev pub AllFailed : ℕ → Type 0
  AllFailed attempts = ((start : Asked) × AllUnparsable start (max attempts 1)) ⊎ RaisesItself

  json_prompt-parser_exception :
      (attempts : ℕ) (k : Asked) (msg : String)
      → (structured_via_json_prompt provider attempts k).0 ≡ raised (parser_exception msg)
      → AllFailed attempts
  unfolding structured_via_json_prompt
  json_prompt-parser_exception attempts k msg h =
      elim (json_loop-parser_exception (max attempts 1) _ k msg h) [
        | inl failed ↦ inl (k, failed)
        | inr itself ↦ inr itself
      ]

  after_primary-parser_exception :
      (attempts : ℕ) (key : Key) (keys : List Key) (first : Answer (Option A) × Asked)
      (msg : String)
      → (after_primary provider attempts key keys first).0 ≡ raised (parser_exception msg)
      → AllFailed attempts
  unfolding after_primary
  after_primary-parser_exception attempts key keys (answered (some a), k) msg h = absurd (cc h)
  after_primary-parser_exception attempts key keys (answered none, k) msg h =
      json_prompt-parser_exception attempts k msg h
  after_primary-parser_exception attempts key keys (raised (parser_exception m), k) msg h =
      json_prompt-parser_exception attempts k msg (unfold structured_output_unsupported in h)
  after_primary-parser_exception attempts key keys (raised (exception m), k) msg h =
      elim (Bool-cases (structured_output_unsupported lower (exception m))) [
        | inl fallback ↦ json_prompt-parser_exception attempts k msg (rw fallback at h)
        | inr genuine ↦ absurd (cc (rw genuine at h))
      ]

  -- When a structured call raises an exception of the parser, the replies to `attempts` successive
  -- JSON requests, or to one, could all not be parsed, or the model raised such an exception.
  pub structured-parser_exception :
      (with_retry : WithRetry (Option A)) (attempts : ℕ) (key : Key) (keys : List Key) (k : Asked)
      (msg : String)
      → (structured provider with_retry attempts key keys k).0 ≡ raised (parser_exception msg)
      → AllFailed attempts
  unfolding structured
  structured-parser_exception with_retry attempts key keys k msg h =
      elim (Bool-cases (has_key keys key)) [
        | inl known ↦ json_prompt-parser_exception attempts k msg (rw known at h)
        | inr fresh ↦ after_primary-parser_exception attempts key keys _ msg (rw fresh at h)
      ]
