-- ===== src/Llm/Structured/Requests.antt =====
-- agent_room/llm/transport.py and agent_room/llm/_retry.py: how many requests `structured` makes.
use goal_driven_agent_room.Base.{
  ℕ, zero, suc, ◌+◌, ◌≤◌, max, inl, inr, Option, none, some, List, Bool-cases, if◌then◌else◌, ltb,
  ◌==◌, arith,
}
use goal_driven_agent_room.Llm.Structured.{
  Asked, asked_json, Answer, answered, raised, Runnable, WithRetry, once, retry_on_parser_error,
  run_prepared, Provider, Key, has_key, is_caught, parsed_reply, json_loop,
  structured_via_json_prompt, primary, after_primary, structured, structured_output_unsupported,
}

-- At most n requests for structured output and m with the JSON prompt lie between two counts.
abbrev pub IsWithin : (n m : ℕ) → Asked → Asked → Type 0
IsWithin n m k after =
    (after.structured_requests ≤ k.structured_requests + n)
    × (after.json_requests ≤ k.json_requests + m)

-- A runnable that makes some requests of either kind at most.
abbrev pub MakesAtMost : {A : Type 0} → (n m : ℕ) → Runnable A → Type 0
MakesAtMost n m runnable = (k : Asked) → IsWithin n m k ((runnable k).1)

-- The documented bound of `with_retry`: the runnable is run `stop_after_attempt` times at most, and
-- nothing else is.
abbrev pub StopsAfter : {A : Type 0} → WithRetry A → Type 0
StopsAfter {A} with_retry =
    (runnable : Runnable A) (attempts : ℕ)
    → MakesAtMost 1 0 runnable
    → MakesAtMost attempts 0 (with_retry runnable attempts)

module _ {A : Type 0} (provider : Provider A) where
  open provider use {with_structured_output, ainvoke, lower}

  json_loop-requests : (n : ℕ) (last : Answer A) → MakesAtMost 0 n (json_loop provider n last)
  unfolding json_loop
  json_loop-requests zero last k = (omega arith, omega arith)
  json_loop-requests (suc n) last k =
      let later = json_loop-requests n (parsed_reply provider (ainvoke k)) (asked_json k) in
      elim (Bool-cases (is_caught provider (ainvoke k))) [
        | inl caught ↦ rw caught (omega (arith, later.0), omega (arith, later.1))
        | inr settled ↦ rw settled (omega arith, omega arith)
      ]

  pub json_prompt-requests :
      (attempts : ℕ) → MakesAtMost 0 (max attempts 1) (structured_via_json_prompt provider attempts)
  unfolding structured_via_json_prompt
  json_prompt-requests attempts k = json_loop-requests (max attempts 1) _ k

  module _ (with_retry : WithRetry (Option A)) (stops : StopsAfter with_retry) where
    primary-requests :
        (attempts : ℕ) → MakesAtMost attempts 0 (primary provider with_retry attempts)
    unfolding primary retry_on_parser_error run_prepared
    primary-requests attempts k =
        let retried =
          stops (once with_structured_output) attempts (λ j. (omega arith, omega arith)) k in
        elim (Bool-cases (ltb attempts 1)) [
          | inl few ↦ rw few (omega arith, omega arith)
          | inr enough ↦ elim (Bool-cases (attempts == 1)) [
            | inl one ↦ rw (enough, one) (ground arith, omega arith)
            | inr more ↦ rw (enough, more) retried
          ]
        ]

    after_primary-requests :
        (attempts : ℕ) (key : Key) (keys : List Key) (first : Answer (Option A) × Asked)
        → IsWithin 0 (max attempts 1) (first.1) ((after_primary provider attempts key keys first).1)
    unfolding after_primary
    after_primary-requests attempts key keys (answered (some a), k) = (omega arith, omega arith)
    after_primary-requests attempts key keys (answered none, k) = json_prompt-requests attempts k
    after_primary-requests attempts key keys (raised e, k) =
        elim (Bool-cases (structured_output_unsupported lower e)) [
          | inl fallback ↦ rw fallback (json_prompt-requests attempts k)
          | inr genuine ↦ rw genuine (omega arith, omega arith)
        ]

    -- Where `with_retry` stops as documented, a structured call makes at most `attempts` requests
    -- for structured output, none of them if the model has needed the fallback before, and at most
    -- `attempts`, or one, with the JSON prompt.
    pub structured-requests_le :
        (attempts : ℕ) (key : Key) (keys : List Key) (k : Asked)
        → IsWithin
            (if has_key keys key then 0 else attempts)
            (max attempts 1)
            k
            ((structured provider with_retry attempts key keys k).1)
    unfolding structured
    structured-requests_le attempts key keys k =
        let first = primary provider with_retry attempts k in
        let (tried, none_json) = primary-requests attempts k in
        let (none_more, prompted) = after_primary-requests attempts key keys first in
        elim (Bool-cases (has_key keys key)) [
          | inl known ↦ rw known (json_prompt-requests attempts k)
          | inr fresh ↦
              rw fresh (omega (arith, none_more, tried), omega (arith, prompted, none_json))
        ]
