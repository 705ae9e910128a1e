-- ===== src/Llm/Invoke/Within.antt =====
-- agent_room/llm/transport.py with agent_room/budget.py: the calls of a task and its ceilings.
use mathlib.Core.Path.{subst}
use goal_driven_agent_room.Base.{
  ℕ, ◌+◌, ◌≡◌, refl, ap, sym, ◌∙◌, true, inl, inr, Option, none, some, List, length, ◌==◌,
  Bool-cases, arith,
}
use goal_driven_agent_room.Schemas.{Message, Tool}
use goal_driven_agent_room.Errors.{Result, ok, err, >>=-ok, require-ok}
use goal_driven_agent_room.Budget.{
  Money, Usage, Budget, Tracker, record_usage, record_tool_calls, charge, charge_if_set,
  charge_calls, accumulate, within_tokens, within_cost,
}
use goal_driven_agent_room.Budget.Ceilings.{Result-cases, and_then-ok, and_then-err}
use goal_driven_agent_room.Llm.Invoke.{
  RawReply, NormalizedResponse, extract_usage, record_reply, finish, finish_answer, invoke,
  tools_to_bind,
}

module _ (money : Money) where
  -- A tracker within every ceiling of a budget.
  abbrev pub IsWithin : Budget money → Tracker money → Type 0
  IsWithin b t =
      (within_tokens money b.max_tokens_of t.tokens ≡ true)
      × (within_tokens money b.max_tool_calls_of t.tool_calls ≡ true)
      × (within_cost money b.max_cost_of t.cost ≡ true)

  abbrev pub tokens_of : Option Usage → ℕ
  tokens_of none = 0
  tokens_of (some u) = u.total_tokens

  accumulate_lem :
      (b : Budget money) (u : Option Usage) (t : Tracker money)
      → let after = accumulate money b u t in
        (after.tokens ≡ t.tokens + tokens_of u)
        × (after.tool_calls ≡ t.tool_calls)
        × (after.budget ≡ t.budget)
  unfolding accumulate
  accumulate_lem b none t = (omega arith, refl, refl)
  accumulate_lem b (some u) t = (refl, refl, refl)

  -- What a step adds to a tracker within a budget.
  abbrev pub Adds : Budget money → ℕ → ℕ → Tracker money → Tracker money → Type 0
  Adds b tokens calls t after =
      (after.tokens ≡ t.tokens + tokens)
      × (after.tool_calls ≡ t.tool_calls + calls)
      × (after.budget ≡ some b)
      × IsWithin b after

  charge-Adds :
      (b : Budget money) (u : Option Usage) (t : Tracker money)
      → t.budget ≡ some b
      → IsWithin b t
      → (charge money b u t).1 ≡ ok tt
      → Adds b (tokens_of u) 0 t ((charge money b u t).0)
  unfolding charge
  charge-Adds b u t hb h fine =
      let (v, tokens, later) = >>=-ok _ _ fine in
      let (sum, calls, same) = accumulate_lem b u t in
      (
        sum,
        omega (arith, calls),
        same ∙ hb,
        (require-ok _ _ tokens, rw calls (h.1), require-ok _ _ later),
      )

  record_usage-Adds :
      (b : Budget money) (u : Option Usage) (t : Tracker money)
      → t.budget ≡ some b
      → IsWithin b t
      → (record_usage money u t).1 ≡ ok tt
      → Adds b (tokens_of u) 0 t ((record_usage money u t).0)
  unfolding record_usage charge_if_set
  record_usage-Adds b u t hb h fine =
      let opened : record_usage money u t ≡ charge money b u t =
        ap (λ o. charge_if_set money o u t) hb in
      rw opened (charge-Adds b u t hb h (ap (λ p. p.1) (sym opened) ∙ fine))

  charge_calls-Adds :
      (b : Budget money) (n : ℕ) (t : Tracker money)
      → t.budget ≡ some b
      → IsWithin b t
      → (charge_calls money (some b) n t).1 ≡ ok tt
      → Adds b 0 n t ((charge_calls money (some b) n t).0)
  unfolding charge_calls
  charge_calls-Adds b n t hb h fine = elim (Bool-cases (n == 0)) [
    | inl idle ↦ rw idle (omega arith, ground (arith, idle), hb, h)
    | inr busy ↦
        let within : within_tokens money b.max_tool_calls_of (t.tool_calls + n) ≡ true =
          require-ok _ _ (rw busy at fine) in
        rw busy (omega arith, refl, hb, (h.0, within, h.2))
  ]

  record_tool_calls-Adds :
      (b : Budget money) (n : ℕ) (t : Tracker money)
      → t.budget ≡ some b
      → IsWithin b t
      → (record_tool_calls money n t).1 ≡ ok tt
      → Adds b 0 n t ((record_tool_calls money n t).0)
  unfolding record_tool_calls
  record_tool_calls-Adds b n t hb h fine =
      let opened : record_tool_calls money n t ≡ charge_calls money (some b) n t =
        ap (λ o. charge_calls money o n t) hb in
      rw opened (charge_calls-Adds b n t hb h (ap (λ p. p.1) (sym opened) ∙ fine))

  record_reply-Adds :
      (b : Budget money) (raw : RawReply) (t : Tracker money)
      → t.budget ≡ some b
      → IsWithin b t
      → (record_reply money raw t).1 ≡ ok tt
      → Adds b
          (tokens_of (extract_usage raw.usage_metadata))
          (length raw.reply.tool_calls)
          t
          ((record_reply money raw t).0)
  unfolding record_reply
  record_reply-Adds b raw t hb h fine =
      let usage = extract_usage raw.usage_metadata in
      let first = record_usage money usage t in
      elim (Result-cases (first.1)) [
        | inl charged ↦
            let (sum, calls, same, within) = record_usage-Adds b usage t hb h charged in
            let opened =
              and_then-ok first (record_tool_calls money (length raw.reply.tool_calls) (first.0))
                charged in
            let (sum', calls', same', within') =
              record_tool_calls-Adds b (length raw.reply.tool_calls) (first.0) same within
                (ap (λ p. p.1) (sym opened) ∙ fine) in
            rw opened (omega (arith, sum, sum'), omega (arith, calls, calls'), same', within')
        | inr bad ↦ absurd (cc (sym fine ∙ and_then-err first _ bad.0 bad.1))
      ]

  -- The response that a raw reply is made into.
  abbrev pub response_of : RawReply → NormalizedResponse
  response_of raw = record { message = raw.reply; usage = extract_usage raw.usage_metadata }

  finish-ok :
      (raw : RawReply) (p : Tracker money × Result (Unit {0})) (r : NormalizedResponse)
      → (finish money raw p).1 ≡ ok r
      → (p.1 ≡ ok tt) × ((finish money raw p).0 ≡ p.0) × (response_of raw ≡ r)
  unfolding finish
  finish-ok raw (t, ok v) r h = (refl, refl, cc h)
  finish-ok raw (t, err e) r h = absurd (cc h)

  -- What a response adds.
  abbrev pub Counts : Budget money → NormalizedResponse → Tracker money → Tracker money → Type 0
  Counts b r t after = Adds b (tokens_of r.usage) (length r.message.tool_calls) t after

  finish_answer-Counts :
      (b : Budget money) (answer : Result RawReply) (t : Tracker money) (r : NormalizedResponse)
      → t.budget ≡ some b
      → IsWithin b t
      → (finish_answer money answer t).1 ≡ ok r
      → Counts b r t ((finish_answer money answer t).0)
  unfolding finish_answer
  finish_answer-Counts b (err e) t r hb h fine = absurd (cc fine)
  finish_answer-Counts b (ok raw) t r hb h fine =
      let (charged, same, shape) = finish-ok raw (record_reply money raw t) r fine in
      subst (λ x. Counts b x t ((finish money raw (record_reply money raw t)).0)) shape
        (rw same (record_reply-Adds b raw t hb h charged))

  pub invoke-Counts :
      (b : Budget money) (ainvoke : List Message → List Tool → Result RawReply)
      (messages : List Message) (tools : Option (List Tool)) (t : Tracker money)
      (r : NormalizedResponse)
      → t.budget ≡ some b
      → IsWithin b t
      → (invoke money ainvoke messages tools t).1 ≡ ok r
      → Counts b r t ((invoke money ainvoke messages tools t).0)
  unfolding invoke
  invoke-Counts b ainvoke messages tools t r hb h fine =
      finish_answer-Counts b (ainvoke messages (tools_to_bind tools)) t r hb h fine
