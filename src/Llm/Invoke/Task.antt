-- ===== src/Llm/Invoke/Task.antt =====
-- agent_room/llm/transport.py with agent_room/budget.py: all the calls of a task.
use mathlib.Core.Path.{subst}
use goal_driven_agent_room.Base.{ℕ, ◌+◌, ◌≡◌, refl, Option, some, List, [], ◌∷◌, length, arith}
use goal_driven_agent_room.Schemas.{Message, Tool}
use goal_driven_agent_room.Errors.{Result, ok, err}
use goal_driven_agent_room.Budget.{Money, Budget, Tracker}
use goal_driven_agent_room.Llm.Invoke.{RawReply, NormalizedResponse, invoke}
use goal_driven_agent_room.Llm.Invoke.Within.{IsWithin, Adds, Counts, tokens_of, invoke-Counts}

module _ (money : Money) where
  -- A call of a task: what the model answers, the messages and the tools.
  pub record Call : Type 0 where
    pub ainvoke : List Message → List Tool → Result RawReply
    pub messages : List Message
    pub tools : Option (List Tool)

  then_more :
      Tracker money × Result NormalizedResponse
      → Tracker money × Result (List NormalizedResponse)
      → Tracker money × Result (List NormalizedResponse)
  then_more (t, err e) rest = (t, err e)
  then_more (t, ok r) (t', err e) = (t', err e)
  then_more (t, ok r) (t', ok rs) = (t', ok (r ∷ rs))

  then_more-ok :
      (step : Tracker money × Result NormalizedResponse)
      (rest : Tracker money × Result (List NormalizedResponse)) (rs : List NormalizedResponse)
      → (then_more step rest).1 ≡ ok rs
      → (r : NormalizedResponse) × (later : List NormalizedResponse) × (step.1 ≡ ok r)
        × (rest.1 ≡ ok later)
        × (r ∷ later ≡ rs)
        × ((then_more step rest).0 ≡ rest.0)
  unfolding then_more
  then_more-ok (t, err e) rest rs h = absurd (cc h)
  then_more-ok (t, ok r) (t', err e) rs h = absurd (cc h)
  then_more-ok (t, ok r) (t', ok later) rs h = (r, later, refl, refl, cc h, refl)

  -- The calls of a task in turn, up to the first that raises.
  unfoldable pub invoke_all :
      List Call → Tracker money → Tracker money × Result (List NormalizedResponse)
  unfolding then_more invoke
  invoke_all [] t = (t, ok [])
  invoke_all (c ∷ cs) t =
      let step = invoke money c.ainvoke c.messages c.tools t in
      then_more step (invoke_all cs (step.0))

  abbrev pub total_tokens : List NormalizedResponse → ℕ
  total_tokens [] = 0
  total_tokens (r ∷ rs) = tokens_of money r.usage + total_tokens rs

  abbrev pub total_calls : List NormalizedResponse → ℕ
  total_calls [] = 0
  total_calls (r ∷ rs) = length r.message.tool_calls + total_calls rs

  grow :
      (b : Budget money) (r : NormalizedResponse) (tokens calls : ℕ) (t u v : Tracker money)
      → Counts money b r t u
      → Adds money b tokens calls u v
      → Adds money b (tokens_of money r.usage + tokens) (length r.message.tool_calls + calls) t v
  grow b r tokens calls t u v (sum, count, same, within) (sum', count', same', within') =
      (omega (arith, sum, sum'), omega (arith, count, count'), same', within')

  -- When no call of a task raises, the tracker has added up the tokens and the tool calls of all
  -- the responses, and is within every ceiling of the budget, if it was at first.
  pub invoke_all-IsWithin :
      (b : Budget money) (calls : List Call) (t : Tracker money) (rs : List NormalizedResponse)
      → t.budget ≡ some b
      → IsWithin money b t
      → (invoke_all calls t).1 ≡ ok rs
      → Adds money b (total_tokens rs) (total_calls rs) t ((invoke_all calls t).0)
  unfolding invoke_all
  invoke_all-IsWithin b [] t rs hb h fine =
      let none_yet : [] ≡ rs = cc fine in
      subst (λ l. Adds money b (total_tokens l) (total_calls l) t t) none_yet
        (omega arith, omega arith, hb, h)
  invoke_all-IsWithin b (c ∷ cs) t rs hb h fine =
      let step = invoke money c.ainvoke c.messages c.tools t in
      let rest = invoke_all cs (step.0) in
      let (r, later, one, others, shape, last) = then_more-ok step rest rs fine in
      let first = invoke-Counts money b c.ainvoke c.messages c.tools t r hb h one in
      let more = invoke_all-IsWithin b cs (step.0) later (first.2) (first.3) others in
      subst (λ l. Adds money b (total_tokens l) (total_calls l) t ((then_more step rest).0)) shape
        (rw last (grow b r (total_tokens later) (total_calls later) t (step.0) (rest.0) first more))
