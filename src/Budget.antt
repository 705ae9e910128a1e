-- ===== src/Budget.antt =====
-- agent_room/budget.py: the ceilings of a task and their accumulator. Money is a parameter: an
-- amount has a zero, a sum, an order, and the price of a number of tokens.
use goal_driven_agent_room.Base.{
  ℕ, ◌+◌, ◌≤◌, ◌<◌, ◌≡◌, refl, Bool, true, false, not, ◌&&◌, Option, none, some, is_none,
  if◌then◌else◌, ltb, leb, get_default, ◌==◌,
}
use goal_driven_agent_room.Schemas.{BudgetDimension, max_tokens, max_tool_calls, max_cost_usd}
use goal_driven_agent_room.Errors.{Error, budget_exceeded, Result, ok, err, ◌>>=◌, ◌>>◌, require}
pub mod Ceilings

pub record Money : Type 1 where
  pub Amount : Type 0
  pub nothing : Amount
  pub plus : Amount → Amount → Amount
  pub exceeds : Amount → Amount → Bool
  pub price : ℕ → Amount → Amount

-- A call after a call that may raise.
unfoldable pub and_then {ℓ} :
    {A : Type ℓ} → A × Result (Unit {0}) → A × Result (Unit {0}) → A × Result (Unit {0})
and_then (t, ok v) rest = rest
and_then (t, err e) rest = (t, err e)

-- `Usage` of agent_room/llm/transport.py
pub record Usage : Type 0 where
  pub prompt_tokens : ℕ
  pub completion_tokens : ℕ
  pub total_tokens : ℕ
  pub cached_tokens : ℕ

module _ (money : Money) where
  open money use {Amount, nothing, plus, exceeds, price}

  pub record Budget : Type 0 where
    pub max_tokens_of : Option ℕ
    pub max_tool_calls_of : Option ℕ
    pub max_cost_of : Option Amount
    pub price_per_1k_input : Option Amount
    pub price_per_1k_output : Option Amount

  pub record Tracker : Type 0 where
    pub budget : Option Budget
    pub tokens : ℕ
    pub tool_calls : ℕ
    pub cost : Amount

  unfoldable pub new_tracker : Option Budget → Tracker
  new_tracker budget = record { budget = budget; tokens = 0; tool_calls = 0; cost = nothing }

  abbrev pub add_price : Option Amount → ℕ → Amount → Amount
  add_price none n cost = cost
  add_price (some p) n cost = plus cost (price n p)

  abbrev pub within_tokens : Option ℕ → ℕ → Bool
  within_tokens none n = true
  within_tokens (some limit) n = not (ltb limit n)

  abbrev pub within_cost : Option Amount → Amount → Bool
  within_cost none c = true
  within_cost (some limit) c = not (exceeds c limit)

  unfoldable pub accumulate : Budget → Option Usage → Tracker → Tracker
  accumulate b none t = t
  accumulate b (some u) t = record t {
    tokens = t.tokens + u.total_tokens;
    cost =
        add_price b.price_per_1k_output u.completion_tokens
          (add_price b.price_per_1k_input u.prompt_tokens t.cost);
  }

  -- `record` with a budget: the tracker after the call, which keeps what was added when the call
  -- raises, and whether the call raises.
  unfoldable pub charge : Budget → Option Usage → Tracker → Tracker × Result (Unit {0})
  unfolding accumulate
  charge b usage t =
      let t' = accumulate b usage t in
      (
        t',
        (do
          require (within_tokens b.max_tokens_of t'.tokens) (budget_exceeded max_tokens)
          require (within_cost b.max_cost_of t'.cost) (budget_exceeded max_cost_usd)),
      )

  unfoldable pub charge_if_set :
      Option Budget → Option Usage → Tracker → Tracker × Result (Unit {0})
  unfolding charge
  charge_if_set none usage t = (t, ok tt)
  charge_if_set (some b) usage t = charge b usage t

  -- `record`
  unfoldable pub record_usage : Option Usage → Tracker → Tracker × Result (Unit {0})
  unfolding charge_if_set
  record_usage usage t = charge_if_set t.budget usage t

  -- `record_tool_calls` with a budget that may be missing.
  unfoldable pub charge_calls : Option Budget → ℕ → Tracker → Tracker × Result (Unit {0})
  charge_calls none count t = (t, ok tt)
  charge_calls (some b) count t =
      let t' = record t { tool_calls = t.tool_calls + count } in
      if count == 0 then (t, ok tt) else (
        t',
        require (within_tokens b.max_tool_calls_of t'.tool_calls) (budget_exceeded max_tool_calls),
      )

  -- `record_tool_calls`; the count is a natural number, so `count <= 0` is `count == 0`.
  unfoldable pub record_tool_calls : ℕ → Tracker → Tracker × Result (Unit {0})
  unfolding charge_calls
  record_tool_calls count t = charge_calls t.budget count t
