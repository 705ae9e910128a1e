-- ===== src/Llm/ContextWindow.antt =====
-- agent_room/llm/context_window.py: the sizes of the models' windows. `scale n` is `int(n * percent)`.
use goal_driven_agent_room.Base.{
  ℕ, Bool, String, none, some, List, [], ◌∷◌, ◌||◌, get, contains, starts_with, if◌then◌else◌,
}
use goal_driven_agent_room.Errors.{value_error, Result, ok, err}

abbrev pub context_windows : List (String × ℕ)
context_windows =
    ("deepseek-chat", 64000)
    ∷ ("deepseek-reasoner", 64000)
    ∷ ("DeepSeek-V4-Pro", 128000)
    ∷ ("claude-opus", 200000)
    ∷ ("claude-sonnet", 200000)
    ∷ ("claude-haiku", 200000)
    ∷ ("claude-3", 200000)
    ∷ ("gpt-4o", 128000)
    ∷ ("gpt-4-turbo", 128000)
    ∷ ("gpt-4.1", 1000000)
    ∷ ("o1", 200000)
    ∷ ("o3", 200000)
    ∷ []

abbrev pub default_context_window : ℕ
default_context_window = 128000

-- The loop over the known models.
unfoldable pub match_window : List (String × ℕ) → String → ℕ
unfolding contains starts_with
match_window [] model_id = default_context_window
match_window ((known, size) ∷ rest) model_id =
    let later = match_window rest model_id in
    if contains model_id known || starts_with model_id known then size else later

-- `context_window_tokens`
unfoldable pub context_window_tokens : String → ℕ
unfolding match_window
context_window_tokens model_id = elim (get model_id context_windows) [
  | some size ↦ size
  | none ↦ match_window context_windows model_id
]

-- `compression_budget`
unfoldable pub compression_budget : (in_range : Bool) → (scale : ℕ → ℕ) → String → Result ℕ
unfolding context_window_tokens
compression_budget in_range scale model_id =
    if in_range
    then ok (scale (context_window_tokens model_id))
    else err (value_error "percent must be in (0, 1]")
