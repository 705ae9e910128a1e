-- ===== src/Config/Models.antt =====
-- agent_room/config.py: `RoleBindings.resolve`, `model_ids` and `_build_chat_model`. A chat model that
-- the caller binds is of a type that is a parameter, with its `model` attributes.
use goal_driven_agent_room.Base.{
  Bool, ◌||◌, ◌≡◌, ◌⊎◌, inl, inr, Option-cases, String, Option, none, some, List, [], ◌∷◌, or_none,
  get, get_default, map, starts_with, remove_prefix, if◌then◌else◌, first_of, truthy,
}
use goal_driven_agent_room.Schemas.{
  Role, planner, developer, reviewer, delivery, supervisor, role_name,
}
use goal_driven_agent_room.Config.{Settings, first_text}

-- `ChatAnthropic` and `ChatOpenAI` with the arguments that are set.
pub data Client : Type 0 where
  chat_anthropic : String → (api_key : Option String) → (api_url : Option String) → Client
  chat_openai : String → (api_key : Option String) → Client

-- The attributes `model`, `model_name` and `model_id` of a bound model, where they are texts.
pub record BoundModel : Type 0 where
  pub model : Option String
  pub model_name : Option String
  pub model_id : Option String

-- `_describe_bound_model`
unfoldable pub describe_bound_model : BoundModel → String
describe_bound_model m =
    get_default (first_of (or_none m.model) (first_of (or_none m.model_name) (or_none m.model_id)))
      "<bound>"

-- `_is_anthropic_shaped`; `base_url` is `os.getenv("ANTHROPIC_BASE_URL")`.
unfoldable pub is_anthropic_shaped : (String → String) → Option String → String → Bool
unfolding starts_with
is_anthropic_shaped lower base_url model_id =
    (starts_with (lower model_id) "claude" || starts_with (lower model_id) "anthropic:")
    || truthy base_url

is_openai_shaped : String → Bool
unfolding starts_with
is_openai_shaped id = (starts_with id "gpt" || starts_with id "openai:") || starts_with id "o"

-- The bound models of the roles; the verifier has none.
pub record RoleBindings (Amount : Type 0) : Type 0 where
  pub bound : Role → Option BoundModel
  pub settings : Settings Amount

pub data Resolved : Type 0 where
  explicit : BoundModel → Resolved
  built : Client → Resolved

-- The bound model where there is one.
abbrev pub bound_or : Option BoundModel → Client → Resolved
bound_or none client = built client
bound_or (some m) client = explicit m

abbrev pub described_or : Option BoundModel → String → String
unfolding describe_bound_model
described_or none id = id
described_or (some m) id = describe_bound_model m

module _ {Amount : Type 0} (lower : String → String) where
  -- `_build_chat_model`, without further arguments
  unfoldable pub build_chat_model : Option String → Settings Amount → String → Client
  unfolding is_anthropic_shaped is_openai_shaped remove_prefix
  build_chat_model base_url s model_id =
      if is_anthropic_shaped lower base_url model_id
      then chat_anthropic (remove_prefix model_id "anthropic:")
          (first_of (or_none s.anthropic_auth_token) (or_none s.anthropic_api_key))
          (or_none s.anthropic_base_url)
      else if is_openai_shaped (lower model_id)
      then chat_openai (remove_prefix model_id "openai:") (or_none s.openai_api_key)
      else chat_anthropic model_id none none

  -- `model_override or settings.role_models.get(role) or settings.default_model`
  unfoldable pub model_for : Settings Amount → Role → Option String → String
  unfolding first_text
  model_for s role override =
      first_text override (get (role_name role) s.role_models) s.default_model

  -- `resolve`
  unfoldable pub resolve : Option String → RoleBindings Amount → Role → Option String → Resolved
  unfolding build_chat_model model_for
  resolve base_url b role override =
      bound_or (b.bound role)
        (build_chat_model base_url b.settings (model_for b.settings role override))

  -- The entry of one role in `model_ids`.
  unfoldable pub model_id_of : RoleBindings Amount → Role → String
  unfolding describe_bound_model model_for
  model_id_of b role = described_or (b.bound role) (model_for b.settings role none)

  -- `model_ids`
  unfoldable pub model_ids : RoleBindings Amount → List (Role × String)
  unfolding model_id_of
  model_ids b =
      map (λ role. (role, model_id_of b role))
        (planner ∷ developer ∷ reviewer ∷ delivery ∷ supervisor ∷ [])

  -- For a role without a bound model, `resolve` builds a client for the model that `model_ids`
  -- reports, whatever the environment; a bound model is taken as it is.
  pub resolve-model_id_of :
      (base_url : Option String) (b : RoleBindings Amount) (role : Role)
      → ((b.bound role ≡ none)
          × (resolve base_url b role none
              ≡ built (build_chat_model base_url b.settings (model_id_of b role))))
        ⊎ ((m : BoundModel) × (b.bound role ≡ some m)
            × (resolve base_url b role none ≡ explicit m)
            × (model_id_of b role ≡ describe_bound_model m))
  unfolding resolve model_id_of
  resolve-model_id_of base_url b role = elim (Option-cases (b.bound role)) [
    | inl free ↦ inl (free, rw free)
    | inr (m, bound) ↦ inr (m, bound, rw bound, rw bound)
  ]
