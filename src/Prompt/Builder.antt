-- ===== src/Prompt/Builder.antt =====
-- agent_room/prompt/builder.py. `is_blank` is `not text.strip()` of Python's strings.
use goal_driven_agent_room.Base.{
  Bool, true, false, String, Option, none, some, List, [], ◌∷◌, ◌++◌, if◌then◌else◌, join, mem_text,
}
use goal_driven_agent_room.Schemas.{Message, system, human, str}
use goal_driven_agent_room.State.{TaskState}
use goal_driven_agent_room.Errors.{Result, ok, err, value_error}

pub data LayerRole : Type 0 where
  system_layer human_layer : LayerRole

abbrev pub same_role : LayerRole → LayerRole → Bool
same_role system_layer system_layer = true
same_role system_layer human_layer = false
same_role human_layer system_layer = false
same_role human_layer human_layer = true

pub record Layer : Type 0 where
  pub name : String
  pub role : LayerRole
  pub render : TaskState → Option String

-- `_emit`
unfoldable pub emit : LayerRole → List String → Message
unfolding join
emit system_layer parts = system (str (join "\n\n" parts))
emit human_layer parts = human (str (join "\n\n" parts))

-- The loop of `_group_consecutive` over the current run, with `_emit` as an argument.
module _ {ℓ} {M : Type ℓ} (emitter : LayerRole → List String → M) where
  unfoldable pub group_runs : List (LayerRole × String) → LayerRole → List String → List M
  group_runs [] current buffer = emitter current buffer ∷ []
  group_runs ((role, text) ∷ rest) current buffer =
      let joined = group_runs rest current (buffer ++ text ∷ []) in
      let opened = emitter current buffer ∷ group_runs rest role (text ∷ []) in
      if same_role role current then joined else opened

unfoldable pub group_consecutive : List (LayerRole × String) → List Message
unfolding group_runs emit
group_consecutive [] = []
group_consecutive ((role, text) ∷ rest) = group_runs emit rest role (text ∷ [])

module _ (is_blank : String → Bool) where
  -- The texts that `build` keeps: a layer that renders `None` or blanks is skipped.
  unfoldable pub rendered_layers : List Layer → TaskState → List (LayerRole × String)
  rendered_layers [] s = []
  rendered_layers (l ∷ ls) s =
      let rest = rendered_layers ls s in
      elim (l.render s) [
        | none ↦ rest
        | some text ↦ if is_blank text then rest else (l.role, text) ∷ rest
      ]

  -- `PromptBuilder.build`
  unfoldable pub build : List Layer → TaskState → List Message
  unfolding group_consecutive rendered_layers
  build layers s = group_consecutive (rendered_layers layers s)

has_duplicate : List String → List Layer → Bool
unfolding mem_text
has_duplicate seen [] = false
has_duplicate seen (l ∷ ls) =
    let rest = has_duplicate (l.name ∷ seen) ls in if mem_text l.name seen then true else rest

-- `PromptBuilder.__init__`: the names of the layers are unique.
unfoldable pub new_builder : List Layer → Result (List Layer)
unfolding has_duplicate
new_builder layers =
    if has_duplicate [] layers then err (value_error "duplicate layer name") else ok layers
