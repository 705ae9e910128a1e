-- ===== src/Prompt/Grouping.antt =====
-- What the grouping of agent_room/prompt/builder.py does with the rendered texts.
use mathlib.Core.List.{map-append}
use goal_driven_agent_room.Base.{
  Bool, true, false, String, List, [], ◌∷◌, ◌++◌, map, ◌≡◌, refl, ap, Bool-cases, inl, inr,
  append_assoc, ◌∙◌, arith, Option-cases,
}
use goal_driven_agent_room.Schemas.{Message}
use goal_driven_agent_room.State.{TaskState}
use goal_driven_agent_room.Prompt.Builder.{
  LayerRole, Layer, system_layer, human_layer, same_role, emit, group_runs, group_consecutive,
  rendered_layers,
}

-- A message before its texts are joined.
abbrev pub Run : Type 0
Run = LayerRole × List String

abbrev pub emit_run : Run → Message
emit_run r = emit r.0 r.1

-- The texts of a list of runs, each with its role.
abbrev pub texts_of : List Run → List (LayerRole × String)
texts_of [] = []
texts_of ((role, parts) ∷ runs) = map (λ t. (role, t)) parts ++ texts_of runs

-- No two neighbours have one role.
abbrev pub Alternates : List Run → Type 0
Alternates [] = Unit
Alternates (r ∷ []) = Unit
Alternates (r ∷ q ∷ runs) = (same_role q.0 r.0 ≡ false) × Alternates (q ∷ runs)

abbrev pair : LayerRole → List String → Run
pair role parts = (role, parts)

same_role-eq : (a b : LayerRole) → same_role a b ≡ true → a ≡ b
same_role-eq system_layer system_layer h = refl
same_role-eq human_layer human_layer h = refl
same_role-eq system_layer human_layer h = cc
same_role-eq human_layer system_layer h = cc

group_runs-texts :
    (rest : List (LayerRole × String)) (current : LayerRole) (buffer : List String)
    → texts_of (group_runs pair rest current buffer) ≡ map (λ t. (current, t)) buffer ++ rest
unfolding group_runs
group_runs-texts [] current buffer = refl
group_runs-texts ((role, text) ∷ rest) current buffer = elim (Bool-cases (same_role role current)) [
  | inl same ↦ rw same (
      group_runs-texts rest current (buffer ++ text ∷ [])
      ∙ rw (same_role-eq role current same)
          (rw map-append (append_assoc (map (λ t. (current, t)) buffer) _ rest)))
  | inr fresh ↦
      rw fresh
        (ap (λ l. map (λ t. (current, t)) buffer ++ l) (group_runs-texts rest role (text ∷ [])))
]

group_runs-head :
    (rest : List (LayerRole × String)) (current : LayerRole) (buffer : List String)
    → (parts : List String) × (runs : List Run) × (group_runs pair rest current buffer
        ≡ (current, parts) ∷ runs)
unfolding group_runs
group_runs-head [] current buffer = (buffer, [], refl)
group_runs-head ((role, text) ∷ rest) current buffer = elim (Bool-cases (same_role role current)) [
  | inl same ↦
      let (parts, runs, e) = group_runs-head rest current (buffer ++ text ∷ []) in
      (parts, runs, rw same e)
  | inr fresh ↦ (buffer, group_runs pair rest role (text ∷ []), rw fresh)
]

group_runs-Alternates :
    (rest : List (LayerRole × String)) (current : LayerRole) (buffer : List String)
    → Alternates (group_runs pair rest current buffer)
unfolding group_runs
group_runs-Alternates [] current buffer = tt
group_runs-Alternates ((role, text) ∷ rest) current buffer =
    elim (Bool-cases (same_role role current)) [
      | inl same ↦ rw same (group_runs-Alternates rest current (buffer ++ text ∷ []))
      | inr fresh ↦
          let (parts, runs, e) = group_runs-head rest role (text ∷ []) in
          let below = rw e at (group_runs-Alternates rest role (text ∷ [])) in
          rw (fresh, e) (fresh, below)
    ]

group_runs-emit :
    (rest : List (LayerRole × String)) (current : LayerRole) (buffer : List String)
    → group_runs emit rest current buffer ≡ map emit_run (group_runs pair rest current buffer)
unfolding group_runs
group_runs-emit [] current buffer = refl
group_runs-emit ((role, text) ∷ rest) current buffer = elim (Bool-cases (same_role role current)) [
  | inl same ↦ rw same (group_runs-emit rest current (buffer ++ text ∷ []))
  | inr fresh ↦ rw fresh (ap (λ l. emit current buffer ∷ l) (group_runs-emit rest role (text ∷ [])))
]

-- The messages are those of a list of runs that holds exactly the rendered texts, each with its
-- role and in their order, and in which neighbours have different roles.
pub group_consecutive_lem :
    (rendered : List (LayerRole × String))
    → (runs : List Run) × (group_consecutive rendered ≡ map emit_run runs)
      × (texts_of runs ≡ rendered)
      × Alternates runs
unfolding group_consecutive
group_consecutive_lem [] = ([], refl, refl, tt)
group_consecutive_lem ((role, text) ∷ rest) = (
  group_runs pair rest role (text ∷ []),
  group_runs-emit rest role (text ∷ []),
  group_runs-texts rest role (text ∷ []),
  group_runs-Alternates rest role (text ∷ []),
)

-- Every text of a list is a human one.
abbrev pub AllHuman : List (LayerRole × String) → Type 0
AllHuman [] = Unit
AllHuman ((role, text) ∷ rest) = (role ≡ human_layer) × AllHuman rest

abbrev pub AllHumanLayers : List Layer → Type 0
AllHumanLayers [] = Unit
AllHumanLayers (l ∷ ls) = (l.role ≡ human_layer) × AllHumanLayers ls

pub rendered_layers-AllHuman :
    (is_blank : String → Bool) (layers : List Layer) (s : TaskState)
    → AllHumanLayers layers
    → AllHuman (rendered_layers is_blank layers s)
unfolding rendered_layers
rendered_layers-AllHuman is_blank [] s h = tt
rendered_layers-AllHuman is_blank (l ∷ ls) s h =
    let rest = rendered_layers-AllHuman is_blank ls s h.1 in
    elim (Option-cases (l.render s)) [
      | inl skipped ↦ rw skipped rest
      | inr (text, shown) ↦ elim (Bool-cases (is_blank text)) [
        | inl b ↦ rw (shown, b) rest
        | inr b ↦ rw (shown, b) (h.0, rest)
      ]
    ]

-- A run of human texts becomes one message.
pub group_runs-human :
    (rest : List (LayerRole × String)) (buffer : List String)
    → AllHuman rest
    → (parts : List String) × (group_runs emit rest human_layer buffer
        ≡ emit human_layer parts ∷ [])
unfolding group_runs
group_runs-human [] buffer h = (buffer, refl)
group_runs-human ((system_layer, text) ∷ rest) buffer h = absurd (ground (arith, h.0))
group_runs-human ((human_layer, text) ∷ rest) buffer h =
    group_runs-human rest (buffer ++ text ∷ []) h.1
