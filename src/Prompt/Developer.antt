-- ===== src/Prompt/Developer.antt =====
-- agent_room/prompt/developer.py: the developer's prompt.
use goal_driven_agent_room.Base.{
  ℕ, false, String, Option, none, some, List, [], ◌∷◌, ◌⧺◌, show, join, blank, truthy, is_empty,
  get_default, if◌then◌else◌, ◌≡◌, refl, ap,
}
use goal_driven_agent_room.Schemas.{
  ReviewerDecision, ReviewVerdict, revision_required, Message, system, human, str,
}
use goal_driven_agent_room.State.{TaskState, revision_round_of}
use goal_driven_agent_room.Texts.{TextLibrary, bullets, format_extra_context}
use goal_driven_agent_room.Prompt.Grouping.{rendered_layers-AllHuman, group_runs-human}
use goal_driven_agent_room.Prompt.Builder.{Layer, system_layer, human_layer, build, emit}

abbrev pub developer_system : String
developer_system =
    "You are the developer in a multi-role engineering team.\nImplement the plan in clean, idiomatic code. Output a single fenced code block\nplus a short rationale. If reviewer feedback is provided, address every issue\nexplicitly."

abbrev pub developer_system_with_tools : String
developer_system_with_tools =
    "You are the developer in a multi-role engineering team.\nImplement the plan in clean, idiomatic code. You have tools to read the\nfilesystem, write files, and discover code. Use them to ground your\nimplementation in what's actually there — don't invent APIs. When you have\nenough information, output a single fenced code block plus a short rationale.\nIf reviewer feedback is provided, address every issue explicitly."

-- `render_review_feedback_block`
unfoldable pub render_review_feedback_block : ReviewerDecision → ℕ → Option String → String
unfolding ◌⧺◌ bullets show
render_review_feedback_block review round_no previous_code =
    let issues = (if is_empty review.issues then "(see feedback)" else bullets review.issues) in
    let block =
      "# Reviewer feedback (round "
      ⧺ show round_no
      ⧺ ")\n"
      ⧺ review.feedback
      ⧺ "\n\n## Issues\n"
      ⧺ issues in
    if truthy previous_code
    then block ⧺ "\n\n# Previous attempt\n" ⧺ get_default previous_code ""
    else block

-- `_render_plan_and_task`
unfoldable pub render_plan_and_task : TaskState → String
unfolding ◌⧺◌
render_plan_and_task s =
    "# Plan\n" ⧺ get_default s.plan "" ⧺ "\n\n# Task\n" ⧺ s.title ⧺ "\n" ⧺ s.description

unfoldable pub render_user_directives : TaskState → Option String
unfolding ◌⧺◌ bullets
render_user_directives s =
    if is_empty s.user_directives
    then none
    else some ("# User directives (apply in order)\n" ⧺ bullets s.user_directives)

feedback_for : ReviewVerdict → String → Option String
feedback_for revision_required block = some block
feedback_for _ block = none

unfoldable pub render_review_feedback : TaskState → Option String
unfolding render_review_feedback_block feedback_for
render_review_feedback s = elim s.review [
  | none ↦ none
  | some r ↦ feedback_for r.decision (render_review_feedback_block r (revision_round_of s) s.code)
]

-- `format_extra_context(state, keys) or None`
unfoldable pub render_extra_context :
    TextLibrary TaskState → List String → TaskState → Option String
render_extra_context lib keys s =
    let text = format_extra_context lib s keys in if blank text then none else some text

module _ (lib : TextLibrary TaskState) where
  -- The layers after the plan, which may be skipped.
  later_layers : List String → List Layer
  later_layers extra_context_keys =
      record { name = "user_directives"; role = human_layer; render = render_user_directives }
      ∷ record { name = "review_feedback"; role = human_layer; render = render_review_feedback }
      ∷ record {
        name = "extra_context";
        role = human_layer;
        render = render_extra_context lib extra_context_keys;
      }
      ∷ []

  unfoldable pub developer_layers : String → List String → List Layer
  unfolding later_layers
  developer_layers system_prompt extra_context_keys =
      record { name = "identity"; role = system_layer; render = λ s. some system_prompt }
      ∷ record {
        name = "plan_and_task";
        role = human_layer;
        render = λ s. some (render_plan_and_task s);
      }
      ∷ later_layers extra_context_keys

  -- `developer_prompt_builder(...).build(state)`
  unfoldable pub developer_prompt : String → List String → TaskState → List Message
  unfolding developer_layers build
  developer_prompt system_prompt extra_context_keys s =
      build lib.is_blank (developer_layers system_prompt extra_context_keys) s

  -- With an identity and a plan section that are not blank, the prompt is exactly one system
  -- message, the identity, and one human message.
  pub developer_prompt-two_messages :
      (system_prompt : String) (keys : List String) (s : TaskState)
      → lib.is_blank system_prompt ≡ false
      → lib.is_blank (render_plan_and_task s) ≡ false
      → (text : String) × (developer_prompt system_prompt keys s
          ≡ system (str system_prompt) ∷ human (str text) ∷ [])
  unfolding developer_prompt emit
  developer_prompt-two_messages system_prompt keys s h b =
      let later =
        rendered_layers-AllHuman lib.is_blank (later_layers keys) s (refl, (refl, (refl, tt))) in
      let (parts, e) = group_runs-human _ (render_plan_and_task s ∷ []) later in
      (join "\n\n" parts, rw (h, b) (ap (λ l. system (str system_prompt) ∷ l) e))
