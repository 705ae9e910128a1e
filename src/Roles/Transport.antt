-- ===== src/Roles/Transport.antt =====
-- The `Transport` protocol of agent_room/llm/transport.py as the roles use it, and what configures
-- a node. Every answer of a model is a value of these functions, or an error that they raise.
use goal_driven_agent_room.Base.{
  String, Option, none, some, List, [], ◌∷◌, ◌++◌, ◌⧺◌, join, get_default, show, if◌then◌else◌,
  blank,
}
use goal_driven_agent_room.Schemas.{
  Role, Message, Reply, Tool, ReviewerDecision, PlannerGateOutput, FocusCheck, StuckDecision,
  system, human, str,
}
use goal_driven_agent_room.State.{TaskState, revision_round_of, max_revisions_of}
use goal_driven_agent_room.Texts.{TextLibrary, bullets, format_extra_context}
use goal_driven_agent_room.Errors.{Result}

-- `invoke(role, messages, tools=..., model_override=...)` and `structured(role, schema, messages,
-- model_override=...)`, one function for each schema.
pub record Transport : Type 0 where
  pub invoke : Role → List Message → Option (List Tool) → Option String → Result Reply
  pub review : List Message → Option String → Result ReviewerDecision
  pub gate : List Message → Option String → Result PlannerGateOutput
  pub focus : List Message → Option String → Result FocusCheck
  pub unstick : List Message → Option String → Result StuckDecision

-- The keyword arguments of the factories.
pub record NodeConfig : Type 0 where
  pub prompt_override : Option String
  pub extra_context_keys : List String
  pub model : Option String

-- `prompt_override or DEFAULT`
unfoldable pub prompt_or : Option String → String → String
prompt_or none fallback = fallback
prompt_or (some p) fallback = if blank p then fallback else p

-- `[SystemMessage(content=a), HumanMessage(content=b)]`
abbrev pub system_and_human : String → String → List Message
system_and_human a b = system (str a) ∷ human (str b) ∷ []

-- Text that is added where it is not empty.
abbrev pub if_text : String → List String
if_text t = if blank t then [] else t ∷ []

directives_section : List String → List String
unfolding bullets ◌⧺◌
directives_section [] = []
directives_section (d ∷ ds) =
    ("\n# User directives (must be visibly applied; flag any gap)\n" ⧺ bullets (d ∷ ds)) ∷ []

-- The human message that both reviewers build.
unfoldable pub review_request : TextLibrary TaskState → List String → TaskState → String
unfolding directives_section join ◌⧺◌ show format_extra_context
review_request lib keys s =
    let extra = format_extra_context lib s keys in
    join "\n" (
      ("# Title\n" ⧺ s.title)
      ∷ ("\n# Description\n" ⧺ s.description)
      ∷ ("\n# Plan\n" ⧺ get_default s.plan "None")
      ∷ ("\n# Code\n" ⧺ get_default s.code "None")
      ∷ (directives_section s.user_directives
          ++ (if blank extra then [] else ("\n" ⧺ extra) ∷ [])
          ++ (("\nReview round: "
                ⧺ show (revision_round_of s)
                ⧺ "\nMax revisions allowed: "
                ⧺ show (max_revisions_of s))
              ∷ [])))
