-- ===== src/Roles/ReviewerTwoCall.antt =====
-- agent_room/roles/reviewer_two_call.py
use goal_driven_agent_room.Base.{
  ◌+◌, ◌-◌, ◌*◌, min, max, Bool, true, not, ◌&&◌, String, some, List, [], ◌∷◌, ◌⧺◌, is_empty,
  if◌then◌else◌, length,
}
use goal_driven_agent_room.Schemas.{
  reviewer, Event, ReviewerDecision, FocusCheck, need_user_decision, dump_focus, ArtifactKind,
  verdict, strings, truth,
}
use goal_driven_agent_room.State.{TaskState, Write, Update, revision_round_of}
use goal_driven_agent_room.Texts.{TextLibrary, bullets}
use goal_driven_agent_room.Errors.{Result, ok, ◌>>=◌}
use goal_driven_agent_room.Roles.Transport.{
  Transport, NodeConfig, prompt_or, system_and_human, review_request,
}
use goal_driven_agent_room.Roles.Prompts.{focus_check_system, reviewer_two_call_system}

-- The decision that escalates the questions of the focus check: its confidence, in hundredths, is
-- `max(0.7, min(1.0, 1.0 - 0.05 * n))`.
unfoldable pub focus_decision : List String → ReviewerDecision
unfolding bullets ◌⧺◌
focus_decision questions = record {
  decision = need_user_decision;
  feedback = "Focus check flagged open questions:\n" ⧺ bullets questions;
  issues = questions;
  confidence = max 70 (min 100 (100 - 5 * length questions));
}

-- The keys that both calls write.
unfoldable pub review_writes :
    TaskState → FocusCheck → ReviewerDecision → List String → Event → Update
review_writes s focus_check decision questions event =
    Write.review (some decision)
    ∷ Write.revision_round (revision_round_of s + 1)
    ∷ Write.open_questions questions
    ∷ Write.artifacts (
        record {
          kind = ArtifactKind.review;
          role = reviewer;
          content = decision.feedback;
          round = revision_round_of s;
          extra = dump_focus focus_check decision;
        }
        ∷ [])
    ∷ Write.events (event ∷ [])
    ∷ []

-- The test that skips the second call.
unfoldable pub escalates : FocusCheck → List String → Bool
escalates focus_check directives =
    not focus_check.is_fully_specified
    && (not (is_empty focus_check.open_questions) && is_empty directives)

unfoldable pub escalated_update : TaskState → FocusCheck → Update
unfolding focus_decision review_writes
escalated_update s focus_check =
    let questions = focus_check.open_questions in
    review_writes s focus_check (focus_decision questions) questions (record {
      type = "reviewer_focus_check_escalated";
      role = some reviewer;
      round = some (revision_round_of s);
      payload = ("questions", strings questions) ∷ [];
    })

unfoldable pub reviewed_update : TaskState → FocusCheck → ReviewerDecision → Update
unfolding review_writes
reviewed_update s focus_check decision = review_writes s focus_check decision [] (record {
  type = "reviewer_completed";
  role = some reviewer;
  round = some (revision_round_of s);
  payload = ("decision", verdict decision.decision) ∷ ("two_call", truth true) ∷ [];
})

module _ (lib : TextLibrary TaskState) (tx : Transport) (config : NodeConfig) where
  unfoldable pub reviewer_two_call_node : TaskState → Result Update
  unfolding review_request prompt_or escalates escalated_update reviewed_update
  reviewer_two_call_node s = do
    let content = review_request lib config.extra_context_keys s
    focus_check ← tx.focus (system_and_human focus_check_system content) config.model
    if escalates focus_check s.user_directives then ok (escalated_update s focus_check) else do
      decision ←
          tx.review
            (system_and_human (prompt_or config.prompt_override reviewer_two_call_system) content)
            config.model
      ok (reviewed_update s focus_check decision)
