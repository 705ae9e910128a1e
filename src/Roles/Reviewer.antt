-- ===== src/Roles/Reviewer.antt =====
-- agent_room/roles/reviewer.py
use goal_driven_agent_room.Base.{◌+◌, String, none, some, List, [], ◌∷◌}
use goal_driven_agent_room.Schemas.{
  reviewer, Message, human, str, ReviewerDecision, ReviewVerdict, revision_required, dump_review,
  ArtifactKind, verdict,
}
use goal_driven_agent_room.State.{TaskState, Write, Update, revision_round_of}
use goal_driven_agent_room.Texts.{TextLibrary}
use goal_driven_agent_room.Errors.{Result, ok, ◌>>=◌}
use goal_driven_agent_room.Prompt.Developer.{render_review_feedback_block}
use goal_driven_agent_room.Roles.Transport.{
  Transport, NodeConfig, prompt_or, system_and_human, review_request,
}
use goal_driven_agent_room.Roles.Prompts.{reviewer_system}

-- Feedback goes into the transcript of a developer in flight, with a fresh tool budget.
unfoldable pub push_feedback : ReviewVerdict → List Message → String → Update
push_feedback revision_required (m ∷ ms) block =
    Write.dev_messages (human (str block) ∷ []) ∷ Write.dev_round 0 ∷ []
push_feedback _ _ block = []

unfoldable pub reviewer_update : TaskState → ReviewerDecision → Update
unfolding push_feedback render_review_feedback_block
reviewer_update s decision =
    let round_no = revision_round_of s in
    Write.review (some decision)
    ∷ Write.revision_round (round_no + 1)
    ∷ Write.artifacts (
        record {
          kind = ArtifactKind.review;
          role = reviewer;
          content = decision.feedback;
          round = round_no;
          extra = dump_review decision;
        }
        ∷ [])
    ∷ Write.events (
        record {
          type = "reviewer_completed";
          role = some reviewer;
          round = some round_no;
          payload = ("decision", verdict decision.decision) ∷ [];
        }
        ∷ [])
    ∷ push_feedback decision.decision s.dev_messages
        (render_review_feedback_block decision round_no none)

module _ (lib : TextLibrary TaskState) (tx : Transport) (config : NodeConfig) where
  unfoldable pub reviewer_node : TaskState → Result Update
  unfolding review_request prompt_or reviewer_update
  reviewer_node s = do
    decision ←
        tx.review
          (system_and_human (prompt_or config.prompt_override reviewer_system)
            (review_request lib config.extra_context_keys s))
          config.model
    ok (reviewer_update s decision)
