-- ===== src/Roles/Supervisor.antt =====
-- agent_room/roles/supervisor.py
use goal_driven_agent_room.Base.{
  suc, String, Option, none, some, List, [], ◌∷◌, ◌⧺◌, join, show, get_default, blank,
  if◌then◌else◌,
}
use goal_driven_agent_room.Schemas.{
  ℤ, pos, negsuc, supervisor, Message, need_user_decision, StuckDecision, StuckAction, ask_user,
  VerificationResult, strategy, string,
}
use goal_driven_agent_room.State.{TaskState, Write, Update, verify_round_of, max_iterations_of}
use goal_driven_agent_room.Errors.{Result, ok, ◌>>=◌}
use goal_driven_agent_room.Roles.Transport.{Transport, NodeConfig, prompt_or, system_and_human}
use goal_driven_agent_room.Roles.Prompts.{supervisor_system}

-- `str(exit_code)`
unfoldable pub show_exit : Option ℤ → String
unfolding show ◌⧺◌
show_exit none = "None"
show_exit (some (pos n)) = show n
show_exit (some (negsuc n)) = "-" ⧺ show (suc n)

-- `x or fallback`
unfoldable pub text_or : String → String → String
text_or s fallback = if blank s then fallback else s

latest_failure : Option VerificationResult → String
unfolding show show_exit ◌⧺◌
latest_failure none = "(no verification record)"
latest_failure (some v) =
    "round " ⧺ show v.round ⧺ ", exit=" ⧺ show_exit v.exit_code ⧺ "\n" ⧺ v.output_tail

-- `_build_messages`
unfoldable pub supervisor_messages : TaskState → String → List Message
unfolding latest_failure join show text_or ◌⧺◌
supervisor_messages s system_prompt = system_and_human system_prompt (
    join "\n" (
      ("# Goal\n" ⧺ s.title ⧺ "\n" ⧺ s.description)
      ∷ ("\n# Current plan\n" ⧺ text_or (get_default s.plan "") "(none)")
      ∷ ("\n# Consecutive failed verifications\n"
          ⧺ show (verify_round_of s)
          ⧺ " of max "
          ⧺ show (max_iterations_of s))
      ∷ ("\n# Latest failure\n" ⧺ latest_failure s.verification)
      ∷ []))

-- `ask_user` is written as a review that needs the user's decision.
unfoldable pub ask : StuckAction → StuckDecision → Update
unfolding text_or
ask ask_user d =
    Write.review (
      some (record {
        decision = need_user_decision;
        feedback = text_or d.question d.reasoning;
        issues = [];
        confidence = 80;
      }))
    ∷ []
ask _ d = []

unfoldable pub supervisor_update : TaskState → StuckDecision → Update
unfolding ask
supervisor_update s d =
    Write.stuck_decision (some d)
    ∷ Write.events (
        record {
          type = "supervisor_decided";
          role = some supervisor;
          round = some (verify_round_of s);
          payload = ("action", strategy d.action) ∷ ("reasoning", string d.reasoning) ∷ [];
        }
        ∷ [])
    ∷ ask d.action d

module _ (tx : Transport) (config : NodeConfig) where
  unfoldable pub supervisor_node : TaskState → Result Update
  unfolding supervisor_messages supervisor_update prompt_or
  supervisor_node s = do
    decision ←
        tx.unstick (supervisor_messages s (prompt_or config.prompt_override supervisor_system))
          config.model
    ok (supervisor_update s decision)
