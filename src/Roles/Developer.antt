-- ===== src/Roles/Developer.antt =====
-- agent_room/roles/developer.py: the developer without tools.
use goal_driven_agent_room.Base.{ℕ, String, none, some, [], ◌∷◌}
use goal_driven_agent_room.Schemas.{developer, Event, no_extra, ArtifactKind}
use goal_driven_agent_room.State.{TaskState, Write, Update, revision_round_of}
use goal_driven_agent_room.Texts.{TextLibrary, extract_text}
use goal_driven_agent_room.Errors.{Result, ok, ◌>>=◌}
use goal_driven_agent_room.Prompt.Developer.{developer_prompt, developer_system}
use goal_driven_agent_room.Roles.Transport.{Transport, NodeConfig, prompt_or}

-- The keys of a finished implementation.
unfoldable pub code_writes : String → ℕ → Update
code_writes code round_no =
    Write.code code
    ∷ Write.artifacts (
        record {
          kind = ArtifactKind.code;
          role = developer;
          content = code;
          round = round_no;
          extra = no_extra;
        }
        ∷ [])
    ∷ []

abbrev pub developer_completed : ℕ → Event
developer_completed round_no = record {
  type = "developer_completed";
  role = some developer;
  round = some round_no;
  payload = [];
}

module _ (lib : TextLibrary TaskState) (tx : Transport) (config : NodeConfig) where
  unfoldable pub developer_node : TaskState → Result Update
  unfolding developer_prompt prompt_or code_writes extract_text
  developer_node s = do
    let prompt = prompt_or config.prompt_override developer_system
    response ←
        tx.invoke developer (developer_prompt lib prompt config.extra_context_keys s) none
          config.model
    ok (
        Write.events (developer_completed (revision_round_of s) ∷ [])
        ∷ code_writes (extract_text response.content) (revision_round_of s))
