-- ===== src/Tools/Command/Running.antt =====
-- agent_room/tools/shell.py: what runs, and when.
use goal_driven_agent_room.Base.{String, List, ◌≡◌, refl}
use goal_driven_agent_room.Errors.{Result, ok, err, >>=-ok}
use goal_driven_agent_room.Guardrail.{Search}
use goal_driven_agent_room.Tools.Safety.{Shell, tokens}
use goal_driven_agent_room.Tools.Safety.Laws.{IsAllowed, enforce_command_allowlist_iff}
use goal_driven_agent_room.Tools.Files.{Bytes, check_call}
use goal_driven_agent_room.Tools.Command.{
  Completed, ShellTool, report, admit, run_admitted, run_command,
}

-- The command passed the guardrail, and the arguments are its split, which the allowlist allows.
abbrev pub IsAdmitted : Search → Shell → ShellTool → String → List String → Type 0
IsAdmitted engine shell tool command argv =
    (check_call engine tool.guardrail command ≡ ok tt)
    × (shell.split command ≡ tokens argv)
    × IsAllowed tool.allowlist argv

admit-IsAdmitted :
    (engine : Search) (shell : Shell) (tool : ShellTool) (command : String) (argv : List String)
    → admit engine shell tool command ≡ ok argv
    → IsAdmitted engine shell tool command argv
unfolding admit
admit-IsAdmitted engine shell tool command argv h =
    let (u, screened, later) = >>=-ok (check_call engine tool.guardrail command) _ h in
    let (split, allowed) =
      (enforce_command_allowlist_iff shell command tool.allowlist argv).0 later in
    (screened, split, allowed)

module _ {World : Type 0} (decode : Bytes → String) (run : List String → World → Completed × World)
    (tool : ShellTool) where
  -- What a call did: it raised and ran nothing, or it ran these arguments once and reported on it.
  abbrev pub RanOnly : (List String → Type 0) → World → Result String × World → Type 0
  RanOnly Allowed world (err e, after) = after ≡ world
  RanOnly Allowed world (ok text, after) =
      (argv : List String) × Allowed argv
      × (text ≡ report decode tool argv ((run argv world).0))
      × (after ≡ (run argv world).1)

  run_admitted-RanOnly :
      (Allowed : List String → Type 0) (admitted : Result (List String)) (world : World)
      → ((argv : List String) → admitted ≡ ok argv → Allowed argv)
      → RanOnly Allowed world (run_admitted decode run tool admitted world)
  unfolding run_admitted
  run_admitted-RanOnly Allowed (err e) world h = refl
  run_admitted-RanOnly Allowed (ok argv) world h = (argv, h argv refl, refl, refl)

  -- A call of the shell tool raises and leaves the world as it was, or it runs one process, whose
  -- arguments the guardrail and the allowlist admit, leaves the world as that process does, and
  -- returns the report on it.
  pub run_command-RanOnly :
      (engine : Search) (shell : Shell) (command : String) (world : World)
      → RanOnly
          (IsAdmitted engine shell tool command)
          world
          (run_command decode engine shell run tool command world)
  unfolding run_command
  run_command-RanOnly engine shell command world =
      run_admitted-RanOnly (IsAdmitted engine shell tool command) (admit engine shell tool command)
        world (admit-IsAdmitted engine shell tool command)
