-- ===== src/Tools/Command.antt =====
-- agent_room/tools/shell.py: one command, run without a shell. The process is a function of its
-- arguments and of a world that it leaves changed; other errors in starting it are left out.
pub mod Running
use goal_driven_agent_room.Base.{
  ℕ, ◌-◌, String, Option, none, some, List, [], ◌∷◌, ◌⧺◌, length, take, show, leb, get_default,
  if◌then◌else◌,
}
use goal_driven_agent_room.Schemas.{ℤ}
use goal_driven_agent_room.Errors.{Error, Result, ok, err, ◌>>◌}
use goal_driven_agent_room.Guardrail.{GuardrailMode, Search}
use goal_driven_agent_room.Roles.Supervisor.{show_exit}
use goal_driven_agent_room.Tools.Safety.{Shell, enforce_command_allowlist}
use goal_driven_agent_room.Tools.Files.{Bytes, check_call, more_bytes}

-- How `subprocess.run` ends.
pub data Completed : Type 0 where
  exited : (returncode : ℤ) → (stdout stderr : Bytes) → Completed
  timed_out : (stdout stderr : Option Bytes) → Completed
  not_found : (why : String) → Completed

-- The fields of `ShellTool`; `timeout_s` is the number as it is shown.
pub record ShellTool : Type 0 where
  pub allowlist : List String
  pub timeout_s : String
  pub max_output_bytes : ℕ
  pub guardrail : Option GuardrailMode

-- `_truncate_bytes`; the decoding replaces errors.
unfoldable pub truncate_bytes : (Bytes → String) → ℕ → Bytes → String
unfolding ◌⧺◌ more_bytes
truncate_bytes decode max_bytes b =
    if leb (length b) max_bytes
    then decode b
    else decode (take max_bytes b) ⧺ more_bytes (length b - max_bytes)

abbrev pub head_of : List String → String
head_of [] = ""
head_of (head ∷ args) = head

-- The text that is returned.
unfoldable pub report : (Bytes → String) → ShellTool → List String → Completed → String
unfolding truncate_bytes show_exit ◌⧺◌
report decode tool argv (exited returncode stdout stderr) =
    "[exit "
    ⧺ show_exit (some returncode)
    ⧺ "]\n--- stdout ---\n"
    ⧺ truncate_bytes decode tool.max_output_bytes stdout
    ⧺ "\n--- stderr ---\n"
    ⧺ truncate_bytes decode tool.max_output_bytes stderr
report decode tool argv (timed_out stdout stderr) =
    "[timeout after "
    ⧺ tool.timeout_s
    ⧺ "s]\n--- stdout (partial) ---\n"
    ⧺ truncate_bytes decode tool.max_output_bytes (get_default stdout [])
    ⧺ "\n--- stderr (partial) ---\n"
    ⧺ truncate_bytes decode tool.max_output_bytes (get_default stderr [])
report decode tool argv (not_found why) = "[command not found: " ⧺ head_of argv ⧺ "] " ⧺ why

-- The arguments that `_run` passes on, or what it raises before.
unfoldable pub admit : Search → Shell → ShellTool → String → Result (List String)
unfolding check_call enforce_command_allowlist
admit search shell tool command = do
  check_call search tool.guardrail command
  enforce_command_allowlist shell command tool.allowlist

module _ {World : Type 0} where
  unfoldable pub run_admitted :
      (Bytes → String)
      → (List String → World → Completed × World)
      → ShellTool
      → Result (List String)
      → World
      → Result String × World
  unfolding report
  run_admitted decode run tool (err e) world = (err e, world)
  run_admitted decode run tool (ok argv) world =
      let ended = run argv world in (ok (report decode tool argv ended.0), ended.1)

  -- `ShellTool._run`
  unfoldable pub run_command :
      (Bytes → String)
      → Search
      → Shell
      → (List String → World → Completed × World)
      → ShellTool
      → String
      → World
      → Result String × World
  unfolding admit run_admitted
  run_command decode search shell run tool command =
      run_admitted decode run tool (admit search shell tool command)
