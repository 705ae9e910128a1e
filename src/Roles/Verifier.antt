-- ===== src/Roles/Verifier.antt =====
-- agent_room/roles/verifier.py: the objective oracle. A workspace is what stands at each resolved
-- path, with how its links resolve; the process that runs the command is a function of the arguments
-- and of the workspace it finds.
pub mod Seeding
pub mod Tamper
use goal_driven_agent_room.Base.{
  ℕ, zero, suc, ◌+◌, Bool, true, false, String, Option, none, some, List, [], ◌∷◌, ◌⧺◌, show,
  truthy, get_default, str_last, if◌then◌else◌,
}
use goal_driven_agent_room.Schemas.{
  ℤ, pos, negsuc, verifier, Event, Message, human, str, VerificationResult, truth, exit,
}
use goal_driven_agent_room.State.{TaskState, Write, Update, verify_round_of}
use goal_driven_agent_room.Texts.{TextLibrary}
use goal_driven_agent_room.Errors.{Error, value_error, Result, ok, err, ◌>>=◌}
use goal_driven_agent_room.Tools.Safety.{
  Paths, Shell, resolve_within_root, enforce_command_allowlist,
}
use goal_driven_agent_room.Tools.Files.{Bytes, Node, Trees, exists_on, make_dirs, write_node}
use goal_driven_agent_room.Roles.Supervisor.{show_exit}

abbrev pub output_tail_chars : ℕ
output_tail_chars = 2000

abbrev pub fix_guidance : String
fix_guidance =
    "\n\nThe goal is NOT yet achieved. Read the failure output above, fix the code (not the tests — they are re-seeded before every verification), and finish with your updated final answer."

-- How a process ends: it does not start, runs out of time, or exits with its decoded output.
pub data Outcome : Type 0 where
  not_started : String → Outcome
  timed_out : Outcome
  exited : ℤ → String → Outcome

abbrev pub is_zero : ℤ → Bool
is_zero (pos zero) = true
is_zero (pos (suc n)) = false
is_zero (negsuc n) = false

-- The event and the transcript push of a finished run; the push is for a developer in flight.
unfoldable pub push_failure : Bool → List Message → ℕ → VerificationResult → Update
unfolding ◌⧺◌ show show_exit
push_failure true messages round_no result = []
push_failure false [] round_no result = []
push_failure false (m ∷ ms) round_no result =
    Write.dev_messages (
      human (
        str (
          "# Verification failed (round "
          ⧺ show round_no
          ⧺ ", exit="
          ⧺ show_exit result.exit_code
          ⧺ ")\n"
          ⧺ result.output_tail
          ⧺ fix_guidance))
      ∷ [])
    ∷ Write.dev_round 0
    ∷ []

unfoldable pub verifier_update : TaskState → VerificationResult → Update
unfolding push_failure
verifier_update s result =
    let round_no = verify_round_of s + 1 in
    Write.verification (some result)
    ∷ Write.verify_round round_no
    ∷ Write.events (
        record {
          type = "verification_completed";
          role = some verifier;
          round = some round_no;
          payload = ("passed", truth result.passed) ∷ ("exit_code", exit result.exit_code) ∷ [];
        }
        ∷ [])
    ∷ push_failure result.passed s.dev_messages round_no result

module _ (strip : String → String) (shell : Shell) where
  unfoldable pub outcome_result : Outcome → List String → ℕ → VerificationResult
  unfolding ◌⧺◌ str_last
  outcome_result (not_started why) argv round_no = record {
    passed = false;
    exit_code = none;
    output_tail = "verify_command failed to start: " ⧺ why;
    round = round_no;
  }
  outcome_result timed_out argv round_no = record {
    passed = false;
    exit_code = none;
    output_tail = "verify_command timed out after 60.0s (" ⧺ shell.join_args argv ⧺ ")";
    round = round_no;
  }
  outcome_result (exited code stdout) argv round_no = record {
    passed = is_zero code;
    exit_code = some code;
    output_tail = str_last output_tail_chars (strip stdout);
    round = round_no;
  }

error_text : Error → String
error_text (value_error why) = why
error_text _ = ""

-- A disk, and `Path.resolve` on it, which a developer changes when it makes a link.
pub record Workspace (FilePath : Type 0) : Type 0 where
  pub nodes : FilePath → Node
  pub links : FilePath → FilePath

-- The paths, as the links of a workspace resolve them.
abbrev pub paths_in : (paths : Paths) → (paths.FilePath → paths.FilePath) → Paths
paths_in paths links = record {
  FilePath = paths.FilePath;
  path_discrete = paths.path_discrete;
  of_text = paths.of_text;
  resolve = links;
  is_absolute = paths.is_absolute;
  child = paths.child;
  is_relative_to = paths.is_relative_to;
}

module _ (paths : Paths) (trees : Trees paths) (encode : String → Bytes) where
  open paths use {FilePath}
  open trees use {parent, with_parents}

  -- One seeded file: the path is resolved, its parents are made, and the file is written. Each of
  -- these may raise.
  unfoldable pub seed_file :
      FilePath → (path content : String) → Workspace FilePath → Result (Workspace FilePath)
  unfolding resolve_within_root make_dirs
  seed_file root path content w = do
    target ← resolve_within_root (paths_in paths w.links) (exists_on paths trees w.nodes) root path
    made ← make_dirs paths trees (with_parents (parent target)) w.nodes
    written ←
        write_node paths trees target (encode content) (made (parent target)) (made target) made
    ok (record { nodes = written; links = w.links })

  -- `_reseed_verify_files`
  unfoldable pub reseed_verify_files :
      FilePath → List (String × String) → Workspace FilePath → Result (Workspace FilePath)
  unfolding seed_file
  reseed_verify_files root [] w = ok w
  reseed_verify_files root ((rel, content) ∷ rest) w =
      seed_file root rel content w >>= λ seeded. reseed_verify_files root rest seeded

module _ {Files : Type 0} (strip : String → String) (shell : Shell) where
  -- The run of a parsed command; a rejected command is a failed verification, no exception.
  unfoldable pub run_parsed :
      (List String → Files → Outcome × Files)
      → ℕ
      → Files
      → Result (List String)
      → VerificationResult × Files
  unfolding outcome_result error_text ◌⧺◌
  run_parsed process round_no files (err e) = (
    record {
      passed = false;
      exit_code = none;
      output_tail = "verify_command rejected: " ⧺ error_text e;
      round = round_no;
    },
    files,
  )
  run_parsed process round_no files (ok argv) =
      let (outcome, left) = process argv files in
      (outcome_result strip shell outcome argv round_no, left)

  -- `_run_verify_command`
  unfoldable pub run_verify_command :
      (List String → Files → Outcome × Files)
      → List String
      → String
      → ℕ
      → Files
      → VerificationResult × Files
  unfolding run_parsed enforce_command_allowlist
  run_verify_command process allowlist command round_no files =
      run_parsed process round_no files (enforce_command_allowlist shell command allowlist)

-- The node: the update, and the files that the run leaves.
module _ (paths : Paths) (trees : Trees paths) (encode : String → Bytes) (strip : String → String)
    (shell : Shell) where
  open paths use {FilePath}

  unfoldable pub verifier_node :
      FilePath
      → (List String → Workspace FilePath → Outcome × Workspace FilePath)
      → List String
      → TaskState
      → Workspace FilePath
      → Result (Update × Workspace FilePath)
  unfolding reseed_verify_files run_verify_command verifier_update
  verifier_node root process allowlist s files =
      if truthy s.verify_command
      then (do
        seeded ← reseed_verify_files paths trees encode root s.verify_files files
        let ran =
            run_verify_command strip shell process allowlist (get_default s.verify_command "")
              (verify_round_of s + 1) seeded
        ok (verifier_update s ran.0, ran.1))
      else ok (Write.verification none ∷ [], files)
