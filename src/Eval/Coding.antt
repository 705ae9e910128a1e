-- ===== src/Eval/Coding.antt =====
-- agent_room/eval/coding.py: the oracle that runs the tests. The disk is the content of each file;
-- that directories are made is left out. What the test command does is a function of the disk.
pub mod Sandbox
use mathlib.Core.Logic.{ite}
use goal_driven_agent_room.Base.{
  ℕ, Bool, true, false, not, String, Option, none, some, List, [], ◌∷◌, ◌⧺◌, str_last,
  if◌then◌else◌,
}
use goal_driven_agent_room.Schemas.{ℤ}
use goal_driven_agent_room.Errors.{Error, runtime_error, Result, ok, err, ◌>>=◌}
use goal_driven_agent_room.Roles.Supervisor.{show_exit}
use goal_driven_agent_room.Roles.Verifier.{is_zero}
use goal_driven_agent_room.Tools.Safety.{Paths}
use goal_driven_agent_room.Tools.Registry.{Entries, builtin, register}
use goal_driven_agent_room.Eval.Task.{Verdict}

-- How the test command ends.
pub data TestRun : Type 0 where
  tests_timed_out : TestRun
  tests_exited : (returncode : ℤ) → (output : String) → TestRun

-- `verify` of a test command that has ended; the output is decoded and stripped.
unfoldable pub verdict_of : (timeout_s : String) → TestRun → Verdict
unfolding ◌⧺◌ show_exit str_last
verdict_of timeout_s tests_timed_out = record {
  passed = false;
  detail = "test command timed out after " ⧺ timeout_s ⧺ "s";
}
verdict_of timeout_s (tests_exited returncode output) = record {
  passed = is_zero returncode;
  detail =
      if is_zero returncode
      then "pytest exit=" ⧺ show_exit (some returncode)
      else "pytest exit=" ⧺ show_exit (some returncode) ⧺ " | " ⧺ str_last 400 output;
}

module _ (paths : Paths) where
  open paths use {FilePath, path_discrete, of_text, child, is_relative_to}

  abbrev pub Files : Type 0
  Files = FilePath → Option String

  pub record CodingTask : Type 0 where
    pub files : List (String × String)
    pub hidden_tests : List (String × String)
    pub timeout_s : String
    pub sandbox : Option FilePath

  -- `_require_sandbox`
  unfoldable pub require_sandbox : CodingTask → Result FilePath
  require_sandbox task = elim task.sandbox [
    | none ↦ err (runtime_error "used before setup()")
    | some s ↦ ok s
  ]

  -- The loops that write files below the sandbox.
  unfoldable pub write_files : FilePath → List (String × String) → Files → Files
  write_files sandbox [] disk = disk
  write_files sandbox ((rel, content) ∷ rest) disk =
      write_files sandbox rest
        (λ p. ite (path_discrete p (child sandbox (of_text rel))) (some content) (disk p))

  -- `setup`; `made` is what `mkdtemp` gives.
  unfoldable pub setup : (made : FilePath) → CodingTask → Files → CodingTask × Files
  unfolding write_files
  setup made task disk = (record task { sandbox = some made }, write_files made task.files disk)

  -- `shutil.rmtree`
  unfoldable pub remove_tree : FilePath → Files → Files
  remove_tree sandbox disk p = if is_relative_to p sandbox then none else disk p

  -- `teardown`
  unfoldable pub teardown : CodingTask → Files → CodingTask × Files
  unfolding remove_tree
  teardown task disk = (
    record task { sandbox = none },
    elim task.sandbox [ none ↦ disk | some sandbox ↦ remove_tree sandbox disk ],
  )

  -- `registry`
  unfoldable pub task_registry : CodingTask → Result Entries
  unfolding require_sandbox register
  task_registry task = do
    sandbox ← require_sandbox task
    read ← register (builtin "read_text" "filesystem") []
    write ← register (builtin "write_text" "filesystem") read
    files ← register (builtin "glob" "filesystem") write
    register (builtin "shell" "shell") files

  -- `verify`
  unfoldable pub verify : (FilePath → Files → TestRun) → CodingTask → Files → Result Verdict
  unfolding require_sandbox write_files verdict_of
  verify run_tests task disk = do
    sandbox ← require_sandbox task
    ok (verdict_of task.timeout_s (run_tests sandbox (write_files sandbox task.hidden_tests disk)))
