-- ===== src/Tools/Safety.antt =====
-- agent_room/tools/_safety.py: confinement of paths and commands. `pathlib` and `shlex` are
-- parameters.
pub mod Laws
use goal_driven_agent_room.Base.{
  Bool, true, false, not, String, Option, none, some, List, [], ◌∷◌, ◌⧺◌, mem_text, is_empty,
  if◌then◌else◌,
}
use goal_driven_agent_room.Errors.{Error, value_error, Result, ok, err, ◌>>=◌, ◌>>◌, require}

-- What the code uses of `pathlib`.
pub record Paths : Type 1 where
  pub FilePath : Type 0
  pub path_discrete : Discrete FilePath
  pub of_text : String → FilePath
  pub resolve : FilePath → FilePath
  pub is_absolute : FilePath → Bool
  pub child : FilePath → FilePath → FilePath
  pub is_relative_to : FilePath → FilePath → Bool

-- `shlex.split`, whose `ValueError` has a text, `shlex.join`, and `repr`.
pub data Split : Type 0 where
  tokens : List String → Split
  unparsable : String → Split

pub record Shell : Type 0 where
  pub split : String → Split
  pub join_args : List String → String
  pub repr : String → String
  pub repr_list : List String → String

module _ (paths : Paths) where
  open paths use {FilePath, of_text, resolve, is_absolute, child, is_relative_to}

  -- `resolve_within_root`; `exists` is `Path.exists`.
  unfoldable pub resolve_within_root : (FilePath → Bool) → FilePath → String → Result FilePath
  resolve_within_root exists root relative = do
    let root_resolved = resolve root
    require (exists root_resolved) (value_error "fs_root does not exist")
    let candidate = of_text relative
    let target =
        resolve (if is_absolute candidate then candidate else child root_resolved candidate)
    require (is_relative_to target root_resolved) (value_error "path escapes root")
    ok target

abbrev pub forbidden_tokens : List String
forbidden_tokens = ";" ∷ "&&" ∷ "||" ∷ "|" ∷ ">" ∷ ">>" ∷ "<" ∷ "&" ∷ []

-- The loop over `argv`.
unfoldable pub reject_separators : (String → String) → List String → Result (Unit {0})
unfolding ◌⧺◌
reject_separators repr [] = ok tt
reject_separators repr (token ∷ rest) =
    if mem_text token forbidden_tokens
    then err (
        value_error (
          "shell tool: token "
          ⧺ repr token
          ⧺ " is a shell separator; use multiple separate tool calls instead"))
    else reject_separators repr rest

check_argv : Shell → List String → List String → Result (List String)
unfolding reject_separators ◌⧺◌
check_argv shell allowlist [] = err (value_error "shell tool: empty command")
check_argv shell allowlist (head ∷ args) = do
  require (mem_text head allowlist) (
      value_error (
        "shell tool: command "
        ⧺ shell.repr head
        ⧺ " not in allowlist "
        ⧺ shell.repr_list allowlist))
  reject_separators shell.repr (head ∷ args)
  ok (head ∷ args)

check_split : Shell → List String → Split → Result (List String)
unfolding check_argv ◌⧺◌
check_split shell allowlist (tokens argv) = check_argv shell allowlist argv
check_split shell allowlist (unparsable why) =
    err (value_error ("shell tool: cannot parse command: " ⧺ why))

-- `enforce_command_allowlist`
unfoldable pub enforce_command_allowlist : Shell → String → List String → Result (List String)
unfolding check_split
enforce_command_allowlist shell command allowlist = do
  require (not (is_empty allowlist)) (value_error "shell tool: allowlist must be non-empty")
  check_split shell allowlist (shell.split command)
