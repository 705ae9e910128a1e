-- ===== src/Server/Workspace.antt =====
-- agent_room/server/api.py and agent_room/server/react_runtime.py: the files that the server shows.
-- A file's bytes are a list, and the decoding of UTF-8 is a parameter, `none` where it fails.
pub mod Reading
use goal_driven_agent_room.Base.{
  ℕ, ◌*◌, Bool, true, false, not, ◌||◌, String, Option, none, some, List, [], ◌∷◌, length, take,
  mem_text, blank, starts_with, if◌then◌else◌, ltb, is_none, get_default,
}
use goal_driven_agent_room.Errors.{
  Error, value_error, http_exception, Result, ok, err, ◌>>=◌, ◌>>◌, require,
}
use goal_driven_agent_room.Tools.Safety.{Paths, resolve_within_root}

abbrev pub workspace_max_bytes : ℕ
workspace_max_bytes = 256 * 1024

abbrev pub skip_dirs : List String
skip_dirs = "__pycache__" ∷ ".git" ∷ "node_modules" ∷ []

pub record WorkspaceFile : Type 0 where
  pub path : String
  pub size : ℕ

pub record WorkspaceFileContent : Type 0 where
  pub path : String
  pub content : String
  pub truncated : Bool
  pub binary : Bool

-- An entry below a root, as `rglob` lists it: the parts of its relative path.
pub record Entry : Type 0 where
  pub is_file : Bool
  pub parts : List String
  pub relative : String
  pub size : ℕ

-- `any(part in _WORKSPACE_SKIP_DIRS or part.startswith("."))`
unfoldable pub is_hidden : List String → Bool
unfolding mem_text starts_with
is_hidden [] = false
is_hidden (part ∷ parts) =
    let rest = is_hidden parts in (mem_text part skip_dirs || starts_with part ".") || rest

-- `list_workspace_files`, over the sorted entries
unfoldable pub list_workspace_files : List Entry → List WorkspaceFile
unfolding is_hidden
list_workspace_files [] = []
list_workspace_files (e ∷ es) =
    let rest = list_workspace_files es in
    if not e.is_file || is_hidden e.parts
    then rest
    else record { path = e.relative; size = e.size } ∷ rest

-- What the handlers use of a file system.
pub record Files (paths : Paths) : Type 0 where
  pub exists : paths.FilePath → Bool
  pub is_file : paths.FilePath → Bool
  pub read_bytes : paths.FilePath → List ℕ
  pub decode : List ℕ → Option String
  pub file_name : paths.FilePath → String

bad_request : Error → Error
bad_request (value_error why) = http_exception 400 why
bad_request e = e

-- The client's error for a path that is refused.
unfoldable pub as_bad_request : {A : Type 0} → Result A → Result A
unfolding bad_request
as_bad_request (ok a) = ok a
as_bad_request (err e) = err (bad_request e)

module _ (paths : Paths) (files : Files paths) where
  open paths use {FilePath, of_text, child}
  open files use {exists, is_file, read_bytes, decode, file_name}

  -- `task_workspace`, below the workspace; that it is made is left out.
  unfoldable pub task_workspace : FilePath → String → FilePath
  task_workspace workspace task_id =
      let name = file_name (of_text task_id) in
      child workspace (of_text (if blank name then "task" else name))

  -- `_files_root`
  unfoldable pub files_root : FilePath → Option String → FilePath
  unfolding task_workspace
  files_root workspace none = workspace
  files_root workspace (some task_id) =
      if blank task_id then workspace else task_workspace workspace task_id

  content_of : String → List ℕ → WorkspaceFileContent
  content_of path raw = record {
    path = path;
    content = get_default (decode (take workspace_max_bytes raw)) "";
    truncated = ltb workspace_max_bytes (length raw);
    binary = is_none (decode (take workspace_max_bytes raw));
  }

  -- `read_workspace_file`
  unfoldable pub read_workspace_file :
      FilePath → String → Option String → Result WorkspaceFileContent
  unfolding files_root content_of as_bad_request resolve_within_root
  read_workspace_file workspace path task_id = do
    target ← as_bad_request (resolve_within_root paths exists (files_root workspace task_id) path)
    require (is_file target) (http_exception 404 "file not found")
    ok (content_of path (read_bytes target))
