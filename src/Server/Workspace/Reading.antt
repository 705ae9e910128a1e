-- ===== src/Server/Workspace/Reading.antt =====
-- agent_room/server/api.py: which file a client may read.
use goal_driven_agent_room.Base.{◌≡◌, sym, ap, true, String, Option, length, take, ltb, get_default}
use goal_driven_agent_room.Errors.{Result, ok, err, >>=-ok, require-ok, ok-injective}
use goal_driven_agent_room.Tools.Safety.{Paths, resolve_within_root}
use goal_driven_agent_room.Tools.Safety.Laws.{resolve_within_root-within}
use goal_driven_agent_room.Server.Workspace.{
  Files, WorkspaceFileContent, as_bad_request, files_root, content_of, read_workspace_file,
  workspace_max_bytes,
}

as_bad_request-ok : {A : Type 0} (r : Result A) (a : A) → as_bad_request r ≡ ok a → r ≡ ok a
unfolding as_bad_request
as_bad_request-ok (ok b) a h = h
as_bad_request-ok (err e) a h = absurd (cc h)

-- A file that a client reads is a regular file within the workspace of the task, or within the whole
-- workspace where no task is named, and its content is the decoding of its first bytes.
pub read_workspace_file-within :
    (paths : Paths) (files : Files paths) (workspace : paths.FilePath) (path : String)
    (task_id : Option String) (content : WorkspaceFileContent)
    → read_workspace_file paths files workspace path task_id ≡ ok content
    → (target : paths.FilePath) × (paths.is_relative_to target
          (paths.resolve (files_root paths files workspace task_id))
        ≡ true)
      × (files.is_file target ≡ true)
      × (content.content
          ≡ get_default (files.decode (take workspace_max_bytes (files.read_bytes target))) "")
      × (content.truncated ≡ ltb workspace_max_bytes (length (files.read_bytes target)))
unfolding read_workspace_file content_of
read_workspace_file-within paths files workspace path task_id content h =
    let root = files_root paths files workspace task_id in
    let (target, found, rest) =
      >>=-ok (as_bad_request (resolve_within_root paths files.exists root path)) _ h in
    let (u, regular, last) = >>=-ok _ _ rest in
    let (within, there) =
      resolve_within_root-within paths files.exists root target path
        (as_bad_request-ok (resolve_within_root paths files.exists root path) target found) in
    let same = ok-injective last in
    (
      target,
      within,
      require-ok _ _ regular,
      ap (λ (c : WorkspaceFileContent). c.content) (sym same),
      ap (λ (c : WorkspaceFileContent). c.truncated) (sym same),
    )
