-- ===== src/Tools/Files.antt =====
-- agent_room/tools/fs.py: reading, writing and listing files. A disk is what stands at each resolved
-- path; devices, permissions and full disks are left out. `pathlib` and the codec are parameters.
pub mod Frame
pub mod Reading
pub mod Globbing
use mathlib.Core.Logic.{ite}
use goal_driven_agent_room.Base.{
  ℕ, ◌-◌, ◌*◌, Bool, true, false, String, Option, none, some, List, [], ◌∷◌, ◌⧺◌, length, take,
  show, map, join, leb, ltb, not, starts_with, if◌then◌else◌,
}
use goal_driven_agent_room.Schemas.{Checkpoint, tool_call}
use goal_driven_agent_room.Errors.{
  Error, value_error, os_error, Result, ok, err, ◌>>=◌, ◌>>◌, require,
}
use goal_driven_agent_room.Guardrail.{GuardrailMode, Search, check}
use goal_driven_agent_room.Tools.Safety.{Paths, resolve_within_root}

abbrev pub default_max_bytes : ℕ
default_max_bytes = 8 * 1024

abbrev pub default_max_glob : ℕ
default_max_glob = 200

abbrev pub Bytes : Type 0
Bytes = List ℕ

-- UTF-8: `encode`, `decode` with the errors ignored, and `read_text` with the errors replaced, which
-- also translates the ends of lines.
pub record Codec : Type 0 where
  pub encode : String → Bytes
  pub decode_ignore : Bytes → String
  pub read_replace : Bytes → String

pub data Node : Type 0 where
  missing directory : Node
  file : (content : Bytes) → Node

abbrev pub is_there : Node → Bool
is_there missing = false
is_there directory = true
is_there (file b) = true

unfoldable pub more_bytes : ℕ → String
unfolding ◌⧺◌ show
more_bytes n = "\n[... truncated, " ⧺ show n ⧺ " more bytes]"

-- `_truncate`
unfoldable pub truncate : Codec → String → ℕ → String
unfolding ◌⧺◌ more_bytes
truncate codec text max_bytes =
    let encoded = codec.encode text in
    if leb (length encoded) max_bytes
    then text
    else codec.decode_ignore (take max_bytes encoded) ⧺ more_bytes (length encoded - max_bytes)

-- `if self.guardrail is not None: self.guardrail.check(text, checkpoint="tool_call")`
unfoldable pub check_call : Search → Option GuardrailMode → String → Result (Unit {0})
check_call search none text = ok tt
check_call search (some mode) text = check search mode text tool_call >>= λ found. ok tt

-- What the tools use of `pathlib` besides: `parent` and `parents`, the path itself first, and its
-- text below a root.
pub record Trees (paths : Paths) : Type 0 where
  pub parent : paths.FilePath → paths.FilePath
  pub with_parents : paths.FilePath → List paths.FilePath
  pub relative_to : paths.FilePath → paths.FilePath → String

module _ (paths : Paths) (trees : Trees paths) where
  open paths use {FilePath, path_discrete, resolve, is_relative_to, of_text}
  open trees use {parent, with_parents, relative_to}

  abbrev pub Disk : Type 0
  Disk = FilePath → Node

  abbrev pub set_node : FilePath → Node → Disk → Disk
  set_node target node disk p = ite (path_discrete p target) node (disk p)

  abbrev pub exists_on : Disk → FilePath → Bool
  exists_on disk p = is_there (disk p)

  abbrev pub read_node : Codec → ℕ → Node → Result String
  unfolding truncate
  read_node codec max_bytes missing = err (os_error "FileNotFoundError")
  read_node codec max_bytes directory = err (value_error "not a regular file")
  read_node codec max_bytes (file b) = ok (truncate codec (codec.read_replace b) max_bytes)

  -- `ReadTextTool._run`
  unfoldable pub read_text : Codec → ℕ → FilePath → Disk → String → Result String
  unfolding resolve_within_root
  read_text codec max_bytes root disk path = do
    target ← resolve_within_root paths (exists_on disk) root path
    read_node codec max_bytes (disk target)

  abbrev pub make_dir : FilePath → Node → Disk → Result Disk
  make_dir p missing disk = ok (set_node p directory disk)
  make_dir p directory disk = ok disk
  make_dir p (file b) disk = err (os_error "FileExistsError")

  -- `mkdir(parents=True, exist_ok=True)`, over the path and its parents.
  unfoldable pub make_dirs : List FilePath → Disk → Result Disk
  make_dirs [] disk = ok disk
  make_dirs (p ∷ ps) disk = make_dirs ps disk >>= λ made. make_dir p (made p) made

  -- The parents of a file that is to be written.
  unfoldable pub prepare : (create_dirs : Bool) → FilePath → Disk → Result Disk
  unfolding make_dirs
  prepare true target disk = make_dirs (with_parents (parent target)) disk
  prepare false target disk =
      if exists_on disk (parent target) then ok disk else err (os_error "FileNotFoundError")

  -- `target.write_bytes(encoded)`, by what stands at the parent and at the target.
  abbrev pub write_node : FilePath → Bytes → (above here : Node) → Disk → Result Disk
  write_node target encoded missing here disk = err (os_error "FileNotFoundError")
  write_node target encoded (file b) here disk = err (os_error "NotADirectoryError")
  write_node target encoded directory directory disk = err (os_error "IsADirectoryError")
  write_node target encoded directory missing disk = ok (set_node target (file encoded) disk)
  write_node target encoded directory (file b) disk = ok (set_node target (file encoded) disk)

  -- `WriteTextTool._run`, with the disk after it.
  unfoldable pub write_text :
      Codec
      → Search
      → Option GuardrailMode
      → FilePath
      → Disk
      → (path content : String) → (create_dirs : Bool) → Result (String × Disk)
  unfolding check_call resolve_within_root prepare ◌⧺◌ show
  write_text codec search guardrail root disk path content create_dirs = do
    check_call search guardrail content
    target ← resolve_within_root paths (exists_on disk) root path
    prepared ← prepare create_dirs target disk
    let encoded = codec.encode content
    written ← write_node target encoded (prepared (parent target)) (prepared target) prepared
    ok ("wrote " ⧺ show (length encoded) ⧺ " bytes to " ⧺ path, written)

  -- `[m for m in matches if m.resolve(strict=False).is_relative_to(root)]`
  unfoldable pub below : FilePath → List FilePath → List FilePath
  below root [] = []
  below root (m ∷ ms) =
      let rest = below root ms in if is_relative_to (resolve m) root then m ∷ rest else rest

  unfoldable pub more_matches : ℕ → ℕ → String
  unfolding ◌⧺◌ show
  more_matches found max_results =
      if ltb max_results found
      then "\n[... truncated, " ⧺ show (found - max_results) ⧺ " more matches]"
      else ""

  -- `GlobTool._run`; `glob root pattern` is the sorted list of what `Path.glob` finds.
  unfoldable pub glob :
      (FilePath → String → List FilePath) → ℕ → FilePath → Disk → String → Result String
  unfolding below join ◌⧺◌ starts_with more_matches
  glob found max_results root disk pattern = do
    let root_resolved = resolve root
    require (exists_on disk root_resolved) (value_error "fs_root does not exist")
    require (not (starts_with pattern "/")) (value_error "glob pattern must be relative")
    let matches = below root_resolved (found root_resolved pattern)
    ok (
        join "\n" (map (λ (m : FilePath). relative_to m root_resolved) (take max_results matches))
        ⧺ more_matches (length matches) max_results)
