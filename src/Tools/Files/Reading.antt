-- ===== src/Tools/Files/Reading.antt =====
-- agent_room/tools/fs.py: what a read returns after a write.
use goal_driven_agent_room.Base.{ℕ, Bool, true, String, Option, ◌≡◌, inl, inr, ap, ◌∙◌}
use goal_driven_agent_room.Errors.{ok}
use goal_driven_agent_room.Guardrail.{GuardrailMode, Search}
use goal_driven_agent_room.Tools.Safety.{Paths, resolve_within_root}
use goal_driven_agent_room.Tools.Safety.Laws.{resolve_within_root-within}
use goal_driven_agent_room.Tools.Files.{
  Bytes, Codec, is_there, Trees, Disk, exists_on, truncate, read_node, read_text, write_text,
}
use goal_driven_agent_room.Tools.Files.Frame.{IsWritten, write_text-IsWritten}

-- A path that resolves while the root exists resolves to the same after any change that keeps it.
pub resolve_within_root-later :
    (paths : Paths) (exists later : paths.FilePath → Bool) (root target : paths.FilePath)
    (relative : String)
    → resolve_within_root paths exists root relative ≡ ok target
    → later (paths.resolve root) ≡ true
    → resolve_within_root paths later root relative ≡ ok target
unfolding resolve_within_root
resolve_within_root-later paths exists later root target relative h there =
    let (within, here) = resolve_within_root-within paths exists root target relative h in
    rw there (rw here at h)

module _ (paths : Paths) (trees : Trees paths) where
  open paths use {FilePath}

  -- What is there stays there.
  IsWritten-exists :
      (target p : FilePath) (encoded : Bytes) (disk after : Disk paths trees)
      → IsWritten paths trees target encoded disk after
      → exists_on paths trees disk p ≡ true
      → exists_on paths trees after p ≡ true
  IsWritten-exists target p encoded disk after (here, elsewhere) there = elim (elsewhere p) [
    | inl same ↦ ap is_there (ap after same ∙ here)
    | inr (inl kept) ↦ ap is_there kept ∙ there
    | inr (inr (was, is)) ↦ ap is_there is
  ]

  -- After a write that returns, reading the same path on the disk it leaves returns the decoding of
  -- the encoded content, truncated.
  pub write_text-read_text :
      (codec : Codec) (engine : Search) (guardrail : Option GuardrailMode) (max_bytes : ℕ)
      (root : FilePath) (disk after : Disk paths trees) (path content message : String)
      (create_dirs : Bool)
      → write_text paths trees codec engine guardrail root disk path content create_dirs
        ≡ ok (message, after)
      → read_text paths trees codec max_bytes root after path
        ≡ ok (truncate codec (codec.read_replace (codec.encode content)) max_bytes)
  unfolding read_text read_node truncate
  write_text-read_text codec engine guardrail max_bytes root disk after path content message
        create_dirs h =
      let (screened, (target, found, within, written)) =
        write_text-IsWritten paths trees codec engine guardrail root disk after path content message
          create_dirs h in
      let (below, there) =
        resolve_within_root-within paths (exists_on paths trees disk) root target path found in
      rw (
        resolve_within_root-later paths (exists_on paths trees disk) (exists_on paths trees after)
            root target path found
            (IsWritten-exists target (paths.resolve root) (codec.encode content) disk after written
              there),
        written.0,
      )
