-- ===== src/Tools/Files/Frame.antt =====
-- agent_room/tools/fs.py: what a write leaves as it was.
use mathlib.Core.Logic.{if_pos, if_neg}
use goal_driven_agent_room.Base.{
  Bool, true, false, String, Option, List, [], ◌∷◌, ◌≡◌, ◌⊎◌, inl, inr, refl, sym, ap, ◌∙◌,
  Bool-cases,
}
use goal_driven_agent_room.Errors.{ok, >>=-ok, ok-injective}
use goal_driven_agent_room.Guardrail.{GuardrailMode, Search}
use goal_driven_agent_room.Tools.Safety.{Paths, resolve_within_root}
use goal_driven_agent_room.Tools.Safety.Laws.{resolve_within_root-within}
use goal_driven_agent_room.Tools.Files.{
  Bytes, Codec, Node, missing, directory, file, check_call, Trees, Disk, set_node, exists_on,
  make_dir, make_dirs, prepare, write_node, write_text,
}

module _ (paths : Paths) (trees : Trees paths) where
  open paths use {FilePath, path_discrete, resolve, is_relative_to}
  open trees use {parent, with_parents}

  set_node-same :
      (target : FilePath) (node : Node) (disk : Disk paths trees)
      → set_node paths trees target node disk target ≡ node
  set_node-same target node disk = if_pos (path_discrete target target) refl node (disk target)

  set_node-other :
      (target p : FilePath) (node : Node) (disk : Disk paths trees)
      → ((p ≡ target) → ⊥)
      → set_node paths trees target node disk p ≡ disk p
  set_node-other target p node disk other = if_neg (path_discrete p target) other node (disk p)

  -- A disk on which nothing has changed but that directories were added.
  abbrev pub OnlyAdds : Disk paths trees → Disk paths trees → Type 0
  OnlyAdds disk after =
      (p : FilePath) → (after p ≡ disk p) ⊎ ((disk p ≡ missing) × (after p ≡ directory))

  make_dir-OnlyAdds :
      (p : FilePath) (node : Node) (disk after : Disk paths trees)
      → disk p ≡ node
      → make_dir paths trees p node disk ≡ ok after
      → OnlyAdds disk after
  make_dir-OnlyAdds p missing disk after at_p h q =
      elim (path_discrete q p)
        as (λ d. (after q ≡ disk q) ⊎ ((disk q ≡ missing) × (after q ≡ directory))) [
          | yes same ↦ inr (
            cc (at_p, same),
            sym (ap (λ (d : Disk paths trees). d q) (ok-injective h))
                ∙ if_pos (path_discrete q p) same directory (disk q),
          )
          | no other ↦ inl (
              sym (ap (λ (d : Disk paths trees). d q) (ok-injective h))
              ∙ set_node-other p q directory disk other)
        ]
  make_dir-OnlyAdds p directory disk after at_p h q =
      inl (sym (ap (λ (d : Disk paths trees). d q) (ok-injective h)))
  make_dir-OnlyAdds p (file b) disk after at_p h q = absurd (cc h)

  OnlyAdds-trans :
      (first next last : Disk paths trees)
      → OnlyAdds first next
      → OnlyAdds next last
      → OnlyAdds first last
  OnlyAdds-trans first next last before after p = elim (before p) [
    | inl e ↦ elim (after p) [ inl f ↦ inl (f ∙ e) | inr (was, is) ↦ inr (sym e ∙ was, is) ]
    | inr (was, is) ↦ elim (after p) [
      | inl f ↦ inr (was, f ∙ is)
      | inr (gone, now) ↦ inr (was, now)
    ]
  ]

  make_dirs-OnlyAdds :
      (ps : List FilePath) (disk after : Disk paths trees)
      → make_dirs paths trees ps disk ≡ ok after
      → OnlyAdds disk after
  unfolding make_dirs
  make_dirs-OnlyAdds [] disk after h =
      λ p. inl (sym (ap (λ (d : Disk paths trees). d p) (ok-injective h)))
  make_dirs-OnlyAdds (p ∷ ps) disk after h =
      let (made, earlier, last) = >>=-ok (make_dirs paths trees ps disk) _ h in
      OnlyAdds-trans disk made after (make_dirs-OnlyAdds ps disk made earlier)
        (make_dir-OnlyAdds p (made p) made after refl last)

  prepare-OnlyAdds :
      (create_dirs : Bool) (target : FilePath) (disk after : Disk paths trees)
      → prepare paths trees create_dirs target disk ≡ ok after
      → OnlyAdds disk after
  unfolding prepare
  prepare-OnlyAdds true target disk after h p =
      make_dirs-OnlyAdds (with_parents (parent target)) disk after h p
  prepare-OnlyAdds false target disk after h p =
      elim (Bool-cases (exists_on paths trees disk (parent target))) [
        | inl there ↦ inl (sym (ap (λ (d : Disk paths trees). d p) (ok-injective (rw there at h))))
        | inr gone ↦ absurd (cc (rw gone at h))
      ]

  write_node-ok :
      (target : FilePath) (encoded : Bytes) (above here : Node) (disk after : Disk paths trees)
      → write_node paths trees target encoded above here disk ≡ ok after
      → set_node paths trees target (file encoded) disk ≡ after
  write_node-ok target encoded missing here disk after h = absurd (cc h)
  write_node-ok target encoded (file b) here disk after h = absurd (cc h)
  write_node-ok target encoded directory directory disk after h = absurd (cc h)
  write_node-ok target encoded directory missing disk after h = ok-injective h
  write_node-ok target encoded directory (file b) disk after h = ok-injective h

  -- The target holds what was written; elsewhere only directories were added.
  abbrev pub IsWritten : FilePath → Bytes → Disk paths trees → Disk paths trees → Type 0
  IsWritten target encoded disk after =
      (after target ≡ file encoded)
      × ((p : FilePath)
          → (p ≡ target) ⊎ ((after p ≡ disk p) ⊎ ((disk p ≡ missing) × (after p ≡ directory))))

  IsWritten-set_node :
      (target : FilePath) (encoded : Bytes) (disk prepared after : Disk paths trees)
      → OnlyAdds disk prepared
      → set_node paths trees target (file encoded) prepared ≡ after
      → IsWritten target encoded disk after
  IsWritten-set_node target encoded disk prepared after adds h = (
    sym (ap (λ (d : Disk paths trees). d target) h) ∙ set_node-same target (file encoded) prepared,
    λ p. elim (path_discrete p target) [
      | yes same ↦ inl same
      | no other ↦
          let kept =
            sym (ap (λ (d : Disk paths trees). d p) h)
            ∙ set_node-other target p (file encoded) prepared other in
          inr (elim (adds p) [ inl e ↦ inl (kept ∙ e) | inr (was, is) ↦ inr (was, kept ∙ is) ])
    ],
  )

  -- A write that returns has passed the guardrail, and its target lies within the root; the target
  -- then holds the encoded content, and every other path is as it was, or was missing and is now a
  -- directory.
  pub write_text-IsWritten :
      (codec : Codec) (engine : Search) (guardrail : Option GuardrailMode) (root : FilePath)
      (disk after : Disk paths trees) (path content message : String) (create_dirs : Bool)
      → write_text paths trees codec engine guardrail root disk path content create_dirs
        ≡ ok (message, after)
      → (check_call engine guardrail content ≡ ok tt)
        × ((target : FilePath) × (resolve_within_root paths (exists_on paths trees disk) root path
              ≡ ok target)
            × (is_relative_to target (resolve root) ≡ true)
            × IsWritten target (codec.encode content) disk after)
  unfolding write_text
  write_text-IsWritten codec engine guardrail root disk after path content message create_dirs h =
      let (u, screened, later) = >>=-ok (check_call engine guardrail content) _ h in
      let (target, found, rest) =
        >>=-ok (resolve_within_root paths (exists_on paths trees disk) root path) _ later in
      let (prepared, made, last) = >>=-ok (prepare paths trees create_dirs target disk) _ rest in
      let (written, done, returned) =
        >>=-ok
          (write_node paths trees target _ (prepared (parent target)) (prepared target) prepared) _
          last in
      let (within, there) =
        resolve_within_root-within paths (exists_on paths trees disk) root target path found in
      (
        screened,
        (
          target,
          found,
          within,
          IsWritten-set_node target (codec.encode content) disk prepared after
              (prepare-OnlyAdds create_dirs target disk prepared made)
              (write_node-ok target (codec.encode content) _ _ prepared written done
                ∙ ap (λ (r : String × Disk paths trees). r.1) (ok-injective returned)),
        ),
      )
