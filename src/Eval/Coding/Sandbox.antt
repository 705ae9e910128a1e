-- ===== src/Eval/Coding/Sandbox.antt =====
-- agent_room/eval/coding.py: what a task leaves on the disk.
use mathlib.Core.Logic.{ite, if_neg}
use goal_driven_agent_room.Base.{
  true, false, ◌≡◌, refl, sym, ap, ◌∙◌, inl, inr, String, none, some, List, [], ◌∷◌, if◌then◌else◌,
  Bool-cases,
}
use goal_driven_agent_room.Tools.Safety.{Paths}
use goal_driven_agent_room.Eval.Coding.{
  Files, CodingTask, write_files, setup, remove_tree, teardown,
}

module _ (paths : Paths) where
  open paths use {FilePath, path_discrete, of_text, child, is_relative_to}

  -- Files that lie within a sandbox.
  abbrev pub AreWithin : FilePath → List (String × String) → Type 0
  AreWithin sandbox [] = Unit {0}
  AreWithin sandbox ((rel, content) ∷ rest) =
      (is_relative_to (child sandbox (of_text rel)) sandbox ≡ true) × AreWithin sandbox rest

  write_files-outside :
      (sandbox p : FilePath) (files : List (String × String)) (disk : Files paths)
      → AreWithin sandbox files
      → is_relative_to p sandbox ≡ false
      → write_files paths sandbox files disk p ≡ disk p
  unfolding write_files
  write_files-outside sandbox p [] disk within outside = refl
  write_files-outside sandbox p ((rel, content) ∷ rest) disk (here, later) outside =
      let target = child sandbox (of_text rel) in
      write_files-outside sandbox p rest (λ q. ite (path_discrete q target) (some content) (disk q))
        later outside
      ∙ if_neg (path_discrete p target)
          (λ same. cc (sym outside ∙ ap (λ x. is_relative_to x sandbox) same ∙ here)) (some content)
          (disk p)

  -- When the seeded files lie within the sandbox, a task that is set up and torn down leaves nothing
  -- of the sandbox, and everything else as it was.
  pub setup-teardown :
      (made p : FilePath) (task : CodingTask paths) (disk : Files paths)
      → AreWithin made task.files
      → (let begun = setup paths made task disk in (teardown paths begun.0 begun.1).1 p)
        ≡ (if is_relative_to p made then none else disk p)
  unfolding setup teardown remove_tree
  setup-teardown made p task disk within = elim (Bool-cases (is_relative_to p made)) [
    | inl inside ↦ rw inside
    | inr outside ↦ rw outside (write_files-outside made p task.files disk within outside)
  ]
