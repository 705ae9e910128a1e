-- ===== src/Tools/Files/Globbing.antt =====
-- agent_room/tools/fs.py: which matches are listed.
use goal_driven_agent_room.Base.{
  ℕ, suc, zero, ◌≤◌, true, String, List, [], ◌∷◌, ◌⧺◌, length, take, map, join, not, starts_with,
  length-take, ◌≡◌, sym, Bool-cases, inl, inr, arith,
}
use goal_driven_agent_room.Errors.{value_error, require, ok, >>=-ok, ok-injective}
use goal_driven_agent_room.Tools.Safety.{Paths}
use goal_driven_agent_room.Tools.Files.{Trees, Disk, exists_on, below, more_matches, glob}

module _ (paths : Paths) (trees : Trees paths) where
  open paths use {FilePath, resolve, is_relative_to}

  abbrev pub AreBelow : FilePath → List FilePath → Type 0
  AreBelow root [] = Unit
  AreBelow root (m ∷ ms) = (is_relative_to (resolve m) root ≡ true) × AreBelow root ms

  below-AreBelow :
      (root : FilePath) (ms : List FilePath) → AreBelow root (below paths trees root ms)
  unfolding below
  below-AreBelow root [] = tt
  below-AreBelow root (m ∷ ms) = elim (Bool-cases (is_relative_to (resolve m) root)) [
    | inl within ↦ rw within (within, below-AreBelow root ms)
    | inr outside ↦ rw outside (below-AreBelow root ms)
  ]

  AreBelow-take :
      (n : ℕ) (root : FilePath) (ms : List FilePath) → AreBelow root ms → AreBelow root (take n ms)
  AreBelow-take zero root ms h = tt
  AreBelow-take (suc n) root [] h = tt
  AreBelow-take (suc n) root (m ∷ ms) h = (h.0, AreBelow-take n root ms (h.1))

  -- What a listing that returns shows is a list of matches, at most as many as the limit, each of
  -- which lies within the resolved root after its links are followed, and a note on the others.
  pub glob-AreBelow :
      (found : FilePath → String → List FilePath) (max_results : ℕ) (root : FilePath)
      (disk : Disk paths trees) (pattern text : String)
      → glob paths trees found max_results root disk pattern ≡ ok text
      → (shown : List FilePath) × (all : ℕ) × AreBelow (resolve root) shown
        × (length shown ≤ max_results)
        × (text
            ≡ join "\n" (map (λ (m : FilePath). trees.relative_to m (resolve root)) shown)
              ⧺ more_matches paths trees all max_results)
  unfolding glob
  glob-AreBelow found max_results root disk pattern text h =
      let (u, there, later) =
        >>=-ok
          (require (exists_on paths trees disk (resolve root))
            (value_error "fs_root does not exist"))
          _ h in
      let (v, relative, last) =
        >>=-ok
          (require (not (starts_with pattern "/")) (value_error "glob pattern must be relative")) _
          later in
      let matches = below paths trees (resolve root) (found (resolve root) pattern) in
      (
        take max_results matches,
        length matches,
        AreBelow-take max_results (resolve root) matches (below-AreBelow (resolve root) _),
        omega (arith, length-take max_results matches),
        sym (ok-injective last),
      )
