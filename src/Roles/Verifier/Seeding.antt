-- ===== src/Roles/Verifier/Seeding.antt =====
-- agent_room/roles/verifier.py: what the seeding of two workspaces has in common.
use mathlib.Core.Path.{fun_ext, subst}
use mathlib.Core.Logic.{ite, if_pos, if_neg}
use goal_driven_agent_room.Base.{
  Bool, true, String, List, [], ◌∷◌, ◌≡◌, ◌≢◌, ◌⊎◌, inl, inr, refl, sym, ap, ◌∙◌,
}
use goal_driven_agent_room.Errors.{Error, Result, ok, err, ok-injective}
use goal_driven_agent_room.Tools.Safety.{Paths, resolve_within_root}
use goal_driven_agent_room.Tools.Files.{
  Bytes, Node, missing, directory, file, is_there, Trees, Disk, set_node, exists_on, make_dir,
  make_dirs, write_node,
}
use goal_driven_agent_room.Tools.Files.Reading.{resolve_within_root-later}
use goal_driven_agent_room.Roles.Verifier.{Workspace, paths_in, seed_file, reseed_verify_files}

pub Result-cases :
    {A : Type 0} (r : Result A) → ((a : A) × (r ≡ ok a)) ⊎ ((e : Error) × (r ≡ err e))
Result-cases (ok a) = inl (a, refl)
Result-cases (err e) = inr (e, refl)

-- A file, or nothing.
abbrev pub IsPlain : Node → Type 0
IsPlain missing = Unit {0}
IsPlain directory = ⊥
IsPlain (file b) = Unit {0}

module _ (paths : Paths) (trees : Trees paths) where
  open paths use {FilePath, path_discrete}
  open trees use {parent, with_parents}

  -- Two disks that are the same but at some paths, where each has a file or nothing.
  abbrev pub AreSimilar : (FilePath → Type 0) → Disk paths trees → Disk paths trees → Type 0
  AreSimilar May v w = (p : FilePath) → (v p ≡ w p) ⊎ (May p × IsPlain (v p) × IsPlain (w p))

  abbrev pub IsOutside : FilePath → List FilePath → Type 0
  IsOutside p [] = Unit {0}
  IsOutside p (q ∷ qs) = (p ≢ q) × IsOutside p qs

  -- A path resolves to a place within the root.
  abbrev pub Resolves : (FilePath → FilePath) → FilePath → String → FilePath → Type 0
  Resolves links root rel p = resolve_within_root (paths_in paths links) (λ q. true) root rel ≡ ok p

  -- The places that the seeded files are written to.
  abbrev pub Targets : (FilePath → FilePath) → FilePath → List (String × String) → FilePath → Type 0
  Targets links root [] p = ⊥
  Targets links root ((rel, content) ∷ rest) p =
      Resolves links root rel p ⊎ Targets links root rest p

  -- No directory of a seeded file.
  abbrev pub IsNoParent :
      (FilePath → FilePath) → FilePath → List (String × String) → FilePath → Type 0
  IsNoParent links root [] p = Unit {0}
  IsNoParent links root ((rel, content) ∷ rest) p =
      ((t : FilePath)
        → Resolves links root rel t
        → IsOutside p (parent t ∷ with_parents (parent t)))
      × IsNoParent links root rest p

  -- A place of a seeded file that is neither the root nor a directory of a seeded file.
  abbrev pub MayDiffer :
      (FilePath → FilePath) → FilePath → List (String × String) → FilePath → Type 0
  MayDiffer links root files p =
      Targets links root files p × IsNoParent links root files p × (p ≢ links root)

  -- Two results that raise the same, or return similar disks.
  abbrev AreBoth :
      (FilePath → Type 0) → Result (Disk paths trees) → Result (Disk paths trees) → Type 0
  AreBoth May r s =
      ((e : Error) × (r ≡ err e) × (s ≡ err e))
      ⊎ ((v : Disk paths trees) × (w : Disk paths trees) × (r ≡ ok v)
          × (s ≡ ok w)
          × AreSimilar May v w)

  set_node-AreSimilar :
      (May Later : FilePath → Type 0) (target : FilePath) (node : Node) (v w : Disk paths trees)
      → AreSimilar May v w
      → ((p : FilePath) → p ≢ target → May p → Later p)
      → AreSimilar Later (set_node paths trees target node v) (set_node paths trees target node w)
  set_node-AreSimilar May Later target node v w similar later p =
      elim (path_discrete p target)
        as (λ d.
          (ite d node (v p) ≡ ite d node (w p))
          ⊎ (Later p × IsPlain (ite d node (v p)) × IsPlain (ite d node (w p)))) [
            | yes same ↦ inl (rw (if_pos _ same))
            | no other ↦ elim (similar p) [
              | inl e ↦ inl (rw (if_neg _ other, if_neg _ other) e)
              | inr (may, one, two) ↦
                  rw (if_neg _ other, if_neg _ other) (inr (later p other may, one, two))
            ]
          ]

  make_dir-AreBoth :
      (May : FilePath → Type 0) (p : FilePath) (node : Node) (v w : Disk paths trees)
      → AreSimilar May v w
      → AreBoth May (make_dir paths trees p node v) (make_dir paths trees p node w)
  make_dir-AreBoth May p missing v w similar =
      inr
        (_, _, refl, refl, set_node-AreSimilar May May p directory v w similar (λ q other may. may))
  make_dir-AreBoth May p directory v w similar = inr (v, w, refl, refl, similar)
  make_dir-AreBoth May p (file b) v w similar = inl (_, refl, refl)

  same_at :
      (May : FilePath → Type 0) (v w : Disk paths trees) (p : FilePath)
      → AreSimilar May v w
      → (May p → ⊥)
      → v p ≡ w p
  same_at May v w p similar fixed = elim (similar p) [
    | inl same ↦ same
    | inr (may, one, two) ↦ absurd (fixed may)
  ]

  abbrev AreFixed : (FilePath → Type 0) → List FilePath → Type 0
  AreFixed May [] = Unit {0}
  AreFixed May (p ∷ ps) = (May p → ⊥) × AreFixed May ps

  AreFixed-outside :
      (May : FilePath → Type 0) (ps : List FilePath)
      → ((q : FilePath) → May q → IsOutside q ps)
      → AreFixed May ps
  AreFixed-outside May [] h = tt
  AreFixed-outside May (p ∷ ps) h =
      (λ may. (h p may).0 refl, AreFixed-outside May ps (λ q may. (h q may).1))

  make_dirs-AreBoth :
      (May : FilePath → Type 0) (ps : List FilePath) (v w : Disk paths trees)
      → AreSimilar May v w
      → AreFixed May ps
      → AreBoth May (make_dirs paths trees ps v) (make_dirs paths trees ps w)
  unfolding make_dirs
  make_dirs-AreBoth May [] v w similar fixed = inr (v, w, refl, refl, similar)
  make_dirs-AreBoth May (p ∷ ps) v w similar fixed =
      elim (make_dirs-AreBoth May ps v w similar (fixed.1)) [
        | inl (e, first, second) ↦ inl (e, rw first, rw second)
        | inr (v', w', first, second, made) ↦
            rw (first, second)
              (subst
                (λ node.
                  AreBoth May (make_dir paths trees p (v' p) v') (make_dir paths trees p node w'))
                (same_at May v' w' p made (fixed.0)) (make_dir-AreBoth May p (v' p) v' w' made))
      ]

  module _ (May Later : FilePath → Type 0) (target : FilePath) (encoded : Bytes)
      (v w : Disk paths trees) (similar : AreSimilar May v w)
      (later : (p : FilePath) → p ≢ target → May p → Later p) where
    abbrev Writes : Node → Node → Node → Type 0
    Writes above here there =
        AreBoth Later (write_node paths trees target encoded above here v)
          (write_node paths trees target encoded above there w)

    written :
        AreBoth Later
          (ok (set_node paths trees target (file encoded) v))
          (ok (set_node paths trees target (file encoded) w))
    written =
        inr
          (_, _, refl, refl, set_node-AreSimilar May Later target (file encoded) v w similar later)

    write_plain : (here there : Node) → IsPlain here → IsPlain there → Writes directory here there
    write_plain missing missing one two = written
    write_plain missing (file b) one two = written
    write_plain (file b) missing one two = written
    write_plain (file b) (file c) one two = written
    write_plain directory there one two = absurd one
    write_plain missing directory one two = absurd two
    write_plain (file b) directory one two = absurd two

    write_same : (above here : Node) → Writes above here here
    write_same missing here = inl (_, refl, refl)
    write_same (file b) here = inl (_, refl, refl)
    write_same directory missing = written
    write_same directory (file b) = written
    write_same directory directory = inl (_, refl, refl)

    write_either :
        (above here there : Node)
        → (here ≡ there) ⊎ (IsPlain here × IsPlain there)
        → Writes above here there
    write_either missing here there h = inl (_, refl, refl)
    write_either (file b) here there h = inl (_, refl, refl)
    write_either directory here there (inl same) =
        subst (Writes directory here) same (write_same directory here)
    write_either directory here there (inr (one, two)) = write_plain here there one two

    write_node-AreBoth :
        v (parent target) ≡ w (parent target)
        → AreBoth Later
            (write_node paths trees target encoded (v (parent target)) (v target) v)
            (write_node paths trees target encoded (w (parent target)) (w target) w)
    write_node-AreBoth above =
        subst
          (λ node.
            AreBoth Later (write_node paths trees target encoded (v (parent target)) (v target) v)
              (write_node paths trees target encoded node (w target) w))
          above
          (write_either (v (parent target)) (v target) (w target)
            (elim (similar target) [ inl same ↦ inl same | inr (may, one, two) ↦ inr (one, two) ]))

  -- The resolution of a path depends on the disk by the root alone.
  resolve_same :
      (links : FilePath → FilePath) (root : FilePath) (rel : String) (one two : FilePath → Bool)
      → one (links root) ≡ two (links root)
      → resolve_within_root (paths_in paths links) one root rel
        ≡ resolve_within_root (paths_in paths links) two root rel
  unfolding resolve_within_root
  resolve_same links root rel one two h = rw h

  module _ (encode : String → Bytes) (links : FilePath → FilePath) (root : FilePath) where
    abbrev workspace : Disk paths trees → Workspace FilePath
    workspace nodes = record { nodes = nodes; links = links }

    -- Once a file is seeded, its place no longer differs.
    may_later :
        (rel content : String) (rest : List (String × String)) (target : FilePath)
        → Resolves links root rel target
        → (p : FilePath) → p ≢ target
        → MayDiffer links root ((rel, content) ∷ rest) p
        → MayDiffer links root rest p
    may_later rel content rest target here p other (inl there, free, off_root) =
        absurd (other (ok-injective (sym there ∙ here)))
    may_later rel content rest target here p other (inr later, free, off_root) =
        (later, free.1, off_root)

    -- Seeding two similar workspaces raises the same, or gives the same workspace.
    pub reseed_similar :
        (files : List (String × String)) (v w : Disk paths trees)
        → AreSimilar (MayDiffer links root files) v w
        → reseed_verify_files paths trees encode root files (workspace v)
          ≡ reseed_verify_files paths trees encode root files (workspace w)
    unfolding reseed_verify_files seed_file
    reseed_similar [] v w similar =
        ap (λ nodes. ok (workspace nodes))
          (fun_ext
            (λ p. elim (similar p) [ inl same ↦ same | inr (may, one, two) ↦ absurd (may.0) ]))
    reseed_similar ((rel, content) ∷ rest) v w similar =
        let May = MayDiffer links root ((rel, content) ∷ rest) in
        let same_root : exists_on paths trees v (links root)
            ≡ exists_on paths trees w (links root) =
          ap is_there (same_at May v w (links root) similar (λ may. may.2 refl)) in
        let found =
          resolve_same links root rel (exists_on paths trees v) (exists_on paths trees w)
            same_root in
        elim (Result-cases
          (resolve_within_root (paths_in paths links) (exists_on paths trees w) root rel)) [
            | inr (e, refused) ↦ rw (found, refused)
            | inl (target, at_target) ↦
                let here : Resolves links root rel target =
                  resolve_within_root-later (paths_in paths links) (exists_on paths trees w)
                    (λ q. true) root target rel at_target refl in
                let fixed =
                  AreFixed-outside May (parent target ∷ with_parents (parent target))
                    (λ q may. may.1.0 target here) in
                elim (make_dirs-AreBoth May (with_parents (parent target)) v w similar (fixed.1)) [
                  | inl (e, first, second) ↦ rw (found, at_target, first, second)
                  | inr (v', w', first, second, made) ↦
                      elim (write_node-AreBoth May (MayDiffer links root rest) target
                        (encode content) v' w' made (may_later rel content rest target here)
                        (same_at May v' w' (parent target) made (fixed.0))) [
                          | inl (e, one, two) ↦ rw (found, at_target, first, second, one, two)
                          | inr (u, x, one, two, left) ↦
                              rw (found, at_target, first, second, one, two)
                                (reseed_similar rest u x left)
                        ]
                ]
          ]
