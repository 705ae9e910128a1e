-- ===== src/Tools/Safety/Laws.antt =====
-- What agent_room/tools/_safety.py lets through.
use mathlib.Core.Path.{subst}
use goal_driven_agent_room.Base.{
  Bool, true, false, not, String, List, [], ◌∷◌, mem_text, is_empty, ◌≡◌, ◌↔◌, refl, ap, arith,
  Bool-cases, inl, inr,
}
use goal_driven_agent_room.Errors.{ok, require, >>=-ok, require-ok}
use goal_driven_agent_room.Tools.Safety.{
  Paths, Shell, Split, tokens, unparsable, resolve_within_root, forbidden_tokens, reject_separators,
  check_argv, check_split, enforce_command_allowlist,
}

-- A path that is let through lies within the resolved root, and the resolved root exists.
pub resolve_within_root-within :
    (paths : Paths) (exists : paths.FilePath → Bool) (root target : paths.FilePath)
    (relative : String)
    → resolve_within_root paths exists root relative ≡ ok target
    → (paths.is_relative_to target (paths.resolve root) ≡ true)
      × (exists (paths.resolve root) ≡ true)
unfolding resolve_within_root
resolve_within_root-within paths exists root target relative h = ground arith

abbrev pub NoSeparators : List String → Type 0
NoSeparators [] = Unit
NoSeparators (t ∷ ts) = (mem_text t forbidden_tokens ≡ false) × NoSeparators ts

reject_separators-ok :
    (repr : String → String) (argv : List String)
    → reject_separators repr argv ≡ ok tt
    → NoSeparators argv
unfolding reject_separators
reject_separators-ok repr [] h = tt
reject_separators-ok repr (t ∷ ts) h = elim (Bool-cases (mem_text t forbidden_tokens)) [
  | inl separator ↦ absurd (cc (rw separator at h))
  | inr plain ↦ (plain, reject_separators-ok repr ts (rw plain at h))
]

reject_separators_complete :
    (repr : String → String) (argv : List String)
    → NoSeparators argv
    → reject_separators repr argv ≡ ok tt
unfolding reject_separators
reject_separators_complete repr [] h = refl
reject_separators_complete repr (t ∷ ts) h = rw h.0 (reject_separators_complete repr ts h.1)

-- An argument vector that may run: an allowed head, and no shell separator.
abbrev pub IsAllowed : List String → List String → Type 0
IsAllowed allowlist [] = ⊥
IsAllowed allowlist (head ∷ args) = (mem_text head allowlist ≡ true) × NoSeparators (head ∷ args)

check_argv-ok :
    (shell : Shell) (allowlist argv result : List String)
    → check_argv shell allowlist argv ≡ ok result
    → (argv ≡ result) × IsAllowed allowlist argv
unfolding check_argv
check_argv-ok shell allowlist [] result h = absurd (cc h)
check_argv-ok shell allowlist (head ∷ args) result h =
    let (u, allowed, later) = >>=-ok (require (mem_text head allowlist) _) _ h in
    let (v, plain, last) = >>=-ok (reject_separators shell.repr (head ∷ args)) _ later in
    (cc last, (require-ok _ _ allowed, reject_separators-ok shell.repr (head ∷ args) plain))

check_argv_complete :
    (shell : Shell) (allowlist argv : List String)
    → IsAllowed allowlist argv
    → check_argv shell allowlist argv ≡ ok argv
unfolding check_argv
check_argv_complete shell allowlist [] h = absurd h
check_argv_complete shell allowlist (head ∷ args) h =
    rw (h.0, reject_separators_complete shell.repr (head ∷ args) h.1)

check_split-ok :
    (shell : Shell) (allowlist : List String) (split : Split) (result : List String)
    → check_split shell allowlist split ≡ ok result
    → (split ≡ tokens result) × IsAllowed allowlist result
unfolding check_split
check_split-ok shell allowlist (unparsable why) result h = absurd (cc h)
check_split-ok shell allowlist (tokens argv) result h =
    let (same, allowed) = check_argv-ok shell allowlist argv result h in
    (ap tokens same, subst (IsAllowed allowlist) same allowed)

-- An allowlist that allows something is not empty.
IsAllowed-nonempty :
    (allowlist argv : List String) → IsAllowed allowlist argv → not (is_empty allowlist) ≡ true
IsAllowed-nonempty allowlist [] h = absurd h
IsAllowed-nonempty [] (head ∷ args) h = unfold mem_text in cc (h.0)
IsAllowed-nonempty (a ∷ allowlist) (head ∷ args) h = refl

-- A command is let through exactly when `shlex` splits it into a head that the allowlist names and
-- arguments, none of which, nor the head, is a shell separator; the result is that split.
pub enforce_command_allowlist_iff :
    (shell : Shell) (command : String) (allowlist argv : List String)
    → (enforce_command_allowlist shell command allowlist ≡ ok argv)
      ↔ ((shell.split command ≡ tokens argv) × IsAllowed allowlist argv)
unfolding enforce_command_allowlist
enforce_command_allowlist_iff shell command allowlist argv = (
  λ h.
      let (u, nonempty, later) = >>=-ok (require (not (is_empty allowlist)) _) _ h in
      check_split-ok shell allowlist (shell.split command) argv later,
  λ h.
      rw (IsAllowed-nonempty allowlist argv h.1, h.0)
        (check_argv_complete shell allowlist argv h.1),
)
