-- ===== src/Roles/Verifier/Tamper.antt =====
-- The oracle of agent_room/roles/verifier.py against the seeded files and the exit code.
use goal_driven_agent_room.Base.{ℕ, zero, suc, true, String, List, ◌≡◌, ◌↔◌, refl, ap, ◌∙◌, truthy}
use goal_driven_agent_room.Schemas.{pos, negsuc}
use goal_driven_agent_room.State.{TaskState}
use goal_driven_agent_room.Errors.{Result, ok, err}
use goal_driven_agent_room.Tools.Safety.{Paths, Shell, enforce_command_allowlist}
use goal_driven_agent_room.Tools.Files.{Bytes, Trees}
use goal_driven_agent_room.Roles.Verifier.{
  Outcome, not_started, timed_out, exited, outcome_result, Workspace, reseed_verify_files,
  run_parsed, run_verify_command, verifier_node,
}
use goal_driven_agent_room.Roles.Verifier.Seeding.{MayDiffer, AreSimilar, reseed_similar}

module _ (paths : Paths) (trees : Trees paths) (encode : String → Bytes) (strip : String → String)
    (shell : Shell) where
  open paths use {FilePath}

  -- With a verify_command, take two workspaces that resolve their links alike and differ only where
  -- seeded files are written: there each has a file or nothing, and none of these places is the
  -- root or a directory of a seeded file. Then the verifier does the same in both: the update that
  -- it writes, the files that it leaves, or the error that it raises.
  pub verifier_node-tamper_proof :
      (root : FilePath) (process : List String → Workspace FilePath → Outcome × Workspace FilePath)
      (allowlist : List String) (s : TaskState) (v w : Workspace FilePath)
      → truthy s.verify_command ≡ true
      → v.links ≡ w.links
      → AreSimilar paths trees (MayDiffer paths trees v.links root s.verify_files) v.nodes w.nodes
      → verifier_node paths trees encode strip shell root process allowlist s v
        ≡ verifier_node paths trees encode strip shell root process allowlist s w
  unfolding verifier_node
  verifier_node-tamper_proof root process allowlist s v w given links similar =
      let seeded : reseed_verify_files paths trees encode root s.verify_files v
          ≡ reseed_verify_files paths trees encode root s.verify_files w =
        reseed_similar paths trees encode v.links root s.verify_files v.nodes w.nodes similar
        ∙ ap
            (λ l.
              reseed_verify_files paths trees encode root s.verify_files
                (record { nodes = w.nodes; links = l }))
            links in
      rw (given, seeded)

module _ (strip : String → String) (shell : Shell) where
  passed-exit_zero :
      (outcome : Outcome) (argv : List String) (round_no : ℕ)
      → ((outcome_result strip shell outcome argv round_no).passed ≡ true)
        ↔ ((stdout : String) × (outcome ≡ exited (pos 0) stdout))
  unfolding outcome_result
  passed-exit_zero (not_started why) argv round_no = (λ h. cc, λ h. cc (h.1))
  passed-exit_zero timed_out argv round_no = (λ h. cc, λ h. cc (h.1))
  passed-exit_zero (exited (pos zero) stdout) argv round_no = (λ h. (stdout, refl), λ h. refl)
  passed-exit_zero (exited (pos (suc n)) stdout) argv round_no = (λ h. cc, λ h. cc (h.1))
  passed-exit_zero (exited (negsuc n) stdout) argv round_no = (λ h. cc, λ h. cc (h.1))

module _ {Files : Type 0} (strip : String → String) (shell : Shell) where
  run_parsed-passed_iff :
      (process : List String → Files → Outcome × Files) (round_no : ℕ) (files : Files)
      (parsed : Result (List String))
      → ((run_parsed strip shell process round_no files parsed).0.passed ≡ true) ↔ (
          (argv : List String) × (stdout : String) × (parsed ≡ ok argv)
          × ((process argv files).0 ≡ exited (pos 0) stdout))
  unfolding run_parsed
  run_parsed-passed_iff process round_no files (err e) = (λ h. cc, λ h. cc (h.2))
  run_parsed-passed_iff process round_no files (ok argv) =
      let (zero_of, of_zero) = passed-exit_zero strip shell (process argv files).0 argv round_no in
      (
        λ h. let (stdout, ran) = zero_of h in (argv, stdout, refl, ran),
        λ h.
            of_zero
              (h.1, cc (ap (λ a. (process a files).0) (let e : argv ≡ h.0 = cc (h.2) in e), h.3)),
      )

  -- A verification passes exactly when the allowlist lets the command through and the process that
  -- runs it, in the files as they are, exits with code 0.
  pub run_verify_command-passed_iff :
      (process : List String → Files → Outcome × Files) (allowlist : List String) (command : String)
      (round_no : ℕ) (files : Files)
      → ((run_verify_command strip shell process allowlist command round_no files).0.passed ≡ true)
        ↔ ((argv : List String) × (stdout : String) × (enforce_command_allowlist shell command
                allowlist
              ≡ ok argv)
            × ((process argv files).0 ≡ exited (pos 0) stdout))
  unfolding run_verify_command
  run_verify_command-passed_iff process allowlist command round_no files =
      run_parsed-passed_iff process round_no files
        (enforce_command_allowlist shell command allowlist)
