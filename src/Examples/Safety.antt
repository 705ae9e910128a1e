-- ===== src/Examples/Safety.antt =====
-- The oracle, the path and command checks, the approval and the guardrail at concrete inputs.
use goal_driven_agent_room.Base.{
  Bool, true, false, String, none, List, [], ◌∷◌, ◌≡◌, ◌↔◌, inl, inr, refl, mem_text,
}
use goal_driven_agent_room.Schemas.{ToolCall, Message, tool, str, pos, output}
use goal_driven_agent_room.Errors.{os_error, ok, err}
use goal_driven_agent_room.Guardrail.{block, check, injection_patterns, pii_patterns}
use goal_driven_agent_room.Guardrail.Laws.{IsClean, check-block_iff}
use goal_driven_agent_room.Tools.Files.{Node, directory, file, make_dirs}
use goal_driven_agent_room.Tools.Safety.{resolve_within_root, enforce_command_allowlist, tokens}
use goal_driven_agent_room.Tools.Safety.Laws.{enforce_command_allowlist_iff, IsAllowed}
use goal_driven_agent_room.Tools.Approval.{word, approval_wrapper, approval_wrapper-deny}
use goal_driven_agent_room.Roles.Verifier.{
  Outcome, exited, Workspace, seed_file, reseed_verify_files, run_verify_command, verifier_node,
}
use goal_driven_agent_room.Roles.Verifier.Seeding.{AreSimilar, MayDiffer, IsOutside}
use goal_driven_agent_room.Roles.Verifier.Tamper.{
  verifier_node-tamper_proof, run_verify_command-passed_iff,
}
use goal_driven_agent_room.Examples.World.{
  two_paths, one_shell, no_match, no_files, small_state, flat, two_bytes_of, empty_root,
}

abbrev same : String → String
same s = s

-- The developer has put a text of its own in place of the seeded test.
abbrev tampered_nodes : Bool → Node
tampered_nodes true = directory
tampered_nodes false = file (120 ∷ [])

abbrev tampered : Workspace Bool
tampered = record { nodes = tampered_nodes; links = λ p. p }

-- The command passes when it finds the seeded test.
abbrev find_test : List String → Workspace Bool → Outcome × Workspace Bool
find_test argv files = (exited (pos 0) "ok", files)

abbrev only_pytest : List String
only_pytest = "pytest" ∷ []

no_parent : (t : Bool) → IsOutside two_paths flat false (true ∷ true ∷ [])
no_parent t = ((λ h. cc h), ((λ h. cc h), tt))

seeded_place :
    AreSimilar two_paths flat
      (MayDiffer two_paths flat (λ p. p) true (("test_sum.py", "assert True") ∷ []))
      tampered_nodes
      empty_root
unfolding resolve_within_root
seeded_place true = inl refl
seeded_place false = inr ((inl refl, (λ t h. no_parent t, tt), (λ h. cc h)), tt, tt)

verifier_node-tamper_proof_example :
    verifier_node two_paths flat two_bytes_of same one_shell true find_test only_pytest small_state
      tampered
    ≡ verifier_node two_paths flat two_bytes_of same one_shell true find_test only_pytest
        small_state no_files
verifier_node-tamper_proof_example =
    verifier_node-tamper_proof two_paths flat two_bytes_of same one_shell true find_test only_pytest
      small_state tampered no_files refl refl seeded_place

-- A directory at the seeded place makes the verifier raise.
abbrev blocked : Workspace Bool
blocked = record { nodes = λ p. directory; links = λ p. p }

blocked_raises :
    verifier_node two_paths flat two_bytes_of same one_shell true find_test only_pytest small_state
      blocked
    ≡ err (os_error "IsADirectoryError")
unfolding verifier_node reseed_verify_files seed_file resolve_within_root make_dirs
blocked_raises = refl

run_verify_command-passed_iff_example :
    ((run_verify_command same one_shell find_test only_pytest "pytest -q" 1 no_files).0.passed
      ≡ true)
    ↔ ((argv : List String) × (stdout : String) × (enforce_command_allowlist one_shell "pytest -q"
            only_pytest
          ≡ ok argv)
        × ((find_test argv no_files).0 ≡ exited (pos 0) stdout))
run_verify_command-passed_iff_example =
    run_verify_command-passed_iff same one_shell find_test only_pytest "pytest -q" 1 no_files

enforce_command_allowlist_iff_example :
    (enforce_command_allowlist one_shell "pytest -q" only_pytest ≡ ok ("pytest" ∷ "-q" ∷ [])) ↔ (
      (one_shell.split "pytest -q" ≡ tokens ("pytest" ∷ "-q" ∷ []))
      × IsAllowed only_pytest ("pytest" ∷ "-q" ∷ []))
enforce_command_allowlist_iff_example =
    enforce_command_allowlist_iff one_shell "pytest -q" only_pytest ("pytest" ∷ "-q" ∷ [])

abbrev write_call : ToolCall
write_call = record { name = "fs_write"; args = "sum.py"; id = "call_1" }

abbrev wrote : ToolCall → Message
wrote call = tool (str "wrote") call.name call.id

approval_wrapper-deny_example :
    (message : String) × ((execute : ToolCall → Message)
      → approval_wrapper same same same execute write_call (word "later")
        ≡ tool (str message) "fs_write" "call_1")
unfolding mem_text
approval_wrapper-deny_example = approval_wrapper-deny same same same write_call (word "later") refl

check-block_iff_example :
    (check no_match block "hello" output ≡ ok none)
    ↔ (IsClean no_match injection_patterns "hello" × IsClean no_match pii_patterns "hello")
check-block_iff_example = check-block_iff no_match "hello" output refl
