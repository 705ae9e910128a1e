-- ===== src/Examples/Filing.antt =====
-- The file and command tools at concrete inputs.
use goal_driven_agent_room.Base.{ℕ, suc, Bool, true, false, String, none, List, [], ◌∷◌, ◌≡◌, refl}
use goal_driven_agent_room.Schemas.{pos}
use goal_driven_agent_room.Errors.{ok}
use goal_driven_agent_room.Tools.Safety.{resolve_within_root}
use goal_driven_agent_room.Tools.Files.{
  Bytes, Codec, Node, missing, directory, file, Trees, check_call, exists_on, truncate, read_text,
  write_text, set_node,
}
use goal_driven_agent_room.Tools.Files.Frame.{IsWritten, write_text-IsWritten}
use goal_driven_agent_room.Tools.Files.Reading.{write_text-read_text}
use goal_driven_agent_room.Tools.Command.{Completed, exited, ShellTool, run_command}
use goal_driven_agent_room.Tools.Command.Running.{IsAdmitted, RanOnly, run_command-RanOnly}
use goal_driven_agent_room.Examples.World.{two_paths, one_shell, no_match}

-- Every text is encoded by two bytes.
abbrev two_bytes : Codec
two_bytes = record {
  encode = λ t. 104 ∷ 105 ∷ [];
  decode_ignore = λ b. "h";
  read_replace = λ b. "hi";
}

abbrev one_directory : Trees two_paths
one_directory = record {
  parent = λ p. true;
  with_parents = λ p. true ∷ [];
  relative_to = λ p root. "notes.txt";
}

-- The root and nothing in it.
abbrev empty_disk : Bool → Node
empty_disk true = directory
empty_disk false = missing

abbrev written_disk : Bool → Node
written_disk = set_node two_paths one_directory false (file (104 ∷ 105 ∷ [])) empty_disk

written :
    write_text two_paths one_directory two_bytes no_match none true empty_disk "notes.txt" "hi" true
    ≡ ok ("wrote 2 bytes to notes.txt", written_disk)
unfolding write_text
written = refl

write_text-IsWritten_example :
    (check_call no_match none "hi" ≡ ok tt)
    × ((target : Bool) × (resolve_within_root two_paths
            (exists_on two_paths one_directory empty_disk)
            true
            "notes.txt"
          ≡ ok target)
        × (two_paths.is_relative_to target true ≡ true)
        × IsWritten two_paths one_directory target (104 ∷ 105 ∷ []) empty_disk written_disk)
write_text-IsWritten_example =
    write_text-IsWritten two_paths one_directory two_bytes no_match none true empty_disk
      written_disk "notes.txt" "hi" "wrote 2 bytes to notes.txt" true written

write_text-read_text_example :
    read_text two_paths one_directory two_bytes 1 true written_disk "notes.txt"
    ≡ ok (truncate two_bytes "hi" 1)
write_text-read_text_example =
    write_text-read_text two_paths one_directory two_bytes no_match none 1 true empty_disk
      written_disk "notes.txt" "hi" "wrote 2 bytes to notes.txt" true written

-- A process that counts its runs.
abbrev counted : List String → ℕ → Completed × ℕ
counted argv n = (exited (pos 0) (111 ∷ 107 ∷ []) [], suc n)

abbrev pytest_only : ShellTool
pytest_only = record {
  allowlist = "pytest" ∷ [];
  timeout_s = "30.0";
  max_output_bytes = 100;
  guardrail = none;
}

abbrev as_text : Bytes → String
as_text b = "ok"

run_command-RanOnly_example :
    RanOnly as_text counted pytest_only
      (IsAdmitted no_match one_shell pytest_only "pytest -q")
      0
      (run_command as_text no_match one_shell counted pytest_only "pytest -q" 0)
run_command-RanOnly_example =
    run_command-RanOnly as_text counted pytest_only no_match one_shell "pytest -q" 0
