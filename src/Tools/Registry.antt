-- ===== src/Tools/Registry.antt =====
-- agent_room/tools/registry.py and `register_builtin_tools` of agent_room/tools/__init__.py. Where
-- a tool works, its limits and its guardrail are left out of the entry: nothing here reads them.
use goal_driven_agent_room.Base.{
  Bool, true, false, String, Option, none, some, List, [], ◌∷◌, ◌++◌, get, map, str_eq, is_none,
  not, is_empty, if◌then◌else◌,
}
use goal_driven_agent_room.Schemas.{Tool}
use goal_driven_agent_room.Errors.{value_error, key_error, Result, ok, err, ◌>>=◌}

pub record ToolEntry : Type 0 where
  pub name : String
  pub toolset : String
  pub tool : Tool

abbrev pub Entries : Type 0
Entries = List (String × ToolEntry)

-- `name in self._entries`
abbrev pub has : String → Entries → Bool
has name entries = not (is_none (get name entries))

-- `register`
unfoldable pub register : ToolEntry → Entries → Result Entries
register entry entries =
    if has entry.name entries
    then err (value_error "tool already registered")
    else ok (entries ++ ((entry.name, entry) ∷ []))

-- `get`
unfoldable pub get_entry : String → Entries → Result ToolEntry
get_entry name entries = elim (get name entries) [
  | none ↦ err (key_error name)
  | some entry ↦ ok entry
]

unfoldable pub of_toolset : String → Entries → List ToolEntry
of_toolset toolset [] = []
of_toolset toolset ((n, e) ∷ rest) =
    let later = of_toolset toolset rest in if str_eq e.toolset toolset then e ∷ later else later

-- `entries`
unfoldable pub entries_in : Option String → Entries → List ToolEntry
unfolding of_toolset
entries_in none entries = map (λ (p : String × ToolEntry). p.1) entries
entries_in (some toolset) entries = of_toolset toolset entries

-- `names`
unfoldable pub names : Entries → List String
names entries = map (λ (p : String × ToolEntry). p.0) entries

-- `clear`
unfoldable pub clear : Entries → Entries
clear entries = []

-- A built-in tool, which has no metadata.
abbrev pub builtin : String → String → ToolEntry
builtin name toolset = record {
  name = name;
  toolset = toolset;
  tool = record { name = name; read_only = none };
}

-- A registration under a condition.
unfoldable pub register_if : Bool → ToolEntry → Entries → Result Entries
unfolding register
register_if true entry entries = register entry entries
register_if false entry entries = ok entries

-- `register_builtin_tools`; `memory` is whether a provider is given.
unfoldable pub register_builtin_tools : List String → (memory : Bool) → Entries → Result Entries
unfolding register register_if
register_builtin_tools shell_allowlist memory entries = do
  read ← register (builtin "read_text" "filesystem") entries
  write ← register (builtin "write_text" "filesystem") read
  files ← register (builtin "glob" "filesystem") write
  shell ← register_if (not (is_empty shell_allowlist)) (builtin "shell" "shell") files
  register_if memory (builtin "memory" "memory") shell

-- The tools by name, as the graph's builder looks them up.
unfoldable pub by_name : Entries → List (String × Tool)
by_name entries = map (λ (p : String × ToolEntry). (p.0, p.1.tool)) entries
