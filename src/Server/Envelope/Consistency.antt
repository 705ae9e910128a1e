-- ===== src/Server/Envelope/Consistency.antt =====
-- agent_room/server/react_runtime.py: the names that the registry holds, and those that the spec
-- grants.
use goal_driven_agent_room.Base.{
  Bool, true, false, not, ◌&&◌, ◌||◌, ◌≡◌, refl, sym, ap, ◌∙◌, inl, inr, String, List, [], ◌∷◌,
  ◌++◌, mem_text, is_empty, map, str_eq, eq_iff, get, get-append, if◌then◌else◌, Bool-cases,
  Option-cases, arith,
}
use goal_driven_agent_room.Schemas.{Tool}
use goal_driven_agent_room.Errors.{ok, >>=-ok}
use goal_driven_agent_room.Config.{Settings}
use goal_driven_agent_room.Tools.Registry.{
  ToolEntry, Entries, has, register, register_if, register_builtin_tools, builtin,
}
use goal_driven_agent_room.Server.Envelope.{
  available_tool_names, register_mcp, build_server_registry,
}

register-has :
    (name : String) (e : ToolEntry) (before after : Entries)
    → register e before ≡ ok after
    → has name after ≡ (str_eq e.name name || has name before)
unfolding register
register-has name e before after h = elim (Bool-cases (has e.name before)) [
  | inl taken ↦ absurd (cc (rw taken at h))
  | inr free ↦
      let appended : before ++ ((e.name, e) ∷ []) ≡ after = cc (rw free at h) in
      rw (sym appended, get-append name before ((e.name, e) ∷ []))
        (ground (arith, Option-cases (get name before)))
]

str_eq_comm : (a b : String) → str_eq a b ≡ str_eq b a
str_eq_comm a b = elim (Bool-cases (str_eq a b)) [
  | inl same ↦ same ∙ sym ((eq_iff b a).1 (sym ((eq_iff a b).0 same)))
  | inr other ↦ elim (Bool-cases (str_eq b a)) [
    | inl same ↦ absurd (cc (sym other ∙ (eq_iff a b).1 (sym ((eq_iff b a).0 same))))
    | inr differs ↦ other ∙ sym differs
  ]
]

register_if-has :
    (name : String) (b : Bool) (e : ToolEntry) (before after : Entries)
    → register_if b e before ≡ ok after
    → has name after ≡ ((b && str_eq e.name name) || has name before)
unfolding register_if
register_if-has name true e before after h = register-has name e before after h
register_if-has name false e before after h = ap (has name) (sym (cc h))

builtins-has :
    (name : String) (allowlist : List String) (memory : Bool) (before after : Entries)
    → register_builtin_tools allowlist memory before ≡ ok after
    → has name after ≡ (
        (memory && str_eq "memory" name)
        || ((not (is_empty allowlist) && str_eq "shell" name)
            || (str_eq "glob" name
                || (str_eq "write_text" name || (str_eq "read_text" name || has name before)))))
unfolding register_builtin_tools
builtins-has name allowlist memory before after h =
    let (e1, h1, r1) = >>=-ok (register (builtin "read_text" "filesystem") before) _ h in
    let (e2, h2, r2) = >>=-ok (register (builtin "write_text" "filesystem") e1) _ r1 in
    let (e3, h3, r3) = >>=-ok (register (builtin "glob" "filesystem") e2) _ r2 in
    let (e4, h4, h5) =
      >>=-ok (register_if (not (is_empty allowlist)) (builtin "shell" "shell") e3) _ r3 in
    let one = register-has name (builtin "read_text" "filesystem") before e1 h1 in
    let two = register-has name (builtin "write_text" "filesystem") e1 e2 h2 in
    let three = register-has name (builtin "glob" "filesystem") e2 e3 h3 in
    let four = register_if-has name (not (is_empty allowlist)) (builtin "shell" "shell") e3 e4 h4 in
    let five = register_if-has name memory (builtin "memory" "memory") e4 after h5 in
    rw (five, four, three, two, one)

register_mcp-has :
    (name : String) (tools : List Tool) (before after : Entries)
    → register_mcp tools before ≡ ok after
    → has name after ≡ (mem_text name (map (λ (t : Tool). t.name) tools) || has name before)
unfolding register_mcp mem_text
register_mcp-has name [] before after h = ap (has name) (sym (cc h))
register_mcp-has name (t ∷ ts) before after h =
    let (e1, h1, later) =
      >>=-ok (register (record { name = t.name; toolset = "mcp"; tool = t }) before) _ h in
    let one =
      register-has name (record { name = t.name; toolset = "mcp"; tool = t }) before e1 h1 in
    rw (register_mcp-has name ts e1 after later, one, str_eq_comm t.name name) (ground arith)

-- The names that an allowlist and a memory add.
optional-has :
    (name : String) (allowlist : List String) (memory : Bool) (more : List String)
    → mem_text name (
        (if is_empty allowlist then [] else "shell" ∷ [])
        ++ (if memory then "memory" ∷ [] else [])
        ++ more)
      ≡ ((not (is_empty allowlist) && str_eq "shell" name)
          || ((memory && str_eq "memory" name) || mem_text name more))
unfolding mem_text
optional-has name [] true more = rw (str_eq_comm name "memory")
optional-has name [] false more = refl
optional-has name (a ∷ rest) true more = rw (str_eq_comm name "shell", str_eq_comm name "memory")
optional-has name (a ∷ rest) false more = rw (str_eq_comm name "shell")

module _ {Amount : Type 0} (s : Settings Amount) where
  -- When the registry is built, it holds exactly the names that are expected to be available, if
  -- the provider is given where memory is enabled.
  pub build_server_registry-has :
      (mcp_tools : List Tool) (entries : Entries) (name : String)
      → build_server_registry s s.memory_enabled mcp_tools ≡ ok entries
      → has name entries
        ≡ mem_text name (available_tool_names s (map (λ (t : Tool). t.name) mcp_tools))
  unfolding build_server_registry available_tool_names mem_text
  build_server_registry-has mcp_tools entries name h =
      let names = map (λ (t : Tool). t.name) mcp_tools in
      let (builtins, h1, later) =
        >>=-ok (register_builtin_tools s.shell_allowlist s.memory_enabled []) _ h in
      let base = builtins-has name s.shell_allowlist s.memory_enabled [] builtins h1 in
      rw (register_mcp-has name mcp_tools builtins entries later, base)
        (rw
          (
            optional-has name s.shell_allowlist s.memory_enabled names,
            str_eq_comm name "glob",
            str_eq_comm name "read_text",
            str_eq_comm name "write_text",
          )
          (ground arith))
