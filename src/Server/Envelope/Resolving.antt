-- ===== src/Server/Envelope/Resolving.antt =====
-- agent_room/server/react_runtime.py with agent_room/tools/spec_resolver.py: the tools that the
-- reconciled spec names, looked up in the registry.
use mathlib.Core.Path.{subst}
use goal_driven_agent_room.Base.{
  Bool, true, false, ◌||◌, ◌≡◌, refl, sym, ap, ◌∙◌, inl, inr, String, none, List, [], ◌∷◌, ◌++◌,
  mem_text, is_empty, map, str_eq, eq_iff, Bool-cases, arith,
}
use goal_driven_agent_room.Schemas.{Tool}
use goal_driven_agent_room.Errors.{ok, >>=-ok}
use goal_driven_agent_room.Config.{Settings}
use goal_driven_agent_room.Tools.Registry.{Entries, has, by_name}
use goal_driven_agent_room.Spec.{NodeSpec, is_developer}
use goal_driven_agent_room.Graph.{resolve_tool_names, find_tool}
use goal_driven_agent_room.Server.Envelope.{
  available_tool_names, build_server_registry, keep_available, grant, grant_all, reconcile_tools,
  reconcile_node, permission_mode, names_for, reconcile_for,
}
use goal_driven_agent_room.Server.Envelope.Consistency.{build_server_registry-has}

-- Every name of a list is one of another.
IsSubset : List String → List String → Type 0
unfolding mem_text
IsSubset names others = (n : String) → mem_text n names ≡ true → mem_text n others ≡ true

mem_text-append :
    (n : String) (xs ys : List String) → mem_text n (xs ++ ys) ≡ (mem_text n xs || mem_text n ys)
unfolding mem_text
mem_text-append n [] ys = refl
mem_text-append n (x ∷ xs) ys = ground (arith, mem_text-append n xs ys)

member-of :
    (n t : String) (others : List String)
    → str_eq n t ≡ true
    → mem_text t others ≡ true
    → mem_text n others ≡ true
member-of n t others same h = ap (λ x. mem_text x others) ((eq_iff n t).0 same) ∙ h

keep_available-IsSubset :
    (available tools : List String) → IsSubset (keep_available available tools) available
unfolding IsSubset keep_available mem_text
keep_available-IsSubset available [] n h = absurd (cc h)
keep_available-IsSubset available (t ∷ ts) n h =
    let rest = keep_available-IsSubset available ts n in
    elim (Bool-cases (mem_text t available)) [
      | inl there ↦ elim (Bool-cases (str_eq n t)) [
        | inl same ↦ member-of n t available same there
        | inr other ↦ rest (ground (arith, rw there at h, other))
      ]
      | inr missing ↦ rest (rw missing at h)
    ]

grant-IsSubset :
    (name : String) (tools available : List String)
    → mem_text name available ≡ true
    → IsSubset tools available
    → IsSubset (grant name tools) available
unfolding IsSubset grant mem_text
grant-IsSubset name tools available there h n m = elim (Bool-cases (mem_text name tools)) [
  | inl granted ↦ h n (rw granted at m)
  | inr fresh ↦ elim (Bool-cases (str_eq n name)) [
    | inl same ↦ member-of n name available same there
    | inr other ↦ h n (ground (arith, (rw fresh at m), mem_text-append n tools (name ∷ []), other))
  ]
]

grant_all-IsSubset :
    (names tools available : List String)
    → IsSubset names available
    → IsSubset tools available
    → IsSubset (grant_all names tools) available
unfolding grant_all IsSubset mem_text
grant_all-IsSubset [] tools available hn ht = ht
grant_all-IsSubset (x ∷ xs) tools available hn ht =
    grant_all-IsSubset xs (grant x tools) available (λ n m. hn n (ground (arith, m)))
      (grant-IsSubset x tools available (hn x (ground (arith, (eq_iff x x).1 refl))) ht)

mcp-available :
    (allowlist : List String) (memory : Bool) (mcp_names : List String)
    → IsSubset mcp_names (names_for allowlist memory mcp_names)
unfolding IsSubset mem_text
mcp-available [] true mcp_names n m = rw m (ground arith)
mcp-available [] false mcp_names n m = rw m (ground arith)
mcp-available (a ∷ rest) true mcp_names n m = rw m (ground arith)
mcp-available (a ∷ rest) false mcp_names n m = rw m (ground arith)

memory-available :
    (allowlist mcp_names : List String)
    → mem_text "memory" (names_for allowlist true mcp_names) ≡ true
unfolding mem_text
memory-available [] mcp_names = refl
memory-available (a ∷ rest) mcp_names = refl

reconcile_for-IsSubset :
    (allowlist : List String) (memory : Bool) (mcp_names tools : List String)
    → IsSubset
        (reconcile_for allowlist memory mcp_names tools)
        (names_for allowlist memory mcp_names)
unfolding reconcile_for
reconcile_for-IsSubset allowlist true mcp_names tools =
    let available = names_for allowlist true mcp_names in
    grant_all-IsSubset mcp_names (grant "memory" (keep_available available tools)) available
      (mcp-available allowlist true mcp_names)
      (grant-IsSubset "memory" (keep_available available tools) available
        (memory-available allowlist mcp_names) (keep_available-IsSubset available tools))
reconcile_for-IsSubset allowlist false mcp_names tools =
    let available = names_for allowlist false mcp_names in
    grant_all-IsSubset mcp_names (keep_available available tools) available
      (mcp-available allowlist false mcp_names) (keep_available-IsSubset available tools)

find_tool-by_name :
    (name : String) (entries : Entries)
    → has name entries ≡ true
    → (t : Tool) × (find_tool (by_name entries) name ≡ ok t)
unfolding by_name find_tool
find_tool-by_name name [] h = absurd (cc h)
find_tool-by_name name ((n, e) ∷ rest) h = elim (Bool-cases (str_eq n name)) [
  | inl same ↦ (e.tool, rw same)
  | inr other ↦ let (t, found) = find_tool-by_name name rest (rw other at h) in (t, rw other found)
]

resolve_tool_names-found :
    (names : List String) (entries : Entries)
    → ((n : String) → mem_text n names ≡ true → has n entries ≡ true)
    → (ts : List Tool) × (resolve_tool_names names (by_name entries) ≡ ok ts)
unfolding resolve_tool_names mem_text
resolve_tool_names-found [] entries h = ([], refl)
resolve_tool_names-found (n ∷ ns) entries h =
    let (t, found) = find_tool-by_name n entries (h n (ground (arith, (eq_iff n n).1 refl))) in
    let (ts, later) =
      resolve_tool_names-found ns entries (λ m there. h m (ground (arith, there))) in
    (t ∷ ts, rw (found, later))

empty-IsSubset : (names others : List String) → is_empty names ≡ true → IsSubset names others
unfolding IsSubset mem_text
empty-IsSubset [] others e n h = absurd (cc h)
empty-IsSubset (x ∷ xs) others e n h = absurd (cc e)

module _ {Amount : Type 0} (s : Settings Amount) where
  reconcile_node-tools :
      (mcp_names : List String) (n n' : NodeSpec)
      → is_developer n.role ≡ true
      → reconcile_node s mcp_names n ≡ ok n'
      → IsSubset n'.tools (available_tool_names s mcp_names)
  unfolding reconcile_node reconcile_tools available_tool_names
  reconcile_node-tools mcp_names n n' dev h =
      let names = names_for s.shell_allowlist s.memory_enabled mcp_names in
      let tools = reconcile_for s.shell_allowlist s.memory_enabled mcp_names n.tools in
      let all = reconcile_for-IsSubset s.shell_allowlist s.memory_enabled mcp_names n.tools in
      elim (Bool-cases (is_empty n.tools)) [
        | inl bare ↦
            let same : n ≡ n' = cc (rw (dev, bare) at h) in
            empty-IsSubset n'.tools names
              (ap (λ (m : NodeSpec). is_empty m.tools) (sym same) ∙ bare)
        | inr listed ↦ elim (Bool-cases (is_empty tools)) [
          | inl gone ↦
              let same : record n { tools = []; tool_mode = none } ≡ n' =
                cc (rw (dev, listed, gone) at h) in
              empty-IsSubset n'.tools names (ap (λ (m : NodeSpec). is_empty m.tools) (sym same))
          | inr granted ↦
              let (mode, valid, made) =
                >>=-ok (permission_mode s.tool_mode) _ (rw (dev, listed, granted) at h) in
              let same : record n { tools = tools; tool_mode = mode } ≡ n' = cc made in
              subst (λ (m : NodeSpec). IsSubset m.tools names) same all
        ]
      ]

  -- With the memory provider that the settings ask for: when the registry is built, every tool that
  -- a developer has after the reconciliation is found in it, so that the lookup of its tools raises
  -- nothing.
  pub reconcile_node-resolves :
      (mcp_tools : List Tool) (entries : Entries) (n n' : NodeSpec)
      → is_developer n.role ≡ true
      → build_server_registry s s.memory_enabled mcp_tools ≡ ok entries
      → reconcile_node s (map (λ (t : Tool). t.name) mcp_tools) n ≡ ok n'
      → (ts : List Tool) × (resolve_tool_names n'.tools (by_name entries) ≡ ok ts)
  reconcile_node-resolves mcp_tools entries n n' dev built reconciled =
      let names = map (λ (t : Tool). t.name) mcp_tools in
      let granted = reconcile_node-tools names n n' dev reconciled in
      resolve_tool_names-found n'.tools entries (λ m there.
        build_server_registry-has s mcp_tools entries m built ∙ unfold IsSubset in granted m there)
