-- ===== src/Tools/Policy.antt =====
-- agent_room/tools/policy.py: which tools a permission mode lets a node call.
use goal_driven_agent_room.Base.{
  Bool, true, false, String, none, some, List, [], ◌∷◌, mem_text, if◌then◌else◌, ◌≡◌, ◌↔◌,
  Bool-cases, inl, inr, ◌⊎◌, ap, eq_iff, str_eq, Option-cases, ◌∙◌, arith,
}
use goal_driven_agent_room.Schemas.{Tool}

pub data PermissionMode : Type 0 where
  read_only approval unrestricted : PermissionMode

abbrev pub default_mode : PermissionMode
default_mode = read_only

abbrev pub builtin_read_only : List String
builtin_read_only = "read_text" ∷ "glob" ∷ []

abbrev pub builtin_write : List String
builtin_write = "write_text" ∷ "shell" ∷ []

-- The author's flag wins, then the table of names; any other tool counts as a write.
unfoldable pub is_read_only : Tool → Bool
unfolding mem_text
is_read_only t = elim t.read_only [
  | some flag ↦ flag
  | none ↦
      if mem_text t.name builtin_read_only
      then true
      else if mem_text t.name builtin_write
      then false
      else false
]

read_only_tools : List Tool → List Tool
read_only_tools [] = []
read_only_tools (t ∷ ts) =
    let rest = read_only_tools ts in if is_read_only t then t ∷ rest else rest

unfoldable pub apply_policy : List Tool → PermissionMode → List Tool
unfolding read_only_tools
apply_policy tools approval = tools
apply_policy tools unrestricted = tools
apply_policy tools read_only = read_only_tools tools

-- Membership in a list of tools.
abbrev pub Lists : Tool → List Tool → Type 0
Lists t [] = ⊥
Lists t (u ∷ us) = (t ≡ u) ⊎ Lists t us

read_only_tools_iff :
    (t : Tool) (tools : List Tool)
    → Lists t (read_only_tools tools) ↔ (Lists t tools × (is_read_only t ≡ true))
unfolding read_only_tools
read_only_tools_iff t [] = (λ h. absurd h, λ h. h.0)
read_only_tools_iff t (u ∷ us) = elim (Bool-cases (is_read_only u)) [
  | inl safe ↦ rw safe (
    λ h. elim h [
      | inl here ↦ (inl here, rw here safe)
      | inr later ↦ let (listed, ok) = (read_only_tools_iff t us).0 later in (inr listed, ok)
    ],
    λ h. elim (h.0) [
      | inl here ↦ inl here
      | inr later ↦ inr ((read_only_tools_iff t us).1 (later, h.1))
    ],
  )
  | inr unsafe ↦ rw unsafe (
    λ h. let (listed, ok) = (read_only_tools_iff t us).0 h in (inr listed, ok),
    λ h. elim (h.0) [
      | inl here ↦ absurd (cc (ap is_read_only here, h.1, unsafe))
      | inr later ↦ (read_only_tools_iff t us).1 (later, h.1)
    ],
  )
]

-- A tool that its author declares to be read-only, or about which its author says nothing and which
-- has the name of one of the two built-in tools that only read.
abbrev pub IsDeclaredReadOnly : Tool → Type 0
IsDeclaredReadOnly t =
    (t.read_only ≡ some true)
    ⊎ ((t.read_only ≡ none) × ((t.name ≡ "read_text") ⊎ (t.name ≡ "glob")))

builtin_iff :
    (name : String)
    → (mem_text name builtin_read_only ≡ true) ↔ ((name ≡ "read_text") ⊎ (name ≡ "glob"))
unfolding mem_text
builtin_iff name = (
  λ h. elim (Bool-cases (str_eq name "read_text")) [
    | inl reads ↦ inl ((eq_iff name "read_text").0 reads)
    | inr other ↦ elim (Bool-cases (str_eq name "glob")) [
      | inl globs ↦ inr ((eq_iff name "glob").0 globs)
      | inr neither ↦ absurd (cc (rw (other, neither) at h))
    ]
  ],
  λ h. elim h [
    | inl reads ↦ rw ((eq_iff name "read_text").1 reads)
    | inr globs ↦ ground (arith, (eq_iff name "glob").1 globs)
  ],
)

-- Without a flag the name decides.
unsaid_read_only :
    (t : Tool)
    → t.read_only ≡ none
    → is_read_only t ≡ true
    → mem_text t.name builtin_read_only ≡ true
unfolding is_read_only
unsaid_read_only t unsaid h = elim (Bool-cases (mem_text t.name builtin_read_only)) [
  | inl named ↦ named
  | inr other ↦ elim (Bool-cases (mem_text t.name builtin_write)) [
    | inl writes ↦ absurd (cc (rw (unsaid, other, writes) at h))
    | inr unknown ↦ absurd (cc (rw (unsaid, other, unknown) at h))
  ]
]

is_read_only_iff : (t : Tool) → (is_read_only t ≡ true) ↔ IsDeclaredReadOnly t
unfolding is_read_only
is_read_only_iff t = elim (Option-cases t.read_only) [
  | inl unsaid ↦
      let (from_name, to_name) = builtin_iff t.name in
      (
        λ h. inr (unsaid, from_name (unsaid_read_only t unsaid h)),
        λ h. elim h [
          | inl said ↦ absurd (cc (unsaid, said))
          | inr (same, named) ↦ rw (unsaid, to_name named)
        ],
      )
  | inr (flag, said) ↦ (
    λ h. inl (said ∙ ap some (rw said at h)),
    λ h. elim h [ inl declared ↦ rw declared | inr (unsaid, named) ↦ absurd (cc (unsaid, said)) ],
  )
]

-- In `read_only` mode a tool is allowed exactly when the spec lists it and its author declares it
-- read-only, or, where the author says nothing, its name is read_text or glob; in the other modes,
-- exactly when the spec lists it.
pub apply_policy_iff :
    (t : Tool) (tools : List Tool)
    → (Lists t (apply_policy tools read_only) ↔ (Lists t tools × IsDeclaredReadOnly t))
      × (Lists t (apply_policy tools approval) ↔ Lists t tools)
      × (Lists t (apply_policy tools unrestricted) ↔ Lists t tools)
unfolding apply_policy
apply_policy_iff t tools =
    let (kept, keeps) = read_only_tools_iff t tools in
    let (declared, declares) = is_read_only_iff t in
    (
      (
        λ h. let (listed, safe) = kept h in (listed, declared safe),
        λ h. keeps (h.0, declares (h.1)),
      ),
      (λ h. h, λ h. h),
      (λ h. h, λ h. h),
    )
