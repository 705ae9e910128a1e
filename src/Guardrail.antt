-- ===== src/Guardrail.antt =====
-- agent_room/guardrail.py: content scanning at the checkpoints. `search pattern text` is the
-- regular expression engine's `re.compile(pattern).search(text)`, with the flags of the source; the
-- two classes of invisible characters are written by their code points.
use goal_driven_agent_room.Base.{
  Bool, true, false, String, Option, none, some, List, [], ◌∷◌, blank, if◌then◌else◌, ◌||◌,
}
use goal_driven_agent_room.Schemas.{Checkpoint, injection, pii, GuardrailFinding}
use goal_driven_agent_room.Errors.{Result, ok, err, guardrail_tripwire}
pub mod Laws

pub data GuardrailMode : Type 0 where
  off warn block : GuardrailMode

abbrev pub Search : Type 0
Search = String → String → Bool

abbrev pub injection_patterns : List String
injection_patterns =
    "ignore\\s+(all\\s+)?previous\\s+instructions"
    ∷ "disregard\\s+(all\\s+)?prior\\s+(rules|instructions)" ∷ "you\\s+are\\s+now\\s+(a|an)\\s+\\w+"
    ∷ "\\b(curl|wget)\\s+\\S*://\\S+" ∷ "\\bsh\\s+-c\\b|\\bbash\\s+-c\\b" ∷ "\\.ssh/authorized_keys"
    ∷ "\\b(cat|less|head|tail)\\s+\\.env\\b" ∷ "\\$\\(\\s*cat\\s+\\.env"
    ∷ "\\bbase64\\s+--?d(ecode)?\\b" ∷ "[\\u202a-\\u202e\\u2066-\\u2069]"
    ∷ "[\\u200b-\\u200f\\ufeff]" ∷ []

abbrev pub pii_patterns : List String
pii_patterns =
    "\\b[\\w.+-]+@[\\w-]+\\.[\\w.-]+\\b" ∷ "\\bAKIA[0-9A-Z]{16}\\b"
    ∷ "\\b(sk|pk|api[_-]?key)[_-][A-Za-z0-9]{16,}\\b" ∷ []

-- The first pattern of a list that matches.
unfoldable pub first_match : Search → List String → String → Option String
first_match search [] text = none
first_match search (p ∷ ps) text = if search p text then some p else first_match search ps text

-- The two loops of `scan`; the pattern lists are arguments, so that laws hold for any lists.
unfoldable pub scan_lists :
    Search → List String → List String → String → Checkpoint → Option GuardrailFinding
unfolding first_match
scan_lists search injections piis text checkpoint = elim (first_match search injections text) [
  | some p ↦ some (record { category = injection; pattern = p; checkpoint = checkpoint })
  | none ↦ elim (first_match search piis text) [
    | some p ↦ some (record { category = pii; pattern = p; checkpoint = checkpoint })
    | none ↦ none
  ]
]

unfoldable pub scan : Search → String → Checkpoint → Option GuardrailFinding
scan search = scan_lists search injection_patterns pii_patterns

-- What `check` does with a finding: a `block` guardrail raises.
unfoldable report : GuardrailMode → Option GuardrailFinding → Result (Option GuardrailFinding)
report mode none = ok none
report block (some f) = err (guardrail_tripwire f)
report off (some f) = ok (some f)
report warn (some f) = ok (some f)

unfoldable is_off : GuardrailMode → Bool
is_off off = true
is_off warn = false
is_off block = false

-- `Guardrail.check`
unfoldable pub check :
    Search → GuardrailMode → String → Checkpoint → Result (Option GuardrailFinding)
unfolding report is_off
check search mode text checkpoint =
    if is_off mode || blank text then ok none else report mode (scan search text checkpoint)
