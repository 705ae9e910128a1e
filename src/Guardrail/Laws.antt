-- ===== src/Guardrail/Laws.antt =====
-- agent_room/guardrail.py: what a blocking guardrail lets through.
use goal_driven_agent_room.Base.{
  false, ◌⊎◌, ◌||◌, inl, inr, String, Option, none, some, List, [], ◌∷◌, ◌≡◌, ◌↔◌, refl, ap, sym,
  ◌∙◌, blank, arith, Bool-cases, Option-cases,
}
use goal_driven_agent_room.Schemas.{Checkpoint, GuardrailFinding}
use goal_driven_agent_room.Errors.{ok, err, guardrail_tripwire}
use goal_driven_agent_room.Guardrail.{
  GuardrailMode, is_off, off, warn, Search, block, first_match, scan_lists, scan, check, report,
  injection_patterns, pii_patterns,
}

-- No pattern of the list is found in the text.
unfoldable pub IsClean : Search → List String → String → Type 0
IsClean search [] text = Unit {0}
IsClean search (p ∷ ps) text = (search p text ≡ false) × IsClean search ps text

first_match-none :
    (search : Search) (ps : List String) (text : String)
    → first_match search ps text ≡ none
    → IsClean search ps text
unfolding first_match IsClean
first_match-none search [] text h = tt
first_match-none search (p ∷ ps) text h = elim (Bool-cases (search p text)) [
  | inl hit ↦ ground (arith, hit, h)
  | inr miss ↦ (miss, first_match-none search ps text (ground (arith, miss, h)))
]

first_match-clean :
    (search : Search) (ps : List String) (text : String)
    → IsClean search ps text
    → first_match search ps text ≡ none
unfolding first_match IsClean
first_match-clean search [] text h = refl
first_match-clean search (p ∷ ps) text h = rw (h.0) (first_match-clean search ps text h.1)

scan_lists-none :
    (search : Search) (injections piis : List String) (text : String) (at : Checkpoint)
    → scan_lists search injections piis text at ≡ none
    → (first_match search injections text ≡ none) × (first_match search piis text ≡ none)
unfolding scan_lists
scan_lists-none search injections piis text at h =
    elim (Option-cases (first_match search injections text)) [
      | inr hit ↦ absurd (ground (arith, hit.1, h))
      | inl clear ↦ elim (Option-cases (first_match search piis text)) [
        | inr hit ↦ absurd (ground (arith, clear, hit.1, h))
        | inl also ↦ (clear, also)
      ]
    ]

scan_lists-clean :
    (search : Search) (injections piis : List String) (text : String) (at : Checkpoint)
    → IsClean search injections text
    → IsClean search piis text
    → scan_lists search injections piis text at ≡ none
unfolding scan_lists
scan_lists-clean search injections piis text at a b =
    rw
      (scan_lists, first_match-clean search injections text a, first_match-clean search piis text b)

check-opened :
    (search : Search) (text : String) (at : Checkpoint)
    → blank text ≡ false
    → check search block text at ≡ report block (scan search text at)
unfolding check
check-opened search text at h = ground (arith, h)

report-clean : (f : Option GuardrailFinding) → report block f ≡ ok none → f ≡ none
unfolding report
report-clean none h = refl
report-clean (some f) h = cc h

-- A blocking guardrail lets a text that is not blank through just when no pattern of the injection
-- list and none of the pii list is found in it.
pub check-block_iff :
    (search : Search) (text : String) (at : Checkpoint)
    → blank text ≡ false
    → (check search block text at ≡ ok none)
      ↔ (IsClean search injection_patterns text × IsClean search pii_patterns text)
unfolding scan report
check-block_iff search text at h = (
  λ e.
      let clear = report-clean (scan search text at) (sym (check-opened search text at h) ∙ e) in
      let (a, b) = scan_lists-none search injection_patterns pii_patterns text at clear in
      (
        first_match-none search injection_patterns text a,
        first_match-none search pii_patterns text b,
      ),
  λ clean.
      check-opened search text at h
      ∙ ap (report block)
          (scan_lists-clean search injection_patterns pii_patterns text at clean.0 clean.1),
)

report-cases :
    (mode : GuardrailMode) (o : Option GuardrailFinding)
    → ((x : Option GuardrailFinding) × (report mode o ≡ ok x))
      ⊎ ((f : GuardrailFinding) × (report mode o ≡ err (guardrail_tripwire f)))
unfolding report
report-cases mode none = inl (none, refl)
report-cases block (some f) = inr (f, refl)
report-cases off (some f) = inl (some f, refl)
report-cases warn (some f) = inl (some f, refl)

-- A check returns, or raises a tripwire.
pub check-cases :
    (search : Search) (mode : GuardrailMode) (text : String) (at : Checkpoint)
    → ((x : Option GuardrailFinding) × (check search mode text at ≡ ok x))
      ⊎ ((f : GuardrailFinding) × (check search mode text at ≡ err (guardrail_tripwire f)))
unfolding check
check-cases search mode text at = elim (Bool-cases (is_off mode || blank text)) [
  | inl skipped ↦ inl (none, rw skipped)
  | inr scanned ↦ elim (report-cases mode (scan search text at)) [
    | inl (x, h) ↦ inl (x, rw scanned h)
    | inr (f, h) ↦ inr (f, rw scanned h)
  ]
]
