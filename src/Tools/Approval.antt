-- ===== src/Tools/Approval.antt =====
-- agent_room/tools/_approval.py: how an answer to "approve this tool call?" is read. `lower` and
-- `strip` are Python's string methods.
use goal_driven_agent_room.Base.{
  Bool, true, false, String, Option, none, some, List, [], ◌∷◌, ◌⧺◌, mem_text, blank, get_default,
  if◌then◌else◌, ◌≡◌, ◌≢◌, refl, arith,
}
use goal_driven_agent_room.Schemas.{ToolCall, Message, tool, str}

abbrev pub approve_tokens : List String
approve_tokens = "approve" ∷ "approved" ∷ "yes" ∷ "y" ∷ "ok" ∷ []

abbrev pub deny_tokens : List String
deny_tokens = "deny" ∷ "denied" ∷ "no" ∷ "n" ∷ "reject" ∷ "rejected" ∷ []

-- A resume value: a dict with `action` and `message`, each a string or missing, a string, or
-- anything else.
pub data Decision : Type 0 where
  dict : (action : Option String) → (message : Option String) → Decision
  word : String → Decision
  anything : Decision

pub data Verdict : Type 0 where
  approve : Verdict
  deny : String → Verdict

deny_of : (v : Verdict) → v ≢ approve → (message : String) × (v ≡ deny message)
deny_of approve h = absurd (h refl)
deny_of (deny message) h = (message, refl)

module _ (lower strip repr : String → String) where
  unfoldable pub classify_decision : Decision → Verdict
  unfolding ◌⧺◌
  classify_decision (dict action message) =
      let action' = lower (get_default action "") in
      let text = get_default message "" in
      if mem_text action' approve_tokens
      then approve
      else if mem_text action' deny_tokens
      then deny (if blank text then "Tool call denied by reviewer." else text)
      else deny ("Unknown decision action: " ⧺ repr action' ⧺ ". Treating as denied.")
  classify_decision (word s) =
      let token = lower (strip s) in
      if mem_text token approve_tokens
      then approve
      else if mem_text token deny_tokens
      then deny "Tool call denied by reviewer."
      else deny "Tool call denied (no valid decision provided)."
  classify_decision anything = deny "Tool call denied (no valid decision provided)."

  settle : (ToolCall → Message) → ToolCall → Verdict → Message
  settle execute call approve = execute call
  settle execute call (deny message) = tool (str message) call.name call.id

  -- The wrapper after the interrupt has been answered.
  unfoldable pub approval_wrapper : (ToolCall → Message) → ToolCall → Decision → Message
  unfolding classify_decision settle
  approval_wrapper execute call decision = settle execute call (classify_decision decision)

  -- The token that a decision carries, where it carries one.
  abbrev pub token_of : Decision → Option String
  token_of (dict action message) = some (lower (get_default action ""))
  token_of (word s) = some (lower (strip s))
  token_of anything = none

  abbrev pub approves : Option String → Bool
  approves none = false
  approves (some token) = mem_text token approve_tokens

  classify-approve : (d : Decision) → approves (token_of d) ≡ true → classify_decision d ≡ approve
  unfolding classify_decision
  classify-approve (dict action message) h = rw h
  classify-approve (word s) h = rw h
  classify-approve anything h = cc

  classify-ne_approve :
      (d : Decision) → approves (token_of d) ≡ false → classify_decision d ≢ approve
  unfolding classify_decision
  classify-ne_approve (dict action message) h = ground arith
  classify-ne_approve (word s) h = ground arith
  classify-ne_approve anything h = λ e. cc

  classify-deny :
      (d : Decision)
      → approves (token_of d) ≡ false
      → (message : String) × (classify_decision d ≡ deny message)
  classify-deny d h = deny_of (classify_decision d) (classify-ne_approve d h)

  -- When the decision carries an approving token, the wrapper returns what the tool returns.
  pub approval_wrapper-approve :
      (execute : ToolCall → Message) (call : ToolCall) (decision : Decision)
      → approves (token_of decision) ≡ true
      → approval_wrapper execute call decision ≡ execute call
  unfolding approval_wrapper
  approval_wrapper-approve execute call decision h = rw (classify-approve decision h)

  -- When the decision carries no approving token, the wrapper answers for the tool, with a message
  -- that does not depend on what the tool would do.
  pub approval_wrapper-deny :
      (call : ToolCall) (decision : Decision)
      → approves (token_of decision) ≡ false
      → (message : String) × ((execute : ToolCall → Message)
          → approval_wrapper execute call decision ≡ tool (str message) call.name call.id)
  unfolding approval_wrapper
  approval_wrapper-deny call decision h =
      let (message, e) = classify-deny decision h in (message, λ execute. rw e)
