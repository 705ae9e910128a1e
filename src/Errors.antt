-- ===== src/Errors.antt =====
-- The exceptions that the program raises, as values. The texts of `ValueError` and its like are the
-- program's where they are fixed; an argument that only words a message is left out of it.
use goal_driven_agent_room.Base.{ℕ, Bool, true, false, String, ◌≡◌, refl}
use goal_driven_agent_room.Schemas.{GuardrailFinding, BudgetDimension}

pub data Error : Type 0 where
  value_error : String → Error
  type_error : String → Error
  attribute_error : String → Error
  not_implemented : String → Error
  key_error : String → Error
  runtime_error : String → Error
  integrity_error : String → Error
  os_error : (class_name : String) → Error
  http_exception : (status_code : ℕ) → (detail : String) → Error
  model_error : String → Error
  budget_exceeded : BudgetDimension → Error
  guardrail_tripwire : GuardrailFinding → Error

-- What a call that may raise returns.
pub data Result {ℓ} (A : Type ℓ) : Type ℓ where
  err : (raised : Error) → Result A
  ok : (value : A) → Result A

-- `if not b: raise e`
abbrev pub require : (holds : Bool) → (otherwise : Error) → Result (Unit {0})
require false e = err e
require true e = ok tt

-- Only a requirement that holds raises nothing.
pub require-ok : (b : Bool) (e : Error) {u : Unit {0}} → require b e ≡ ok u → b ≡ true
require-ok true e h = refl
require-ok false e h = cc

infixl 5 ◌>>=◌
abbrev pub ◌>>=◌ {ℓ κ} :
    {A : Type ℓ} {B : Type κ} → (first : Result A) → (later : A → Result B) → Result B
err e >>= k = err e
ok x >>= k = k x

infixl 5 ◌>>◌
abbrev pub ◌>>◌ {κ} : {B : Type κ} → (first : Result (Unit {0})) → (later : Result B) → Result B
first >> after = first >>= λ done. after

-- A chain that raises nothing: its first step returns a value, and the rest goes on from it.
pub >>=-ok {ℓ κ} :
    {A : Type ℓ} {B : Type κ} (first : Result A) (k : A → Result B) {y : B}
    → (first >>= k) ≡ ok y
    → (x : A) × (first ≡ ok x) × (k x ≡ ok y)
>>=-ok (err e) k h = cc
>>=-ok (ok x) k h = (x, refl, h)

-- What two equal results return is equal.
pub ok-injective : {A : Type 0} {a b : A} → ok a ≡ ok b → a ≡ b
ok-injective h = cc h
