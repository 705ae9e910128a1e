-- ===== src/Budget/Ceilings.antt =====
-- agent_room/budget.py: when the accumulator of a task raises.
use goal_driven_agent_room.Base.{
  ℕ, ◌+◌, ◌≤◌, ◌≡◌, refl, ap, sym, ◌∙◌, true, inl, inr, Option, none, some, arith, ◌⊎◌, List, [],
  ◌∷◌,
}
use goal_driven_agent_room.Errors.{Error, Result, ok, err, >>=-ok, require-ok}
use goal_driven_agent_room.Budget.{
  Money, Usage, Budget, Tracker, record_usage, charge, charge_if_set, accumulate, within_tokens,
  and_then,
}

within_tokens→le :
    (money : Money) (o : Option ℕ) (limit n : ℕ)
    → o ≡ some limit
    → within_tokens money o n ≡ true
    → n ≤ limit
within_tokens→le money none limit n e h = cc e
within_tokens→le money (some l) limit n e h = ground (arith, e)

record_usage-charge :
    (money : Money) (b : Budget money) (u : Usage) (t : Tracker money)
    → t.budget ≡ some b
    → record_usage money (some u) t ≡ charge money b (some u) t
unfolding record_usage charge_if_set
record_usage-charge money b u t hb = ap (λ o. charge_if_set money o (some u) t) hb

record_usage-ok :
    (money : Money) (b : Budget money) (u : Usage) (t : Tracker money)
    → t.budget ≡ some b
    → (record_usage money (some u) t).1 ≡ ok tt
    → ((record_usage money (some u) t).0.tokens ≡ t.tokens + u.total_tokens)
      × ((record_usage money (some u) t).0.budget ≡ some b)
      × (within_tokens money b.max_tokens_of (t.tokens + u.total_tokens) ≡ true)
unfolding charge accumulate
record_usage-ok money b u t hb h =
    let opened : record_usage money (some u) t ≡ charge money b (some u) t =
      record_usage-charge money b u t hb in
    let (v, within, later) = >>=-ok _ _ (ap (λ x. x.1) (sym opened) ∙ h) in
    rw opened (refl, hb, require-ok _ _ within)

pub Result-cases : (r : Result (Unit {0})) → (r ≡ ok tt) ⊎ ((e : Error) × (r ≡ err e))
Result-cases (ok v) = inl refl
Result-cases (err e) = inr (e, refl)

pub and_then-ok :
    {A : Type 0} (step rest : A × Result (Unit {0})) → step.1 ≡ ok tt → and_then step rest ≡ rest
unfolding and_then
and_then-ok (t, ok v) rest h = refl
and_then-ok (t, err e) rest h = cc h

pub and_then-err :
    {A : Type 0} (step rest : A × Result (Unit {0})) (e : Error)
    → step.1 ≡ err e
    → (and_then step rest).1 ≡ err e
unfolding and_then
and_then-err (t, ok v) rest e h = cc h
and_then-err (t, err x) rest e h = h

-- The accumulation over the calls of a task, up to the first that raises.
unfoldable pub record_all :
    (money : Money) → List Usage → Tracker money → Tracker money × Result (Unit {0})
unfolding record_usage and_then
record_all money [] t = (t, ok tt)
record_all money (u ∷ us) t =
    let step = record_usage money (some u) t in
    let rest = record_all money us (step.0) in and_then step rest

record_all-cons :
    (money : Money) (u : Usage) (us : List Usage) (t : Tracker money)
    → (record_usage money (some u) t).1 ≡ ok tt
    → record_all money (u ∷ us) t ≡ record_all money us (record_usage money (some u) t).0
unfolding record_all
record_all-cons money u us t h = and_then-ok _ _ h

record_all-raises :
    (money : Money) (u : Usage) (us : List Usage) (t : Tracker money) (e : Error)
    → (record_usage money (some u) t).1 ≡ err e
    → (record_all money (u ∷ us) t).1 ≡ err e
unfolding record_all
record_all-raises money u us t e h = and_then-err _ _ e h

unfoldable pub total : List Usage → ℕ
total [] = 0
total (u ∷ us) = u.total_tokens + total us

-- With a ceiling on tokens that is not passed at first: when no call of a task raises, the tracker
-- holds the sum of the tokens, and that is within the ceiling.
pub record_all-Within :
    (money : Money) (b : Budget money) (limit : ℕ) (us : List Usage) (t : Tracker money)
    → t.budget ≡ some b
    → b.max_tokens_of ≡ some limit
    → t.tokens ≤ limit
    → (record_all money us t).1 ≡ ok tt
    → ((record_all money us t).0.tokens ≡ t.tokens + total us) × (t.tokens + total us ≤ limit)
unfolding record_all total
record_all-Within money b limit [] t hb hl small h = (omega arith, omega arith)
record_all-Within money b limit (u ∷ us) t hb hl small h =
    elim (Result-cases (record_usage money (some u) t).1) [
      | inl fine ↦
          let (sum, same, within) = record_usage-ok money b u t hb fine in
          let fits = within_tokens→le money b.max_tokens_of limit _ hl within in
          let opened = record_all-cons money u us t fine in
          let (grown, small') =
            record_all-Within money b limit us (record_usage money (some u) t).0 same hl
              (omega (arith, sum, fits)) (ap (λ x. x.1) (sym opened) ∙ h) in
          (omega (arith, ap (λ x. x.0.tokens) opened, grown, sum), omega (arith, small', sum))
      | inr bad ↦ absurd (cc (sym h ∙ record_all-raises money u us t bad.0 bad.1))
    ]
