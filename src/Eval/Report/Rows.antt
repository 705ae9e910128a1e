-- ===== src/Eval/Report/Rows.antt =====
-- agent_room/eval/report.py: the row of a variant against its runs.
use goal_driven_agent_room.Base.{
  ℕ, suc, ◌+◌, Bool, true, false, not, ◌||◌, ◌≡◌, refl, ap, ◌∙◌, inl, inr, String, Option, none,
  some, List, [], ◌∷◌, get, put, get-put, get_default, is_none, truthy, length, str_eq, eq_iff,
  if◌then◌else◌, Bool-cases, arith,
}
use goal_driven_agent_room.Eval.Task.{RunRecord}
use goal_driven_agent_room.Eval.Report.{
  Tally, Row, no_runs, add_run, tally_all, over, finish, finish_all, aggregate,
}

-- The runs of a variant.
abbrev pub runs_of : String → List RunRecord → List RunRecord
runs_of v [] = []
runs_of v (r ∷ rs) = let later = runs_of v rs in if str_eq r.variant v then r ∷ later else later

abbrev pub sum_over : (RunRecord → ℕ) → List RunRecord → ℕ
sum_over f [] = 0
sum_over f (r ∷ rs) = f r + sum_over f rs

abbrev pub pass_count : RunRecord → ℕ
pass_count r = if r.passed then 1 else 0

abbrev pub error_count : RunRecord → ℕ
error_count r = if truthy r.error then 1 else 0

abbrev pub tokens_of : RunRecord → ℕ
tokens_of r = get_default r.total_tokens 0

abbrev pub wall_of : RunRecord → ℕ
wall_of r = r.elapsed

abbrev pub any_tokens : List RunRecord → Bool
any_tokens [] = false
any_tokens (r ∷ rs) = not (is_none r.total_tokens) || any_tokens rs

-- A tally with the runs that are added to it.
abbrev continue_from : Option Tally → List RunRecord → Option Tally
unfolding add_run
continue_from o [] = o
continue_from o (r ∷ rs) = continue_from (some (add_run (get_default o no_runs) r)) rs

tally_all-get :
    (v : String) (rs : List RunRecord) (t : List (String × Tally))
    → get v (tally_all rs t) ≡ continue_from (get v t) (runs_of v rs)
unfolding tally_all
tally_all-get v [] t = refl
tally_all-get v (r ∷ rs) t =
    let later =
      tally_all-get v rs (put r.variant (add_run (get_default (get r.variant t) no_runs) r) t) in
    let read = get-put v r.variant (add_run (get_default (get r.variant t) no_runs) r) t in
    elim (Bool-cases (str_eq r.variant v)) [
      | inl own ↦ rw own (
          later
          ∙ ap (λ o. continue_from o (runs_of v rs)) (rw own at read)
          ∙ ap
              (λ x. continue_from (some (add_run (get_default (get x t) no_runs) r)) (runs_of v rs))
              ((eq_iff r.variant v).0 own))
      | inr other ↦ rw other (later ∙ ap (λ o. continue_from o (runs_of v rs)) (rw other at read))
    ]

finish_option : Option Tally → Option Row
unfolding finish
finish_option none = none
finish_option (some a) = some (finish a)

finish_all-get :
    (v : String) (t : List (String × Tally)) → get v (finish_all t) ≡ finish_option (get v t)
unfolding finish_option
finish_all-get v [] = refl
finish_all-get v ((n, a) ∷ rest) = elim (Bool-cases (str_eq n v)) [
  | inl hit ↦ rw hit
  | inr miss ↦ rw miss (finish_all-get v rest)
]

-- What a tally is after runs.
abbrev IsAfter : Tally → List RunRecord → Tally → Type 0
IsAfter a rs b =
    (b.total ≡ a.total + length rs)
    × (b.passed ≡ a.passed + sum_over pass_count rs)
    × (b.errors ≡ a.errors + sum_over error_count rs)
    × (b.wall_total ≡ a.wall_total + sum_over wall_of rs)
    × (b.tokens_total ≡ a.tokens_total + sum_over tokens_of rs)
    × (b.tokens_seen ≡ (a.tokens_seen || any_tokens rs))

or_assoc : (a b c : Bool) → ((a || b) || c) ≡ (a || (b || c))
or_assoc true b c = refl
or_assoc false b c = refl

or_false : (a : Bool) → a ≡ (a || false)
or_false true = refl
or_false false = refl

continue_from-IsAfter :
    (a : Tally) (rs : List RunRecord)
    → (b : Tally) × (continue_from (some a) rs ≡ some b) × IsAfter a rs b
unfolding add_run
continue_from-IsAfter a [] = (
  a,
  refl,
  (omega arith, omega arith, omega arith, omega arith, omega arith, or_false a.tokens_seen),
)
continue_from-IsAfter a (r ∷ rs) =
    let (b, h, (total, passed, errors, wall, tokens, seen)) =
      continue_from-IsAfter (add_run a r) rs in
    (
      b,
      h,
      (
        omega (arith, total),
        omega (arith, passed),
        omega (arith, errors),
        omega (arith, wall),
        omega (arith, tokens),
        seen ∙ or_assoc a.tokens_seen (not (is_none r.total_tokens)) (any_tokens rs),
      ),
    )

-- The row that stands for some runs; none stands for no runs.
abbrev pub IsRowOf : List RunRecord → Option Row → Type 0
IsRowOf [] o = o ≡ none
IsRowOf (r ∷ rs) o =
    (row : Row) × (o ≡ some row)
    × (row.tally.errors ≡ sum_over error_count (r ∷ rs))
    × (row.pass_rate ≡ some (sum_over pass_count (r ∷ rs), length (r ∷ rs)))
    × (row.mean_wall ≡ some (sum_over wall_of (r ∷ rs), length (r ∷ rs)))
    × (row.tokens_total
        ≡ (if any_tokens (r ∷ rs) then some (sum_over tokens_of (r ∷ rs)) else none))

finish_option-IsRowOf : (rs : List RunRecord) → IsRowOf rs (finish_option (continue_from none rs))
unfolding finish_option finish continue_from add_run
finish_option-IsRowOf [] = refl
finish_option-IsRowOf (r ∷ rs) =
    let (b, h, (total, passed, errors, wall, tokens, seen)) =
      continue_from-IsAfter (add_run no_runs r) rs in
    let all : b.total ≡ suc (length rs) = omega (arith, total) in
    (
      finish b,
      ap finish_option h,
      omega (arith, errors),
      ap (over b.passed) all ∙ ap (λ n. some (n, suc (length rs))) (omega (arith, passed)),
      ap (over b.wall_total) all ∙ ap (λ n. some (n, suc (length rs))) (omega (arith, wall)),
      ap (λ x. if x then some b.tokens_total else none) seen
          ∙ ap (λ n. if any_tokens (r ∷ rs) then some n else none) (omega (arith, tokens)),
    )

-- The aggregate has a row for exactly the variants of the runs: the errors are counted, the rate is
-- that of the passed runs of the variant among all its runs, the mean is that of their times, and
-- the tokens are their sum, where one of them reports any.
pub aggregate-IsRowOf :
    (v : String) (rs : List RunRecord) → IsRowOf (runs_of v rs) (get v (aggregate rs))
unfolding aggregate
aggregate-IsRowOf v rs =
    rw (finish_all-get v (tally_all rs []), tally_all-get v rs [])
      (finish_option-IsRowOf (runs_of v rs))
