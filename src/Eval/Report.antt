-- ===== src/Eval/Report.antt =====
-- agent_room/eval/report.py: the summary of the runs of each variant. A rate and a mean are held as
-- the two numbers that are divided; how they are printed is a parameter.
pub mod Rows
use goal_driven_agent_room.Base.{
  ℕ, zero, suc, ◌+◌, Bool, true, false, ◌||◌, not, String, Option, none, some, List, [], ◌∷◌, ◌++◌,
  ◌⧺◌, map, get, put, get_default, is_none, truthy, show, join, if◌then◌else◌,
}
use goal_driven_agent_room.Routers.{Status}
use goal_driven_agent_room.Eval.Task.{RunRecord}

pub record Tally : Type 0 where
  pub total : ℕ
  pub passed : ℕ
  pub errors : ℕ
  pub wall_total : ℕ
  pub tokens_total : ℕ
  pub tokens_seen : Bool

pub record Row : Type 0 where
  pub tally : Tally
  pub pass_rate : Option (ℕ × ℕ)
  pub mean_wall : Option (ℕ × ℕ)
  pub tokens_total : Option ℕ

abbrev pub no_runs : Tally
no_runs = record {
  total = 0;
  passed = 0;
  errors = 0;
  wall_total = 0;
  tokens_total = 0;
  tokens_seen = false;
}

-- The body of the first loop.
unfoldable pub add_run : Tally → RunRecord → Tally
add_run agg r = record {
  total = agg.total + 1;
  passed = agg.passed + (if r.passed then 1 else 0);
  errors = agg.errors + (if truthy r.error then 1 else 0);
  wall_total = agg.wall_total + r.elapsed;
  tokens_total = agg.tokens_total + get_default r.total_tokens 0;
  tokens_seen = agg.tokens_seen || not (is_none r.total_tokens);
}

-- `by_variant`, which `setdefault` extends, after the records.
unfoldable pub tally_all : List RunRecord → List (String × Tally) → List (String × Tally)
unfolding add_run
tally_all [] by_variant = by_variant
tally_all (r ∷ rs) by_variant =
    tally_all rs
      (put r.variant (add_run (get_default (get r.variant by_variant) no_runs) r) by_variant)

abbrev pub over : ℕ → ℕ → Option (ℕ × ℕ)
over n zero = none
over n (suc total) = some (n, suc total)

-- The body of the second loop.
unfoldable pub finish : Tally → Row
finish agg = record {
  tally = agg;
  pass_rate = over agg.passed agg.total;
  mean_wall = over agg.wall_total agg.total;
  tokens_total = if agg.tokens_seen then some agg.tokens_total else none;
}

abbrev pub finish_all : List (String × Tally) → List (String × Row)
unfolding finish
finish_all [] = []
finish_all ((name, agg) ∷ rest) = (name, finish agg) ∷ finish_all rest

-- `aggregate`
unfoldable pub aggregate : List RunRecord → List (String × Row)
unfolding tally_all
aggregate records = finish_all (tally_all records [])

-- The printing of a percentage, a mean, a time and a status.
pub record Formats : Type 0 where
  pub percent : ℕ × ℕ → String
  pub mean : ℕ × ℕ → String
  pub seconds : ℕ → String
  pub status : Status → String

module _ (formats : Formats) where
  -- `_fmt_rate`
  unfoldable pub fmt_rate : ℕ → ℕ → Option (ℕ × ℕ) → String
  unfolding ◌⧺◌ show
  fmt_rate passed total none = "n/a"
  fmt_rate passed total (some rate) =
      show passed ⧺ "/" ⧺ show total ⧺ " (" ⧺ formats.percent rate ⧺ ")"

  show_row : String × Row → String
  unfolding ◌⧺◌ show fmt_rate
  show_row (name, row) =
      "| "
      ⧺ name
      ⧺ " | "
      ⧺ fmt_rate row.tally.passed row.tally.total row.pass_rate
      ⧺ " | "
      ⧺ elim row.mean_wall [ none ↦ "n/a" | some m ↦ formats.mean m ]
      ⧺ " | "
      ⧺ elim row.tokens_total [ none ↦ "n/a" | some n ↦ show n ]
      ⧺ " | "
      ⧺ show row.tally.errors
      ⧺ " |"

  show_record : RunRecord → String
  unfolding ◌⧺◌ show
  show_record r =
      "| "
      ⧺ r.variant
      ⧺ " | "
      ⧺ r.task
      ⧺ " | "
      ⧺ (if r.passed then "✅" else "❌")
      ⧺ " | "
      ⧺ formats.status r.final_status
      ⧺ " | "
      ⧺ show r.rounds
      ⧺ " | "
      ⧺ formats.seconds r.elapsed
      ⧺ " | "
      ⧺ (if truthy r.error then get_default r.error "" else "-")
      ⧺ " |"

  -- `to_markdown`
  unfoldable pub to_markdown : List RunRecord → String
  unfolding aggregate show_row show_record join
  to_markdown records = join "\n" (
      ("# eval summary" ∷ "" ∷ "| variant | pass | mean wall (s) | tokens | errors |"
        ∷ "|---|---|---|---|---|" ∷ [])
      ++ map show_row (aggregate records)
      ++ ("" ∷ "## per-run detail" ∷ ""
          ∷ "| variant | task | pass | status | rounds | wall (s) | err |"
          ∷ "|---|---|---|---|---|---|---|" ∷ [])
      ++ map show_record records)
