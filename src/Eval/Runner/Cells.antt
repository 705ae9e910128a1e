-- ===== src/Eval/Runner/Cells.antt =====
-- agent_room/eval/runner.py: that every run is recorded.
use mathlib.Core.Path.{subst}
use goal_driven_agent_room.Base.{
  ℕ, Bool, true, false, ◌≡◌, refl, sym, ap, ◌∙◌, String, Option, none, some, List, [], ◌∷◌, ◌++◌,
  map,
}
use goal_driven_agent_room.Schemas.{ReviewVerdict}
use goal_driven_agent_room.Errors.{Result, ok}
use goal_driven_agent_room.State.{TaskState}
use goal_driven_agent_room.Service.Snapshot.{TaskResult}
use goal_driven_agent_room.Eval.Task.{Outcome, Verdict, RunRecord}
use goal_driven_agent_room.Eval.Runner.{
  Attempt, returned, timeout_error, raised, Variant, Cell, Seen, and_then, failed_with,
  after_resume, decision_of, follow, after_run, record_of, judge, body, run_pair, run_row,
  run_matrix,
}

abbrev pub IsAny : {A : Type 0} → A → Type 0
IsAny a = Unit {0}

-- The variant and the task of each run.
abbrev pub labels : List RunRecord → List (String × String)
labels rs = map (λ (r : RunRecord). (r.variant, r.task)) rs

module _ {World : Type 0} where
  -- A call that returns a value of a kind.
  abbrev pub Returns : {A : Type 0} → (A → Type 0) → Result A × World → Type 0
  Returns {A} IsKind r = (a : A) × (w : World) × (r ≡ (ok a, w)) × IsKind a

  and_then-Returns :
      {A B : Type 0} (IsFirst : A → Type 0) (IsKind : B → Type 0)
      (later : A → World → Result B × World) (first : Result A × World)
      → Returns IsFirst first
      → ((a : A) (w : World) → IsFirst a → Returns IsKind (later a w))
      → Returns IsKind (and_then later first)
  and_then-Returns IsFirst IsKind later first (a, w, h, kind) next =
      subst (λ x. Returns IsKind (and_then later x)) (sym h) (next a w kind)

  -- What a cell is used for besides its calls of the graph never raises.
  pub record IsQuiet (cell : Cell World) : Type 0 where
    pub setup_returns : (w : World) → Returns (IsAny {A = Unit {0}}) (cell.setup w)
    pub build_returns : (w : World) → Returns (IsAny {A = Unit {0}}) (cell.build w)
    pub snapshot_returns :
        (id : String) (w : World) → Returns (IsAny {A = TaskResult}) (cell.snapshot id w)
    pub values_return :
        (id : String) (w : World) → Returns (IsAny {A = TaskState}) (cell.state_values id w)
    pub verify_returns :
        (outcome : Outcome) (w : World) → Returns (IsAny {A = Verdict}) (cell.verify outcome w)

  -- The record of this variant and this task.
  abbrev pub IsRecordOf : Variant → Cell World → RunRecord → Type 0
  IsRecordOf variant cell r = (r.variant ≡ variant.name) × (r.task ≡ cell.task)

  module _ (variant : Variant) (cell : Cell World) (quiet : IsQuiet cell) (task_id : String) where
    failed_with-Returns :
        (decisions : List (Option ReviewVerdict)) (error : String) (w : World)
        → Returns (IsAny {A = Seen}) (failed_with cell task_id decisions error w)
    unfolding failed_with
    failed_with-Returns decisions error w =
        and_then-Returns (IsAny {A = TaskResult}) (IsAny {A = Seen}) _ (cell.snapshot task_id w)
          (quiet.snapshot_returns task_id w) (λ snap v any. (_, _, refl, tt))

    after_resume-Returns :
        (decisions : List (Option ReviewVerdict)) (attempt : Attempt × World)
        → Returns (IsAny {A = Seen}) (after_resume cell task_id decisions attempt)
    unfolding after_resume
    after_resume-Returns decisions (returned snap, w) = (_, _, refl, tt)
    after_resume-Returns decisions (timeout_error, w) = failed_with-Returns decisions _ w
    after_resume-Returns decisions (raised exception, w) = failed_with-Returns decisions _ w

    follow-Returns :
        (snap : TaskResult) (escalated : Bool) (follow_up : Option String) (w : World)
        → Returns (IsAny {A = Seen}) (follow variant cell task_id snap escalated follow_up w)
    unfolding follow
    follow-Returns snap true (some decision) w =
        after_resume-Returns (decision_of snap ∷ [])
          (cell.resume task_id decision variant.halt_node w)
    follow-Returns snap true none w = (_, _, refl, tt)
    follow-Returns snap false follow_up w = (_, _, refl, tt)

    after_run-Returns :
        (attempt : Attempt × World)
        → Returns (IsAny {A = Seen}) (after_run variant cell task_id attempt)
    unfolding after_run
    after_run-Returns (returned snap, w) = follow-Returns snap _ cell.follow_up w
    after_run-Returns (timeout_error, w) = failed_with-Returns [] _ w
    after_run-Returns (raised exception, w) = failed_with-Returns [] _ w

    judge-Returns :
        (start : ℕ) (seen : Seen) (w : World)
        → Returns (IsRecordOf variant cell) (judge variant cell task_id start seen w)
    unfolding judge record_of
    judge-Returns start seen w =
        and_then-Returns (IsAny {A = TaskState}) (IsRecordOf variant cell) _
          (cell.state_values task_id w) (quiet.values_return task_id w)
          (λ values v any.
            and_then-Returns (IsAny {A = Verdict}) (IsRecordOf variant cell) _ (cell.verify _ v)
              (quiet.verify_returns _ v) (λ verdict u any. (_, _, refl, (refl, refl))))

    body-Returns :
        (start : ℕ) (w : World)
        → Returns (IsRecordOf variant cell) (body variant cell task_id start w)
    unfolding body
    body-Returns start w =
        and_then-Returns (IsAny {A = Seen}) (IsRecordOf variant cell)
          (judge variant cell task_id start) _
          (and_then-Returns (IsAny {A = Unit {0}}) (IsAny {A = Seen}) _ (cell.build w)
            (quiet.build_returns w)
            (λ built v any. after_run-Returns (cell.run cell.request task_id v)))
          (λ seen v any. judge-Returns start seen v)

    run_pair-Returns :
        (w : World) → Returns (IsRecordOf variant cell) (run_pair variant cell task_id w)
    unfolding run_pair
    run_pair-Returns w =
        and_then-Returns (IsAny {A = Unit {0}}) (IsRecordOf variant cell) _ (cell.setup w)
          (quiet.setup_returns w)
          (λ ready v any.
            let (r, u, h, kind) = body-Returns (cell.clock w) v in
            (
              r,
              cell.teardown u,
              ap (λ (x : Result RunRecord × World). (x.0, cell.teardown (x.1))) h,
              kind,
            ))

  abbrev pub AreQuiet : List (Cell World) → Type 0
  AreQuiet [] = Unit {0}
  AreQuiet (cell ∷ cells) = IsQuiet cell × AreQuiet cells

  abbrev pub AreAllQuiet : List (Variant × List (Cell World)) → Type 0
  AreAllQuiet [] = Unit {0}
  AreAllQuiet ((variant, cells) ∷ rest) = AreQuiet cells × AreAllQuiet rest

  -- The records of these cells, in their order.
  abbrev pub AreRecords : Variant → List (Cell World) → List RunRecord → Type 0
  AreRecords variant [] [] = Unit {0}
  AreRecords variant [] (r ∷ rs) = ⊥
  AreRecords variant (cell ∷ cells) [] = ⊥
  AreRecords variant (cell ∷ cells) (r ∷ rs) =
      IsRecordOf variant cell r × AreRecords variant cells rs

  run_row-Returns :
      (fresh : World → String) (variant : Variant) (cells : List (Cell World)) (w : World)
      → AreQuiet cells
      → Returns (AreRecords variant cells) (run_row fresh variant cells w)
  unfolding run_row
  run_row-Returns fresh variant [] w quiet = ([], w, refl, tt)
  run_row-Returns fresh variant (cell ∷ cells) w quiet =
      and_then-Returns (IsRecordOf variant cell) (AreRecords variant (cell ∷ cells)) _
        (run_pair variant cell (fresh w) w) (run_pair-Returns variant cell (quiet.0) (fresh w) w)
        (λ r v first.
          and_then-Returns (AreRecords variant cells) (AreRecords variant (cell ∷ cells)) _
            (run_row fresh variant cells v) (run_row-Returns fresh variant cells v (quiet.1))
            (λ rs u others. (r ∷ rs, u, refl, (first, others))))

  abbrev pub row_labels : Variant → List (Cell World) → List (String × String)
  row_labels variant cells = map (λ (c : Cell World). (variant.name, c.task)) cells

  abbrev pub matrix_labels : List (Variant × List (Cell World)) → List (String × String)
  matrix_labels [] = []
  matrix_labels ((variant, cells) ∷ rest) = row_labels variant cells ++ matrix_labels rest

  labels-append :
      (variant : Variant) (cells : List (Cell World)) (rs later : List RunRecord)
      (rest : List (String × String))
      → AreRecords variant cells rs
      → labels later ≡ rest
      → labels (rs ++ later) ≡ (row_labels variant cells ++ rest)
  labels-append variant [] [] later rest h same = same
  labels-append variant [] (r ∷ rs) later rest h same = absurd h
  labels-append variant (cell ∷ cells) [] later rest h same = absurd h
  labels-append variant (cell ∷ cells) (r ∷ rs) later rest ((named, tasked), others) same =
      ap (λ x. (x, r.task) ∷ labels (rs ++ later)) named
      ∙ ap (λ x. (variant.name, x) ∷ labels (rs ++ later)) tasked
      ∙ ap (λ l. (variant.name, cell.task) ∷ l)
          (labels-append variant cells rs later rest others same)

  -- When the fixtures, the building of the graphs, the snapshots and the oracles raise nothing, the
  -- matrix returns one record for each variant and task, in their order, whatever the runs and
  -- resumptions of the graphs raise and whichever run out of time.
  pub run_matrix-Returns :
      (fresh : World → String) (matrix : List (Variant × List (Cell World))) (w : World)
      → AreAllQuiet matrix
      → Returns (λ rs. labels rs ≡ matrix_labels matrix) (run_matrix fresh matrix w)
  unfolding run_matrix
  run_matrix-Returns fresh [] w quiet = ([], w, refl, refl)
  run_matrix-Returns fresh ((variant, cells) ∷ rest) w quiet =
      and_then-Returns (AreRecords variant cells)
        (λ rs. labels rs ≡ matrix_labels ((variant, cells) ∷ rest)) _
        (run_row fresh variant cells w) (run_row-Returns fresh variant cells w (quiet.0))
        (λ rs v first.
          and_then-Returns (λ later. labels later ≡ matrix_labels rest)
            (λ all. labels all ≡ matrix_labels ((variant, cells) ∷ rest)) _
            (run_matrix fresh rest v) (run_matrix-Returns fresh rest v (quiet.1))
            (λ later u others. (
              rs ++ later,
              u,
              refl,
              labels-append variant cells rs later (matrix_labels rest) first others,
            )))
