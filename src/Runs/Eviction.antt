-- ===== src/Runs/Eviction.antt =====
-- agent_room/server/runs.py: what `_evict_done`, `start` and `cancel` do to the other runs.
use goal_driven_agent_room.Base.{
  ℕ, ◌≡◌, refl, sym, ap, ◌∙◌, true, false, inl, inr, String, some, List, [], ◌∷◌, length, ltb,
  Bool-cases, str_eq, eq_iff,
}
use goal_driven_agent_room.Runs.{
  Run, RunManager, lookup, pop_run, put_run, is_done, done_ids, evict, evict_done, start, cancel,
  new_run,
}

lookup-pop_run :
    (t v : String) (runs : List (String × Run))
    → str_eq v t ≡ false
    → lookup t (pop_run v runs) ≡ lookup t runs
unfolding lookup pop_run
lookup-pop_run t v [] h = refl
lookup-pop_run t v ((k, r) ∷ rest) h =
    let rec = lookup-pop_run t v rest h in
    elim (Bool-cases (str_eq k v)) [
      | inl same ↦
          let differs : str_eq k t ≡ false = ap (λ x. str_eq x t) ((eq_iff k v).0 same) ∙ h in
          rw (same, differs) rec
      | inr other ↦ elim (Bool-cases (str_eq k t)) [
        | inl hit ↦ rw (other, hit)
        | inr miss ↦ rw (other, miss) rec
      ]
    ]

Avoids : String → List String → Type 0
Avoids t [] = Unit {0}
Avoids t (v ∷ vs) = (str_eq v t ≡ false) × Avoids t vs

differs :
    (runs : List (String × Run)) (t v : String) (r : Run)
    → lookup t runs ≡ some r
    → r.done ≡ false
    → is_done runs v ≡ true
    → str_eq v t ≡ false
unfolding is_done
differs runs t v r h live d = elim (Bool-cases (str_eq v t)) [
  | inl same ↦
      let unfinished : is_done runs t ≡ false = rw (is_done, h) live in
      absurd (cc (sym d ∙ ap (is_done runs) ((eq_iff v t).0 same) ∙ unfinished))
  | inr other ↦ other
]

done_ids-Avoids :
    (runs : List (String × Run)) (t : String) (r : Run) (ids : List String)
    → lookup t runs ≡ some r
    → r.done ≡ false
    → Avoids t (done_ids runs ids)
unfolding Avoids done_ids
done_ids-Avoids runs t r [] h live = tt
done_ids-Avoids runs t r (v ∷ vs) h live = elim (Bool-cases (is_done runs v)) [
  | inl gone ↦ rw gone (differs runs t v r h live gone, done_ids-Avoids runs t r vs h live)
  | inr kept ↦ rw kept (done_ids-Avoids runs t r vs h live)
]

evict-lookup :
    (keep_done : ℕ) (t : String) (ids : List String) (m : RunManager)
    → Avoids t ids
    → lookup t (evict keep_done ids m).runs ≡ lookup t m.runs
unfolding Avoids evict
evict-lookup keep_done t [] m h = refl
evict-lookup keep_done t (v ∷ vs) m h = elim (Bool-cases (ltb keep_done (length (v ∷ vs)))) [
  | inl over ↦ rw over (evict-lookup keep_done t vs _ h.1 ∙ lookup-pop_run t v m.runs h.0)
  | inr fits ↦ rw fits
]

lookup-put_run :
    (t v : String) (run : Run) (runs : List (String × Run))
    → str_eq v t ≡ false
    → lookup t (put_run v run runs) ≡ lookup t runs
unfolding lookup put_run
lookup-put_run t v run [] h = rw h
lookup-put_run t v run ((k, r) ∷ rest) h =
    let rec = lookup-put_run t v run rest h in
    elim (Bool-cases (str_eq k v)) [
      | inl same ↦
          let other : str_eq k t ≡ false = ap (λ x. str_eq x t) ((eq_iff k v).0 same) ∙ h in
          rw (same, other)
      | inr apart ↦ elim (Bool-cases (str_eq k t)) [
        | inl hit ↦ rw (apart, hit)
        | inr miss ↦ rw (apart, miss) rec
      ]
    ]

lookup-put_run_self :
    (t : String) (run : Run) (runs : List (String × Run)) → lookup t (put_run t run runs) ≡ some run
unfolding lookup put_run
lookup-put_run_self t run [] = rw ((eq_iff t t).1 refl)
lookup-put_run_self t run ((k, r) ∷ rest) = elim (Bool-cases (str_eq k t)) [
  | inl same ↦ rw (same, same)
  | inr apart ↦ rw (apart, apart) (lookup-put_run_self t run rest)
]

cancel_live :
    (t : String) (m : RunManager) (r : Run)
    → lookup t m.runs ≡ some r
    → r.done ≡ false
    → cancel t m ≡ true
unfolding cancel
cancel_live t m r h live = rw (cancel, h, live)

-- Starting a task gives it a fresh run, and leaves the run of any other task that is not finished
-- as it was, however many finished runs are evicted; that run can still be cancelled.
pub start-keeps_live :
    (keep_done : ℕ) (task_id t : String) (m : RunManager) (r : Run)
    → lookup t m.runs ≡ some r
    → r.done ≡ false
    → str_eq task_id t ≡ false
    → (lookup task_id (start keep_done task_id m).runs ≡ some (new_run task_id))
      × (lookup t (start keep_done task_id m).runs ≡ some r)
      × (cancel t (start keep_done task_id m) ≡ true)
unfolding start evict_done
start-keeps_live keep_done task_id t m r h live other =
    let kept : lookup t (start keep_done task_id m).runs ≡ some r =
      lookup-put_run t task_id (new_run task_id) (evict_done keep_done m).runs other
      ∙ evict-lookup keep_done t (done_ids m.runs m.order) m
          (done_ids-Avoids m.runs t r m.order h live)
      ∙ h in
    (
      lookup-put_run_self task_id (new_run task_id) (evict_done keep_done m).runs,
      kept,
      cancel_live t (start keep_done task_id m) r kept live,
    )
