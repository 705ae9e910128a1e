-- ===== src/Server/Api/Requests.antt =====
-- agent_room/server/api.py: which new tasks reach a graph.
use goal_driven_agent_room.Base.{
  ℕ, false, ◌≡◌, ◌⊎◌, refl, sym, ◌∙◌, inl, inr, String, Option, none, some, mem_text, ◌⧺◌,
}
use goal_driven_agent_room.Schemas.{TaskRequest, input}
use goal_driven_agent_room.Errors.{Error, http_exception, ok, err}
use goal_driven_agent_room.Guardrail.{check}
use goal_driven_agent_room.Guardrail.Laws.{check-cases}
use goal_driven_agent_room.Server.Api.{
  App, Surroundings, user_selectable_graphs, selectable, graph_detail, tripwire_detail,
  reject_tripwire, validate_graph, check_input_guardrail, screen, create_task, stream_task,
  with_tables, started,
}

-- An exception that a client is told of with status 400.
abbrev pub IsBadRequest : Error → Type 0
IsBadRequest e = (detail : String) × (e ≡ http_exception 400 detail)

-- A graph that a request may not ask for.
abbrev pub IsBarred : Option String → Type 0
IsBarred none = ⊥
IsBarred (some graph) = mem_text graph user_selectable_graphs ≡ false

selectable-barred :
    (graph : Option String)
    → IsBarred graph
    → (e : Error) × (selectable graph ≡ err e) × IsBadRequest e
unfolding selectable
selectable-barred none h = absurd h
selectable-barred (some graph) h = (http_exception 400 graph_detail, rw h, (graph_detail, refl))

module _ (env : Surroundings) (req : TaskRequest) where
  -- The guardrail blocks the text of a request.
  abbrev pub IsBlocked : Type 0
  IsBlocked =
      (e : Error) × (check env.search env.mode (req.title ⧺ "\n" ⧺ req.description) input ≡ err e)

  blocked-BadRequest :
      IsBlocked → (e : Error) × (check_input_guardrail env req ≡ err e) × IsBadRequest e
  unfolding check_input_guardrail reject_tripwire
  blocked-BadRequest (e, h) =
      elim (check-cases env.search env.mode (req.title ⧺ "\n" ⧺ req.description) input) [
        | inl (x, passed) ↦ absurd (cc (sym passed ∙ h))
        | inr (f, tripped) ↦
            (http_exception 400 (tripwire_detail f), rw tripped, (tripwire_detail f, refl))
      ]

  guardrail-cases :
      (check_input_guardrail env req ≡ ok tt)
      ⊎ ((e : Error) × (check_input_guardrail env req ≡ err e) × IsBadRequest e)
  unfolding check_input_guardrail reject_tripwire
  guardrail-cases =
      elim (check-cases env.search env.mode (req.title ⧺ "\n" ⧺ req.description) input) [
        | inl (x, passed) ↦ inl (rw passed)
        | inr (f, tripped) ↦
            inr (http_exception 400 (tripwire_detail f), rw tripped, (tripwire_detail f, refl))
      ]

  screen-BadRequest :
      IsBlocked ⊎ IsBarred req.graph → (e : Error) × (screen env req ≡ err e) × IsBadRequest e
  unfolding screen validate_graph
  screen-BadRequest (inl blocked) = let (e, h, bad) = blocked-BadRequest blocked in (e, rw h, bad)
  screen-BadRequest (inr barred) = elim guardrail-cases [
    | inr (e, h, bad) ↦ (e, rw h, bad)
    | inl passed ↦ let (e, h, bad) = selectable-barred req.graph barred in (e, rw (passed, h), bad)
  ]

  -- A new task that the guardrail blocks, or that asks for a graph other than the two selectable
  -- ones, is answered with status 400, and nothing is recorded or started.
  pub screened-unchanged :
      (now : ℕ) (task_id : String) (app : App)
      → IsBlocked ⊎ IsBarred req.graph
      → (e : Error) × IsBadRequest e
        × (create_task env now task_id req app ≡ (err e, app))
        × (stream_task env now task_id req app ≡ (err e, app))
  unfolding create_task stream_task with_tables started
  screened-unchanged now task_id app h =
      let (e, rejected, bad) = screen-BadRequest h in (e, bad, rw rejected, rw rejected)
