-- ===== src/Server/Sessions/Ownership.antt =====
-- agent_room/server/sessions.py: what a session's row is after later calls.
use goal_driven_agent_room.Base.{
  ℕ, true, false, ◌≡◌, refl, sym, ap, ◌∙◌, inl, inr, String, Option, none, some, List, [], ◌∷◌,
  ◌++◌, str_eq, eq_iff, first_of, if◌then◌else◌, Bool-cases, is_none,
}
use goal_driven_agent_room.Errors.{ok}
use goal_driven_agent_room.Server.Sessions.{
  SessionRecord, Tables, find_session, create, get_session, connected,
}
use goal_driven_agent_room.Server.Sessions.Invariant.{delete-find}
use goal_driven_agent_room.Server.Sessions.Steps.{
  Step, Steps, created, deleted, attached, start, later, create-ok, delete-ok, attach_task-ok,
}

find_session-join :
    (id : String) (rs : List SessionRecord) (r : SessionRecord)
    → find_session id (rs ++ (r ∷ []))
      ≡ first_of (find_session id rs) (if str_eq r.id id then some r else none)
unfolding find_session
find_session-join id [] r = refl
find_session-join id (s ∷ ss) r = elim (Bool-cases (str_eq s.id id)) [
  | inl hit ↦ rw hit
  | inr miss ↦ rw miss (find_session-join id ss r)
]

none_of : {A : Type 0} (o : Option A) → is_none o ≡ true → o ≡ none
none_of none h = refl
none_of (some a) h = absurd (cc h)

-- A session that is created is found under its id, and has the tenant that was given.
pub create-get_session :
    (strip : String → String) (fresh : String) (now : ℕ) (name : String)
    (session_id : Option String) (tenant : String) (t t' : Tables) (r : SessionRecord)
    → create strip fresh now name session_id tenant (some t) ≡ ok (r, t')
    → (get_session r.id (some t') ≡ ok (some r)) × (r.tenant_id ≡ tenant)
unfolding get_session connected
create-get_session strip fresh now name session_id tenant t t' r h =
    let (free, same, owner) = create-ok strip fresh now name session_id tenant t t' r h in
    let joined = find_session-join r.id t.sessions r in
    let found : find_session r.id (t.sessions ++ (r ∷ [])) ≡ some r =
      joined ∙ rw (none_of (find_session r.id t.sessions) free, (eq_iff r.id r.id).1 refl) in
    (ap (λ (x : Tables). ok (find_session r.id x.sessions)) (sym same) ∙ ap ok found, owner)

-- A call that does not delete a session.
abbrev pub Spares : (strip : String → String) → String → {t t' : Tables} → Step strip t t' → Type 0
Spares strip id (created fresh now name session_id tenant r h) = Unit {0}
Spares strip id (deleted other removed h) = str_eq id other ≡ false
Spares strip id (attached now session task found h) = Unit {0}

abbrev pub SparesAll :
    (strip : String → String) → String → {t t' : Tables} → Steps strip t t' → Type 0
SparesAll strip id start = Unit {0}
SparesAll strip id (later before step) = SparesAll strip id before × Spares strip id step

Step-keeps :
    (strip : String → String) (id : String) (r : SessionRecord) (t t' : Tables)
    (step : Step strip t t')
    → Spares strip id step
    → find_session id t.sessions ≡ some r
    → find_session id t'.sessions ≡ some r
Step-keeps strip id r t t' (created fresh now name session_id tenant s h) spares found =
    let (free, same, owner) = create-ok strip fresh now name session_id tenant t t' s h in
    ap (λ (x : Tables). find_session id x.sessions) (sym same)
    ∙ find_session-join id t.sessions s
    ∙ rw found
Step-keeps strip id r t t' (deleted other removed h) spares found =
    ap (λ (x : Tables). find_session id x.sessions) (sym (delete-ok other removed t t' h))
    ∙ delete-find other id t.sessions spares
    ∙ found
Step-keeps strip id r t t' (attached now session task b h) spares found =
    elim (attach_task-ok now session task b t t' h) [
      | inl same ↦ ap (λ (x : Tables). find_session id x.sessions) (sym same) ∙ found
      | inr (there, fresh, same) ↦
          ap (λ (x : Tables). find_session id x.sessions) (sym same) ∙ found
    ]

-- A row stays as it is through calls that do not delete it.
pub Steps-keep :
    (strip : String → String) (id : String) (r : SessionRecord) (t t' : Tables)
    (steps : Steps strip t t')
    → SparesAll strip id steps
    → find_session id t.sessions ≡ some r
    → find_session id t'.sessions ≡ some r
Steps-keep strip id r t t' start spares found = found
Steps-keep strip id r t t' (later {u} before step) spares found =
    Step-keeps strip id r u t' step (spares.1) (Steps-keep strip id r t u before (spares.0) found)
