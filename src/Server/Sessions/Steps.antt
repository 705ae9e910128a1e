-- ===== src/Server/Sessions/Steps.antt =====
-- agent_room/server/sessions.py: the operations as steps on the tables.
use mathlib.Core.Path.{subst}
use goal_driven_agent_room.Base.{
  ◌⊎◌, blank, or_none, get_default, ℕ, Bool, true, false, not, ◌≡◌, refl, ap, ◌∙◌, inl, inr, String,
  Option, some, [], ◌∷◌, ◌++◌, is_none, Bool-cases,
}
use goal_driven_agent_room.Errors.{ok, >>=-ok, require, ok-injective}
use goal_driven_agent_room.Server.Sessions.{
  SessionRecord, SessionTaskLink, Tables, find_session, delete_session, delete_links, has_link,
  insert_session, insert_or_ignore, create, delete, attach_task, connected, row_of,
}
use goal_driven_agent_room.Server.Sessions.Invariant.{
  IsConsistent, insert-HaveUniqueIds, insert-resolve, attach-HaveUniqueLinks, attach-resolve,
  delete-HaveUniqueIds, delete_links-HaveUniqueLinks, delete-resolve,
}

-- One call that changes the tables.
pub data Step (strip : String → String) : Tables → Tables → Type 0 where
  created :
      {t t' : Tables} (fresh : String) (now : ℕ) (name : String) (session_id : Option String)
      (tenant : String) (r : SessionRecord)
      → create strip fresh now name session_id tenant (some t) ≡ ok (r, t')
      → Step strip t t'
  deleted :
      {t t' : Tables} (id : String) (removed : Bool)
      → delete id (some t) ≡ ok (removed, t')
      → Step strip t t'
  attached :
      {t t' : Tables} (now : ℕ) (session task : String) (found : Bool)
      → attach_task now session task (some t) ≡ ok (found, t')
      → Step strip t t'

-- Calls in turn.
pub data Steps (strip : String → String) (t : Tables) : Tables → Type 0 where
  start : Steps strip t t
  later : {u v : Tables} → Steps strip t u → Step strip u v → Steps strip t v

insert_session-ok :
    (r : SessionRecord) (t t' : Tables)
    → insert_session r t ≡ ok t'
    → (is_none (find_session r.id t.sessions) ≡ true)
      × (record t { sessions = t.sessions ++ (r ∷ []) } ≡ t')
unfolding insert_session
insert_session-ok r t t' h = elim (Bool-cases (is_none (find_session r.id t.sessions))) [
  | inl free ↦ (free, cc (rw free at h))
  | inr taken ↦ absurd (cc (rw taken at h))
]

-- What a successful `create` does.
pub create-ok :
    (strip : String → String) (fresh : String) (now : ℕ) (name : String)
    (session_id : Option String) (tenant : String) (t t' : Tables) (r : SessionRecord)
    → create strip fresh now name session_id tenant (some t) ≡ ok (r, t')
    → (is_none (find_session r.id t.sessions) ≡ true)
      × (record t { sessions = t.sessions ++ (r ∷ []) } ≡ t')
      × (r.tenant_id ≡ tenant)
unfolding create connected
create-ok strip fresh now name session_id tenant t t' r h =
    let row = row_of (get_default (or_none session_id) fresh) (strip name) now tenant in
    let (u, named, rest) = >>=-ok (require (not (blank (strip name))) _) _ h in
    let (t1, inserted, last) = >>=-ok (insert_session row t) _ rest in
    let (free, added) = insert_session-ok row t t1 inserted in
    let pairs = ok-injective last in
    let same : row ≡ r = ap (λ p. p.0) pairs in
    subst
      (λ (x : SessionRecord).
        (is_none (find_session x.id t.sessions) ≡ true)
        × (record t { sessions = t.sessions ++ (x ∷ []) } ≡ t')
        × (x.tenant_id ≡ tenant))
      same (free, added ∙ ap (λ p. p.1) pairs, refl)

pub create-id :
    (strip : String → String) (fresh : String) (now : ℕ) (name : String)
    (session_id : Option String) (tenant : String) (t t' : Tables) (r : SessionRecord)
    → create strip fresh now name session_id tenant (some t) ≡ ok (r, t')
    → get_default (or_none session_id) fresh ≡ r.id
unfolding create connected
create-id strip fresh now name session_id tenant t t' r h =
    let row = row_of (get_default (or_none session_id) fresh) (strip name) now tenant in
    let (u, named, rest) = >>=-ok (require (not (blank (strip name))) _) _ h in
    let (t1, inserted, last) = >>=-ok (insert_session row t) _ rest in
    ap (λ (p : SessionRecord × Tables). p.0.id) (ok-injective last)

pub delete-ok :
    (id : String) (removed : Bool) (t t' : Tables)
    → delete id (some t) ≡ ok (removed, t')
    → record { sessions = delete_session id t.sessions; links = delete_links id t.links } ≡ t'
unfolding delete connected
delete-ok id removed t t' h = ap (λ p. p.1) (ok-injective h)

pub attach_task-ok :
    (now : ℕ) (session task : String) (found : Bool) (t t' : Tables)
    → attach_task now session task (some t) ≡ ok (found, t')
    → (t ≡ t')
      ⊎ ((is_none (find_session session t.sessions) ≡ false)
          × (has_link session task t.links ≡ false)
          × (record t {
            links =
                t.links
                ++ (record { session_id = session; task_id = task; attached_at = now } ∷ []);
          }
              ≡ t'))
unfolding attach_task connected insert_or_ignore
attach_task-ok now session task found t t' h =
    let link : SessionTaskLink = record {
      session_id = session;
      task_id = task;
      attached_at = now;
    } in
    elim (Bool-cases (is_none (find_session session t.sessions))) [
      | inl missing ↦ inl (ap (λ p. p.1) (ok-injective (rw missing at h)))
      | inr there ↦
          let pairs = ap (λ p. p.1) (ok-injective (rw there at h)) in
          elim (Bool-cases (has_link session task t.links)) [
            | inl linked ↦ inl (rw linked at pairs)
            | inr fresh ↦ inr (there, fresh, rw fresh at pairs)
          ]
    ]

Step-IsConsistent :
    (strip : String → String) (t t' : Tables) → Step strip t t' → IsConsistent t → IsConsistent t'
Step-IsConsistent strip t t' (created fresh now name session_id tenant r h) valid =
    let (free, same, owner) = create-ok strip fresh now name session_id tenant t t' r h in
    subst IsConsistent same (record {
      ids = insert-HaveUniqueIds t.sessions r valid.ids free;
      links = valid.links;
      resolve = insert-resolve t.sessions r t.links valid.resolve;
    })
Step-IsConsistent strip t t' (deleted id removed h) valid =
    subst IsConsistent (delete-ok id removed t t' h) (record {
      ids = delete-HaveUniqueIds id t.sessions valid.ids;
      links = delete_links-HaveUniqueLinks id t.links valid.links;
      resolve = delete-resolve id t.sessions t.links valid.resolve;
    })
Step-IsConsistent strip t t' (attached now session task found h) valid =
    elim (attach_task-ok now session task found t t' h) [
      | inl same ↦ subst IsConsistent same valid
      | inr (there, fresh, same) ↦ subst IsConsistent same (record {
        ids = valid.ids;
        links = attach-HaveUniqueLinks session task now t.links valid.links fresh;
        resolve = attach-resolve session task now t.sessions t.links valid.resolve there;
      })
    ]

abbrev pub no_rows : Tables
no_rows = record { sessions = []; links = [] }

-- After any calls on new tables no two sessions have an id in common, no two links join the same
-- session and task, and the session of every link is there.
pub Steps-IsConsistent :
    (strip : String → String) (t : Tables) → Steps strip no_rows t → IsConsistent t
Steps-IsConsistent strip t start = record { ids = tt; links = tt; resolve = tt }
Steps-IsConsistent strip t (later {u} before step) =
    Step-IsConsistent strip u t step (Steps-IsConsistent strip u before)
