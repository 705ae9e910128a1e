-- ===== src/Server/Sessions/Listing.antt =====
-- agent_room/server/sessions.py: which tasks a session lists.
use goal_driven_agent_room.Base.{
  ℕ, true, false, ◌≡◌, refl, sym, ap, ◌∙◌, inl, inr, String, some, List, [], ◌∷◌, ◌++◌, map, str_eq,
  eq_iff, mem_text, ltb, Bool, ◌||◌, Bool-cases, is_none,
}
use goal_driven_agent_room.Errors.{ok, ok-injective}
use goal_driven_agent_room.Server.Sessions.{
  SessionTaskLink, Tables, find_session, has_link, insert_desc, order_desc, of_session, connected,
  insert_or_ignore, attach_task, list_tasks,
}
use goal_driven_agent_room.Server.Sessions.Invariant.{str_eq-false}

abbrev pub task_ids : List SessionTaskLink → List String
task_ids ls = map (λ (l : SessionTaskLink). l.task_id) ls

str_eq_comm : (a b : String) → str_eq a b ≡ str_eq b a
str_eq_comm a b = elim (Bool-cases (str_eq a b)) [
  | inl same ↦ same ∙ sym ((eq_iff b a).1 (sym ((eq_iff a b).0 same)))
  | inr other ↦ other ∙ sym (str_eq-false a b other)
]

or_swap : (a b c : Bool) → (a || (b || c)) ≡ (b || (a || c))
or_swap true true c = refl
or_swap true false c = refl
or_swap false b c = refl

insert_desc-mem :
    (time : SessionTaskLink → ℕ) (task : String) (l : SessionTaskLink) (ls : List SessionTaskLink)
    → mem_text task (task_ids (insert_desc time l ls)) ≡ mem_text task (task_ids (l ∷ ls))
unfolding insert_desc mem_text
insert_desc-mem time task l [] = refl
insert_desc-mem time task l (m ∷ ms) = elim (Bool-cases (ltb (time l) (time m))) [
  | inr first ↦ rw first
  | inl after ↦
      rw (after, insert_desc-mem time task l ms)
        (or_swap (str_eq task m.task_id) (str_eq task l.task_id) (mem_text task (task_ids ms)))
]

order_desc-mem :
    (time : SessionTaskLink → ℕ) (task : String) (ls : List SessionTaskLink)
    → mem_text task (task_ids (order_desc time ls)) ≡ mem_text task (task_ids ls)
unfolding order_desc mem_text
order_desc-mem time task [] = refl
order_desc-mem time task (l ∷ ls) =
    insert_desc-mem time task l (order_desc time ls)
    ∙ ap (λ x. str_eq task l.task_id || x) (order_desc-mem time task ls)

of_session-mem :
    (session task : String) (ls : List SessionTaskLink)
    → mem_text task (task_ids (of_session session ls)) ≡ has_link session task ls
unfolding of_session mem_text has_link
of_session-mem session task [] = refl
of_session-mem session task (l ∷ ls) = elim (Bool-cases (str_eq l.session_id session)) [
  | inr other ↦ rw other (of_session-mem session task ls)
  | inl own ↦ rw (own, str_eq_comm task l.task_id, of_session-mem session task ls)
]

-- A session lists exactly the tasks that a link joins to it.
pub list_tasks-has_link :
    (session task : String) (t : Tables) (ls : List SessionTaskLink)
    → list_tasks session (some t) ≡ ok ls
    → mem_text task (task_ids ls) ≡ has_link session task t.links
unfolding list_tasks connected
list_tasks-has_link session task t ls h =
    ap (λ x. mem_text task (task_ids x)) (sym (ok-injective h))
    ∙ order_desc-mem (λ (l : SessionTaskLink). l.attached_at) task (of_session session t.links)
    ∙ of_session-mem session task t.links

or-true : (a : Bool) → (a || true) ≡ true
or-true true = refl
or-true false = refl

has_link-add :
    (session task : String) (now : ℕ) (ls : List SessionTaskLink)
    → has_link session task
        (ls ++ (record { session_id = session; task_id = task; attached_at = now } ∷ []))
      ≡ true
unfolding has_link
has_link-add session task now [] = rw ((eq_iff session session).1 refl, (eq_iff task task).1 refl)
has_link-add session task now (l ∷ ls) = rw (has_link-add session task now ls) (or-true _)

-- A task that is attached to a session that is there is linked to it.
pub attach_task-has_link :
    (now : ℕ) (session task : String) (found : Bool) (t t' : Tables)
    → is_none (find_session session t.sessions) ≡ false
    → attach_task now session task (some t) ≡ ok (found, t')
    → has_link session task t'.links ≡ true
unfolding attach_task connected insert_or_ignore
attach_task-has_link now session task found t t' there h =
    let same = ap (λ p. p.1) (ok-injective (rw there at h)) in
    elim (Bool-cases (has_link session task t.links)) [
      | inl linked ↦
          ap (λ (x : Tables). has_link session task x.links) (sym (rw linked at same)) ∙ linked
      | inr fresh ↦
          ap (λ (x : Tables). has_link session task x.links) (sym (rw fresh at same))
          ∙ has_link-add session task now t.links
    ]
