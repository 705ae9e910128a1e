-- ===== src/Server/Sessions/Invariant.antt =====
-- agent_room/server/sessions.py: the keys of the two tables over any sequence of operations.
use goal_driven_agent_room.Base.{
  ℕ, true, false, not, ◌&&◌, ◌||◌, ◌≡◌, refl, sym, ap, ◌∙◌, inl, inr, String, none, List, [], ◌∷◌,
  ◌++◌, str_eq, eq_iff, is_none, Bool-cases, arith,
}
use goal_driven_agent_room.Server.Sessions.{
  SessionRecord, SessionTaskLink, Tables, find_session, delete_session, delete_links, has_link,
}

-- No two sessions have an id in common.
abbrev pub HaveUniqueIds : List SessionRecord → Type 0
HaveUniqueIds [] = Unit {0}
HaveUniqueIds (r ∷ rs) = (is_none (find_session r.id rs) ≡ true) × HaveUniqueIds rs

-- No two links join the same session and task.
abbrev pub HaveUniqueLinks : List SessionTaskLink → Type 0
HaveUniqueLinks [] = Unit {0}
HaveUniqueLinks (l ∷ ls) = (has_link l.session_id l.task_id ls ≡ false) × HaveUniqueLinks ls

-- The session of every link is there.
abbrev pub Resolve : List SessionRecord → List SessionTaskLink → Type 0
Resolve sessions [] = Unit {0}
Resolve sessions (l ∷ ls) =
    (is_none (find_session l.session_id sessions) ≡ false) × Resolve sessions ls

pub record IsConsistent (t : Tables) : Type 0 where
  pub ids : HaveUniqueIds t.sessions
  pub links : HaveUniqueLinks t.links
  pub resolve : Resolve t.sessions t.links

pub find_session-append :
    (id : String) (rs : List SessionRecord) (r : SessionRecord)
    → is_none (find_session id (rs ++ (r ∷ [])))
      ≡ (is_none (find_session id rs) && not (str_eq r.id id))
unfolding find_session
find_session-append id [] r = ground arith
find_session-append id (s ∷ ss) r = ground (arith, find_session-append id ss r)

pub str_eq-false : (a b : String) → str_eq a b ≡ false → str_eq b a ≡ false
str_eq-false a b h = elim (Bool-cases (str_eq b a)) [
  | inl same ↦ absurd (cc (sym h ∙ (eq_iff a b).1 (sym ((eq_iff b a).0 same))))
  | inr other ↦ other
]

pub insert-HaveUniqueIds :
    (rs : List SessionRecord) (r : SessionRecord)
    → HaveUniqueIds rs
    → is_none (find_session r.id rs) ≡ true
    → HaveUniqueIds (rs ++ (r ∷ []))
unfolding find_session
insert-HaveUniqueIds [] r u h = (refl, tt)
insert-HaveUniqueIds (s ∷ ss) r u h = elim (Bool-cases (str_eq s.id r.id)) [
  | inl same ↦ absurd (cc (rw same at h))
  | inr other ↦ (
    find_session-append s.id ss r ∙ rw (u.0, str_eq-false s.id r.id other),
    insert-HaveUniqueIds ss r (u.1) (rw other at h),
  )
]

pub insert-resolve :
    (rs : List SessionRecord) (r : SessionRecord) (ls : List SessionTaskLink)
    → Resolve rs ls
    → Resolve (rs ++ (r ∷ [])) ls
insert-resolve rs r [] h = tt
insert-resolve rs r (l ∷ ls) h =
    (find_session-append l.session_id rs r ∙ rw (h.0), insert-resolve rs r ls (h.1))

pub delete-find :
    (id other : String) (rs : List SessionRecord)
    → str_eq other id ≡ false
    → find_session other (delete_session id rs) ≡ find_session other rs
unfolding find_session delete_session
delete-find id other [] h = refl
delete-find id other (r ∷ rs) h =
    let later = delete-find id other rs h in
    elim (Bool-cases (str_eq r.id id)) [
      | inl gone ↦
          let differs : str_eq r.id other ≡ false =
            ap (λ x. str_eq x other) ((eq_iff r.id id).0 gone) ∙ str_eq-false other id h in
          rw (gone, differs) later
      | inr kept ↦ elim (Bool-cases (str_eq r.id other)) [
        | inl hit ↦ rw (kept, hit)
        | inr miss ↦ rw (kept, miss) later
      ]
    ]

pub delete-find_self :
    (id : String) (rs : List SessionRecord) → find_session id (delete_session id rs) ≡ none
unfolding find_session delete_session
delete-find_self id [] = refl
delete-find_self id (r ∷ rs) = elim (Bool-cases (str_eq r.id id)) [
  | inl gone ↦ rw gone (delete-find_self id rs)
  | inr kept ↦ rw (kept, kept) (delete-find_self id rs)
]

pub delete-HaveUniqueIds :
    (id : String) (rs : List SessionRecord)
    → HaveUniqueIds rs
    → HaveUniqueIds (delete_session id rs)
unfolding delete_session
delete-HaveUniqueIds id [] u = tt
delete-HaveUniqueIds id (r ∷ rs) u = elim (Bool-cases (str_eq r.id id)) [
  | inl gone ↦ rw gone (delete-HaveUniqueIds id rs (u.1))
  | inr kept ↦
      rw kept (ap is_none (delete-find id r.id rs kept) ∙ u.0, delete-HaveUniqueIds id rs (u.1))
]

delete_links-has :
    (id session task : String) (ls : List SessionTaskLink)
    → has_link session task ls ≡ false
    → has_link session task (delete_links id ls) ≡ false
unfolding has_link delete_links
delete_links-has id session task [] h = refl
delete_links-has id session task (l ∷ ls) h =
    let later = delete_links-has id session task ls (ground arith) in
    elim (Bool-cases (str_eq l.session_id id)) [
      | inl gone ↦ rw gone later
      | inr kept ↦ rw kept (ground (arith, h, later))
    ]

pub delete_links-HaveUniqueLinks :
    (id : String) (ls : List SessionTaskLink)
    → HaveUniqueLinks ls
    → HaveUniqueLinks (delete_links id ls)
unfolding delete_links
delete_links-HaveUniqueLinks id [] u = tt
delete_links-HaveUniqueLinks id (l ∷ ls) u = elim (Bool-cases (str_eq l.session_id id)) [
  | inl gone ↦ rw gone (delete_links-HaveUniqueLinks id ls (u.1))
  | inr kept ↦ rw kept (
    delete_links-has id l.session_id l.task_id ls (u.0),
    delete_links-HaveUniqueLinks id ls (u.1),
  )
]

pub delete-resolve :
    (id : String) (rs : List SessionRecord) (ls : List SessionTaskLink)
    → Resolve rs ls
    → Resolve (delete_session id rs) (delete_links id ls)
unfolding delete_links
delete-resolve id rs [] h = tt
delete-resolve id rs (l ∷ ls) h = elim (Bool-cases (str_eq l.session_id id)) [
  | inl gone ↦ rw gone (delete-resolve id rs ls (h.1))
  | inr kept ↦
      rw kept
        (ap is_none (delete-find id l.session_id rs kept) ∙ h.0, delete-resolve id rs ls (h.1))
]

abbrev link_of : String → String → ℕ → SessionTaskLink
link_of session task now = record { session_id = session; task_id = task; attached_at = now }

has_link-append :
    (a b session task : String) (now : ℕ) (ls : List SessionTaskLink)
    → has_link a b (ls ++ (link_of session task now ∷ []))
      ≡ (has_link a b ls || (str_eq session a && str_eq task b))
unfolding has_link
has_link-append a b session task now [] = ground arith
has_link-append a b session task now (l ∷ ls) =
    ground (arith, has_link-append a b session task now ls)

differs_or :
    (session task : String) (now : ℕ) (l : SessionTaskLink) (ls : List SessionTaskLink)
    → has_link session task (l ∷ ls) ≡ false
    → (str_eq session l.session_id && str_eq task l.task_id) ≡ false
unfolding has_link
differs_or session task now l ls h = elim (Bool-cases (str_eq session l.session_id)) [
  | inr other ↦ rw other
  | inl same ↦ elim (Bool-cases (str_eq task l.task_id)) [
    | inr other ↦ rw (same, other)
    | inl also ↦ absurd (
        cc (
          rw
            (
              (eq_iff l.session_id session).1 (sym ((eq_iff session l.session_id).0 same)),
              (eq_iff l.task_id task).1 (sym ((eq_iff task l.task_id).0 also)),
            )
            at h))
  ]
]

pub attach-HaveUniqueLinks :
    (session task : String) (now : ℕ) (ls : List SessionTaskLink)
    → HaveUniqueLinks ls
    → has_link session task ls ≡ false
    → HaveUniqueLinks (ls ++ (link_of session task now ∷ []))
unfolding has_link
attach-HaveUniqueLinks session task now [] u h = (refl, tt)
attach-HaveUniqueLinks session task now (l ∷ ls) u h = (
  has_link-append l.session_id l.task_id session task now ls
      ∙ rw (u.0, differs_or session task now l ls h),
  attach-HaveUniqueLinks session task now ls (u.1) (ground (arith, h)),
)

pub attach-resolve :
    (session task : String) (now : ℕ) (rs : List SessionRecord) (ls : List SessionTaskLink)
    → Resolve rs ls
    → is_none (find_session session rs) ≡ false
    → Resolve rs (ls ++ (link_of session task now ∷ []))
attach-resolve session task now rs [] h there = (there, tt)
attach-resolve session task now rs (l ∷ ls) h there =
    (h.0, attach-resolve session task now rs ls (h.1) there)
