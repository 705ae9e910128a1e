-- ===== src/Server/Tenancy/Pooling.antt =====
-- agent_room/server/tenancy.py: what the pool hands out.
use mathlib.Core.Path.{subst}
use goal_driven_agent_room.Base.{
  ◌≡◌, refl, sym, ap, ◌∙◌, inl, inr, String, Option, none, some, List, [], ◌∷◌, ◌++◌, get,
  get-append, str_eq, eq_iff, Bool-cases, Option-cases,
}
use goal_driven_agent_room.Errors.{Result, ok, >>=-ok, ok-injective}
use goal_driven_agent_room.Server.Tenancy.{pooled, pool_get}

module _ {Entry : Type 0} (open_entry : String → Result Entry) where
  -- Every tenant's entry is one that was opened for this tenant.
  abbrev pub OwnsEntries : List (String × Entry) → Type 0
  OwnsEntries entries =
      (tenant : String) (e : Entry) → get tenant entries ≡ some e → open_entry tenant ≡ ok e

  OwnsEntries-append :
      (entries : List (String × Entry)) (tenant : String) (e : Entry)
      → OwnsEntries entries
      → open_entry tenant ≡ ok e
      → OwnsEntries (entries ++ ((tenant, e) ∷ []))
  OwnsEntries-append entries tenant e own opened other f found =
      let joined = sym (get-append other entries ((tenant, e) ∷ [])) ∙ found in
      elim (Option-cases (get other entries)) [
        | inr (g, held) ↦ own other f (held ∙ rw held at joined)
        | inl fresh ↦ elim (Bool-cases (str_eq tenant other)) [
          | inl same ↦
              let given : some e ≡ some f = rw (fresh, same) at joined in
              cc (given, opened, (eq_iff tenant other).0 same)
          | inr differs ↦ absurd (cc (rw (fresh, differs) at joined))
        ]
      ]

  pooled-OwnsEntries :
      (tenant : String) (entries after : List (String × Entry)) (e : Entry) (o : Option Entry)
      → get tenant entries ≡ o
      → OwnsEntries entries
      → pooled open_entry tenant entries o ≡ ok (e, after)
      → (open_entry tenant ≡ ok e) × OwnsEntries after × (get tenant after ≡ some e)
  unfolding pooled
  pooled-OwnsEntries tenant entries after e (some f) held own h =
      let pairs = ok-injective h in
      let same = ap (λ p. p.0) pairs in
      let kept = ap (λ p. p.1) pairs in
      (
        own tenant e (held ∙ ap some same),
        subst OwnsEntries kept own,
        ap (get tenant) (sym kept) ∙ held ∙ ap some same,
      )
  pooled-OwnsEntries tenant entries after e none fresh own h =
      let (f, opened, made) = >>=-ok (open_entry tenant) _ h in
      let pairs = ok-injective made in
      let same = ap (λ p. p.0) pairs in
      let grown = ap (λ p. p.1) pairs in
      let found : get tenant (entries ++ ((tenant, f) ∷ [])) ≡ some f =
        get-append tenant entries ((tenant, f) ∷ []) ∙ rw (fresh, (eq_iff tenant tenant).1 refl) in
      (
        opened ∙ ap ok same,
        subst OwnsEntries grown (OwnsEntries-append entries tenant f own opened),
        ap (get tenant) (sym grown) ∙ found ∙ ap some same,
      )

  -- When every entry of the pool was opened for its tenant, what the pool hands out for a tenant
  -- was opened for this tenant, the entries after it are such entries again, and the pool hands out
  -- the same the next time, when nothing is opened.
  pub pool_get-OwnsEntries :
      (tenant : String) (entries after : List (String × Entry)) (e : Entry)
      → OwnsEntries entries
      → pool_get open_entry tenant entries ≡ ok (e, after)
      → (open_entry tenant ≡ ok e)
        × OwnsEntries after
        × (pool_get open_entry tenant after ≡ ok (e, after))
  unfolding pool_get
  pool_get-OwnsEntries tenant entries after e own h =
      let (opened, owns, found) =
        pooled-OwnsEntries tenant entries after e (get tenant entries) refl own h in
      (opened, owns, unfold pooled in ap (pooled open_entry tenant after) found)
