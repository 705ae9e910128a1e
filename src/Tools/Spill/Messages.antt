-- ===== src/Tools/Spill/Messages.antt =====
-- agent_room/tools/spill.py: the messages and the store after `spill_messages`.
use goal_driven_agent_room.Base.{
  ℕ, ◌≤◌, ◌<◌, true, false, leb→le, leb→lt, String, ◌≡◌, refl, sym, ap, ◌∙◌, ◌⊎◌, inl, inr, Option,
  none, some, List, [], ◌∷◌, first_of, str_eq, eq_iff, str_length, leb, Bool-cases, Option-cases,
}
use goal_driven_agent_room.Schemas.{Message, Content, str, system, human, ai, tool}
use goal_driven_agent_room.Tools.Spill.{
  SpillLibrary, SpillStore, ref_of, put_payload, get_payload, format_placeholder, make_preview,
  looks_like_placeholder, stringify, spill_content, maybe_spill, spill_messages,
}
use goal_driven_agent_room.Tools.Spill.Store.{match_ref, put_payload-get_payload}

module _ (lib : SpillLibrary) where
  -- Every payload is held under its own reference.
  abbrev pub IsAddressed : SpillStore → Type 0
  IsAddressed store = (ref q : String) → get_payload ref store ≡ some q → ref_of lib q ≡ ref

  IsAddressed-empty : IsAddressed []
  unfolding get_payload
  IsAddressed-empty ref q h = absurd (cc h)

  found_where :
      (ref payload q : String) (o : Option String)
      → ((r : String) → o ≡ some r → ref_of lib r ≡ ref)
      → first_of o (match_ref (ref_of lib payload) ref payload) ≡ some q
      → ref_of lib q ≡ ref
  found_where ref payload q (some r) old h = old q h
  found_where ref payload q none old h = elim (Bool-cases (str_eq (ref_of lib payload) ref)) [
    | inl same ↦
        let given : some payload ≡ some q = rw same at h in
        cc (given, (eq_iff (ref_of lib payload) ref).0 same)
    | inr other ↦ absurd (cc (rw other at h))
  ]

  put_payload-IsAddressed :
      (payload : String) (store : SpillStore)
      → IsAddressed store
      → IsAddressed ((put_payload lib payload store).1)
  put_payload-IsAddressed payload store old ref q h =
      found_where ref payload q (get_payload ref store) (old ref)
        (sym (put_payload-get_payload lib ref payload store) ∙ h)

  put_payload-keeps :
      (ref payload q : String) (store : SpillStore)
      → get_payload ref store ≡ some q
      → get_payload ref ((put_payload lib payload store).1) ≡ some q
  put_payload-keeps ref payload q store h =
      put_payload-get_payload lib ref payload store
      ∙ ap (λ o. first_of o (match_ref (ref_of lib payload) ref payload)) h

  put_payload-holds :
      (payload : String) (store : SpillStore)
      → (q : String) × (get_payload (ref_of lib payload) ((put_payload lib payload store).1)
          ≡ some q)
  put_payload-holds payload store =
      let after = put_payload-get_payload lib (ref_of lib payload) payload store in
      elim (Option-cases (get_payload (ref_of lib payload) store)) [
        | inl empty ↦
            (payload, after ∙ rw (empty, (eq_iff (ref_of lib payload) (ref_of lib payload)).1 refl))
        | inr (q, held) ↦ (q, after ∙ rw held)
      ]

  module _ (threshold : ℕ) where
    -- The body of a content is above the threshold, and is no placeholder.
    abbrev pub IsLarge : Content → Type 0
    IsLarge before =
        (threshold < str_length (stringify lib before))
        × (looks_like_placeholder (stringify lib before) ≡ false)

    abbrev pub IsKept : Content → Type 0
    IsKept before =
        (str_length (stringify lib before) ≤ threshold)
        ⊎ (looks_like_placeholder (stringify lib before) ≡ true)

    -- A small content and a placeholder are left; the body of any other content is held under its
    -- reference, which the placeholder in its place names.
    abbrev pub IsHeld : SpillStore → Content → Content → Type 0
    IsHeld store before after =
        (IsKept before × (after ≡ before))
        ⊎ ((q : String) × IsLarge before
            × (after
                ≡ str (
                    format_placeholder (ref_of lib (stringify lib before))
                      (str_length (stringify lib before)) (make_preview (stringify lib before))))
            × (get_payload (ref_of lib (stringify lib before)) store ≡ some q)
            × (ref_of lib q ≡ ref_of lib (stringify lib before)))

    -- What one step keeps of the store before it.
    abbrev pub IsLater : SpillStore → SpillStore → Type 0
    IsLater before after =
        (ref q : String) → get_payload ref before ≡ some q → get_payload ref after ≡ some q

    spill_content_lem :
        (c : Content) (store : SpillStore)
        → IsAddressed store
        → let after = spill_content lib threshold c store in
          IsHeld (after.1) c (after.0) × IsAddressed (after.1) × IsLater store (after.1)
    unfolding spill_content
    spill_content_lem c store old =
        let body = stringify lib c in
        elim (Bool-cases (leb (str_length body) threshold)) [
          | inl small ↦ rw small (inl (inl (leb→le _ _ small), refl), old, λ ref q h. h)
          | inr large ↦ elim (Bool-cases (looks_like_placeholder body)) [
            | inl spilled ↦ rw (large, spilled) (inl (inr refl, refl), old, λ ref q h. h)
            | inr fresh ↦
                let (q, held) = put_payload-holds body store in
                let next = put_payload-IsAddressed body store old in
                rw (large, fresh)
                  (
                    inr (
                      q,
                      (leb→lt _ _ large, refl),
                      unfold put_payload in refl,
                      held,
                      next (ref_of lib body) q held,
                    ),
                    next,
                    λ ref q h. put_payload-keeps ref body q store h,
                  )
          ]
        ]

    -- The contents of tool messages are held, and all else is as it was.
    IsSpilled : SpillStore → Message → Message → Type 0
    IsSpilled store (tool c n i) after = (c' : Content) × (after ≡ tool c' n i) × IsHeld store c c'
    IsSpilled store (system c) after = after ≡ system c
    IsSpilled store (human c) after = after ≡ human c
    IsSpilled store (ai c calls) after = after ≡ ai c calls

    abbrev pub AreSpilled : SpillStore → List Message → List Message → Type 0
    unfolding IsSpilled
    AreSpilled store [] after = after ≡ []
    AreSpilled store (m ∷ ms) after =
        (m' : Message) × (ms' : List Message) × (after ≡ m' ∷ ms')
        × IsSpilled store m m'
        × AreSpilled store ms ms'

    IsHeld-later : (s t : SpillStore) (c c' : Content) → IsLater s t → IsHeld s c c' → IsHeld t c c'
    IsHeld-later s t c c' later (inl kept) = inl kept
    IsHeld-later s t c c' later (inr (q, big, shape, held, address)) =
        inr (q, big, shape, later (ref_of lib (stringify lib c)) q held, address)

    IsSpilled-later :
        (s t : SpillStore) (m m' : Message) → IsLater s t → IsSpilled s m m' → IsSpilled t m m'
    unfolding IsSpilled
    IsSpilled-later s t (tool c n i) m' later (c', shape, held) =
        (c', shape, IsHeld-later s t c c' later held)
    IsSpilled-later s t (system c) m' later h = h
    IsSpilled-later s t (human c) m' later h = h
    IsSpilled-later s t (ai c calls) m' later h = h

    maybe_spill_lem :
        (m : Message) (store : SpillStore)
        → IsAddressed store
        → let after = maybe_spill lib threshold m store in
          IsSpilled (after.1) m (after.0) × IsAddressed (after.1) × IsLater store (after.1)
    unfolding maybe_spill IsSpilled
    maybe_spill_lem (tool c n i) store old =
        let (held, next, later) = spill_content_lem c store old in
        (((spill_content lib threshold c store).0, refl, held), next, later)
    maybe_spill_lem (system c) store old = (refl, old, λ ref q h. h)
    maybe_spill_lem (human c) store old = (refl, old, λ ref q h. h)
    maybe_spill_lem (ai c calls) store old = (refl, old, λ ref q h. h)

    spill_messages-from :
        (messages : List Message) (store : SpillStore)
        → IsAddressed store
        → let after = spill_messages lib threshold messages store in
          AreSpilled (after.1) messages (after.0) × IsLater store (after.1)
    unfolding spill_messages AreSpilled
    spill_messages-from [] store old = (refl, λ ref q h. h)
    spill_messages-from (m ∷ ms) store old =
        let first = maybe_spill lib threshold m store in
        let rest = spill_messages lib threshold ms (first.1) in
        let (one, next, grows) = maybe_spill_lem m store old in
        let (others, last) = spill_messages-from ms (first.1) next in
        (
          (first.0, rest.0, refl, IsSpilled-later (first.1) (rest.1) m (first.0) last one, others),
          λ ref q h. last ref q (grows ref q h),
        )

  -- Spilling a list of messages into an empty store, every message keeps its kind, its name and its
  -- calls. The content of a tool message is left where its body is within the threshold or is a
  -- placeholder already; any other is a placeholder with the reference, the size and the preview of
  -- its body, and for this reference the store then holds a payload whose reference it is. All
  -- other messages are as they were.
  pub spill_messages-AreSpilled :
      (threshold : ℕ) (messages : List Message)
      → let after = spill_messages lib threshold messages [] in
        AreSpilled threshold (after.1) messages (after.0)
  spill_messages-AreSpilled threshold messages =
      (spill_messages-from threshold messages [] IsAddressed-empty).0
