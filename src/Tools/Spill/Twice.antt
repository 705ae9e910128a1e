-- ===== src/Tools/Spill/Twice.antt =====
-- agent_room/tools/spill.py: spilling what is spilled already.
use goal_driven_agent_room.Base.{
  ℕ, String, ◌≡◌, refl, ap, ◌⊎◌, inl, inr, true, List, [], ◌∷◌, str_length, starts_with, leb,
  Bool-cases, ◌⧺◌,
}
use goal_driven_agent_room.Schemas.{Message, Content, str, system, human, ai, tool}
use goal_driven_agent_room.Tools.Spill.{
  SpillLibrary, SpillStore, put_payload, format_placeholder, make_preview, looks_like_placeholder,
  stringify, spill_content, maybe_spill, spill_messages,
}

format_placeholder-looks :
    (ref : String) (size : ℕ) (preview : String)
    → looks_like_placeholder (format_placeholder ref size preview) ≡ true
unfolding looks_like_placeholder format_placeholder starts_with ◌⧺◌
format_placeholder-looks ref size preview = refl

module _ (lib : SpillLibrary) (threshold : ℕ) where
  -- A content that is not spilled.
  IsLeft : Content → Type 0
  IsLeft c =
      (leb (str_length (stringify lib c)) threshold ≡ true)
      ⊎ (looks_like_placeholder (stringify lib c) ≡ true)

  spill_content-left :
      (c : Content) (store : SpillStore)
      → IsLeft c
      → spill_content lib threshold c store ≡ (c, store)
  unfolding spill_content IsLeft
  spill_content-left c store (inl small) = rw small
  spill_content-left c store (inr spilled) =
      elim (Bool-cases (leb (str_length (stringify lib c)) threshold)) [
        | inl small ↦ rw small
        | inr large ↦ rw (large, spilled)
      ]

  format_placeholder-IsLeft :
      (ref : String) (size : ℕ) (preview : String)
      → IsLeft (str (format_placeholder ref size preview))
  unfolding IsLeft stringify
  format_placeholder-IsLeft ref size preview = inr (format_placeholder-looks ref size preview)

  spill_content-IsLeft :
      (c : Content) (store : SpillStore) → IsLeft ((spill_content lib threshold c store).0)
  unfolding spill_content
  spill_content-IsLeft c store =
      let body = stringify lib c in
      elim (Bool-cases (leb (str_length body) threshold)) [
        | inl small ↦ rw small (unfold IsLeft in inl small)
        | inr large ↦ elim (Bool-cases (looks_like_placeholder body)) [
          | inl spilled ↦ rw (large, spilled) (unfold IsLeft in inr spilled)
          | inr fresh ↦
              rw (large, fresh)
                (let put = (put_payload lib body store).0 in
                  format_placeholder-IsLeft put.ref put.size (make_preview body))
        ]
      ]

  spill_content-again :
      (c : Content) (s t : SpillStore)
      → let after = (spill_content lib threshold c s).0 in
        spill_content lib threshold after t ≡ (after, t)
  spill_content-again c s t = spill_content-left _ t (spill_content-IsLeft c s)

  maybe_spill-again :
      (m : Message) (s t : SpillStore)
      → let after = (maybe_spill lib threshold m s).0 in
        maybe_spill lib threshold after t ≡ (after, t)
  unfolding maybe_spill
  maybe_spill-again (tool c n i) s t = ap (λ p. (tool (p.0) n i, p.1)) (spill_content-again c s t)
  maybe_spill-again (system c) s t = refl
  maybe_spill-again (human c) s t = refl
  maybe_spill-again (ai c calls) s t = refl

  -- Spilling the messages that spilling gave changes neither them nor any store.
  pub spill_messages-idempotent :
      (messages : List Message) (s t : SpillStore)
      → let after = (spill_messages lib threshold messages s).0 in
        spill_messages lib threshold after t ≡ (after, t)
  unfolding spill_messages
  spill_messages-idempotent [] s t = refl
  spill_messages-idempotent (m ∷ ms) s t =
      let first = maybe_spill lib threshold m s in
      let rest = spill_messages-idempotent ms (first.1) t in
      rw (maybe_spill-again m s t) (ap (λ p. (first.0 ∷ p.0, p.1)) rest)
