-- ===== src/State/Reducers.antt =====
-- `capped_append` of agent_room/state.py: an `add` that keeps the newest `cap` items.
use goal_driven_agent_room.Base.{
  ℕ, ◌+◌, ◌-◌, ◌≤◌, ◌<◌, ◌≡◌, ap, List, ◌++◌, arith, length, drop, last_slice, leb, if◌then◌else◌,
  length-append, length-drop, drop-append_le, drop-drop, append_assoc, ◌∙◌, false, Bool-cases, inl,
  inr, ◌==◌, leb→le,
}

abbrev pub events_soft_cap : ℕ
events_soft_cap = 500

module _ {ℓ} {A : Type ℓ} where
  unfoldable pub capped_append : ℕ → List A → List A → List A
  capped_append cap left right =
      let merged = left ++ right in
      if leb (length merged) cap then merged else last_slice cap merged

  keep-eq-drop :
      (cap : ℕ) (m : List A)
      → 0 < cap
      → (if leb (length m) cap then m else last_slice cap m) ≡ drop (length m - cap) m
  keep-eq-drop cap m h = elim (Bool-cases (leb (length m) cap)) [
    | inl fits ↦
        let e : length m - cap ≡ 0 = omega (arith, leb→le (length m) cap fits) in rw (fits, e)
    | inr over ↦ let e : (cap == 0) ≡ false = ground arith in rw (over, e)
  ]

  -- With a cap that is not 0, the reducer drops what exceeds the cap from the front.
  capped_append-eq-drop :
      (cap : ℕ) (left right : List A)
      → 0 < cap
      → capped_append cap left right ≡ drop (length (left ++ right) - cap) (left ++ right)
  unfolding capped_append
  capped_append-eq-drop cap left right h = keep-eq-drop cap (left ++ right) h

  -- With a cap that is not 0, the reduced list is within it.
  pub capped_append-length_le :
      (cap : ℕ) (left right : List A) → 0 < cap → length (capped_append cap left right) ≤ cap
  capped_append-length_le cap left right h = omega (
    arith,
    ap length (capped_append-eq-drop cap left right h),
    length-drop (length (left ++ right) - cap) (left ++ right),
  )

  -- What a first reduction dropped, a second one drops too.
  drop_twice :
      (cap : ℕ) (m zs : List A)
      → drop (length (drop (length m - cap) m ++ zs) - cap) (drop (length m - cap) m ++ zs)
        ≡ drop (length (m ++ zs) - cap) (m ++ zs)
  drop_twice cap m zs =
      let k = length m - cap in
      let drops : k + (length (drop k (m ++ zs)) - cap) ≡ length (m ++ zs) - cap =
        omega (arith, length-append m zs, length-drop (length m - cap) (m ++ zs)) in
      rw (← drop-append_le k m zs (omega arith))
        (drop-drop _ k (m ++ zs) ∙ ap (λ n. drop n (m ++ zs)) drops)

  -- With a cap that is not 0, reducing twice is reducing once by the joined updates.
  pub capped_append_assoc :
      (cap : ℕ) (xs ys zs : List A)
      → 0 < cap
      → capped_append cap (capped_append cap xs ys) zs ≡ capped_append cap xs (ys ++ zs)
  capped_append_assoc cap xs ys zs h =
      rw
        (
          capped_append-eq-drop cap xs ys h,
          capped_append-eq-drop cap xs (ys ++ zs) h,
          capped_append-eq-drop cap (drop (length (xs ++ ys) - cap) (xs ++ ys)) zs h,
          ← append_assoc xs ys zs,
        )
        (drop_twice cap (xs ++ ys) zs)
