-- ===== src/Base/Dicts.antt =====
-- Python's `dict` with text keys, as a list of entries in the order of their insertion.
use mathlib.Core.Path.{◌≡◌, refl, sym, ◌∙◌}
use mathlib.Core.Bool.{true, false}
use mathlib.Core.Option.{Option, none, some}
use mathlib.Core.List.{List, [], ◌∷◌, ◌++◌}
use Prim.Native.String.{String}
use native.Mathlib.Omega.{arith}
use text.Mathlib.Text.{◌==◌ as str_eq}
use text.Mathlib.TextEquality.{eq_iff}
use mathlib.Core.Logic.{inl, inr}
use goal_driven_agent_room.Base.Tests.{if◌then◌else◌, Bool-cases}

-- Two names, of which one is a third name and the other is not, differ.
swap_false : (n k r : String) → str_eq n r ≡ true → str_eq n k ≡ false → str_eq k r ≡ false
swap_false n k r hit other = elim (Bool-cases (str_eq k r)) [
  | inl same ↦
      absurd (cc (sym other ∙ (eq_iff n k).1 ((eq_iff n r).0 hit ∙ sym ((eq_iff k r).0 same))))
  | inr differs ↦ differs
]

module _ {ℓ} {A : Type ℓ} where
  -- `d.get(k)`
  abbrev pub get : String → List (String × A) → Option A
  get k [] = none
  get k ((n, v) ∷ rest) = let later = get k rest in if str_eq n k then some v else later

  -- `d[k] = v`, which keeps the place of a key that is there.
  abbrev pub put : String → A → List (String × A) → List (String × A)
  put k v [] = (k, v) ∷ []
  put k v ((n, w) ∷ rest) =
      let later = put k v rest in if str_eq n k then (n, v) ∷ rest else (n, w) ∷ later

  -- The first of two options that is there.
  abbrev pub first_of : Option A → Option A → Option A
  first_of none o = o
  first_of (some a) o = some a

  pub get-append :
      (k : String) (xs ys : List (String × A)) → get k (xs ++ ys) ≡ first_of (get k xs) (get k ys)
  get-append k [] ys = refl
  get-append k ((n, v) ∷ xs) ys = ground (arith, get-append k xs ys)

  pub get-put :
      (r k : String) (v : A) (d : List (String × A))
      → get r (put k v d) ≡ (if str_eq k r then some v else get r d)
  get-put r k v [] = refl
  get-put r k v ((n, w) ∷ rest) =
      let later = get-put r k v rest in
      elim (Bool-cases (str_eq n k)) [
        | inl same ↦ rw (same, (eq_iff n k).0 same) (ground arith)
        | inr other ↦ elim (Bool-cases (str_eq n r)) [
          | inl hit ↦
              let differs : str_eq k r ≡ false = swap_false n k r hit other in
              rw (other, hit, differs)
          | inr miss ↦ rw (other, miss) later
        ]
      ]
