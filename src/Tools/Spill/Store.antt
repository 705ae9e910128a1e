-- ===== src/Tools/Spill/Store.antt =====
-- agent_room/tools/spill.py: what `get` finds after `put`.
use goal_driven_agent_room.Base.{
  String, ◌≡◌, refl, sym, ap, ◌∙◌, inl, inr, Option, none, some, List, [], ◌∷◌, get, get-put,
  first_of, str_eq, eq_iff, if◌then◌else◌, Bool-cases,
}
use goal_driven_agent_room.Tools.Spill.{
  SpillLibrary, SpillStore, ref_of, put_payload, get_payload, keep_first,
}

-- A payload where its reference is the one that is asked for.
abbrev pub match_ref : String → String → String → Option String
match_ref k ref payload = if str_eq k ref then some payload else none

first_of-none : {A : Type 0} (o : Option A) → first_of o none ≡ o
first_of-none none = refl
first_of-none (some a) = refl

first_of_assoc :
    {A : Type 0} (o p q : Option A) → first_of (first_of o p) q ≡ first_of o (first_of p q)
first_of_assoc none p q = refl
first_of_assoc (some a) p q = refl

keep_first-get :
    (k ref payload : String) (store : SpillStore) (o : Option String)
    → get k store ≡ o
    → get ref (keep_first k payload o store) ≡ first_of (get ref store) (match_ref k ref payload)
keep_first-get k ref payload store none h = elim (Bool-cases (str_eq k ref)) [
  | inl same ↦
      let empty : get ref store ≡ none = ap (λ r. get r store) (sym ((eq_iff k ref).0 same)) ∙ h in
      get-put ref k payload store ∙ rw (same, empty)
  | inr other ↦ get-put ref k payload store ∙ rw other (sym (first_of-none (get ref store)))
]
keep_first-get k ref payload store (some e) h = elim (Bool-cases (str_eq k ref)) [
  | inl same ↦
      let held : get ref store ≡ some e = ap (λ r. get r store) (sym ((eq_iff k ref).0 same)) ∙ h in
      rw (same, held)
  | inr other ↦ rw other (sym (first_of-none (get ref store)))
]

-- After a payload is put, a reference finds what it found before, or this payload if it found
-- nothing and the reference is the payload's.
pub put_payload-get_payload :
    (lib : SpillLibrary) (ref payload : String) (store : SpillStore)
    → get_payload ref ((put_payload lib payload store).1)
      ≡ first_of (get_payload ref store) (match_ref (ref_of lib payload) ref payload)
unfolding get_payload put_payload
put_payload-get_payload lib ref payload store =
    keep_first-get (ref_of lib payload) ref payload store (get (ref_of lib payload) store) refl

-- The store after payloads are put in turn.
abbrev pub put_all : SpillLibrary → List String → SpillStore → SpillStore
put_all lib [] store = store
put_all lib (p ∷ ps) store = put_all lib ps ((put_payload lib p store).1)

-- The first of some payloads that has a reference.
abbrev pub first_with : SpillLibrary → String → List String → Option String
first_with lib ref [] = none
first_with lib ref (p ∷ ps) = first_of (match_ref (ref_of lib p) ref p) (first_with lib ref ps)

put_all-from :
    (lib : SpillLibrary) (ref : String) (payloads : List String) (store : SpillStore)
    → get_payload ref (put_all lib payloads store)
      ≡ first_of (get_payload ref store) (first_with lib ref payloads)
put_all-from lib ref [] store = sym (first_of-none (get_payload ref store))
put_all-from lib ref (p ∷ ps) store =
    put_all-from lib ref ps ((put_payload lib p store).1)
    ∙ ap (λ o. first_of o (first_with lib ref ps)) (put_payload-get_payload lib ref p store)
    ∙ first_of_assoc (get_payload ref store) (match_ref (ref_of lib p) ref p)
        (first_with lib ref ps)

-- What a store gives for a reference, after payloads are put into an empty one, is the first of
-- them whose reference it is.
pub put_all-get_payload :
    (lib : SpillLibrary) (ref : String) (payloads : List String)
    → get_payload ref (put_all lib payloads []) ≡ first_with lib ref payloads
unfolding get_payload
put_all-get_payload lib ref payloads = put_all-from lib ref payloads []
