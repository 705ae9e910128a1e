-- ===== src/Base/Texts.antt =====
-- Python's `str` operations that the program uses, by recursion on the code points.
use Prim.Native.Nat.{ℕ, zero, suc, ◌-◌, ◌/◌, ◌%◌}
use Prim.Native.String.{String}
use mathlib.Core.Bool.{Bool, true, false, ◌||◌, ◌&&◌}
use Prim.Native.Char.{code}
use mathlib.Core.Option.{Option, none, some}
use mathlib.Core.List.{List, [], ◌∷◌}
use text.Mathlib.Text.{◌==◌ as str_eq}
use goal_driven_agent_room.Base.Tests.{if◌then◌else◌, ◌==◌, ltb}

-- `not s`
abbrev pub blank : String → Bool
blank String.[] = true
blank (String.◌∷◌ c s) = false

-- The truth value of a string that may be missing or `None`.
abbrev pub truthy : Option String → Bool
truthy none = false
truthy (some String.[]) = false
truthy (some (String.◌∷◌ c s)) = true

-- `s + t`
infixr 66 ◌⧺◌
unfoldable pub ◌⧺◌ : String → String → String
String.[] ⧺ t = t
(String.◌∷◌ c s) ⧺ t = String.◌∷◌ c (s ⧺ t)

-- `len(s)`
unfoldable pub str_length : String → ℕ
str_length String.[] = 0
str_length (String.◌∷◌ c s) = suc (str_length s)

-- `s[:n]`
unfoldable pub str_take : ℕ → String → String
str_take zero s = ""
str_take (suc n) String.[] = ""
str_take (suc n) (String.◌∷◌ c s) = String.◌∷◌ c (str_take n s)

-- `s[n:]`
unfoldable pub str_drop : ℕ → String → String
str_drop zero s = s
str_drop (suc n) String.[] = ""
str_drop (suc n) (String.◌∷◌ c s) = str_drop n s

-- `s[-n:]` for an n that is not 0
unfoldable pub str_last : ℕ → String → String
unfolding str_drop str_length
str_last n s = str_drop (str_length s - n) s

-- `sep.join(parts)`
unfoldable pub join : String → List String → String
unfolding ◌⧺◌
join sep [] = ""
join sep (s ∷ []) = s
join sep (s ∷ t ∷ rest) = s ⧺ sep ⧺ join sep (t ∷ rest)

-- `key in values`
unfoldable pub mem_text : String → List String → Bool
mem_text k [] = false
mem_text k (v ∷ vs) = str_eq k v || mem_text k vs

-- A decimal digit.
digit : ℕ → String
digit n =
    if n == 0
    then "0"
    else if n == 1
    then "1"
    else if n == 2
    then "2"
    else if n == 3
    then "3"
    else if n == 4
    then "4"
    else if n == 5
    then "5"
    else if n == 6
    then "6"
    else if n == 7
    then "7"
    else if n == 8
    then "8"
    else "9"

show_fuel : ℕ → ℕ → String
unfolding digit ◌⧺◌
show_fuel zero n = ""
show_fuel (suc f) n =
    let rest = show_fuel f (n / 10) ⧺ digit (n % 10) in if ltb n 10 then digit n else rest

-- `str(n)`; n + 1 rounds are more than it has digits.
unfoldable pub show : ℕ → String
unfolding show_fuel
show n = show_fuel (suc n) n

-- `s.startswith(prefix)`
unfoldable pub starts_with : String → String → Bool
starts_with s String.[] = true
starts_with String.[] (String.◌∷◌ p ps) = false
starts_with (String.◌∷◌ c s) (String.◌∷◌ p ps) =
    let rest = starts_with s ps in (code c == code p) && rest

-- `s.rfind(c)`, where `none` is -1.
unfoldable pub rfind : ℕ → String → Option ℕ
rfind n String.[] = none
rfind n (String.◌∷◌ c s) = elim (rfind n s) [
  | some i ↦ some (suc i)
  | none ↦ if code c == n then some 0 else none
]

-- `part in s`
unfoldable pub contains : String → String → Bool
unfolding starts_with
contains String.[] part = starts_with "" part
contains (String.◌∷◌ c s) part =
    let later = contains s part in starts_with (String.◌∷◌ c s) part || later

-- The text before the first of the pieces gets a further character.
push : String → List String → List String
push c [] = c ∷ []
push c (p ∷ ps) = (c ⧺ p) ∷ ps

-- `s.split(sep)` for a separator of one character
unfoldable pub split_on : ℕ → String → List String
unfolding push ◌⧺◌
split_on sep String.[] = "" ∷ []
split_on sep (String.◌∷◌ c s) =
    let rest = split_on sep s in if code c == sep then "" ∷ rest else push (String.◌∷◌ c "") rest

-- `s.removeprefix(p)`
unfoldable pub remove_prefix : String → String → String
unfolding starts_with str_drop str_length
remove_prefix s p = if starts_with s p then str_drop (str_length p) s else s

-- `s or None`
abbrev pub or_none : Option String → Option String
or_none none = none
or_none (some s) = if blank s then none else some s
