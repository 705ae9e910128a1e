-- ===== src/Texts.antt =====
-- agent_room/roles/_message.py, and what the program takes from Python's `str`.
use goal_driven_agent_room.Base.{
  Bool, String, Option, none, some, List, [], ◌∷◌, ◌++◌, ◌⧺◌, join, map, if◌then◌else◌,
}
use goal_driven_agent_room.Schemas.{Block, bare, text, other, Content, str, blocks}

-- A state value as `format_extra_context` shows it: the items of a list, or `str(value)`.
pub data Shown : Type 0 where
  items : List String → Shown
  scalar : String → Shown

-- What Python provides for a state type: `s.strip()`, `not s.strip()`, the heading of a key
-- (`key.replace("_", " ").title()`), and the value of a key, `none` where it is missing or `None`.
pub record TextLibrary (S : Type 0) : Type 0 where
  pub strip : String → String
  pub is_blank : String → Bool
  pub heading : String → String
  pub value_of : S → String → Option Shown

-- `"\n".join(f"- {item}" for item in values)`
unfoldable pub bullets : List String → String
unfolding join ◌⧺◌
bullets values = join "\n" (map (λ v. "- " ⧺ v) values)

-- The display text of one block; blocks of other types are dropped.
block_text : Block → List String
block_text (bare s) = s ∷ []
block_text (text s) = s ∷ []
block_text other = []

block_texts : List Block → List String
unfolding block_text
block_texts [] = []
block_texts (b ∷ bs) = block_text b ++ block_texts bs

-- `extract_text`
unfoldable pub extract_text : Content → String
unfolding block_texts join
extract_text (str s) = s
extract_text (blocks bs) = join "" (block_texts bs)

module _ {S : Type 0} (lib : TextLibrary S) where
  section : String → Option Shown → List String
  unfolding bullets ◌⧺◌
  section key none = []
  section key (some (items [])) = []
  section key (some (items (v ∷ vs))) = ("# " ⧺ lib.heading key ⧺ "\n" ⧺ bullets (v ∷ vs)) ∷ []
  section key (some (scalar s)) =
      if lib.is_blank s then [] else ("# " ⧺ lib.heading key ⧺ "\n" ⧺ lib.strip s) ∷ []

  sections : S → List String → List String
  unfolding section
  sections s [] = []
  sections s (key ∷ keys) = section key (lib.value_of s key) ++ sections s keys

  unfoldable pub format_extra_context : S → List String → String
  unfolding sections join
  format_extra_context s keys = join "\n\n" (sections s keys)
