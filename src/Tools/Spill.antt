-- ===== src/Tools/Spill.antt =====
-- agent_room/tools/spill.py: a store for the bodies of large tool messages, addressed by a part of
-- their SHA-256 digest, which is a parameter, as is the text of a block that holds no text.
pub mod Store
pub mod Messages
pub mod Twice
use goal_driven_agent_room.Base.{
  ℕ, ◌+◌, String, Bool, Option, none, some, List, [], ◌∷◌, ◌⧺◌, str_length, str_take, join, show,
  starts_with, rfind, get, put, if◌then◌else◌, ltb, leb, blank, map, str_eq,
}
use goal_driven_agent_room.Schemas.{
  Message, Content, Block, str, blocks, bare, text, other, system, human, ai, tool,
}

abbrev pub default_spill_threshold : ℕ
default_spill_threshold = 4000

abbrev pub preview_chars : ℕ
preview_chars = 400

abbrev pub ref_hash_len : ℕ
ref_hash_len = 12

-- `hexdigest` of a payload, and `str` of a block of a type other than text.
pub record SpillLibrary : Type 0 where
  pub digest : String → String
  pub show_block : Block → String

pub record SpillRef : Type 0 where
  pub ref : String
  pub size : ℕ

abbrev pub SpillStore : Type 0
SpillStore = List (String × String)

unfoldable pub ref_of : SpillLibrary → String → String
unfolding str_take
ref_of lib payload = str_take ref_hash_len (lib.digest payload)

-- The store after `put`: what is there stays.
abbrev pub keep_first : String → String → Option String → SpillStore → SpillStore
keep_first ref payload none store = put ref payload store
keep_first ref payload (some existing) store = store

-- `put`, with the store after it.
unfoldable pub put_payload : SpillLibrary → String → SpillStore → SpillRef × SpillStore
unfolding ref_of str_length
put_payload lib payload store = (
  record { ref = ref_of lib payload; size = str_length payload },
  keep_first (ref_of lib payload) payload (get (ref_of lib payload) store) store,
)

-- `get`
unfoldable pub get_payload : String → SpillStore → Option String
get_payload ref store = get ref store

unfoldable pub format_placeholder : String → ℕ → String → String
unfolding ◌⧺◌ show str_length
format_placeholder ref size preview =
    "[spill:"
    ⧺ ref
    ⧺ " size="
    ⧺ show size
    ⧺ "] output spilled to store; preview ("
    ⧺ show (str_length preview)
    ⧺ "/"
    ⧺ show size
    ⧺ " chars):\n"
    ⧺ preview

unfoldable pub looks_like_placeholder : String → Bool
unfolding starts_with
looks_like_placeholder body = starts_with body "[spill:"

abbrev pub newline : ℕ
newline = 10

cut_at_line : String → Option ℕ → String
unfolding str_take
cut_at_line head none = head
cut_at_line head (some i) = if ltb 200 i then str_take (i + 1) head else head

unfoldable pub make_preview : String → String
unfolding cut_at_line str_take str_length rfind
make_preview body =
    let head = str_take preview_chars body in
    if leb (str_length body) preview_chars then body else cut_at_line head (rfind newline head)

block_line : SpillLibrary → Block → String
block_line lib (bare s) = s
block_line lib (text s) = if blank s then lib.show_block (text s) else s
block_line lib other = lib.show_block other

-- `_stringify`
unfoldable pub stringify : SpillLibrary → Content → String
unfolding block_line join
stringify lib (str s) = s
stringify lib (blocks bs) = join "\n" (map (block_line lib) bs)

-- `maybe_spill_tool_message`: the body after it, and the store.
unfoldable pub spill_content : SpillLibrary → ℕ → Content → SpillStore → Content × SpillStore
unfolding stringify looks_like_placeholder put_payload format_placeholder make_preview
spill_content lib threshold content store =
    let body = stringify lib content in
    let spilled = put_payload lib body store in
    if leb (str_length body) threshold
    then (content, store)
    else if looks_like_placeholder body
    then (content, store)
    else (str (format_placeholder (spilled.0.ref) (spilled.0.size) (make_preview body)), spilled.1)

unfoldable pub maybe_spill : SpillLibrary → ℕ → Message → SpillStore → Message × SpillStore
unfolding spill_content
maybe_spill lib threshold (tool c name id) store =
    let spilled = spill_content lib threshold c store in (tool (spilled.0) name id, spilled.1)
maybe_spill lib threshold (system c) store = (system c, store)
maybe_spill lib threshold (human c) store = (human c, store)
maybe_spill lib threshold (ai c calls) store = (ai c calls, store)

unfoldable pub spill_messages :
    SpillLibrary → ℕ → List Message → SpillStore → List Message × SpillStore
unfolding maybe_spill
spill_messages lib threshold [] store = ([], store)
spill_messages lib threshold (m ∷ ms) store =
    let first = maybe_spill lib threshold m store in
    let rest = spill_messages lib threshold ms (first.1) in (first.0 ∷ rest.0, rest.1)
