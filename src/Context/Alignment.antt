-- ===== src/Context/Alignment.antt =====
-- Tool calls and their results in agent_room/context/engine.py, `_partition` and
-- `_partition_by_tokens`.
pub mod Partition
pub mod Compress
pub mod Head
use goal_driven_agent_room.Base.{
  ◌≡◌, refl, sym, ap, ◌∙◌, Bool, true, false, ◌&&◌, String, List, [], ◌∷◌, ◌++◌, map, is_empty,
  mem_text, str_eq, if◌then◌else◌, arith,
}
use goal_driven_agent_room.Schemas.{Message, ToolCall, system, human, ai, tool, is_tool_message}
use goal_driven_agent_room.Context.Engine.{trim_tail}

-- The ids that are left when one call is answered.
abbrev pub answer : String → List String → List String
answer id [] = []
answer id (i ∷ is) = let rest = answer id is in if str_eq id i then is else i ∷ rest

-- The calls that wait for a result after a message, of those that waited before it.
unfoldable pub open_after : List String → Message → List String
open_after pending (ai c calls) = map (λ (x : ToolCall). x.id) calls
open_after pending (system c) = []
open_after pending (human c) = []
open_after pending (tool c name id) = answer id pending

-- A tool result answers a call that waits; any other message comes when no call waits.
unfoldable pub allowed : List String → Message → Bool
unfolding mem_text
allowed pending (ai c calls) = is_empty pending
allowed pending (system c) = is_empty pending
allowed pending (human c) = is_empty pending
allowed pending (tool c name id) = mem_text id pending

-- The rule of the chat protocols: every call of a message is answered, by its id and once, before a
-- message of another kind, and nothing else is answered.
abbrev pub legal : List String → List Message → Bool
unfolding allowed open_after
legal pending [] = is_empty pending
legal pending (m ∷ ms) = let rest = legal (open_after pending m) ms in allowed pending m && rest

-- The calls that wait after some messages.
abbrev pub open_calls : List String → List Message → List String
unfolding open_after
open_calls pending [] = pending
open_calls pending (m ∷ ms) = open_calls (open_after pending m) ms

-- The beginning of a legal conversation, in which calls may wait.
abbrev pub fits : List String → List Message → Bool
unfolding allowed open_after
fits pending [] = true
fits pending (m ∷ ms) = let rest = fits (open_after pending m) ms in allowed pending m && rest

unfoldable pub IsLegal : List Message → Type 0
unfolding legal
IsLegal messages = legal [] messages ≡ true

and_assoc : (a b c : Bool) → (a && (b && c)) ≡ ((a && b) && c)
and_assoc true b c = refl
and_assoc false b c = refl

pub legal-append :
    (pending : List String) (xs ys : List Message)
    → legal pending (xs ++ ys) ≡ (fits pending xs && legal (open_calls pending xs) ys)
unfolding legal fits open_calls
legal-append pending [] ys = refl
legal-append pending (x ∷ xs) ys =
    ap (λ b. allowed pending x && b) (legal-append (open_after pending x) xs ys)
    ∙ and_assoc (allowed pending x) (fits (open_after pending x) xs) _

abbrev pub starts_with_tool : List Message → Bool
starts_with_tool [] = false
starts_with_tool (m ∷ ms) = is_tool_message m

pub trim_tail-starts : (ms : List Message) → starts_with_tool (trim_tail ms) ≡ false
unfolding trim_tail
trim_tail-starts [] = refl
trim_tail-starts (m ∷ ms) = ground (arith, trim_tail-starts ms)

legal-any :
    (pending : List String) (ms : List Message)
    → legal pending ms ≡ true
    → starts_with_tool ms ≡ false
    → legal [] ms ≡ true
unfolding legal allowed open_after
legal-any [] ms h s = h
legal-any (i ∷ is) [] h s = absurd (cc h)
legal-any (i ∷ is) (ai c calls ∷ ms) h s = absurd (cc h)
legal-any (i ∷ is) (system c ∷ ms) h s = absurd (cc h)
legal-any (i ∷ is) (human c ∷ ms) h s = absurd (cc h)
legal-any (i ∷ is) (tool c n id ∷ ms) h s = absurd (cc s)

both : (a b : Bool) → (a && b) ≡ true → (a ≡ true) × (b ≡ true)
both true b h = (refl, h)
both false b h = absurd (cc h)

-- The end of a legal conversation is legal, when it does not start with a tool result.
pub legal-end :
    (xs ys : List Message)
    → legal [] (xs ++ ys) ≡ true
    → starts_with_tool ys ≡ false
    → legal [] ys ≡ true
legal-end xs ys h s =
    let (fitting, rest) = both (fits [] xs) _ (sym (legal-append [] xs ys) ∙ h) in
    legal-any (open_calls [] xs) ys rest s

-- The beginning of a legal conversation fits.
pub fits-start : (xs ys : List Message) → legal [] (xs ++ ys) ≡ true → fits [] xs ≡ true
fits-start xs ys h =
    let (fitting, rest) = both (fits [] xs) _ (sym (legal-append [] xs ys) ∙ h) in fitting
