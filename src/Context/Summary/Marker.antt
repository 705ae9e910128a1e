-- ===== src/Context/Summary/Marker.antt =====
-- agent_room/context/summary.py: the marker in a compressed conversation, and the cap on a line.
use mathlib.Core.Path.{fun_ext, subst}
use goal_driven_agent_room.Base.{
  ℕ, zero, suc, ◌+◌, ◌≤◌, ◌≡◌, refl, sym, String, List, [], ◌∷◌, ◌⧺◌, str_length, str_take, ltb,
  inl, inr, ◌⊎◌, ◌↔◌, Bool-cases, false, take, arith,
}
use goal_driven_agent_room.Schemas.{Message, Content, human}
use goal_driven_agent_room.Tools.Spill.{SpillStore}
use goal_driven_agent_room.Context.Tokens.{Encoder}
use goal_driven_agent_room.Context.Engine.{build_marker, compress}
use goal_driven_agent_room.Context.Alignment.{IsLegal, open_calls}
use goal_driven_agent_room.Context.Alignment.Head.{ends_with_tool}
use goal_driven_agent_room.Context.Alignment.Compress.{compress-IsLegal}
use goal_driven_agent_room.Context.Summary.{
  SummaryLibrary, SummaryEngine, build_summary_marker, compress_with_summary, capped,
}

⧺-length : (s t : String) → str_length (s ⧺ t) ≡ str_length s + str_length t
unfolding ◌⧺◌ str_length
⧺-length String.[] t = omega arith
⧺-length (String.◌∷◌ c s) t = omega (arith, ⧺-length s t)

str_take-length : (n : ℕ) (s : String) → str_length (str_take n s) ≤ n
unfolding str_take str_length
str_take-length zero s = omega arith
str_take-length (suc n) String.[] = omega arith
str_take-length (suc n) (String.◌∷◌ c s) = omega (arith, str_take-length n s)

note_length : str_length " […truncated]" ≡ 13
unfolding str_length
note_length = refl

-- A content in the summarizer's prompt has at most 1,513 characters.
pub capped-length_le : (content : String) → str_length (capped content) ≤ 1513
unfolding capped
capped-length_le content = elim (Bool-cases (ltb 1500 (str_length content))) [
  | inl over ↦ rw over (
      omega (
        arith,
        ⧺-length (str_take 1500 content) " […truncated]",
        str_take-length 1500 content,
        note_length,
      ))
  | inr small ↦ rw small (ground (arith, small))
]

module _ (lib : SummaryLibrary) (e : SummaryEngine) (store : SpillStore) where
  -- The marker is a user message, whatever the summarizer does.
  marker-human :
      (middle : List Message)
      → (c : Content) × ((build_summary_marker lib e store middle).0 ≡ human c)
  unfolding build_summary_marker build_marker
  marker-human [] = (_, refl)
  marker-human (m ∷ ms) = (_, refl)

  -- Whatever the summarizer answers or raises, with or without a store, compressing a conversation
  -- in which tool calls and tool results go together gives such a conversation exactly when it is
  -- left as it is, or the messages that its head is cut from do not end with a tool result or
  -- have all their calls answered.
  pub compress_with_summary-IsLegal :
      (encoder : Encoder) (messages : List Message)
      → IsLegal messages
      → IsLegal (compress_with_summary lib encoder e store messages) ↔ (
          (compress_with_summary lib encoder e store messages ≡ messages)
          ⊎ ((ends_with_tool (take e.windowed.protect_first_n messages) ≡ false)
              ⊎ (open_calls [] (take e.windowed.protect_first_n messages) ≡ [])))
  unfolding compress_with_summary
  compress_with_summary-IsLegal encoder messages h =
      let same : (λ middle. human ((marker-human middle).0))
          ≡ (λ middle. (build_summary_marker lib e store middle).0) =
        fun_ext (λ middle. sym ((marker-human middle).1)) in
      subst
        (λ marker. IsLegal (compress encoder e.windowed marker messages) ↔ (
          (compress encoder e.windowed marker messages ≡ messages)
          ⊎ ((ends_with_tool (take e.windowed.protect_first_n messages) ≡ false)
              ⊎ (open_calls [] (take e.windowed.protect_first_n messages) ≡ []))))
        same (compress-IsLegal encoder e.windowed (λ middle. (marker-human middle).0) messages h)
