-- ===== src/Examples/Spilling.antt =====
-- Messages whose bodies are put into a store, at concrete inputs.
use goal_driven_agent_room.Base.{String, List, [], ◌∷◌, ◌≡◌}
use goal_driven_agent_room.Schemas.{Message, Block, bare, text, other, human, tool, str}
use goal_driven_agent_room.Tools.Spill.{SpillLibrary, spill_messages, get_payload}
use goal_driven_agent_room.Tools.Spill.Store.{put_all, first_with, put_all-get_payload}
use goal_driven_agent_room.Tools.Spill.Messages.{AreSpilled, spill_messages-AreSpilled}

abbrev shown : Block → String
shown (bare s) = s
shown (text s) = s
shown other = "{}"

-- A digest that is the payload itself, of which a reference has the first twelve characters.
abbrev plain_digest : SpillLibrary
plain_digest = record { digest = λ s. s; show_block = shown }

abbrev outputs : List Message
outputs =
    human (str "run the tests")
    ∷ tool (str "two failed") "shell" "call_1"
    ∷ tool (str "ok") "shell" "call_2"
    ∷ []

abbrev colliding : List String
colliding = "one_long_prefix_a" ∷ "other" ∷ "one_long_prefix_b" ∷ []

put_all-get_payload_example :
    get_payload "one_long_pre" (put_all plain_digest colliding [])
    ≡ first_with plain_digest "one_long_pre" colliding
put_all-get_payload_example = put_all-get_payload plain_digest "one_long_pre" colliding

spill_messages-AreSpilled_example :
    let after = spill_messages plain_digest 4 outputs [] in
    AreSpilled plain_digest 4 (after.1) outputs (after.0)
spill_messages-AreSpilled_example = spill_messages-AreSpilled plain_digest 4 outputs
