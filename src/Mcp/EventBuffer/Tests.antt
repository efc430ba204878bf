-- ===== src/Mcp/EventBuffer/Tests.antt =====
-- The buffer at concrete events.
use Prim.Native.String.{String}
use aria_bridge.Prelude.{◌≤◌, false, text, text_eq, length, last_n, List, [], ◌∷◌, ◌≡◌, refl}
use aria_bridge.Value.{finite, nan, str, Fields, end, field}
use aria_bridge.Value.Props.{get, put}
use aria_bridge.Value.Numbers.{max_one, exceeds, trunc}
use aria_bridge.Mcp.EventBuffer.{
  EventBuffer, init, slice_last, stamp, push, is_text, recent, errors, network, navigation,
  find_back, latest_screenshot, last_id, stats,
}
use aria_bridge.Mcp.EventBuffer.History.{
  size_of, stamp_from, push_all, push_all-window, push_all-unbounded,
}

code : Unit {0}
unfolding text_eq get put max_one exceeds trunc init slice_last stamp push is_text recent errors
    network navigation find_back latest_screenshot last_id stats size_of stamp_from push_all
code = tt

abbrev event : String → String → Fields
event kind level =
    field (text "type") (str (text kind)) (field (text "level") (str (text level)) end)

abbrev three : List Fields
three = event "log" "info" ∷ event "screenshot" "info" ∷ event "network" "error" ∷ []

abbrev two_of_three : EventBuffer
two_of_three = push_all three (init (finite false 5 1))

-- A limit of 2.5 keeps two events.
keeps_two :
    two_of_three.events
    ≡ stamp 2 (event "screenshot" "info") ∷ stamp 3 (event "network" "error") ∷ []
unfolding code
keeps_two = refl

counts : (length two_of_three.events ≡ 2) × ((stats two_of_three).error_count ≡ 1)
unfolding code
counts = (refl, refl)

push_all-window_example :
    let b = push_all three (init (finite false 5 1)) in
    (b.events ≡ last_n 2 (stamp_from 1 three)) × (b.counter ≡ length (stamp_from 1 three)) × (1 ≤ 2)
unfolding code
push_all-window_example = push_all-window (finite false 5 1) 2 three refl

push_all-unbounded_example : (push_all three (init nan)).events ≡ stamp_from 1 three
unfolding code
push_all-unbounded_example = push_all-unbounded nan three refl
