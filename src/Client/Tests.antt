-- ===== src/Client/Tests.antt =====
-- src/client.ts and src/throttle.ts, run.
use aria_bridge.Prelude.{
  inl, inr, false, ◌++◌, true, false, Text, text, text_eq, lower, includes, last_n, map, All, none,
  some, List, [], ◌∷◌, ◌≡◌, refl,
}
use aria_bridge.Value.{field, end, Value, str, obj, Fields}
use aria_bridge.Value.Props.{get}
use aria_bridge.Socket.Redact.{redact_event}
use aria_bridge.Socket.State as State
use aria_bridge.Socket.Operations as Socket
use aria_bridge.Client.Throttle as Throttle
use aria_bridge.Client.Throttle.{should_allow, allowed, Spaced, Covers, allowed-paced}
use aria_bridge.Client.Options.{BridgeOptions, Settings, should_enable, resolve, capabilities}
use aria_bridge.Client.Events.{
  Bridge, start, trim, add_breadcrumb, is_urgent, full_event, pass_on, send_event,
}
use aria_bridge.Client.Events.Breadcrumbs.{Message, add_all, crumb, add_all-keeps}
use aria_bridge.Client.Events.Delivery.{Delivered, send_event-delivers}
use aria_bridge.Client.Navigation.{Visit, emit_navigation, load, arrive, arrive_all}
use aria_bridge.Client.Navigation.Follows.{changes, steps}
use aria_bridge.Socket.Steps.{mark}

code : Unit {0}
unfolding should_allow allowed should_enable resolve capabilities start trim add_breadcrumb
    is_urgent full_event pass_on send_event add_all emit_navigation load arrive arrive_all changes
    steps text_eq get includes lower Spaced Covers State.init Socket.set_control_handler
    Socket.connect Socket.on_open Socket.start_heartbeat Socket.stop_heartbeat Socket.send_hello
    Socket.send_raw Socket.flush_buffer
code = tt

abbrev plain : BridgeOptions
plain = record {
  url = none;
  secret = some (text "s");
  project_id = none;
  max_breadcrumbs = some 2;
  throttle_ms = none;
  enabled = none;
  enable_pageview = none;
  enable_navigation = none;
  enable_network = none;
  enable_screenshot = none;
  enable_control = none;
  screenshot_provider = true;
}

abbrev to_string : Value → Text
to_string v = text "v"

abbrev settings : Settings
settings = resolve none plain

abbrev app : Bridge
app = start true (text "web") settings

-- A secret is enough in development, and not elsewhere.
starts : (should_enable none true plain ≡ true) × (should_enable none false plain ≡ false)
unfolding code
starts = (refl, refl)

advertised :
    capabilities settings
    ≡ text "error" ∷ text "console" ∷ text "navigation" ∷ text "screenshot" ∷ text "network" ∷ []
unfolding code
advertised = refl

throttles : allowed (Throttle.init 100) (1000 ∷ 1050 ∷ 1100 ∷ 1150 ∷ []) ≡ 1000 ∷ 1100 ∷ []
unfolding code
throttles = refl

allowed-paced_example :
    let t = Throttle.init 100 in
    Spaced 100 0 (allowed t (1000 ∷ 1050 ∷ []))
    × All (Covers 100 0 (allowed t (1000 ∷ 1050 ∷ []))) (1000 ∷ 1050 ∷ [])
allowed-paced_example = allowed-paced (Throttle.init 100) (1000 ∷ 1050 ∷ [])

abbrev message : Message
message = record { time = 5; level = text "log"; message = text "hi" }

add_all-keeps_example :
    (add_all (message ∷ message ∷ message ∷ []) app).breadcrumbs
    ≡ last_n app.settings.max_breadcrumbs ([] ++ map crumb (message ∷ message ∷ message ∷ []))
unfolding code
add_all-keeps_example = add_all-keeps (message ∷ message ∷ message ∷ []) app [] refl

abbrev trip : Fields
trip = field (text "type") (str (text "navigation")) end

send_event-delivers_example :
    Delivered (obj (redact_event (full_event 7 trip app))) app.ws (send_event 7 false trip app).ws
    × ((send_event 7 false trip app).throttler ≡ app.throttler)
unfolding code
send_event-delivers_example =
    send_event-delivers 7 false trip app 110 (text "avigation") refl (inr (inr (inl refl)))

abbrev route_of : Text → Value
route_of url = str url

abbrev visits : List Visit
visits =
    record { time = 1; initiator = text "pushState"; url = text "/b" }
    ∷ record { time = 2; initiator = text "popstate"; url = text "/b" }
    ∷ []

-- The bridge, connected.
abbrev connected_app : Bridge
connected_app = record app {
  ws = Socket.on_open 0 none (record app.ws { ws = mark State.opened 0 app.ws.ws });
}
