-- ===== src/Client/Navigation.antt =====
-- `startBridge`, src/client.ts: the navigation tracking of the web.
pub mod Follows
use aria_bridge.Prelude.{
  ℕ, true, Text, text, text_eq, if◌then◌else◌, Option, none, some, List, [], ◌∷◌,
}
use aria_bridge.Value.{Value, undefined, str}
use aria_bridge.Client.Events.{
  Bridge, NavigationInfo, navigation_event, navigation_message, add_breadcrumb, send_event,
}

-- `lastUrl`, and the bridge that events are sent on.
pub record Tracker : Type 0 where
  pub last_url : Text
  pub bridge : Bridge

abbrev pub from_value : Option Text → Value
from_value none = undefined
from_value (some url) = str url

-- `fromUrl || 'unknown'`.
abbrev pub from_text : Option Text → Text
from_text (some (c ∷ s)) = c ∷ s
from_text _ = text "unknown"

-- `emitNavigation`. The route is the path of the url, as `new URL` finds it.
unfoldable pub emit_navigation :
    (route_of : Text → Value) → ℕ → Text → Text → Option Text → Bridge → Bridge
emit_navigation route_of now initiator to from b =
    let info : NavigationInfo = record {
      from = from_value from;
      to = to;
      route = route_of to;
      initiator = initiator;
    } in
    let message = navigation_message (from_text from) info in
    send_event now true (navigation_event message info) (add_breadcrumb now (text "info") message b)

-- The tracker once it is set up, with the event of the initial load.
unfoldable pub load : (route_of : Text → Value) → ℕ → Text → Bridge → Tracker
load route_of now url b = record {
  last_url = url;
  bridge = emit_navigation route_of now (text "load") url none b;
}

-- `pushState` and `replaceState` after the original call, `popstate` and `hashchange`: the page is at
-- `next` now.
unfoldable pub arrive : (route_of : Text → Value) → ℕ → Text → Text → Tracker → Tracker
arrive route_of now initiator next t = if text_eq next t.last_url then t else record {
  last_url = next;
  bridge = emit_navigation route_of now initiator next (some t.last_url) t.bridge;
}

-- What the page does, with the time and the initiator.
pub record Visit : Type 0 where
  pub time : ℕ
  pub initiator : Text
  pub url : Text

unfoldable pub arrive_all : (route_of : Text → Value) → List Visit → Tracker → Tracker
arrive_all route_of [] t = t
arrive_all route_of (v ∷ vs) t = arrive_all route_of vs (arrive route_of v.time v.initiator v.url t)
