-- ===== src/Client/Navigation/Follows.antt =====
-- `startBridge`, src/client.ts: the navigation events that go out tell the way of the page.
use aria_bridge.Prelude.{ℕ, Text, text, text_eq, if◌then◌else◌, List, [], ◌∷◌}
use aria_bridge.Value.{Value, str}
use aria_bridge.Host.Values.{prop}
use aria_bridge.Socket.State.{Frame}
use aria_bridge.Client.Events.{navigation_value}
use aria_bridge.Client.Navigation.{Visit}

-- What a frame tells of a way: the socket that it went out on, its type, and the navigation.
pub record Told : Type 0 where
  pub socket : ℕ
  pub kind : Value
  pub navigation : Value

abbrev pub told : Frame → Told
told f = record {
  socket = f.socket;
  kind = prop (text "type") f.body;
  navigation = prop (text "navigation") f.body;
}

-- The visits that change the url of the page.
unfoldable pub changes : Text → List Visit → List Visit
changes url [] = []
changes url (v ∷ vs) = if text_eq v.url url then changes url vs else v ∷ changes v.url vs

-- A navigation to a url, on a socket.
abbrev pub step : (route_of : Text → Value) → ℕ → Text → Value → Text → Told
step route_of id initiator from to = record {
  socket = id;
  kind = str (text "navigation");
  navigation =
      navigation_value
        (record { from = from; to = to; route = route_of to; initiator = initiator });
}

-- Each step from one url to the next.
unfoldable pub steps : (route_of : Text → Value) → ℕ → Text → List Visit → List Told
steps route_of id url [] = []
steps route_of id url (v ∷ vs) =
    step route_of id v.initiator (str url) v.url ∷ steps route_of id v.url vs
