-- ===== src/Host/Routing.antt =====
-- bin/aria-bridge-host.js: which consumers get an event, and the guard against too many of them.
use aria_bridge.Prelude.{
  ℕ, ◌+◌, ltb, ◌==◌, Bool, true, false, not, ◌&&◌, ◌||◌, Text, text, text_eq, if◌then◌else◌, Option,
  none, some, List, [], ◌∷◌, ◌++◌,
}
use aria_bridge.Prelude as P
use aria_bridge.Value.{Value, undefined, str}
use aria_bridge.Socket.State.{is_opened}
use aria_bridge.Host.State.{Peer, same_peer, Sock, Hello, Subscription, Host, lookup}
use aria_bridge.Host.Values.{
  prop, or, is_word, ◌>>=◌, lower, subscription_includes_level, bridge_has_capability,
  consumer_wants_capability,
}

abbrev pub window_ms : ℕ
window_ms = 10000

abbrev pub window_limit : ℕ
window_limit = 500

unfoldable pub find_sock : ℕ → List Sock → Option Sock
find_sock id [] = none
find_sock id (s ∷ ss) = if s.id == id then some s else find_sock id ss

abbrev pub is_ready : Option Sock → Bool
is_ready none = false
is_ready (some s) = is_opened s.ready

-- `ws.readyState === 1`.
unfoldable pub is_open : ℕ → Host → Bool
is_open id h = is_ready (find_sock id h.socks)

-- `ws.send(JSON.stringify(body))`: a socket that is not open sends nothing.
unfoldable pub send_to : ℕ → Value → Host → Host
send_to id body h =
    if is_open id h
    then record h { sent = h.sent ++ record { socket = id; body = body } ∷ [] }
    else h

-- A window that has passed begins anew.
unfoldable pub renew_window : ℕ → Host → Host
renew_window now h =
    if ltb (h.window_start + window_ms) now
    then record h { window_start = now; window_count = 0 }
    else h

unfoldable pub count_event : ℕ → Host → Host
count_event now h =
    let renewed = renew_window now h in record renewed { window_count = renewed.window_count + 1 }

-- The levels that a filter keeps.
unfoldable pub filter_keeps : Text → Text → Bool
filter_keeps filter lvl =
    if text_eq filter (text "minimal")
    then not (text_eq lvl (text "debug") || text_eq lvl (text "log"))
    else if text_eq filter (text "aggressive")
    then not (text_eq lvl (text "debug") || text_eq lvl (text "log") || text_eq lvl (text "info"))
    else true

-- The types of messages that are a capability.
unfoldable pub is_capability : Text → Bool
is_capability t =
    text_eq t (text "pageview")
    || text_eq t (text "screenshot")
    || text_eq t (text "control")
    || text_eq t (text "network")
    || text_eq t (text "navigation")

-- `subscription?.levels` and `subscription?.capabilities`; the default of the first is that of
-- `subscriptionIncludesLevel` too.
abbrev pub levels_of : Option Subscription → Value
levels_of none = undefined
levels_of (some s) = s.levels

abbrev pub requested_of : Option Subscription → Value
requested_of none = undefined
requested_of (some s) = s.capabilities

abbrev pub caps_of : Option Hello → Value
caps_of none = undefined
caps_of (some m) = m.capabilities

module _ (to_string : Value → Text) where
  -- `filterEventForConsumer`; the clock is read once for a message.
  unfoldable pub filter_event : ℕ → Value → Text → Host → Host × Bool
  filter_event now message filter h =
      let counted = count_event now h in
      (
        counted,
        (if ltb window_limit counted.window_count && not (text_eq filter (text "off"))
            then is_word (text "error") (prop (text "level") message)
            else filter_keeps filter (lower to_string (or (prop (text "level") message) (str [])))),
      )

  abbrev pub filter_if : ℕ → Value → Option Subscription → Host → Host × Bool
  filter_if now message none h = (h, true)
  filter_if now message (some s) h = filter_event now message (P.lower s.llm_filter) h

  -- The rest of `shouldRouteToConsumer`, which reads no state but the two entries.
  unfoldable pub suits : Option Subscription → Option Hello → Value → Option Bool
  suits subscription hello message =
      subscription_includes_level to_string (levels_of subscription)
        (or (prop (text "level") message) (str (text "info")))
      >>= (λ level_ok.
          let message_type = lower to_string (or (prop (text "type") message) (str [])) in
          if not level_ok
          then some false
          else if is_capability message_type
          then consumer_wants_capability to_string (requested_of subscription) message_type
            >>= (λ wanted.
                if not wanted
                then some false
                else bridge_has_capability to_string (caps_of hello) message_type)
          else some true)

  abbrev pub suits_if :
      Host × Bool → Option Subscription → Option Hello → Value → Host × Option Bool
  suits_if (h, false) subscription hello message = (h, some false)
  suits_if (h, true) subscription hello message = (h, suits subscription hello message)

  unfoldable pub should_route : ℕ → Value → Peer → ℕ → Host → Host × Option Bool
  should_route now message bridge consumer h =
      let subscription = lookup (λ a b. a == b) consumer h.subscriptions in
      suits_if (filter_if now message subscription h) subscription
        (lookup same_peer bridge h.capabilities) message

  -- The message goes out where there is one to send and the consumer gets it.
  abbrev pub hand_over : Option Value → ℕ → Host × Option Bool → Host × Option Bool
  hand_over (some payload) consumer (h, some true) = (send_to consumer payload h, some true)
  hand_over payload consumer answer = answer

  -- A round of `consumers.forEach`.
  unfoldable pub offer : ℕ → Value → Option Value → Peer → ℕ → Host → Host × Option Bool
  offer now message payload bridge consumer h =
      if is_open consumer h
      then hand_over payload consumer (should_route now message bridge consumer h)
      else (h, some false)

  abbrev pub proceed :
      ℕ
      → Host × Option Bool
      → List ℕ
      → (List ℕ → Host → Host × Option (List ℕ))
      → Host × Option (List ℕ)
  proceed consumer (h, none) chosen k = (h, none)
  proceed consumer (h, some false) chosen k = k chosen h
  proceed consumer (h, some true) chosen k = k (chosen ++ consumer ∷ []) h

  -- The loop over the consumers: those that get the message, or `none` where a round throws.
  unfoldable pub offer_all :
      ℕ → Value → Option Value → Peer → List ℕ → List ℕ → Host → Host × Option (List ℕ)
  offer_all now message payload bridge [] chosen h = (h, some chosen)
  offer_all now message payload bridge (c ∷ cs) chosen h =
      proceed c (offer now message payload bridge c h) chosen
        (offer_all now message payload bridge cs)
