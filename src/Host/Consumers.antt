-- ===== src/Host/Consumers.antt =====
-- bin/aria-bridge-host.js: the messages of a consumer, and what a WebSocket's messages come to.
use aria_bridge.Prelude.{
  ℕ, ◌==◌, Bool, true, false, not, ◌&&◌, ◌||◌, Text, text, decimal, includes, length, if◌then◌else◌,
  Option, none, some, List, [], ◌∷◌, ◌++◌,
}
use aria_bridge.Value.{Value, null, nat, str, arr, obj, nil, cons, end, field, truthy}
use aria_bridge.Value.Props.{put}
use aria_bridge.Mcp.Validation.{filters}
use aria_bridge.Host.State.{
  Peer, socket, session, same_peer, Sock, Session, Subscription, Host, lookup, erase, insert,
  discard, same_key, update_session,
}
use aria_bridge.Host.Values.{
  prop, or, is_word, printable, joins, spread, lower, bridge_has_capability,
}
use aria_bridge.Host.Routing.{find_sock, is_open, send_to, caps_of}
use aria_bridge.Host.Sockets.{
  same_id, drop_sock, close_with, logged, return, failed_control, on_result, shown, handle_auth,
}
use aria_bridge.Host.Bridges.{handle_bridge}

abbrev pub subscribe_ack : Value → Subscription → Value
subscribe_ack client_id sub = obj (
    field (text "type") (str (text "subscribe_ack")) (
      field (text "clientId") client_id (
        field (text "levels") sub.levels (
          field (text "capabilities") sub.capabilities
            (field (text "llm_filter") (str sub.llm_filter) end)))))

-- The queue of a session gets one more command.
unfoldable pub enqueue : ℕ → Value → List Session → List Session
enqueue id body ss = update_session id (λ s. record s { queue = s.queue ++ body ∷ [] }) ss

unfoldable pub forward : List Peer → Value → Host → Host
forward [] body h = h
forward (socket id ∷ ps) body h = forward ps body (send_to id body h)
forward (session id ∷ ps) body h =
    forward ps body (record h { sessions = enqueue id body h.sessions })

abbrev pub control_forwarded : Value → ℕ → Value
control_forwarded id delivered = obj (
    field (text "type") (str (text "control_forwarded"))
      (field (text "id") id (field (text "delivered") (nat delivered) end)))

-- `bridge.readyState === 1`: a session is always ready.
abbrev pub is_peer_open : Peer → Host → Bool
is_peer_open (socket id) h = is_open id h
is_peer_open (session id) h = true

abbrev pub keep_target : Peer → Option Bool → Option (List Peer) → Option (List Peer)
keep_target p none rest = none
keep_target p (some false) rest = rest
keep_target p (some true) none = none
keep_target p (some true) (some ps) = some (p ∷ ps)

module _ (to_string : Value → Text) where
  unfoldable pub on_subscribe : Sock → Value → Host → Host × Bool
  on_subscribe s msg h =
      let raw = lower to_string (or (prop (text "llm_filter") msg) (str (text "off"))) in
      let sub : Subscription = record {
        levels = or (prop (text "levels") msg) (arr (cons (str (text "errors")) nil));
        capabilities = or (prop (text "capabilities") msg) (arr nil);
        llm_filter = if includes filters raw then raw else text "off";
      } in
      logged (printable s.client_id && joins sub.levels && joins sub.capabilities)
        (λ x. return (send_to s.id (subscribe_ack s.client_id sub) x))
        (record h { subscriptions = insert same_id s.id sub h.subscriptions })

  -- Whether a bridge is to get a control request.
  abbrev pub is_target : Host → Peer → Option Bool
  is_target h p =
      if is_peer_open p h
      then bridge_has_capability to_string (caps_of (lookup same_peer p h.capabilities))
          (text "control")
      else some false

  -- The bridges that get it, or `none` where the loop throws.
  unfoldable pub targets : Host → List Peer → Option (List Peer)
  targets h [] = some []
  targets h (p ∷ ps) = keep_target p (is_target h p) (targets h ps)

  abbrev pub request_targeted : Sock → Value → Value → Option (List Peer) → Host → Host × Bool
  request_targeted s id payload none h = (h, true)
  request_targeted s id payload (some []) h =
      return
        (send_to s.id (failed_control id (text "No bridge with control capability is connected")) h)
  request_targeted s id payload (some (p ∷ ps)) h = return (
      send_to s.id (control_forwarded id (length (p ∷ ps)))
        (forward (p ∷ ps) payload (record h { pending = insert same_key id s.id h.pending })))

  -- A control request of a consumer goes to the bridges that have the capability.
  unfoldable pub on_control : ℕ → Sock → Value → Host → Host × Bool
  on_control now s msg h =
      let given = prop (text "id") msg in
      let id = or given (str (shown to_string s.client_id ++ (text "-" ++ decimal now))) in
      let payload =
        obj (put (text "id") id (put (text "type") (str (text "control_request")) (spread msg))) in
      if not (truthy given) && not (printable s.client_id)
      then (h, true)
      else request_targeted s id payload (targets h h.bridges) h

  unfoldable pub handle_consumer : ℕ → Sock → Value → Host → Host × Bool
  handle_consumer now s msg h =
      let kind = prop (text "type") msg in
      if is_word (text "subscribe") kind
      then on_subscribe s msg h
      else if is_word (text "control_request") kind || is_word (text "control") kind
      then on_control now s msg h
      else if is_word (text "control_result") kind
      then return (on_result (prop (text "id") msg) msg h)
      else logged (printable s.client_id && printable (or kind (str (text "unknown")))) return h

  -- The messages of a client that has been authenticated.
  unfoldable pub handle_client : ℕ → Sock → Value → Host → Host × Bool
  handle_client now s msg h =
      if is_word (text "ping") (prop (text "type") msg)
      then return (send_to s.id (obj (field (text "type") (str (text "pong")) end)) h)
      else if is_word (text "bridge") s.role
      then handle_bridge to_string now s msg h
      else if is_word (text "consumer") s.role
      then handle_consumer now s msg h
      else return h

  unfoldable pub handle_message : ℕ → Sock → Value → Host → Host × Bool
  handle_message now s msg h =
      if s.is_authenticated then handle_client now s msg h else handle_auth to_string now s.id msg h

  -- `none` is a text that `JSON.parse` refuses, and to read the type of `null` throws.
  abbrev pub handle_raw : ℕ → Sock → Option Value → Host → Host × Bool
  handle_raw now s none h = (h, true)
  handle_raw now s (some null) h = (h, true)
  handle_raw now s (some msg) h = handle_message now s msg h

  abbrev pub caught : ℕ → Host × Bool → Host
  caught id (h, true) = close_with id 1011 (text "Internal error") h
  caught id (h, false) = h

  abbrev pub receive_on : ℕ → Option Sock → Option Value → Host → Host
  receive_on now none raw h = h
  receive_on now (some s) raw h = caught s.id (handle_raw now s raw h)

  -- The `message` event of the socket `id`.
  unfoldable pub receive : ℕ → ℕ → Option Value → Host → Host
  receive now id raw h = receive_on now (find_sock id h.socks) raw h

-- The entries that wait for a reply to this socket are dropped.
unfoldable pub drop_replies : ℕ → List (Value × ℕ) → List (Value × ℕ)
drop_replies id [] = []
drop_replies id ((k, reply_to) ∷ es) =
    let rest = drop_replies id es in if reply_to == id then rest else (k, reply_to) ∷ rest

unfoldable pub forget : Sock → Host → Host
forget s h =
    if is_word (text "bridge") s.role
    then record h {
      bridges = discard same_peer (socket s.id) h.bridges;
      capabilities = erase same_peer (socket s.id) h.capabilities;
      last_screenshot = erase same_id s.id h.last_screenshot;
    }
    else if is_word (text "consumer") s.role
    then record h {
      consumers = discard same_id s.id h.consumers;
      subscriptions = erase same_id s.id h.subscriptions;
    }
    else h

-- The `close` event.
unfoldable pub on_close : Sock → Host → Host
on_close s h =
    let g = forget s h in
    record g { pending = drop_replies s.id g.pending; socks = drop_sock s.id g.socks }
