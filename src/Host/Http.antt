-- ===== src/Host/Http.antt =====
-- bin/aria-bridge-host.js: the HTTP bridge, for clients that have no WebSocket.
use aria_bridge.Prelude.{
  ℕ, ◌+◌, any, ltb, Bool, true, false, ◌&&◌, Text, text, text_eq, if◌then◌else◌, Option, none, some,
  List, [], ◌∷◌,
}
use aria_bridge.Value.{
  Value, undefined, null, bool, nat, str, arr, obj, nil, items, elems, end, field,
}
use aria_bridge.Host.State.{
  Peer, session, same_peer, Session, Host, erase, insert, discard, add, update_session,
}
use aria_bridge.Host.Values.{prop, or, is_word, spread}
use aria_bridge.Host.Routing.{offer_all}
use aria_bridge.Host.Sockets.{on_result}
use aria_bridge.Host.Bridges.{fill, event_offered}

abbrev pub heartbeat_stale_ms : ℕ
heartbeat_stale_ms = 15000

-- A request whose body has come. `path` is `none` where `new URL` throws, and `body` is `none` where
-- `readJson` rejects: an empty body is `{}`.
pub record Request : Type 0 where
  pub is_post : Bool
  pub path : Option Text
  pub secret_header : Value
  pub body : Option Value

pub data Body : Type 0 where
  empty : Body
  plain : Text → Body
  json : Value → Body

pub record Response : Type 0 where
  pub status : ℕ
  pub content : Body

abbrev pub respond : ℕ → Body → Response
respond status content = record { status = status; content = content }

-- `getHttpSession(id)`: the keys are texts.
unfoldable pub get_http_session : Value → List Session → Option Session
get_http_session id [] = none
get_http_session id (s ∷ ss) = if is_word s.session_id id then some s else get_http_session id ss

-- The sessions but those of a key.
unfoldable pub remove_session : Text → List Session → List Session
remove_session key [] = []
remove_session key (s ∷ ss) =
    let rest = remove_session key ss in if text_eq s.session_id key then rest else s ∷ rest

-- A session has no entry among the last screenshots, which come from WebSockets alone.
unfoldable pub remove_http_session : Session → Host → Host
remove_http_session s h = record h {
  sessions = remove_session s.session_id h.sessions;
  bridges = discard same_peer (session s.id) h.bridges;
  capabilities = erase same_peer (session s.id) h.capabilities;
}

unfoldable pub prune_from : ℕ → List Session → Host → Host
prune_from now [] h = h
prune_from now (s ∷ ss) h =
    prune_from now ss
      (if ltb (s.last_seen + heartbeat_stale_ms) now then remove_http_session s h else h)

unfoldable pub prune_http_sessions : ℕ → Host → Host
prune_http_sessions now h = prune_from now h.sessions h

-- `session.lastSeen = Date.now()`.
unfoldable pub touch : ℕ → Session → Host → Host
touch now s h = record h {
  sessions = update_session s.id (λ x. record x { last_seen = now }) h.sessions;
}

-- `POST /bridge/connect`, with the random text that `makeSessionId` draws.
unfoldable pub connect : ℕ → Text → Value → Value → Host → Host × Response
connect now drawn secret_header body h =
    if is_word h.secret (or (prop (text "secret") body) secret_header)
    then (
      record h {
        sessions =
            record { id = h.next_id; session_id = drawn; queue = []; last_seen = now }
            ∷ remove_session drawn h.sessions;
        bridges = add same_peer (session h.next_id) h.bridges;
        next_id = h.next_id + 1;
      },
      respond 200 (json (obj (field (text "sessionId") (str drawn) end))),
    )
    else (h, respond 401 (plain (text "unauthorized")))

unfoldable pub session_hello : ℕ → Session → Value → Host → Host × Response
session_hello now s body h =
    let seen = touch now s h in
    (
      record seen {
        capabilities =
            insert same_peer (session s.id)
              (record {
                capabilities = or (prop (text "capabilities") body) (arr nil);
                rest =
                    prop (text "route") body
                    ∷ prop (text "url") body
                    ∷ or (prop (text "protocol") body) (nat 2)
                    ∷ or (prop (text "platform") body) (str (text "roblox"))
                    ∷ prop (text "projectId") body
                    ∷ [];
              })
              seen.capabilities;
      },
      respond 200 (
          json
            (obj (field (text "ok") (bool true) (field (text "clientId") (str s.session_id) end)))),
    )

-- An event as it goes out.
unfoldable pub complete_event : ℕ → Value → Value
complete_event now ev = obj (
    fill (text "type") (str (text "log"))
      (fill (text "level") (str (text "info")) (fill (text "timestamp") (nat now) (spread ev))))

abbrev pub events_of : Value → List Value
events_of (arr xs) = elems xs
events_of v = []

unfoldable pub session_poll : ℕ → Session → Value → Host → Host × Response
session_poll now s body h =
    let seen = touch now s h in
    (
      record seen { sessions = update_session s.id (λ x. record x { queue = [] }) seen.sessions },
      respond 200 (json (obj (field (text "commands") (arr (items s.queue)) end))),
    )

unfoldable pub session_heartbeat : ℕ → Session → Value → Host → Host × Response
session_heartbeat now s body h = (touch now s h, respond 204 empty)

-- A result names what it has; what it lacks is `undefined`, which is not sent.
abbrev pub control_result : Value → Value
control_result body = obj (
    field (text "type") (str (text "control_result")) (
      field (text "id") (prop (text "id") body) (
        field (text "ok") (prop (text "ok") body) (
          field (text "result") (prop (text "result") body)
            (field (text "error") (prop (text "error") body) end)))))

unfoldable pub session_result : ℕ → Session → Value → Host → Host × Response
session_result now s body h =
    (on_result (prop (text "id") body) (control_result body) (touch now s h), respond 204 empty)

abbrev pub disconnect_found : Option Session → Host → Host
disconnect_found none h = h
disconnect_found (some s) h = remove_http_session s h

unfoldable pub disconnect : Value → Host → Host × Response
disconnect body h = (
  disconnect_found (get_http_session (prop (text "sessionId") body) h.sessions) h,
  respond 204 empty,
)

-- An endpoint that needs a session.
abbrev pub with_found : Option Session → (Session → Host → Host × Response) → Host → Host × Response
with_found none k h = (h, respond 404 (plain (text "session not found")))
with_found (some s) k h = k s h

unfoldable pub with_session : Value → (Session → Host → Host × Response) → Host → Host × Response
with_session body k h = with_found (get_http_session (prop (text "sessionId") body) h.sessions) k h

abbrev pub endpoints : List Text
endpoints =
    text "/bridge/connect"
    ∷ text "/bridge/hello"
    ∷ text "/bridge/events"
    ∷ text "/bridge/control/result"
    ∷ text "/bridge/control/poll"
    ∷ text "/bridge/heartbeat"
    ∷ text "/bridge/disconnect"
    ∷ []

-- What the `catch` of the server answers.
abbrev pub failed : Host → Host × Response
failed h = (h, respond 500 (plain (text "error")))

-- To read a property of `null` throws.
abbrev pub with_body : Option Value → (Value → Host → Host × Response) → Host → Host × Response
with_body none k h = failed h
with_body (some null) k h = failed h
with_body (some body) k h = k body h

abbrev pub at_path : Option Text → (Text → Host → Host × Response) → Host → Host × Response
at_path none k h = failed h
at_path (some path) k h = k path h

module _ (to_string : Value → Text) where
  -- The line of the log names the type and the level, and no client.
  unfoldable pub deliver_to_consumers : ℕ → Value → Peer → Host → Host × Bool
  deliver_to_consumers now msg bridge h =
      event_offered to_string undefined msg
        (offer_all to_string now msg (some msg) bridge h.consumers [] h)

  -- The loop over the events ends where a round throws.
  abbrev pub deliver_rest : Host × Bool → (Host → Host × Bool) → Host × Bool
  deliver_rest (h, true) k = (h, true)
  deliver_rest (h, false) k = k h

  unfoldable pub deliver_all : ℕ → Peer → List Value → Host → Host × Bool
  deliver_all now bridge [] h = (h, false)
  deliver_all now bridge (ev ∷ evs) h =
      deliver_rest (deliver_to_consumers now (complete_event now ev) bridge h)
        (deliver_all now bridge evs)

  abbrev pub answered : Host × Bool → Host × Response
  answered (h, true) = failed h
  answered (h, false) = (h, respond 204 empty)

  unfoldable pub session_events : ℕ → Session → Value → Host → Host × Response
  session_events now s body h =
      answered
        (deliver_all now (session s.id) (events_of (prop (text "events") body)) (touch now s h))

  -- The endpoints, by path.
  unfoldable pub endpoint : ℕ → Text → Value → Text → Value → Host → Host × Response
  endpoint now drawn secret_header path body h =
      if text_eq path (text "/bridge/connect")
      then connect now drawn secret_header body h
      else if text_eq path (text "/bridge/hello")
      then with_session body (λ s. session_hello now s body) h
      else if text_eq path (text "/bridge/events")
      then with_session body (λ s. session_events now s body) h
      else if text_eq path (text "/bridge/control/result")
      then with_session body (λ s. session_result now s body) h
      else if text_eq path (text "/bridge/control/poll")
      then with_session body (λ s. session_poll now s body) h
      else if text_eq path (text "/bridge/heartbeat")
      then with_session body (λ s. session_heartbeat now s body) h
      else if text_eq path (text "/bridge/disconnect")
      then disconnect body h
      else (h, respond 404 (plain (text "not found")))

  -- The request handler: only an endpoint reads the body.
  unfoldable pub serve : ℕ → Text → Request → Host → Host × Response
  serve now drawn req h =
      at_path req.path
        (λ path.
          if req.is_post && any (text_eq path) endpoints
          then with_body req.body (endpoint now drawn req.secret_header path)
          else λ x. (x, respond 404 (plain (text "not found"))))
        h
