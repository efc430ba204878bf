-- ===== src/Host/Control.antt =====
-- bin/aria-bridge-host.js: a control request of a consumer, from the consumer to a bridge and back.
use aria_bridge.Prelude.{
  ℕ, Bool, true, Text, text, text_eq, text_eq_refl, ◌∙◌, none, some, List, [], ◌∷◌, ◌++◌, ◌≡◌, refl,
  ap, Bool-cases, inl, inr,
}
use aria_bridge.Value.{Value, str, obj, arr, items, Fields, end, field, undefined, truthy}
use aria_bridge.Value.Props.{get, put}
use aria_bridge.Host.State.{session, Sock, Session, Host, lookup, erase, insert, same_key}
use aria_bridge.Host.Values.{prop, spread}
use aria_bridge.Host.Routing.{is_open, send_to}
use aria_bridge.Host.Sockets.{on_result, return}
use aria_bridge.Host.Consumers.{on_control, targets, forward, enqueue, control_forwarded}
use aria_bridge.Host.Sessions.{
  get_http_session-update, touch-session, session_poll-session, seen, drained,
}
use aria_bridge.Host.Http.{
  Request, Response, respond, json, empty, get_http_session, touch, serve, endpoint, session_poll,
  session_result, with_session, control_result,
}

-- The request as the bridges get it.
abbrev pub control_payload : Text → Value → Value
control_payload id msg =
    obj (put (text "id") (str id) (put (text "type") (str (text "control_request")) (spread msg)))

abbrev pub post : Text → Value → Request
post path body = record {
  is_post = true;
  path = some path;
  secret_header = undefined;
  body = some body;
}

module _ {ℓ κ} {K : Type ℓ} {V : Type κ} (same : K → K → Bool) where
  pub lookup-erase : (k : K) (m : List (K × V)) → lookup same k (erase same k m) ≡ none
  unfolding lookup erase
  lookup-erase k [] = refl
  lookup-erase k ((j, v) ∷ m) = elim (Bool-cases (same j k)) [
    | inl e ↦ rw e (lookup-erase k m)
    | inr e ↦ rw (e, e) (lookup-erase k m)
  ]

lookup-insert_text :
    (id : Text) (reply_to : ℕ) (m : List (Value × ℕ))
    → lookup same_key (str id) (insert same_key (str id) reply_to m) ≡ some reply_to
unfolding lookup same_key
lookup-insert_text id reply_to m = rw (text_eq_refl id) refl

-- The host after a result has gone to the one that asked.
abbrev pub passed : Value → ℕ → Value → Host → Host
passed id reply_to body h = record h {
  pending = erase same_key id h.pending;
  sent = h.sent ++ record { socket = reply_to; body = body } ∷ [];
}

on_result-passes :
    (id : Value) (reply_to : ℕ) (body : Value) (h : Host)
    → is_open reply_to h ≡ true
    → lookup same_key id h.pending ≡ some reply_to
    → on_result id body h ≡ passed id reply_to body h
unfolding on_result send_to
on_result-passes id reply_to body h o e = rw (e, o) refl

on_result-unknown :
    (id body : Value) (h : Host) → lookup same_key id h.pending ≡ none → on_result id body h ≡ h
unfolding on_result
on_result-unknown id body h e = rw e refl

abbrev pub commands : List Value → Response
commands vs = respond 200 (json (obj (field (text "commands") (arr (items vs)) end)))

-- The host after the request, which went to one session alone.
abbrev asked : Sock → Session → Text → Value → Host → Host
asked s b id msg h = record h {
  pending = insert same_key (str id) s.id h.pending;
  sessions = enqueue b.id (control_payload id msg) h.sessions;
  sent = h.sent ++ record { socket = s.id; body = control_forwarded (str id) 1 } ∷ [];
}

abbrev pushed : Session → Value → Session
pushed b body = record b { queue = b.queue ++ body ∷ [] }

asked-session :
    (s : Sock) (b : Session) (key : Value) (id : Text) (msg : Value) (h : Host)
    → get_http_session key h.sessions ≡ some b
    → get_http_session key (asked s b id msg h).sessions ≡ some (pushed b (control_payload id msg))
unfolding enqueue
asked-session s b key id msg h e =
    get_http_session-update key (λ x. pushed x (control_payload id msg)) h.sessions b (λ x. refl) e

-- A result that comes in for an id that somebody waits for.
session_result-passes :
    (now : ℕ) (b : Session) (id : Text) (reply_to : ℕ) (body : Fields) (h : Host)
    → is_open reply_to h ≡ true
    → get (text "id") body ≡ str id
    → lookup same_key (str id) h.pending ≡ some reply_to
    → session_result now b (obj body) h
      ≡ (passed (str id) reply_to (control_result (obj body)) (touch now b h), respond 204 empty)
unfolding session_result touch is_open
session_result-passes now b id reply_to body h o e w =
    let result = control_result (obj body) in
    let g = touch now b h in
    ap (λ k. (on_result k result g, respond 204 empty)) e
    ∙ ap (λ x. (x, respond 204 empty)) (on_result-passes (str id) reply_to result g o w)

session_result-unknown :
    (now : ℕ) (b : Session) (id : Text) (body : Fields) (h : Host)
    → get (text "id") body ≡ str id
    → lookup same_key (str id) h.pending ≡ none
    → session_result now b (obj body) h ≡ (touch now b h, respond 204 empty)
unfolding session_result touch
session_result-unknown now b id body h e w =
    let result = control_result (obj body) in
    let g = touch now b h in
    ap (λ k. (on_result k result g, respond 204 empty)) e
    ∙ ap (λ x. (x, respond 204 empty)) (on_result-unknown (str id) result g w)

module _ (to_string : Value → Text) where
  on_control-asks :
      (now c : ℕ) (id : Text) (s : Sock) (b : Session) (msg : Value) (h : Host)
      → is_open s.id h ≡ true
      → prop (text "id") msg ≡ str (c ∷ id)
      → targets to_string h h.bridges ≡ some (session b.id ∷ [])
      → on_control to_string now s msg h ≡ return (asked s b (c ∷ id) msg h)
  unfolding on_control forward send_to is_open truthy
  on_control-asks now c id s b msg h o e t = rw (e, t, o) refl

  serve-poll :
      (now : ℕ) (drawn key : Text) (body : Fields) (h : Host) (b : Session)
      → get (text "sessionId") body ≡ str key
      → get_http_session (str key) h.sessions ≡ some b
      → serve to_string now drawn (post (text "/bridge/control/poll") (obj body)) h
        ≡ session_poll now b (obj body) h
  unfolding serve endpoint with_session text_eq
  serve-poll now drawn key body h b e f = rw (e, f) refl

  serve-result :
      (now : ℕ) (drawn key : Text) (body : Fields) (h : Host) (b : Session)
      → get (text "sessionId") body ≡ str key
      → get_http_session (str key) h.sessions ≡ some b
      → serve to_string now drawn (post (text "/bridge/control/result") (obj body)) h
        ≡ session_result now b (obj body) h
  unfolding serve endpoint with_session text_eq
  serve-result now drawn key body h b e f = rw (e, f) refl

  -- A consumer whose socket is open asks, with a text that is not empty as the id, and one session
  -- alone is to get the request. Then the session's next poll has what was queued before and the
  -- request, and a poll after it has nothing; the session's result for the id goes to the consumer,
  -- after the note that the request was forwarded, and another result for the id goes nowhere.
  pub control-roundtrip :
      (now c : ℕ) (id drawn key : Text) (s : Sock) (b : Session) (msg : Value)
      (poll answer : Fields) (h : Host)
      → is_open s.id h ≡ true
      → prop (text "id") msg ≡ str (c ∷ id)
      → targets to_string h h.bridges ≡ some (session b.id ∷ [])
      → get_http_session (str key) h.sessions ≡ some b
      → get (text "sessionId") poll ≡ str key
      → get (text "sessionId") answer ≡ str key
      → get (text "id") answer ≡ str (c ∷ id)
      → let asking = on_control to_string now s msg h in
        let polling = serve to_string now drawn (post (text "/bridge/control/poll") (obj poll)) in
        let answering =
          serve to_string now drawn (post (text "/bridge/control/result") (obj answer)) in
        let polled = polling asking.0 in
        let answered = answering polled.0 in
        (polled.1 ≡ commands (b.queue ++ control_payload (c ∷ id) msg ∷ []))
        × ((polling polled.0).1 ≡ commands [])
        × (answered.0.sent
            ≡ (h.sent ++ record { socket = s.id; body = control_forwarded (str (c ∷ id)) 1 } ∷ [])
              ++ record { socket = s.id; body = control_result (obj answer) } ∷ [])
        × ((answering answered.0).0.sent ≡ answered.0.sent)
  unfolding session_poll touch is_open
  control-roundtrip now c id drawn key s b msg poll answer h o e t f p a i =
      let k = c ∷ id in
      let g = asked s b k msg h in
      let b1 = pushed b (control_payload k msg) in
      let found = asked-session s b (str key) k msg h f in
      let p1 = (session_poll now b1 (obj poll) g).0 in
      let b2 = drained now b1 in
      let drained_found = session_poll-session now b1 (str key) (obj poll) g found in
      let p2 = passed (str k) s.id (control_result (obj answer)) (touch now b2 p1) in
      let passed_found = touch-session now b2 (str key) p1 drained_found in
      let waits : lookup same_key (str k) p1.pending ≡ some s.id =
        lookup-insert_text k s.id h.pending in
      rw
        (
          on_control-asks now c id s b msg h o e t,
          serve-poll now drawn key poll g b1 p found,
          serve-poll now drawn key poll p1 b2 p drained_found,
          serve-result now drawn key answer p1 b2 a drained_found,
          session_result-passes now b2 k s.id answer p1 o i waits,
          serve-result now drawn key answer p2 (seen now b2) a passed_found,
          session_result-unknown now (seen now b2) k answer p2 i
              (lookup-erase same_key (str k) p1.pending),
        )
        (refl, refl, refl, refl)
