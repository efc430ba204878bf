-- ===== src/Host/Secrecy.antt =====
-- bin/aria-bridge-host.js: a host that nobody gives its secret to says nothing and admits nobody.
pub mod Clients
use aria_bridge.Prelude.{
  ℕ, ◌==◌, Bool, true, false, not, ◌&&◌, ◌||◌, any, Text, text, text_eq, if_elim, Option, none,
  some, Option-cases, List, [], ◌∷◌, All, subst, sym, ◌≡◌, refl, arith, Bool-cases, inl, inr,
}
use aria_bridge.Value.{Value, null}
use aria_bridge.Socket.State.{Ready, connecting, opened, closing, closed}
use aria_bridge.Host.State.{Sock, Session, Host, init, discard}
use aria_bridge.Host.Values.{prop, or, is_word}
use aria_bridge.Host.Routing.{find_sock}
use aria_bridge.Host.Sockets.{
  update_sock, drop_sock, start_close, close_with, on_connection, auth_timeout_fires, handle_auth,
}
use aria_bridge.Host.Consumers.{
  handle_message, handle_raw, caught, receive, forget, on_close, drop_replies,
}
use aria_bridge.Host.Http.{
  Request, Response, get_http_session, with_session, with_body, endpoint, endpoints, connect,
  disconnect, serve, prune_from, prune_http_sessions,
}
use aria_bridge.Host.Steps.{
  Event, connection, timeout, closes, close, message, request, prune, begin_close, happen, Reach,
  begin, later,
}
use aria_bridge.Host.Secrecy.Clients.{
  IsSilent, IsStranger, auth_timeout_fires-IsSilent, begin_close-IsStranger, caught-IsSilent,
  close_with-IsSilent, drop_sock-IsStranger, find_sock-IsStranger, handle_auth-IsSilent,
  handle_raw-IsSilent, has_secret, on_close-IsSilent, receive-IsSilent, start_close-IsStranger,
  update_sock-IsStranger,
}

abbrev pub Misses : Text → Event → Type 0
Misses secret (message now id raw) = has_secret secret null raw ≡ false
Misses secret (request now drawn req) = has_secret secret req.secret_header req.body ≡ false
Misses secret e = Unit

no_session :
    (body : Value) (h : Host)
    → h.sessions ≡ []
    → get_http_session (prop (text "sessionId") body) h.sessions ≡ none
unfolding get_http_session
no_session body h e = rw e refl

-- The answer of a host that has no sessions, to a request that misses the secret.
with_session-IsSilent :
    {secret : Text} (body : Value) (k : Session → Host → Host × Response) (h : Host)
    → IsSilent secret h
    → IsSilent secret (with_session body k h).0
unfolding with_session
with_session-IsSilent body k h q = rw (no_session body h q.4) q

disconnect-IsSilent :
    {secret : Text} (body : Value) (h : Host)
    → IsSilent secret h
    → IsSilent secret (disconnect body h).0
unfolding disconnect
disconnect-IsSilent body h q = rw (no_session body h q.4) q

connect-IsSilent :
    {secret : Text} (now : ℕ) (drawn : Text) (header body : Value) (h : Host)
    → IsSilent secret h
    → is_word secret (or (prop (text "secret") body) header) ≡ false
    → IsSilent secret (connect now drawn header body h).0
unfolding connect
connect-IsSilent now drawn header body h q e =
    let wrong : is_word h.secret (or (prop (text "secret") body) header) ≡ false = rw (q.0) e in
    rw wrong q

endpoint-IsSilent :
    {secret : Text} (to_string : Value → Text) (now : ℕ) (drawn path : Text) (header body : Value)
    (h : Host)
    → IsSilent secret h
    → is_word secret (or (prop (text "secret") body) header) ≡ false
    → IsSilent secret (endpoint to_string now drawn header path body h).0
unfolding endpoint
endpoint-IsSilent {secret} to_string now drawn path header body h q e =
    let Quiet : Host × Response → Type 0 = λ r. IsSilent secret r.0 in
    let session = λ (k : Session → Host → Host × Response). with_session-IsSilent body k h q in
    if_elim Quiet (text_eq path (text "/bridge/connect"))
      (connect-IsSilent now drawn header body h q e)
      (if_elim Quiet (text_eq path (text "/bridge/hello")) (session _) (
        if_elim Quiet (text_eq path (text "/bridge/events")) (session _) (
          if_elim Quiet (text_eq path (text "/bridge/control/result")) (session _) (
            if_elim Quiet (text_eq path (text "/bridge/control/poll")) (session _) (
              if_elim Quiet (text_eq path (text "/bridge/heartbeat")) (session _) (
                if_elim Quiet (text_eq path (text "/bridge/disconnect"))
                  (disconnect-IsSilent body h q) q))))))

with_body-IsSilent :
    {secret : Text} (to_string : Value → Text) (now : ℕ) (drawn path : Text) (header : Value)
    (body : Option Value) (h : Host)
    → IsSilent secret h
    → has_secret secret header body ≡ false
    → IsSilent secret (with_body body (endpoint to_string now drawn header path) h).0
with_body-IsSilent to_string now drawn path header none h q e = q
with_body-IsSilent to_string now drawn path header (some null) h q e = q
with_body-IsSilent to_string now drawn path header (some v) h q e =
    endpoint-IsSilent to_string now drawn path header v h q (ground arith)

serve-IsSilent :
    {secret : Text} (to_string : Value → Text) (now : ℕ) (drawn : Text) (req : Request) (h : Host)
    → IsSilent secret h
    → has_secret secret req.secret_header req.body ≡ false
    → IsSilent secret (serve to_string now drawn req h).0
unfolding serve
serve-IsSilent {secret} to_string now drawn req h q e = elim (Option-cases req.path) [
  | inl bad ↦ rw bad q
  | inr (path, at) ↦ rw at (
      if_elim (λ (f : Host → Host × Response). IsSilent secret (f h).0)
        (req.is_post && any (text_eq path) endpoints)
        (with_body-IsSilent to_string now drawn path req.secret_header req.body h q e) q)
]

happen-IsSilent :
    {secret : Text} (to_string : Value → Text) (e : Event) (h : Host)
    → IsSilent secret h
    → Misses secret e
    → IsSilent secret (happen to_string e h)
unfolding happen on_connection prune_http_sessions prune_from
happen-IsSilent to_string connection h (a, b, c, d, e, f) m = (a, b, c, d, e, (refl, f))
happen-IsSilent to_string (timeout id) h q m = elim (Option-cases (find_sock id h.socks)) [
  | inl gone ↦ rw gone q
  | inr (s, found) ↦ rw found (auth_timeout_fires-IsSilent s h q)
]
happen-IsSilent to_string (closes id) h (a, b, c, d, e, f) m = (
  a,
  b,
  c,
  d,
  e,
  update_sock-IsStranger id (λ s. begin_close s.ready s) h.socks
      (λ s. begin_close-IsStranger s.ready s) f,
)
happen-IsSilent to_string (close id) h q m = elim (Option-cases (find_sock id h.socks)) [
  | inl gone ↦ rw gone q
  | inr (s, found) ↦ rw found (on_close-IsSilent s h q)
]
happen-IsSilent to_string (message now id raw) h q m = receive-IsSilent to_string now id raw h q m
happen-IsSilent to_string (request now drawn req) h q m =
    serve-IsSilent to_string now drawn req h q m
happen-IsSilent {secret} to_string (prune now) h q m =
    subst (λ ss. IsSilent secret (prune_from now ss h)) (sym q.4) q

-- As long as no message and no request has the secret of a host, the host sends nothing on its
-- sockets, and it has no bridges, no consumers, no sessions and no socket that is authenticated.
pub Reach-IsSilent :
    {secret : Text} (start : ℕ) (to_string : Value → Text) {h : Host}
    → Reach to_string (Misses secret) (init secret start) h
    → IsSilent secret h
unfolding init
Reach-IsSilent start to_string begin = (refl, refl, refl, refl, refl, tt)
Reach-IsSilent start to_string (later {h} r e m) =
    happen-IsSilent to_string e h (Reach-IsSilent start to_string r) m
