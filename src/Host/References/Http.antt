-- ===== src/Host/References/Http.antt =====
-- bin/aria-bridge-host.js: the HTTP bridge keeps the references right.
use aria_bridge.Prelude.{
  ℕ, ◌+◌, ltb, Bool, true, false, ◌&&◌, any, Text, text, text_eq, if◌then◌else◌, if_elim, Option,
  none, some, Option-cases, List, [], ◌∷◌, All-map, sym, subst, arith, inl, inr,
}
use aria_bridge.Value.{Value, null, undefined}
use aria_bridge.Host.State.{session, same_peer, Session, Host, discard}
use aria_bridge.Host.Values.{prop, or, is_word}
use aria_bridge.Host.Routing.{offer_all}
use aria_bridge.Host.Http.{
  Request, Response, heartbeat_stale_ms, get_http_session, remove_http_session, prune_from,
  prune_http_sessions, touch, connect, session_hello, complete_event, events_of, session_poll,
  session_heartbeat, control_result, session_result, session_events, disconnect_found, disconnect,
  with_found, with_session, deliver_to_consumers, deliver_rest, deliver_all, answered, endpoint,
  endpoints, with_body, serve,
}
use aria_bridge.Host.References.{Tidy, IsTidy, IsBridge, Greets, IsNumbered}
use aria_bridge.Host.References.Maps.{All-erase_kept, All-discard, All-add}
use aria_bridge.Host.References.Operations.{on_result-IsTidy}
use aria_bridge.Host.References.Routing.{offer_all-tracked}
use aria_bridge.Host.References.Bridges.{event_offered-IsTidy}

remove_http_session-IsTidy : (s : Session) (h : Host) → IsTidy h → IsTidy (remove_http_session s h)
unfolding remove_http_session
remove_http_session-IsTidy s h (b, c, g, u, l, p, m) = (
  All-map _ (IsBridge h.socks) (discard same_peer (session s.id) h.bridges) (λ p x. x.0)
      (All-discard same_peer (IsBridge h.socks) (session s.id) h.bridges b),
  c,
  All-erase_kept same_peer (Greets h.socks) (session s.id) h.capabilities g,
  u,
  l,
  p,
  m,
)

prune_from-IsTidy :
    (now : ℕ) (ss : List Session) (h : Host) → IsTidy h → IsTidy (prune_from now ss h)
unfolding prune_from
prune_from-IsTidy now [] h t = t
prune_from-IsTidy now (s ∷ ss) h t =
    let g = if ltb (s.last_seen + heartbeat_stale_ms) now then remove_http_session s h else h in
    prune_from-IsTidy now ss g (
      if_elim IsTidy (ltb (s.last_seen + heartbeat_stale_ms) now) (remove_http_session-IsTidy s h t)
        t)

pub prune_http_sessions-IsTidy :
    (now : ℕ) (h : Host) → IsTidy h → IsTidy (prune_http_sessions now h)
unfolding prune_http_sessions
prune_http_sessions-IsTidy now h t = prune_from-IsTidy now h.sessions h t

touch-IsTidy : (now : ℕ) (s : Session) (h : Host) → IsTidy h → IsTidy (touch now s h)
unfolding touch
touch-IsTidy now s h t = t

connect-IsTidy :
    (now : ℕ) (drawn : Text) (header body : Value) (h : Host)
    → IsTidy h
    → IsTidy (connect now drawn header body h).0
unfolding connect
connect-IsTidy now drawn header body h (b, c, g, u, l, p, m) =
    if_elim (λ (r : Host × Response). IsTidy r.0)
      (is_word h.secret (or (prop (text "secret") body) header))
      (
        All-add same_peer (IsBridge h.socks) (session h.next_id) h.bridges tt b,
        c,
        g,
        u,
        l,
        p,
        All-map (IsNumbered h.next_id) (IsNumbered (h.next_id + 1)) h.socks (λ s q. omega arith) m,
      )
      (b, c, g, u, l, p, m)

session_hello-IsTidy :
    (now : ℕ) (s : Session) (body : Value) (h : Host)
    → IsTidy h
    → IsTidy (session_hello now s body h).0
unfolding session_hello touch
session_hello-IsTidy now s body h (b, c, g, u, l, p, m) = (
  b,
  c,
  (tt, All-erase_kept same_peer (Greets h.socks) (session s.id) h.capabilities g),
  u,
  l,
  p,
  m,
)

session_poll-IsTidy :
    (now : ℕ) (s : Session) (body : Value) (h : Host)
    → IsTidy h
    → IsTidy (session_poll now s body h).0
unfolding session_poll touch
session_poll-IsTidy now s body h t = t

session_heartbeat-IsTidy :
    (now : ℕ) (s : Session) (body : Value) (h : Host)
    → IsTidy h
    → IsTidy (session_heartbeat now s body h).0
unfolding session_heartbeat touch
session_heartbeat-IsTidy now s body h t = t

session_result-IsTidy :
    (now : ℕ) (s : Session) (body : Value) (h : Host)
    → IsTidy h
    → IsTidy (session_result now s body h).0
unfolding session_result
session_result-IsTidy now s body h t =
    on_result-IsTidy (prop (text "id") body) (control_result body) (touch now s h)
      (touch-IsTidy now s h t)

disconnect_found-IsTidy : (o : Option Session) (h : Host) → IsTidy h → IsTidy (disconnect_found o h)
disconnect_found-IsTidy none h t = t
disconnect_found-IsTidy (some s) h t = remove_http_session-IsTidy s h t

with_found-IsTidy :
    (o : Option Session) (k : Session → Host → Host × Response) (h : Host)
    → ((s : Session) → IsTidy (k s h).0)
    → IsTidy h
    → IsTidy (with_found o k h).0
with_found-IsTidy none k h f t = t
with_found-IsTidy (some s) k h f t = f s

with_session-IsTidy :
    (body : Value) (k : Session → Host → Host × Response) (h : Host)
    → ((s : Session) → IsTidy (k s h).0)
    → IsTidy h
    → IsTidy (with_session body k h).0
unfolding with_session
with_session-IsTidy body k h f t =
    with_found-IsTidy (get_http_session (prop (text "sessionId") body) h.sessions) k h f t

module _ (to_string : Value → Text) where
  deliver_to_consumers-IsTidy :
      (now : ℕ) (msg : Value) (s : Session) (h : Host)
      → IsTidy h
      → IsTidy (deliver_to_consumers to_string now msg (session s.id) h).0
  unfolding deliver_to_consumers
  deliver_to_consumers-IsTidy now msg s h t =
      let r = offer_all to_string now msg (some msg) (session s.id) h.consumers [] h in
      let same = offer_all-tracked to_string now msg (some msg) (session s.id) h.consumers [] h in
      event_offered-IsTidy to_string undefined msg r (subst Tidy (sym same) t)

  deliver_rest-IsTidy :
      (r : Host × Bool) (k : Host → Host × Bool)
      → IsTidy r.0
      → ((h : Host) → IsTidy h → IsTidy (k h).0)
      → IsTidy (deliver_rest to_string r k).0
  deliver_rest-IsTidy (h, true) k t f = t
  deliver_rest-IsTidy (h, false) k t f = f h t

  deliver_all-IsTidy :
      (now : ℕ) (s : Session) (evs : List Value) (h : Host)
      → IsTidy h
      → IsTidy (deliver_all to_string now (session s.id) evs h).0
  unfolding deliver_all
  deliver_all-IsTidy now s [] h t = t
  deliver_all-IsTidy now s (ev ∷ evs) h t =
      deliver_rest-IsTidy
        (deliver_to_consumers to_string now (complete_event now ev) (session s.id) h)
        (deliver_all to_string now (session s.id) evs)
        (deliver_to_consumers-IsTidy now (complete_event now ev) s h t)
        (λ g u. deliver_all-IsTidy now s evs g u)

  answered-IsTidy : (r : Host × Bool) → IsTidy r.0 → IsTidy (answered to_string r).0
  answered-IsTidy (h, true) t = t
  answered-IsTidy (h, false) t = t

  session_events-IsTidy :
      (now : ℕ) (s : Session) (body : Value) (h : Host)
      → IsTidy h
      → IsTidy (session_events to_string now s body h).0
  unfolding session_events
  session_events-IsTidy now s body h t =
      answered-IsTidy
        (deliver_all to_string now (session s.id) (events_of (prop (text "events") body))
          (touch now s h))
        (deliver_all-IsTidy now s (events_of (prop (text "events") body)) (touch now s h)
          (touch-IsTidy now s h t))

  endpoint-IsTidy :
      (now : ℕ) (drawn path : Text) (header body : Value) (h : Host)
      → IsTidy h
      → IsTidy (endpoint to_string now drawn header path body h).0
  unfolding endpoint disconnect
  endpoint-IsTidy now drawn path header body h t =
      let Goal : Host × Response → Type 0 = λ r. IsTidy r.0 in
      let run = λ (k : Session → Host → Host × Response) (f : (s : Session) → IsTidy (k s h).0).
        with_session-IsTidy body k h f t in
      if_elim Goal (text_eq path (text "/bridge/connect"))
        (connect-IsTidy now drawn header body h t)
        (if_elim Goal (text_eq path (text "/bridge/hello"))
          (run (λ s. session_hello now s body) (λ s. session_hello-IsTidy now s body h t))
          (if_elim Goal (text_eq path (text "/bridge/events"))
            (run (λ s. session_events to_string now s body)
              (λ s. session_events-IsTidy now s body h t))
            (if_elim Goal (text_eq path (text "/bridge/control/result"))
              (run (λ s. session_result now s body) (λ s. session_result-IsTidy now s body h t))
              (if_elim Goal (text_eq path (text "/bridge/control/poll"))
                (run (λ s. session_poll now s body) (λ s. session_poll-IsTidy now s body h t))
                (if_elim Goal (text_eq path (text "/bridge/heartbeat"))
                  (run (λ s. session_heartbeat now s body)
                    (λ s. session_heartbeat-IsTidy now s body h t))
                  (if_elim Goal (text_eq path (text "/bridge/disconnect"))
                    (disconnect_found-IsTidy
                      (get_http_session (prop (text "sessionId") body) h.sessions) h t)
                    t))))))

  with_body-IsTidy :
      (body : Option Value) (k : Value → Host → Host × Response) (h : Host)
      → ((v : Value) → IsTidy (k v h).0)
      → IsTidy h
      → IsTidy (with_body body k h).0
  with_body-IsTidy none k h f t = t
  with_body-IsTidy (some null) k h f t = t
  with_body-IsTidy (some v) k h f t = f v

  pub serve-IsTidy :
      (now : ℕ) (drawn : Text) (req : Request) (h : Host)
      → IsTidy h
      → IsTidy (serve to_string now drawn req h).0
  unfolding serve
  serve-IsTidy now drawn req h t = elim (Option-cases req.path) [
    | inl bad ↦ rw bad t
    | inr (path, at) ↦ rw at (
        if_elim (λ (f : Host → Host × Response). IsTidy (f h).0)
          (req.is_post && any (text_eq path) endpoints)
          (with_body-IsTidy req.body (endpoint to_string now drawn req.secret_header path) h
            (λ v. endpoint-IsTidy now drawn path req.secret_header v h t) t)
          t)
  ]
