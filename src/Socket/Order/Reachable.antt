-- ===== src/Socket/Order/Reachable.antt =====
-- src/websocket.ts: what goes out first on a socket, for every run.
use aria_bridge.Prelude.{
  ℕ, ◌+◌, Bool, true, false, Text, Option, none, some, List, [], ◌≡◌, refl, arith, ap, ◌∙◌, sym,
  ◌⊎◌, inl, inr, subst, ◌==◌, ==_iff, Bool-cases,
}
use aria_bridge.Socket.Redact.{validate_and_redact}
use aria_bridge.Socket.State.{
  Ready, connecting, opened, closing, closed, Connection, TimerKind, reconnect, ping, deadline,
  Timer, Frame, Config, BridgeWebSocket, init,
}
use aria_bridge.Socket.Operations.{
  clear_id, send_raw, stop_heartbeat, start_heartbeat, send_hello, send, flush_buffer, on_open,
  on_error, schedule_reconnect, on_close, disconnect, reconnect_fires, ping_fires, deadline_fires,
  control_settles, set_control_handler, auth_message, close_ready, close_socket,
}
use aria_bridge.Socket.Steps.{
  mark, may_open, is_connecting, fire, Step, connects, sends, disconnects, sets_handler, opens,
  receives, errs, starts_closing, closes, fires, settles, Reach, fresh, next,
}
use aria_bridge.Socket.Opening.{on_open-sends}
use aria_bridge.Socket.Order.Methods.{
  IsOrderly, send_raw-IsOrderly, start_heartbeat-IsOrderly, set_heartbeat_timeout-IsOrderly,
  send_hello-IsOrderly, send_safe-IsOrderly, flush_buffer-IsOrderly, back_off-IsOrderly,
  connect-IsOrderly, schedule_unheld-IsOrderly, handle_incoming-IsOrderly,
}
use aria_bridge.Socket.Order.{sent_on, Opens, Current, Held, Ordered, Ordered-hold, Ordered-greet}

connecting_of : (r : Ready) → is_connecting r ≡ true → r ≡ connecting
connecting_of connecting h = refl
connecting_of opened h = cc
connecting_of closing h = cc
connecting_of closed h = cc

flush_buffer-keeps :
    (s : BridgeWebSocket)
    → ((flush_buffer s).ws ≡ s.ws)
      × ((flush_buffer s).config ≡ s.config)
      × ((flush_buffer s).next_id ≡ s.next_id)
unfolding flush_buffer
flush_buffer-keeps s = ground arith

on_open-keeps :
    (id : ℕ) (page : Option (Text × Text)) (s : BridgeWebSocket)
    → ((on_open id page s).ws ≡ s.ws)
      × ((on_open id page s).config ≡ s.config)
      × ((on_open id page s).next_id ≡ s.next_id + 1)
unfolding on_open send_hello send_raw start_heartbeat stop_heartbeat
on_open-keeps id page s = flush_buffer-keeps _

module _ (config : Config) where
  on_open-IsOrderly :
      (id : ℕ) (page : Option (Text × Text)) (s : BridgeWebSocket)
      → IsOrderly config s
      → IsOrderly config (on_open id page s)
  unfolding on_open
  on_open-IsOrderly id page s o = flush_buffer-IsOrderly config _ (
      send_hello-IsOrderly config page _ (
        send_raw-IsOrderly config (auth_message s.config) _ (start_heartbeat-IsOrderly config _ o)))

  on_open-greets :
      (id : ℕ) (page : Option (Text × Text)) (s : BridgeWebSocket)
      → s.ws ≡ some (record { id = id; ready = connecting })
      → IsOrderly config s
      → IsOrderly config
          (on_open id page (record s { ws = some (record { id = id; ready = opened }) }))
  on_open-greets id page s held (e, o) =
      let t = record s { ws = some (record { id = id; ready = opened }) } in
      let (ws, conf, n) = on_open-keeps id page t in
      let sends = (on_open-sends id page s).0 in
      (
        conf ∙ e,
        rw (ws, n, sends, e)
            (Ordered-greet config id s.next_id (s.next_id + 1) page s.wire _ (omega arith)
              (subst (λ ws'. Ordered config ws' s.next_id s.wire) held o)),
      )

  hold-IsOrderly :
      (ws : Option Connection) (s : BridgeWebSocket)
      → Held config ws s.next_id s.wire
      → IsOrderly config s
      → IsOrderly config (record s { ws = ws })
  hold-IsOrderly ws s h (e, o) = (e, Ordered-hold config s.ws ws s.next_id s.wire h o)

  -- A socket that is known to be no longer open is held with no more said of it.
  Held-mark :
      (ready : Ready) (id : ℕ) (ws : Option Connection) (n : ℕ) (wire : List Frame)
      → Current config ready (sent_on id wire)
      → Held config ws n wire
      → Held config (mark ready id ws) n wire
  Held-mark ready id none n wire cur h = tt
  Held-mark ready id (some c) n wire cur (lt, h) = elim (Bool-cases (c.id == id)) [
    | inl same ↦
        rw same (
          lt,
          subst (λ k. Current config ready (sent_on k wire)) (sym ((==_iff c.id id).0 same)) cur,
        )
    | inr other ↦ rw other (lt, h)
  ]

  mark-IsOrderly :
      (ready : Ready) (id : ℕ) (s : BridgeWebSocket)
      → Current config ready (sent_on id s.wire)
      → IsOrderly config s
      → IsOrderly config (record s { ws = mark ready id s.ws })
  mark-IsOrderly ready id s cur (e, o) =
      hold-IsOrderly (mark ready id s.ws) s (Held-mark ready id s.ws s.next_id s.wire cur o.held)
        (e, o)

  opens-IsOrderly :
      (id : ℕ) (page : Option (Text × Text)) (ws : Option Connection) (s : BridgeWebSocket)
      → s.ws ≡ ws
      → may_open id ws ≡ true
      → IsOrderly config s
      → IsOrderly config (on_open id page (record s { ws = mark opened id ws }))
  opens-IsOrderly id page none s held may o =
      on_open-IsOrderly id page (record s { ws = none }) (hold-IsOrderly none s tt o)
  opens-IsOrderly id page (some c) s held may o = elim (Bool-cases (c.id == id)) [
    | inl same ↦
        let same_id = (==_iff c.id id).0 same in
        let is_new = connecting_of c.ready (ground arith) in
        rw (same, same_id)
          (on_open-greets id page s
            (held ∙ ap some (λ i. record { id = same_id i; ready = is_new i })) o)
    | inr other ↦ rw (other, ← held) (on_open-IsOrderly id page s o)
  ]

  Held-close_socket :
      (ws : Option Connection) (n : ℕ) (wire : List Frame)
      → Held config ws n wire
      → Held config (close_socket ws) n wire
  Held-close_socket none n wire h = tt
  Held-close_socket (some c) n wire (lt, h) = (lt, closes_current c.ready)
    where
      closes_current : (r : Ready) → Current config (close_ready r) (sent_on c.id wire)
      closes_current closed = tt
      closes_current _ = tt

  fire-IsOrderly :
      (made : Bool) (t : Timer) (kind : TimerKind) (s : BridgeWebSocket)
      → IsOrderly config s
      → IsOrderly config (fire made t kind s)
  unfolding fire reconnect_fires ping_fires deadline_fires
  fire-IsOrderly made t reconnect s o = connect-IsOrderly config true made _ o
  fire-IsOrderly made t ping s o =
      set_heartbeat_timeout-IsOrderly config _ (send_raw-IsOrderly config _ s o)
  fire-IsOrderly made t deadline s (e, o) =
      hold-IsOrderly (close_socket s.ws) (record s { timers = clear_id t.id s.timers })
        (Held-close_socket s.ws s.next_id s.wire o.held) (e, o)

  on_close-IsOrderly : (s : BridgeWebSocket) → IsOrderly config s → IsOrderly config (on_close s)
  unfolding on_close schedule_reconnect stop_heartbeat
  on_close-IsOrderly s o = schedule_unheld-IsOrderly config s.reconnect_timeout _ o

  Step-IsOrderly : {s t : BridgeWebSocket} → Step s t → IsOrderly config s → IsOrderly config t
  unfolding send set_control_handler control_settles disconnect on_error stop_heartbeat
  Step-IsOrderly {s} (connects made) o = connect-IsOrderly config false made s o
  Step-IsOrderly {s} (sends event) o = send_safe-IsOrderly config (validate_and_redact event) s o
  Step-IsOrderly {s} disconnects o = hold-IsOrderly none s tt o
  Step-IsOrderly sets_handler o = o
  Step-IsOrderly {s} (opens id page h) o = opens-IsOrderly id page s.ws s refl h o
  Step-IsOrderly {s} (receives raw) o = handle_incoming-IsOrderly config raw s o
  Step-IsOrderly {s} (errs id) o = back_off-IsOrderly config _ _ o
  Step-IsOrderly {s} (starts_closing id) o = mark-IsOrderly closing id s tt o
  Step-IsOrderly {s} (closes id) o = on_close-IsOrderly _ (mark-IsOrderly closed id s tt o)
  Step-IsOrderly {s} (fires made i t at) o = fire-IsOrderly made t t.kind s o
  Step-IsOrderly (settles before after id outcome e) o = send_raw-IsOrderly config _ _ o

  Reach-IsOrderly : {s : BridgeWebSocket} → Reach config s → IsOrderly config s
  unfolding init sent_on
  Reach-IsOrderly fresh =
      (refl, record { greeted = λ id. inl refl; unused = λ id h. refl; held = tt })
  Reach-IsOrderly (next r st) = Step-IsOrderly st (Reach-IsOrderly r)

-- Whatever happened before, what went out on a socket is nothing, or begins with the authentication
-- and the greeting.
pub Reach-greets :
    (config : Config) (s : BridgeWebSocket) (id : ℕ)
    → Reach config s
    → (sent_on id s.wire ≡ []) ⊎ Opens config (sent_on id s.wire)
Reach-greets config s id r = (Reach-IsOrderly config r).1.greeted id

-- Whatever happened before, an open socket that is held has been sent the authentication and the
-- greeting.
pub Reach-greets_open :
    (config : Config) (s : BridgeWebSocket) (id : ℕ)
    → Reach config s
    → s.ws ≡ some (record { id = id; ready = opened })
    → Opens config (sent_on id s.wire)
Reach-greets_open config s id r held =
    (subst (λ ws. Held config ws s.next_id s.wire) held (Reach-IsOrderly config r).1.held).1
