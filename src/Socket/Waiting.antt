-- ===== src/Socket/Waiting.antt =====
-- src/websocket.ts: how much waits in the buffer, and that nothing waits while the socket is open.
use aria_bridge.Prelude.{
  ℕ, ◌≤◌, Bool, true, false, Text, text, text_eq, ltb, leb, length, if_elim, Option, none, some, [],
  ◌∷◌, ◌++◌, ◌≡◌, refl, arith, ◌&&◌, ◌⊎◌, inl, inr, Bool-cases, leb→le, drop, ◌<◌, length-append,
  length-drop,
}
use aria_bridge.Value.{Value, str, obj}
use aria_bridge.Constants.{buffer_limit}
use aria_bridge.Socket.Redact.{validate_and_redact}
use aria_bridge.Socket.State.{
  Ready, closing, closed, Connection, TimerKind, reconnect, ping, deadline, Timer, Config,
  BridgeWebSocket, init, is_open, is_opened,
}
use aria_bridge.Socket.Operations.{
  clear_id, send_raw, stop_heartbeat, start_heartbeat, set_heartbeat_timeout, reset_held,
  reset_heartbeat_timeout, send_hello, enqueue, send_safe, send, flush_buffer, back_off, connect,
  on_open, on_error, schedule_unheld, schedule_reconnect, on_close, disconnect, reconnect_fires,
  ping_fires, deadline_fires, handle_type, handle_incoming, control_settles, set_control_handler,
  close_ready, close_socket,
}
use aria_bridge.Socket.Steps.{
  mark, fire, Step, connects, sends, disconnects, sets_handler, opens, receives, errs,
  starts_closing, closes, fires, settles, Reach, fresh, next,
}

-- A buffer holds at most 200 events, nothing was dropped while there was room, and while the socket
-- is open nothing waits.
abbrev pub IsTidy : BridgeWebSocket → Type 0
IsTidy s =
    (length s.buffer ≤ 200)
    × ((s.dropped ≡ 0) ⊎ (length s.buffer ≡ 200))
    × ((is_open s.ws ≡ false) ⊎ ((s.buffer ≡ []) × (s.dropped ≡ 0)))

enqueue-IsTidy :
    (ev : Value) (s : BridgeWebSocket) → is_open s.ws ≡ false → IsTidy s → IsTidy (enqueue ev s)
unfolding enqueue
enqueue-IsTidy ev s shut_now (few, full, idle) =
    elim (Bool-cases (leb buffer_limit (length s.buffer))) [
      | inl over ↦
          let many = leb→le buffer_limit (length s.buffer) over in
          let exact : length (drop 1 s.buffer ++ ev ∷ []) ≡ 200 =
            omega (arith, length-append (drop 1 s.buffer) (ev ∷ []), length-drop 1 s.buffer) in
          rw over (omega (arith, exact), inr exact, inl shut_now)
      | inr room ↦
          let under : length s.buffer < buffer_limit = ground arith in
          rw room
            (omega (arith, length-append s.buffer (ev ∷ [])), inl (ground arith), inl shut_now)
    ]

send_safe-IsTidy :
    (safe : Option Value) (s : BridgeWebSocket) → IsTidy s → IsTidy (send_safe safe s)
unfolding send_safe send_raw
send_safe-IsTidy none s h = h
send_safe-IsTidy (some safe) s h = elim (Bool-cases (is_open s.ws)) [
  | inl open_now ↦ rw open_now h
  | inr shut_now ↦ rw shut_now (enqueue-IsTidy safe s shut_now h)
]

flush_buffer-IsTidy :
    (s : BridgeWebSocket)
    → length s.buffer ≤ 200
    → (s.dropped ≡ 0) ⊎ (length s.buffer ≡ 200)
    → IsTidy (flush_buffer s)
unfolding flush_buffer
flush_buffer-IsTidy s few full = elim (Bool-cases (is_open s.ws)) [
  | inl open_now ↦ elim (Bool-cases (ltb 0 s.dropped)) [
    | inl lost ↦ rw (open_now, lost) (omega arith, inl refl, inr (refl, refl))
    | inr none_lost ↦
        let zero_lost : s.dropped ≡ 0 = ground arith in
        rw (open_now, none_lost) (omega arith, inl zero_lost, inr (refl, zero_lost))
  ]
  | inr shut_now ↦ rw shut_now (few, full, inl shut_now)
]

on_open-IsTidy :
    (id : ℕ) (page : Option (Text × Text)) (s : BridgeWebSocket)
    → length s.buffer ≤ 200
    → (s.dropped ≡ 0) ⊎ (length s.buffer ≡ 200)
    → IsTidy (on_open id page s)
unfolding on_open send_hello send_raw start_heartbeat stop_heartbeat
on_open-IsTidy id page s few full = flush_buffer-IsTidy _ few full

connect-IsTidy :
    (retry made : Bool) (s : BridgeWebSocket) → IsTidy s → IsTidy (connect retry made s)
unfolding connect back_off
connect-IsTidy retry true s (few, full, idle) = (few, full, inl refl)
connect-IsTidy true false s h = h
connect-IsTidy false false s h = h

back_off-IsTidy : (retry : Bool) (s : BridgeWebSocket) → IsTidy s → IsTidy (back_off retry s)
unfolding back_off
back_off-IsTidy true s h = h
back_off-IsTidy false s h = h

-- The socket may close.
hold-IsTidy :
    (ws : Option Connection) (s : BridgeWebSocket)
    → (is_open s.ws ≡ false → is_open ws ≡ false)
    → IsTidy s
    → IsTidy (record s { ws = ws })
hold-IsTidy ws s closes_too (few, full, inl shut_now) = (few, full, inl (closes_too shut_now))
hold-IsTidy ws s closes_too (few, full, inr idle) = (few, full, inr idle)

mark-closed :
    (ready : Ready) (id : ℕ) (ws : Option Connection)
    → is_opened ready ≡ false
    → is_open ws ≡ false
    → is_open (mark ready id ws) ≡ false
mark-closed ready id none shut h = refl
mark-closed ready id (some c) shut h = ground arith

close_socket-closed : (ws : Option Connection) → is_open (close_socket ws) ≡ false
close_socket-closed none = refl
close_socket-closed (some c) = closing_shut c.ready
  where
    closing_shut : (r : Ready) → is_opened (close_ready r) ≡ false
    closing_shut closed = refl
    closing_shut _ = refl

schedule_unheld-IsTidy :
    (held : Option ℕ) (s : BridgeWebSocket) → IsTidy s → IsTidy (schedule_unheld held s)
unfolding schedule_unheld
schedule_unheld-IsTidy none s h = h
schedule_unheld-IsTidy (some id) s h = h

reset_held-IsTidy : (held : Option ℕ) (s : BridgeWebSocket) → IsTidy s → IsTidy (reset_held held s)
unfolding reset_held set_heartbeat_timeout
reset_held-IsTidy none s h = h
reset_held-IsTidy (some id) s h = h

handle_type-IsTidy :
    (kind id : Value) (s : BridgeWebSocket) → IsTidy s → IsTidy (handle_type kind id s)
unfolding handle_type reset_heartbeat_timeout send_raw
handle_type-IsTidy (str kind) id s h =
    if_elim IsTidy (text_eq kind (text "pong")) (reset_held-IsTidy s.heartbeat_timeout s h) (
      if_elim IsTidy (text_eq kind (text "ping")) h
        (if_elim IsTidy (text_eq kind (text "control_request") && s.control_handler) h h))
handle_type-IsTidy _ id s h = h

handle_incoming-IsTidy :
    (raw : Option Value) (s : BridgeWebSocket) → IsTidy s → IsTidy (handle_incoming raw s)
unfolding handle_incoming
handle_incoming-IsTidy none s h = h
handle_incoming-IsTidy (some (obj msg)) s h = handle_type-IsTidy _ _ s h
handle_incoming-IsTidy (some _) s h = h

fire-IsTidy :
    (made : Bool) (t : Timer) (kind : TimerKind) (s : BridgeWebSocket)
    → IsTidy s
    → IsTidy (fire made t kind s)
unfolding fire reconnect_fires ping_fires deadline_fires set_heartbeat_timeout send_raw
fire-IsTidy made t reconnect s h = connect-IsTidy true made _ h
fire-IsTidy made t ping s h = h
fire-IsTidy made t deadline s h =
    hold-IsTidy (close_socket s.ws) (record s { timers = clear_id t.id s.timers })
      (λ _. close_socket-closed s.ws) h

Step-IsTidy : {s t : BridgeWebSocket} → Step s t → IsTidy s → IsTidy t
unfolding send set_control_handler control_settles send_raw disconnect on_error on_close
    schedule_reconnect stop_heartbeat back_off
Step-IsTidy {s} (connects made) h = connect-IsTidy false made s h
Step-IsTidy {s} (sends event) h = send_safe-IsTidy (validate_and_redact event) s h
Step-IsTidy {s} disconnects h = hold-IsTidy none s (λ _. refl) h
Step-IsTidy sets_handler h = h
Step-IsTidy (opens id page _) (few, full, _) = on_open-IsTidy id page _ few full
Step-IsTidy {s} (receives raw) h = handle_incoming-IsTidy raw s h
Step-IsTidy {s} (errs id) h = back_off-IsTidy _ _ h
Step-IsTidy {s} (starts_closing id) h =
    hold-IsTidy (mark closing id s.ws) s (mark-closed closing id s.ws refl) h
Step-IsTidy {s} (closes id) h =
    schedule_unheld-IsTidy s.reconnect_timeout _
      (hold-IsTidy (mark closed id s.ws) s (mark-closed closed id s.ws refl) h)
Step-IsTidy {s} (fires made i t at) h = fire-IsTidy made t t.kind s h
Step-IsTidy (settles before after id outcome e) h = h

Reach-IsTidy : {config : Config} {s : BridgeWebSocket} → Reach config s → IsTidy s
unfolding init
Reach-IsTidy fresh = (omega arith, inl refl, inl refl)
Reach-IsTidy (next r st) = Step-IsTidy st (Reach-IsTidy r)

-- Whatever happened before, nothing waits while the socket that is held is open: an event that is
-- sent at once overtakes none that was buffered.
pub Reach-no_overtaking :
    (config : Config) (s : BridgeWebSocket)
    → Reach config s
    → is_open s.ws ≡ true
    → (s.buffer ≡ []) × (s.dropped ≡ 0)
Reach-no_overtaking config s r open_now = idle_of (Reach-IsTidy r).2
  where
    idle_of :
        (is_open s.ws ≡ false) ⊎ ((s.buffer ≡ []) × (s.dropped ≡ 0))
        → (s.buffer ≡ []) × (s.dropped ≡ 0)
    idle_of (inl shut_now) = absurd (ground arith)
    idle_of (inr idle) = idle
