-- ===== src/Socket/Reconnect.antt =====
-- src/websocket.ts, `scheduleReconnect`: how long a bridge waits before it connects again, and when.
use aria_bridge.Prelude.{
  ℕ, zero, suc, ◌+◌, ◌*◌, ◌^◌, ◌≤◌, min, Bool, true, false, Text, text, text_eq, leb, length,
  if_elim, Option, none, some, ◌≡◌, refl, arith, ◌&&◌, get_elem?, not, ltb, ◌==◌, List, [], ◌∷◌,
  All,
}
use native.Mathlib.Nat.{pow-suc}
use aria_bridge.Value.{Value, str, obj}
use aria_bridge.Constants.{
  reconnect_initial_delay_ms, buffer_limit, heartbeat_interval_ms, heartbeat_timeout_ms,
}
use aria_bridge.Socket.Redact.{validate_and_redact}
use aria_bridge.Socket.State.{
  connecting, opened, closed, TimerKind, reconnect, ping, deadline, Timer, Config, BridgeWebSocket,
  init, is_open,
}
use aria_bridge.Socket.Operations.{
  auth_message, clear_id, clear_timer, send_raw, stop_heartbeat, start_heartbeat,
  set_heartbeat_timeout, reset_held, reset_heartbeat_timeout, send_hello, enqueue, send_safe, send,
  flush_buffer, back_off, connect, on_open, on_error, schedule_unheld, schedule_reconnect, on_close,
  disconnect, reconnect_fires, ping_fires, deadline_fires, handle_type, handle_incoming,
  control_settles, set_control_handler,
}
use aria_bridge.Socket.Steps.{
  mark, fire, Step, connects, sends, disconnects, sets_handler, opens, receives, errs,
  starts_closing, closes, fires, settles, Reach, fresh, next,
}

-- The rejections of `n` attempts in a row.
pub fail_times : ℕ → BridgeWebSocket → BridgeWebSocket
fail_times zero s = s
fail_times (suc n) s = back_off true (fail_times n s)

-- After `n` failed attempts from a delay of one second the delay is the second doubled `n` times,
-- or half a minute if that is less.
pub fail_times-delay :
    (n : ℕ) (s : BridgeWebSocket)
    → s.reconnect_delay ≡ reconnect_initial_delay_ms
    → (fail_times n s).reconnect_delay ≡ min (1000 * 2 ^ n) 30000
unfolding fail_times back_off
fail_times-delay zero s e = rw e
fail_times-delay (suc n) s e = rw (fail_times-delay n s e, pow-suc) (omega arith)

-- How long a timer of a kind waits.
abbrev pub IsWait : TimerKind → ℕ → Type 0
IsWait reconnect delay = (1000 ≤ delay) × (delay ≤ 30000)
IsWait ping delay = delay ≡ heartbeat_interval_ms
IsWait deadline delay = delay ≡ heartbeat_timeout_ms

abbrev pub Waits : List Timer → Type 0
Waits timers = All (λ t. IsWait t.kind t.delay) timers

abbrev HasDelay : BridgeWebSocket → Type 0
HasDelay s = (1000 ≤ s.reconnect_delay) × (s.reconnect_delay ≤ 30000) × Waits s.timers

clear_id-Waits : (id : ℕ) (ts : List Timer) → Waits ts → Waits (clear_id id ts)
unfolding clear_id
clear_id-Waits id [] w = tt
clear_id-Waits id (t ∷ ts) (d, w) =
    if_elim Waits (t.id == id) (clear_id-Waits id ts w) (d, clear_id-Waits id ts w)

clear_timer-Waits : (held : Option ℕ) (ts : List Timer) → Waits ts → Waits (clear_timer held ts)
clear_timer-Waits none ts w = w
clear_timer-Waits (some id) ts w = clear_id-Waits id ts w

stop_heartbeat-HasDelay : (s : BridgeWebSocket) → HasDelay s → HasDelay (stop_heartbeat s)
unfolding stop_heartbeat
stop_heartbeat-HasDelay s (lo, hi, w) = (
  lo,
  hi,
  clear_timer-Waits s.heartbeat_timeout _ (clear_timer-Waits s.heartbeat_interval s.timers w),
)

set_heartbeat_timeout-HasDelay :
    (s : BridgeWebSocket) → HasDelay s → HasDelay (set_heartbeat_timeout s)
unfolding set_heartbeat_timeout
set_heartbeat_timeout-HasDelay s (lo, hi, w) =
    (lo, hi, (refl, clear_timer-Waits s.heartbeat_timeout s.timers w))

start_heartbeat-HasDelay : (s : BridgeWebSocket) → HasDelay s → HasDelay (start_heartbeat s)
unfolding start_heartbeat
start_heartbeat-HasDelay s h = let (lo, hi, w) = stop_heartbeat-HasDelay s h in (lo, hi, (refl, w))

flush_buffer-HasDelay : (s : BridgeWebSocket) → HasDelay s → HasDelay (flush_buffer s)
unfolding flush_buffer
flush_buffer-HasDelay s h =
    if_elim HasDelay (not (is_open s.ws)) h (if_elim HasDelay (ltb 0 s.dropped) h h)

-- A socket that has opened starts the delay again.
on_open-HasDelay :
    (id : ℕ) (page : Option (Text × Text)) (s : BridgeWebSocket)
    → HasDelay s
    → HasDelay (on_open id page s)
unfolding on_open send_hello send_raw start_heartbeat stop_heartbeat
on_open-HasDelay id page s (lo, hi, w) =
    let ready = record s { reconnect_delay = reconnect_initial_delay_ms; hello_sent = false } in
    flush_buffer-HasDelay
      (send_hello page (send_raw (auth_message s.config) (start_heartbeat ready)))
      (start_heartbeat-HasDelay ready (omega arith, omega arith, w))

back_off-HasDelay : (retry : Bool) (s : BridgeWebSocket) → HasDelay s → HasDelay (back_off retry s)
unfolding back_off
back_off-HasDelay false s h = h
back_off-HasDelay true s (lo, hi, w) = (omega arith, omega arith, w)

connect-HasDelay :
    (retry made : Bool) (s : BridgeWebSocket) → HasDelay s → HasDelay (connect retry made s)
unfolding connect
connect-HasDelay retry true s h = h
connect-HasDelay retry false s h = back_off-HasDelay retry s h

schedule_unheld-HasDelay :
    (held : Option ℕ) (s : BridgeWebSocket) → HasDelay s → HasDelay (schedule_unheld held s)
unfolding schedule_unheld
schedule_unheld-HasDelay none s (lo, hi, w) = (lo, hi, ((lo, hi), w))
schedule_unheld-HasDelay (some id) s h = h

reset_held-HasDelay :
    (held : Option ℕ) (s : BridgeWebSocket) → HasDelay s → HasDelay (reset_held held s)
unfolding reset_held
reset_held-HasDelay none s h = h
reset_held-HasDelay (some id) s (lo, hi, w) =
    set_heartbeat_timeout-HasDelay (record s { timers = clear_id id s.timers })
      (lo, hi, clear_id-Waits id s.timers w)

send_safe-HasDelay :
    (safe : Option Value) (s : BridgeWebSocket) → HasDelay s → HasDelay (send_safe safe s)
unfolding send_safe send_raw enqueue
send_safe-HasDelay none s h = h
send_safe-HasDelay (some safe) s h =
    if_elim HasDelay (is_open s.ws) h (if_elim HasDelay (leb buffer_limit (length s.buffer)) h h)

handle_type-HasDelay :
    (kind id : Value) (s : BridgeWebSocket) → HasDelay s → HasDelay (handle_type kind id s)
unfolding handle_type reset_heartbeat_timeout send_raw
handle_type-HasDelay (str kind) id s h =
    if_elim HasDelay (text_eq kind (text "pong")) (reset_held-HasDelay s.heartbeat_timeout s h) (
      if_elim HasDelay (text_eq kind (text "ping")) h
        (if_elim HasDelay (text_eq kind (text "control_request") && s.control_handler) h h))
handle_type-HasDelay _ id s h = h

handle_incoming-HasDelay :
    (raw : Option Value) (s : BridgeWebSocket) → HasDelay s → HasDelay (handle_incoming raw s)
unfolding handle_incoming
handle_incoming-HasDelay none s h = h
handle_incoming-HasDelay (some (obj msg)) s h = handle_type-HasDelay _ _ s h
handle_incoming-HasDelay (some _) s h = h

fire-HasDelay :
    (made : Bool) (t : Timer) (kind : TimerKind) (s : BridgeWebSocket)
    → HasDelay s
    → HasDelay (fire made t kind s)
unfolding fire reconnect_fires ping_fires deadline_fires send_raw
fire-HasDelay made t reconnect s (lo, hi, w) =
    connect-HasDelay true made _ (lo, hi, clear_id-Waits t.id s.timers w)
fire-HasDelay made t ping s h = set_heartbeat_timeout-HasDelay _ h
fire-HasDelay made t deadline s (lo, hi, w) = (lo, hi, clear_id-Waits t.id s.timers w)

disconnect-HasDelay : (s : BridgeWebSocket) → HasDelay s → HasDelay (disconnect s)
unfolding disconnect
disconnect-HasDelay s (lo, hi, w) =
    stop_heartbeat-HasDelay
      (record s { timers = clear_timer s.reconnect_timeout s.timers; reconnect_timeout = none })
      (lo, hi, clear_timer-Waits s.reconnect_timeout s.timers w)

Step-HasDelay : {s t : BridgeWebSocket} → Step s t → HasDelay s → HasDelay t
unfolding send set_control_handler control_settles send_raw on_error on_close schedule_reconnect
Step-HasDelay {s} (connects made) h = connect-HasDelay false made s h
Step-HasDelay {s} (sends event) h = send_safe-HasDelay (validate_and_redact event) s h
Step-HasDelay {s} disconnects h = disconnect-HasDelay s h
Step-HasDelay sets_handler h = h
Step-HasDelay {s} (opens id page _) h =
    on_open-HasDelay id page (record s { ws = mark opened id s.ws }) h
Step-HasDelay {s} (receives raw) h = handle_incoming-HasDelay raw s h
Step-HasDelay {s} (errs id) h = back_off-HasDelay _ _ (stop_heartbeat-HasDelay s h)
Step-HasDelay (starts_closing id) h = h
Step-HasDelay {s} (closes id) h =
    schedule_unheld-HasDelay _ _ (stop_heartbeat-HasDelay (record s { ws = mark closed id s.ws }) h)
Step-HasDelay {s} (fires made i t at) h = fire-HasDelay made t t.kind s h
Step-HasDelay (settles before after id outcome e) h = h

Reach-all : (config : Config) (s : BridgeWebSocket) → Reach config s → HasDelay s
unfolding init
Reach-all config s fresh = (omega arith, omega arith, tt)
Reach-all config t (next {s} r st) = Step-HasDelay st (Reach-all config s r)

-- Whatever happened before, each timer that runs to connect again waits at least one second and at
-- most half a minute, each one that sends pings 15 s, and each one that waits for an answer 30 s.
pub Reach-HasDelay : (config : Config) (s : BridgeWebSocket) → Reach config s → Waits s.timers
Reach-HasDelay config s r = let (lo, hi, w) = Reach-all config s r in w

-- After `disconnect`, which leaves no socket, the close event of the socket that it closed starts
-- the reconnect timer, and the timer makes a new socket.
pub disconnect-reconnects :
    (s : BridgeWebSocket) (id : ℕ)
    → let t = disconnect s in
      let u = on_close (record t { ws = mark closed id t.ws }) in
      (t.ws ≡ none)
      × ((timer : Timer) × (get_elem? u.timers 0 ≡ some timer)
          × (timer.kind ≡ reconnect)
          × ((fire true timer timer.kind u).ws
              ≡ some (record { id = t.next_id + 1; ready = connecting })))
unfolding disconnect stop_heartbeat on_close schedule_reconnect schedule_unheld fire reconnect_fires
    connect
disconnect-reconnects s id = (
  refl,
  (record { id = s.next_id; kind = reconnect; delay = s.reconnect_delay }, refl, refl, refl),
)
