-- ===== src/Socket/Ownership.antt =====
-- src/websocket.ts: no method or callback loses a timer that it started.
use aria_bridge.Prelude.{
  ℕ, zero, suc, subst, ◌+◌, ◌≤◌, Bool, true, false, not, Text, text, text_eq, ltb, leb, length,
  if_elim, Option, none, some, List, [], ◌∷◌, ◌≡◌, refl, arith, get_elem?, ◌&&◌, ap, ◌∙◌,
}
use aria_bridge.Value.{Value, str, obj}
use aria_bridge.Constants.{buffer_limit, heartbeat_interval_ms, heartbeat_timeout_ms}
use aria_bridge.Socket.Redact.{validate_and_redact}
use aria_bridge.Socket.State.{
  TimerKind, reconnect, ping, deadline, Timer, Config, BridgeWebSocket, init, is_open,
}
use aria_bridge.Socket.Operations.{
  clear_id, send_raw, stop_heartbeat, start_heartbeat, set_heartbeat_timeout, reset_held,
  reset_heartbeat_timeout, send_hello, enqueue, send_safe, send, flush_buffer, back_off, connect,
  on_open, on_error, schedule_unheld, schedule_reconnect, on_close, disconnect, reconnect_fires,
  ping_fires, deadline_fires, handle_type, handle_incoming, control_settles, set_control_handler,
}
use aria_bridge.Socket.Steps.{
  fire, Step, connects, sends, disconnects, sets_handler, opens, receives, errs, starts_closing,
  closes, fires, settles, Reach, fresh, next,
}
use aria_bridge.Socket.Timers.{
  own, Owned, Owned-weaken, Owned-clear_id, Owned-clear_timer, Owned-set_timer, count_kind,
  count_kind-le-one, Owned-none, own-reconnect, own-ping, own-deadline,
}

abbrev pub owner_of : BridgeWebSocket → TimerKind → Option ℕ
owner_of s = own s.reconnect_timeout s.heartbeat_interval s.heartbeat_timeout

abbrev pub OwnsTimers : BridgeWebSocket → Type 0
OwnsTimers s = Owned (owner_of s) s.next_id s.timers

stop_heartbeat-OwnsTimers : (s : BridgeWebSocket) → OwnsTimers s → OwnsTimers (stop_heartbeat s)
unfolding stop_heartbeat
stop_heartbeat-OwnsTimers s o =
    let r = s.reconnect_timeout in
    let p = s.heartbeat_interval in
    let d = s.heartbeat_timeout in
    Owned-clear_timer (own r none d) (own r none none) s.next_id deadline _
      (own-deadline r none d none)
      (Owned-clear_timer (own r p d) (own r none d) s.next_id ping s.timers (own-ping r p none d) o)

start_heartbeat-OwnsTimers : (s : BridgeWebSocket) → OwnsTimers s → OwnsTimers (start_heartbeat s)
unfolding start_heartbeat stop_heartbeat
start_heartbeat-OwnsTimers s o =
    let t = stop_heartbeat s in
    Owned-set_timer (own s.reconnect_timeout none none)
      (own s.reconnect_timeout (some s.next_id) none) s.next_id heartbeat_interval_ms ping t.timers
      refl refl (own-ping s.reconnect_timeout none (some s.next_id) none)
      (stop_heartbeat-OwnsTimers s o)

set_heartbeat_timeout-OwnsTimers :
    (s : BridgeWebSocket) → OwnsTimers s → OwnsTimers (set_heartbeat_timeout s)
unfolding set_heartbeat_timeout
set_heartbeat_timeout-OwnsTimers s o =
    let r = s.reconnect_timeout in
    let p = s.heartbeat_interval in
    let d = s.heartbeat_timeout in
    Owned-set_timer (own r p none) (own r p (some s.next_id)) s.next_id heartbeat_timeout_ms
      deadline _ refl refl (own-deadline r p none (some s.next_id))
      (Owned-clear_timer (own r p d) (own r p none) s.next_id deadline s.timers
        (own-deadline r p d none) o)

-- A timer may stop without its field: the field then holds a number of none.
clear_id-OwnsTimers :
    (s : BridgeWebSocket) (id : ℕ)
    → OwnsTimers s
    → OwnsTimers (record s { timers = clear_id id s.timers })
clear_id-OwnsTimers s id o =
    Owned-clear_id (owner_of s) (owner_of s) s.next_id id s.timers (λ k h. refl) o

reset_held-OwnsTimers :
    (held : Option ℕ) (s : BridgeWebSocket) → OwnsTimers s → OwnsTimers (reset_held held s)
unfolding reset_held
reset_held-OwnsTimers none s o = o
reset_held-OwnsTimers (some id) s o =
    set_heartbeat_timeout-OwnsTimers (record s { timers = clear_id id s.timers })
      (clear_id-OwnsTimers s id o)

send_safe-OwnsTimers :
    (safe : Option Value) (s : BridgeWebSocket) → OwnsTimers s → OwnsTimers (send_safe safe s)
unfolding send_safe send_raw enqueue
send_safe-OwnsTimers none s o = o
send_safe-OwnsTimers (some safe) s o =
    if_elim OwnsTimers (is_open s.ws) o
      (if_elim OwnsTimers (leb buffer_limit (length s.buffer)) o o)

send_hello-OwnsTimers :
    (page : Option (Text × Text)) (s : BridgeWebSocket)
    → OwnsTimers s
    → OwnsTimers (send_hello page s)
unfolding send_hello send_raw
send_hello-OwnsTimers page s o = if_elim OwnsTimers s.hello_sent o o

flush_buffer-OwnsTimers : (s : BridgeWebSocket) → OwnsTimers s → OwnsTimers (flush_buffer s)
unfolding flush_buffer
flush_buffer-OwnsTimers s o =
    if_elim OwnsTimers (not (is_open s.ws)) o (if_elim OwnsTimers (ltb 0 s.dropped) o o)

back_off-OwnsTimers :
    (retry : Bool) (s : BridgeWebSocket) → OwnsTimers s → OwnsTimers (back_off retry s)
unfolding back_off
back_off-OwnsTimers true s o = o
back_off-OwnsTimers false s o = o

connect-OwnsTimers :
    (retry made : Bool) (s : BridgeWebSocket) → OwnsTimers s → OwnsTimers (connect retry made s)
unfolding connect
connect-OwnsTimers retry true s o =
    Owned-weaken (owner_of s) s.next_id (s.next_id + 1) s.timers (omega arith) o
connect-OwnsTimers retry false s o = back_off-OwnsTimers retry s o

on_open-OwnsTimers :
    (id : ℕ) (page : Option (Text × Text)) (s : BridgeWebSocket)
    → OwnsTimers s
    → OwnsTimers (on_open id page s)
unfolding on_open send_raw
on_open-OwnsTimers id page s o =
    flush_buffer-OwnsTimers _ (send_hello-OwnsTimers page _ (start_heartbeat-OwnsTimers _ o))

schedule_unheld-OwnsTimers :
    (held : Option ℕ) (s : BridgeWebSocket)
    → s.reconnect_timeout ≡ held
    → OwnsTimers s
    → OwnsTimers (schedule_unheld held s)
unfolding schedule_unheld
schedule_unheld-OwnsTimers (some id) s e o = o
schedule_unheld-OwnsTimers none s e o =
    Owned-set_timer (owner_of s) (own (some s.next_id) s.heartbeat_interval s.heartbeat_timeout)
      s.next_id s.reconnect_delay reconnect s.timers e refl
      (own-reconnect s.reconnect_timeout (some s.next_id) s.heartbeat_interval s.heartbeat_timeout)
      o

on_close-OwnsTimers : (s : BridgeWebSocket) → OwnsTimers s → OwnsTimers (on_close s)
unfolding on_close schedule_reconnect
on_close-OwnsTimers s o = schedule_unheld-OwnsTimers _ _ refl (stop_heartbeat-OwnsTimers s o)

disconnect-OwnsTimers : (s : BridgeWebSocket) → OwnsTimers s → OwnsTimers (disconnect s)
unfolding disconnect
disconnect-OwnsTimers s o =
    let r = s.reconnect_timeout in
    let p = s.heartbeat_interval in
    let d = s.heartbeat_timeout in
    stop_heartbeat-OwnsTimers _ (
      Owned-clear_timer (own r p d) (own none p d) s.next_id reconnect s.timers
        (own-reconnect r none p d) o)

handle_type-OwnsTimers :
    (kind id : Value) (s : BridgeWebSocket) → OwnsTimers s → OwnsTimers (handle_type kind id s)
unfolding handle_type reset_heartbeat_timeout send_raw
handle_type-OwnsTimers (str kind) id s o =
    if_elim OwnsTimers (text_eq kind (text "pong")) (reset_held-OwnsTimers s.heartbeat_timeout s o)
      (if_elim OwnsTimers (text_eq kind (text "ping")) o
        (if_elim OwnsTimers (text_eq kind (text "control_request") && s.control_handler) o o))
handle_type-OwnsTimers _ id s o = o

handle_incoming-OwnsTimers :
    (raw : Option Value) (s : BridgeWebSocket) → OwnsTimers s → OwnsTimers (handle_incoming raw s)
unfolding handle_incoming
handle_incoming-OwnsTimers none s o = o
handle_incoming-OwnsTimers (some (obj msg)) s o = handle_type-OwnsTimers _ _ s o
handle_incoming-OwnsTimers (some _) s o = o

fire-OwnsTimers :
    (made : Bool) (t : Timer) (kind : TimerKind) (s : BridgeWebSocket)
    → t.kind ≡ kind
    → owner_of s kind ≡ some t.id
    → OwnsTimers s
    → OwnsTimers (fire made t kind s)
unfolding fire reconnect_fires ping_fires deadline_fires send_raw
fire-OwnsTimers made t reconnect s e held o = connect-OwnsTimers true made _ (
    Owned-clear_id (owner_of s) (own none s.heartbeat_interval s.heartbeat_timeout) s.next_id t.id
      s.timers
      (λ k h.
        own-reconnect s.reconnect_timeout none s.heartbeat_interval s.heartbeat_timeout k
          (λ e'. h (ap (owner_of s) e' ∙ held)))
      o)
fire-OwnsTimers made t ping s e held o = set_heartbeat_timeout-OwnsTimers _ o
fire-OwnsTimers made t deadline s e held o = clear_id-OwnsTimers s t.id o

owner_of_timer :
    (owner : TimerKind → Option ℕ) (n i : ℕ) (ts : List Timer) (t : Timer)
    → get_elem? ts i ≡ some t
    → Owned owner n ts
    → owner t.kind ≡ some t.id
owner_of_timer owner n i [] t at o = cc
owner_of_timer owner n zero (u ∷ ts) t at (e, lt, o) =
    let same : u ≡ t = cc in subst (λ v. owner v.kind ≡ some v.id) same e
owner_of_timer owner n (suc i) (u ∷ ts) t at (e, lt, o) = owner_of_timer owner u.id i ts t at o

on_error-OwnsTimers : (id : ℕ) (s : BridgeWebSocket) → OwnsTimers s → OwnsTimers (on_error id s)
unfolding on_error
on_error-OwnsTimers id s o = back_off-OwnsTimers _ _ (stop_heartbeat-OwnsTimers s o)

Step-OwnsTimers : {s t : BridgeWebSocket} → Step s t → OwnsTimers s → OwnsTimers t
unfolding send set_control_handler control_settles send_raw
Step-OwnsTimers {s} (connects made) o = connect-OwnsTimers false made s o
Step-OwnsTimers {s} (sends event) o = send_safe-OwnsTimers (validate_and_redact event) s o
Step-OwnsTimers {s} disconnects o = disconnect-OwnsTimers s o
Step-OwnsTimers sets_handler o = o
Step-OwnsTimers (opens id page h) o = on_open-OwnsTimers id page _ o
Step-OwnsTimers {s} (receives raw) o = handle_incoming-OwnsTimers raw s o
Step-OwnsTimers {s} (errs id) o = on_error-OwnsTimers id s o
Step-OwnsTimers (starts_closing id) o = o
Step-OwnsTimers (closes id) o = on_close-OwnsTimers _ o
Step-OwnsTimers {s} (fires made i t at) o =
    fire-OwnsTimers made t t.kind s refl (owner_of_timer (owner_of s) s.next_id i s.timers t at o) o
Step-OwnsTimers (settles before after id outcome e) o = o

Reach-OwnsTimers : {config : Config} {s : BridgeWebSocket} → Reach config s → OwnsTimers s
unfolding init
Reach-OwnsTimers fresh = tt
Reach-OwnsTimers (next r st) = Step-OwnsTimers st (Reach-OwnsTimers r)

-- Whatever happened before, at most one timer of each kind runs.
pub Reach-one_timer :
    (config : Config) (s : BridgeWebSocket) (k : TimerKind)
    → Reach config s
    → count_kind k s.timers ≤ 1
Reach-one_timer config s k r =
    count_kind-le-one (owner_of s) s.next_id k s.timers (Reach-OwnsTimers r)

-- Whatever happened before, no timer runs after `disconnect`, and no socket is held.
pub disconnect-stops :
    (config : Config) (s : BridgeWebSocket)
    → Reach config s
    → ((disconnect s).timers ≡ []) × ((disconnect s).ws ≡ none)
unfolding disconnect stop_heartbeat
disconnect-stops config s r = (
  Owned-none (own none none none) s.next_id (disconnect s).timers no_owner
      (disconnect-OwnsTimers s (Reach-OwnsTimers r)),
  refl,
)
  where
    no_owner : (k : TimerKind) → own none none none k ≡ none
    no_owner reconnect = refl
    no_owner _ = refl
