-- ===== src/Socket/Operations.antt =====
-- src/websocket.ts: the methods of `BridgeWebSocket` and the callbacks that it sets.
use aria_bridge.Prelude.{
  ℕ, ◌+◌, ◌*◌, min, Bool, true, false, not, ◌&&◌, Text, text, text_eq, decimal, length, drop, leb,
  ltb, ◌==◌, if◌then◌else◌, Option, none, some, List, [], ◌∷◌, ◌++◌, map,
}
use aria_bridge.Value.{
  Value, undefined, bool, nat, str, arr, obj, Fields, end, field, items, truthy,
}
use aria_bridge.Value.Props.{get}
use aria_bridge.Constants.{
  protocol_version, heartbeat_interval_ms, heartbeat_timeout_ms, reconnect_initial_delay_ms,
  reconnect_max_delay_ms, buffer_limit,
}
use aria_bridge.Socket.Redact.{validate_and_redact}
use aria_bridge.Socket.State.{
  Ready, connecting, closing, closed, Connection, TimerKind, reconnect, ping, deadline, Timer,
  Frame, Attempt, Config, BridgeWebSocket, is_open,
}

-- `setTimeout` and `setInterval`: the timer runs from now on, under the next number.
abbrev pub set_timer : TimerKind → ℕ → ℕ → List Timer → List Timer
set_timer kind delay id timers = record { id = id; kind = kind; delay = delay } ∷ timers

-- `clearTimeout` and `clearInterval`: a timer that no longer runs is no error.
unfoldable pub clear_id : ℕ → List Timer → List Timer
clear_id id [] = []
clear_id id (t ∷ ts) = if t.id == id then clear_id id ts else t ∷ clear_id id ts

-- `if (timer) clearTimeout(timer)`.
abbrev pub clear_timer : Option ℕ → List Timer → List Timer
clear_timer none timers = timers
clear_timer (some id) timers = clear_id id timers

-- `ws.send(JSON.stringify(body))` on a socket that is open, nothing otherwise.
abbrev pub transmit : Option Connection → Value → List Frame → List Frame
transmit none body wire = wire
transmit (some c) body wire =
    if is_open (some c) then wire ++ record { socket = c.id; body = body } ∷ [] else wire

unfoldable pub send_raw : Value → BridgeWebSocket → BridgeWebSocket
send_raw body s = record s { wire = transmit s.ws body s.wire }

unfoldable pub stop_heartbeat : BridgeWebSocket → BridgeWebSocket
stop_heartbeat s = record s {
  timers = clear_timer s.heartbeat_timeout (clear_timer s.heartbeat_interval s.timers);
  heartbeat_interval = none;
  heartbeat_timeout = none;
}

unfoldable pub start_heartbeat : BridgeWebSocket → BridgeWebSocket
start_heartbeat s0 =
    let s = stop_heartbeat s0 in
    record s {
      timers = set_timer ping heartbeat_interval_ms s.next_id s.timers;
      heartbeat_interval = some s.next_id;
      next_id = s.next_id + 1;
    }

unfoldable pub set_heartbeat_timeout : BridgeWebSocket → BridgeWebSocket
set_heartbeat_timeout s = record s {
  timers =
      set_timer deadline heartbeat_timeout_ms s.next_id (clear_timer s.heartbeat_timeout s.timers);
  heartbeat_timeout = some s.next_id;
  next_id = s.next_id + 1;
}

-- `if (this.heartbeatTimeout)`, given the field.
unfoldable pub reset_held : Option ℕ → BridgeWebSocket → BridgeWebSocket
reset_held none s = s
reset_held (some id) s = set_heartbeat_timeout (record s { timers = clear_id id s.timers })

-- The timeout starts again only if one was started since the last stop.
unfoldable pub reset_heartbeat_timeout : BridgeWebSocket → BridgeWebSocket
reset_heartbeat_timeout s = reset_held s.heartbeat_timeout s

abbrev pub opt : Option Text → Value
opt none = undefined
opt (some t) = str t

abbrev pub auth_message : Config → Value
auth_message c = obj (
    field (text "type") (str (text "auth"))
      (field (text "secret") (str c.secret) (field (text "role") (str (text "bridge")) end)))

-- `url` and `route` are added for a page of the web; `page` is `window.location`, if there is one.
abbrev pub page_fields : Bool → Option (Text × Text) → Fields
page_fields true (some (href, pathname)) =
    field (text "url") (str href) (field (text "route") (str pathname) end)
page_fields true none = end
page_fields false page = end

unfoldable pub hello_message : Config → Option (Text × Text) → Value
hello_message c page = obj (
    field (text "type") (str (text "hello")) (
      field (text "capabilities") (arr (items (map str c.capabilities))) (
        field (text "platform") (str c.platform) (
          field (text "projectId") (opt c.project_id) (
            field (text "protocol") (nat protocol_version)
              (page_fields (text_eq c.platform (text "web")) page))))))

unfoldable pub send_hello : Option (Text × Text) → BridgeWebSocket → BridgeWebSocket
send_hello page s =
    if s.hello_sent
    then s
    else record (send_raw (hello_message s.config page) s) { hello_sent = true }

unfoldable pub enqueue : Value → BridgeWebSocket → BridgeWebSocket
enqueue ev s =
    if leb buffer_limit (length s.buffer)
    then record s { buffer = drop 1 s.buffer ++ ev ∷ []; dropped = s.dropped + 1 }
    else record s { buffer = s.buffer ++ ev ∷ [] }

-- `send`, once the event has passed `validateAndRedact`.
unfoldable pub send_safe : Option Value → BridgeWebSocket → BridgeWebSocket
send_safe none s = s
send_safe (some safe) s = if is_open s.ws then send_raw safe s else enqueue safe s

unfoldable pub send : Value → BridgeWebSocket → BridgeWebSocket
send event s = send_safe (validate_and_redact event) s

abbrev pub drop_notice : ℕ → Value
drop_notice n = obj (
    field (text "type") (str (text "info")) (
      field (text "level") (str (text "info"))
        (field (text "message") (str (text "bridge buffered drop count=" ++ decimal n)) end)))

-- The loop of `flushBuffer`: each round takes the first event and sends it.
unfoldable pub flush_events : Option Connection → List Value → List Frame → List Frame
flush_events ws [] wire = wire
flush_events ws (ev ∷ rest) wire = flush_events ws rest (transmit ws ev wire)

unfoldable pub flush_buffer : BridgeWebSocket → BridgeWebSocket
flush_buffer s =
    if not (is_open s.ws)
    then s
    else let sent = record s { buffer = []; wire = flush_events s.ws s.buffer s.wire } in
      if ltb 0 s.dropped
      then record sent { wire = transmit s.ws (drop_notice s.dropped) sent.wire; dropped = 0 }
      else sent

-- The open promise of a socket, and the others. A promise settles once.
unfoldable pub retrying : ℕ → List Attempt → Bool
retrying id [] = false
retrying id (a ∷ rest) = if a.socket == id then a.retry else retrying id rest

unfoldable pub settle : ℕ → List Attempt → List Attempt
settle id [] = []
settle id (a ∷ rest) = if a.socket == id then settle id rest else a ∷ settle id rest

-- The rejection handler of `scheduleReconnect`.
unfoldable pub back_off : Bool → BridgeWebSocket → BridgeWebSocket
back_off false s = s
back_off true s = record s { reconnect_delay = min (s.reconnect_delay * 2) reconnect_max_delay_ms }

-- `connect()`. `made` says whether the socket could be made: its constructor may throw, which
-- rejects at once.
unfoldable pub connect : Bool → Bool → BridgeWebSocket → BridgeWebSocket
connect retry false s = back_off retry s
connect retry true s = record s {
  ws = some (record { id = s.next_id; ready = connecting });
  attempts = record { socket = s.next_id; retry = retry } ∷ s.attempts;
  next_id = s.next_id + 1;
}

-- `onopen` of the socket `id`.
unfoldable pub on_open : ℕ → Option (Text × Text) → BridgeWebSocket → BridgeWebSocket
on_open id page s =
    let fresh = record s { reconnect_delay = reconnect_initial_delay_ms; hello_sent = false } in
    let beating = start_heartbeat fresh in
    let greeted = send_hello page (send_raw (auth_message s.config) beating) in
    let flushed = flush_buffer greeted in record flushed { attempts = settle id flushed.attempts }

unfoldable pub on_error : ℕ → BridgeWebSocket → BridgeWebSocket
on_error id s0 =
    let s = stop_heartbeat s0 in
    back_off (retrying id s.attempts) (record s { attempts = settle id s.attempts })

-- `if (this.reconnectTimeout) return`, given the field.
unfoldable pub schedule_unheld : Option ℕ → BridgeWebSocket → BridgeWebSocket
schedule_unheld (some id) s = s
schedule_unheld none s = record s {
  timers = set_timer reconnect s.reconnect_delay s.next_id s.timers;
  reconnect_timeout = some s.next_id;
  next_id = s.next_id + 1;
}

unfoldable pub schedule_reconnect : BridgeWebSocket → BridgeWebSocket
schedule_reconnect s = schedule_unheld s.reconnect_timeout s

unfoldable pub on_close : BridgeWebSocket → BridgeWebSocket
on_close s = schedule_reconnect (record (stop_heartbeat s) { hello_sent = false })

-- `ws.close()`: a socket that is closed stays so.
abbrev pub close_ready : Ready → Ready
close_ready closed = closed
close_ready _ = closing

abbrev pub close_socket : Option Connection → Option Connection
close_socket none = none
close_socket (some c) = some (record c { ready = close_ready c.ready })

unfoldable pub disconnect : BridgeWebSocket → BridgeWebSocket
disconnect s0 =
    let s = stop_heartbeat (record s0 {
      timers = clear_timer s0.reconnect_timeout s0.timers;
      reconnect_timeout = none;
    }) in
    record s { ws = none }

-- The callback of the reconnect timer.
unfoldable pub reconnect_fires : Bool → BridgeWebSocket → BridgeWebSocket
reconnect_fires made s = connect true made (record s { reconnect_timeout = none })

-- The callback of the heartbeat interval.
unfoldable pub ping_fires : BridgeWebSocket → BridgeWebSocket
ping_fires s =
    set_heartbeat_timeout (send_raw (obj (field (text "type") (str (text "ping")) end)) s)

-- The callback of the heartbeat timeout.
unfoldable pub deadline_fires : BridgeWebSocket → BridgeWebSocket
deadline_fires s = record s { ws = close_socket s.ws }

-- `handleIncoming`, once the text has been parsed and its `type` read.
unfoldable pub handle_type : Value → Value → BridgeWebSocket → BridgeWebSocket
handle_type (str kind) id s =
    if text_eq kind (text "pong")
    then reset_heartbeat_timeout s
    else if text_eq kind (text "ping")
    then send_raw (obj (field (text "type") (str (text "pong")) end)) s
    else if text_eq kind (text "control_request") && s.control_handler
    then record s { running = s.running ++ id ∷ [] }
    else s
handle_type kind id s = s

-- `none` is a text that `JSON.parse` refuses; reading the type of `null` throws, which is caught.
unfoldable pub handle_incoming : Option Value → BridgeWebSocket → BridgeWebSocket
handle_incoming (some (obj msg)) s = handle_type (get (text "type") msg) (get (text "id") msg) s
handle_incoming msg s = s

-- What the control handler came to: a value, or what it threw with its `message`, its `String(…)`
-- and its `stack`.
pub data Outcome : Type 0 where
  returned : Value → Outcome
  threw : (message : Value) (shown : Text) (stack : Value) → Outcome

unfoldable pub control_result : Value → Outcome → Value
control_result id (returned result) = obj (
    field (text "type") (str (text "control_result"))
      (field (text "id") id (field (text "ok") (bool true) (field (text "result") result end))))
control_result id (threw message shown stack) = obj (
    field (text "type") (str (text "control_result")) (
      field (text "id") id (
        field (text "ok") (bool false) (
          field (text "error")
            (obj (
              field (text "message") (if truthy message then message else str shown)
                (field (text "stack") stack end)))
            end))))

-- The callbacks of the handler's promise.
unfoldable pub control_settles : Value → Outcome → BridgeWebSocket → BridgeWebSocket
control_settles id outcome s = send_raw (control_result id outcome) s

unfoldable pub set_control_handler : BridgeWebSocket → BridgeWebSocket
set_control_handler s = record s { control_handler = true }
