-- ===== src/Socket/Order/Methods.antt =====
-- src/websocket.ts: every method and callback keeps the order on the sockets.
use aria_bridge.Prelude.{
  ℕ, ◌+◌, Bool, true, false, not, Text, text, text_eq, ltb, leb, length, if_elim, Option, none,
  some, ◌≡◌, arith, ◌&&◌,
}
use aria_bridge.Value.{Value, str, obj}
use aria_bridge.Constants.{buffer_limit}
use aria_bridge.Socket.State.{Config, BridgeWebSocket, is_open}
use aria_bridge.Socket.Operations.{
  send_raw, stop_heartbeat, start_heartbeat, set_heartbeat_timeout, reset_held,
  reset_heartbeat_timeout, send_hello, enqueue, send_safe, flush_buffer, back_off, connect,
  schedule_unheld, handle_type, handle_incoming, hello_message,
}
use aria_bridge.Socket.Order.{
  Ordered, Ordered-weaken, Ordered-transmit, Ordered-flush_events, Ordered-connect,
}

module _ (config : Config) where
  abbrev pub IsOrderly : BridgeWebSocket → Type 0
  IsOrderly s = (s.config ≡ config) × Ordered config s.ws s.next_id s.wire

  pub send_raw-IsOrderly :
      (v : Value) (s : BridgeWebSocket) → IsOrderly s → IsOrderly (send_raw v s)
  unfolding send_raw
  send_raw-IsOrderly v s (e, o) = (e, Ordered-transmit config s.ws s.next_id v s.wire o)

  pub start_heartbeat-IsOrderly :
      (s : BridgeWebSocket) → IsOrderly s → IsOrderly (start_heartbeat s)
  unfolding start_heartbeat stop_heartbeat
  start_heartbeat-IsOrderly s (e, o) =
      (e, Ordered-weaken config s.ws s.next_id (s.next_id + 1) s.wire (omega arith) o)

  pub set_heartbeat_timeout-IsOrderly :
      (s : BridgeWebSocket) → IsOrderly s → IsOrderly (set_heartbeat_timeout s)
  unfolding set_heartbeat_timeout
  set_heartbeat_timeout-IsOrderly s (e, o) =
      (e, Ordered-weaken config s.ws s.next_id (s.next_id + 1) s.wire (omega arith) o)

  pub reset_held-IsOrderly :
      (held : Option ℕ) (s : BridgeWebSocket) → IsOrderly s → IsOrderly (reset_held held s)
  unfolding reset_held
  reset_held-IsOrderly none s o = o
  reset_held-IsOrderly (some id) s o = set_heartbeat_timeout-IsOrderly _ o

  pub send_hello-IsOrderly :
      (page : Option (Text × Text)) (s : BridgeWebSocket)
      → IsOrderly s
      → IsOrderly (send_hello page s)
  unfolding send_hello
  send_hello-IsOrderly page s o =
      if_elim IsOrderly s.hello_sent o (send_raw-IsOrderly (hello_message s.config page) s o)

  pub send_safe-IsOrderly :
      (safe : Option Value) (s : BridgeWebSocket) → IsOrderly s → IsOrderly (send_safe safe s)
  unfolding send_safe enqueue
  send_safe-IsOrderly none s o = o
  send_safe-IsOrderly (some safe) s o =
      if_elim IsOrderly (is_open s.ws) (send_raw-IsOrderly safe s o)
        (if_elim IsOrderly (leb buffer_limit (length s.buffer)) o o)

  pub flush_buffer-IsOrderly : (s : BridgeWebSocket) → IsOrderly s → IsOrderly (flush_buffer s)
  unfolding flush_buffer
  flush_buffer-IsOrderly s (e, o) =
      let sent = Ordered-flush_events config s.ws s.next_id s.buffer s.wire o in
      if_elim IsOrderly (not (is_open s.ws)) (e, o)
        (if_elim IsOrderly (ltb 0 s.dropped) (e, Ordered-transmit config s.ws s.next_id _ _ sent)
          (e, sent))

  pub back_off-IsOrderly :
      (retry : Bool) (s : BridgeWebSocket) → IsOrderly s → IsOrderly (back_off retry s)
  unfolding back_off
  back_off-IsOrderly true s o = o
  back_off-IsOrderly false s o = o

  pub connect-IsOrderly :
      (retry made : Bool) (s : BridgeWebSocket) → IsOrderly s → IsOrderly (connect retry made s)
  unfolding connect
  connect-IsOrderly retry true s (e, o) = (e, Ordered-connect config s.ws s.next_id s.wire o)
  connect-IsOrderly retry false s o = back_off-IsOrderly retry s o

  pub schedule_unheld-IsOrderly :
      (held : Option ℕ) (s : BridgeWebSocket) → IsOrderly s → IsOrderly (schedule_unheld held s)
  unfolding schedule_unheld
  schedule_unheld-IsOrderly (some id) s o = o
  schedule_unheld-IsOrderly none s (e, o) =
      (e, Ordered-weaken config s.ws s.next_id (s.next_id + 1) s.wire (omega arith) o)

  pub handle_type-IsOrderly :
      (kind id : Value) (s : BridgeWebSocket) → IsOrderly s → IsOrderly (handle_type kind id s)
  unfolding handle_type reset_heartbeat_timeout
  handle_type-IsOrderly (str kind) id s o =
      if_elim IsOrderly (text_eq kind (text "pong")) (reset_held-IsOrderly s.heartbeat_timeout s o)
        (if_elim IsOrderly (text_eq kind (text "ping")) (send_raw-IsOrderly _ s o)
          (if_elim IsOrderly (text_eq kind (text "control_request") && s.control_handler) o o))
  handle_type-IsOrderly _ id s o = o

  pub handle_incoming-IsOrderly :
      (raw : Option Value) (s : BridgeWebSocket) → IsOrderly s → IsOrderly (handle_incoming raw s)
  unfolding handle_incoming
  handle_incoming-IsOrderly none s o = o
  handle_incoming-IsOrderly (some (obj msg)) s o = handle_type-IsOrderly _ _ s o
  handle_incoming-IsOrderly (some _) s o = o
