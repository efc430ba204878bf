-- ===== src/Socket/Tests.antt =====
-- A bridge in concrete runs.
use aria_bridge.Prelude.{
  ◌+◌, ◌-◌, ◌≤◌, true, false, text, text_eq, lower, contains, decimal, length, last_n, none, some,
  [], ◌∷◌, ◌++◌, ◌≡◌, refl, ◌⊎◌, get_elem?,
}
use aria_bridge.Value.{Value, str, obj, end, field, map_items, truthy}
use aria_bridge.Value.Props.{get, put}
use aria_bridge.Constants.{buffer_limit}
use aria_bridge.Socket.Redact.{
  is_sensitive, redact_fields, redact_items, redact_object, clip, redact_all, revise, redact_event,
  with_type, validate_and_redact,
}
use aria_bridge.Socket.State.{
  connecting, opened, closed, reconnect, ping, Timer, Config, BridgeWebSocket, init,
}
use aria_bridge.Socket.Operations.{
  clear_id, send_raw, stop_heartbeat, start_heartbeat, set_heartbeat_timeout, reset_held,
  reset_heartbeat_timeout, send_hello, hello_message, enqueue, send_safe, send, flush_events,
  flush_buffer, retrying, settle, back_off, connect, on_open, on_error, schedule_unheld,
  schedule_reconnect, on_close, disconnect, reconnect_fires, ping_fires, deadline_fires,
  handle_type, handle_incoming, control_result, control_settles, set_control_handler,
}
use aria_bridge.Socket.Steps.{mark, fire, connects, sends, opens, closes, Reach, fresh, next}
use aria_bridge.Socket.Timers.{count_kind}
use aria_bridge.Socket.Ownership.{Reach-one_timer, disconnect-stops}
use aria_bridge.Socket.Outbox.{accept, send_all}
use aria_bridge.Socket.Opening.{frames, greeting, notices, on_open-delivers}
use aria_bridge.Socket.Order.{sent_on, Opens}
use aria_bridge.Socket.Order.Reachable.{Reach-greets}
use aria_bridge.Socket.Reconnect.{Waits, Reach-HasDelay, disconnect-reconnects}
use aria_bridge.Socket.Waiting.{Reach-no_overtaking}

code : Unit {0}
unfolding lower contains decimal text_eq map_items truthy get put is_sensitive redact_fields
    redact_items redact_object clip redact_all revise redact_event with_type validate_and_redact
    init clear_id send_raw stop_heartbeat start_heartbeat set_heartbeat_timeout reset_held
    reset_heartbeat_timeout send_hello hello_message enqueue send_safe send flush_events
    flush_buffer retrying settle back_off connect on_open on_error schedule_unheld
    schedule_reconnect on_close disconnect reconnect_fires ping_fires deadline_fires handle_type
    handle_incoming control_result control_settles set_control_handler fire accept send_all
code = tt

abbrev web : Config
web = record {
  secret = text "s";
  capabilities = text "error" ∷ [];
  platform = text "web";
  project_id = none;
}

abbrev event : Value
event = obj (field (text "type") (str (text "log")) end)

abbrev dialling : BridgeWebSocket
dialling = connect false true (init web)

abbrev open_bridge : BridgeWebSocket
open_bridge =
    on_open 0 none (record (send event dialling) { ws = mark opened 0 (send event dialling).ws })

dialling-Reach : Reach web dialling
dialling-Reach = next fresh (connects true)

open_bridge-Reach : Reach web open_bridge
unfolding code
open_bridge-Reach = next (next dialling-Reach (sends event)) (opens 0 none refl)

-- What goes out when the socket opens: the authentication, the greeting and the event that waited.
opening_frames : open_bridge.wire ≡ frames 0 (greeting web none ++ event ∷ [])
unfolding code
opening_frames = refl

-- A ping is answered, and one of the bridge's own sets the deadline, which closes the socket.
ping_is_answered :
    (handle_incoming (some (obj (field (text "type") (str (text "ping")) end))) open_bridge).wire
    ≡ open_bridge.wire ++ frames 0 (obj (field (text "type") (str (text "pong")) end) ∷ [])
unfolding code
ping_is_answered = refl

Reach-one_timer_example : count_kind ping open_bridge.timers ≤ 1
Reach-one_timer_example = Reach-one_timer web open_bridge ping open_bridge-Reach

disconnect-stops_example :
    ((disconnect open_bridge).timers ≡ []) × ((disconnect open_bridge).ws ≡ none)
disconnect-stops_example = disconnect-stops web open_bridge open_bridge-Reach

on_open-delivers_example :
    let t = send_all (event ∷ []) dialling in
    let u = on_open 0 none (record t { ws = mark opened 0 t.ws }) in
    let accepted = accept (event ∷ []) in
    (t.wire ≡ dialling.wire)
    × (u.wire
        ≡ dialling.wire
          ++ frames 0 (
              greeting dialling.config none
              ++ (last_n buffer_limit accepted ++ notices (length accepted - buffer_limit))))
    × (u.buffer ≡ [])
    × (u.dropped ≡ 0)
unfolding code
on_open-delivers_example = on_open-delivers 0 none (event ∷ []) dialling refl refl refl

Reach-greets_example : (sent_on 0 open_bridge.wire ≡ []) ⊎ Opens web (sent_on 0 open_bridge.wire)
Reach-greets_example = Reach-greets web open_bridge 0 open_bridge-Reach

-- The open socket, closed.
abbrev lost_bridge : BridgeWebSocket
lost_bridge = on_close (record open_bridge { ws = mark closed 0 open_bridge.ws })

Reach-HasDelay_example : Waits lost_bridge.timers
Reach-HasDelay_example = Reach-HasDelay web lost_bridge (next open_bridge-Reach (closes 0))

disconnect-reconnects_example :
    let t = disconnect open_bridge in
    let u = on_close (record t { ws = mark closed 0 t.ws }) in
    (t.ws ≡ none)
    × ((timer : Timer) × (get_elem? u.timers 0 ≡ some timer)
        × (timer.kind ≡ reconnect)
        × ((fire true timer timer.kind u).ws
            ≡ some (record { id = t.next_id + 1; ready = connecting })))
disconnect-reconnects_example = disconnect-reconnects open_bridge 0

Reach-no_overtaking_example : (open_bridge.buffer ≡ []) × (open_bridge.dropped ≡ 0)
unfolding code
Reach-no_overtaking_example = Reach-no_overtaking web open_bridge open_bridge-Reach refl
