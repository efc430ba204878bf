-- ===== src/Mcp/Consumer/Tests.antt =====
-- src/mcp/consumer.ts, run: a control request from the handshake to its result.
use aria_bridge.Prelude.{text, text_eq, true, false, none, some, [], ◌≡◌, refl, arith}
use aria_bridge.Value.{undefined, bool, str, obj, Fields, end, field, truthy}
use aria_bridge.Value.Props.{get}
use aria_bridge.Socket.State.{opened}
use aria_bridge.Socket.Steps.{mark}
use aria_bridge.Mcp.Consumer.State.{HostConsumer, init, resolved, done}
use aria_bridge.Mcp.Consumer.Operations.{
  connect, on_open, send_control, receive, close, handle_fields, hear_all, hear, settle, clear,
  set_timeout, send, answer, emit, outcome_of, drop_timer, drop_pending, find_pending, verdict,
  drop_listener, drop_timers,
}
use aria_bridge.Mcp.Consumer.Steps.{connects, opens, controls, Reach, fresh, next, stop}
use aria_bridge.Mcp.Consumer.Promises.{lives, runs, is_settled, Reach-answers}
use aria_bridge.Mcp.Consumer.Untouched.{pends}
use aria_bridge.Mcp.Consumer.Close.{close-abandons}

code : Unit {0}
unfolding init connect on_open send_control receive close handle_fields hear_all hear settle clear
    set_timeout send answer emit outcome_of drop_timer drop_pending find_pending verdict
    drop_listener drop_timers pends runs is_settled get text_eq truthy
code = tt

abbrev dialling : HostConsumer
dialling = connect none (init (text "ws://localhost:9876") (text "s") (text "c"))

abbrev online : HostConsumer
online = on_open (record dialling { ws = mark opened 0 dialling.ws })

online-Reach : Reach (text "ws://localhost:9876") (text "s") (text "c") online
online-Reach = next (next fresh (connects none)) (opens 0)

abbrev asking : HostConsumer
asking = send_control (text "r1") (text "eval") undefined online

abbrev result : Fields
result =
    field (text "type") (str (text "control_result"))
      (field (text "id") (str (text "r1")) (field (text "ok") (bool true) end))

-- The authentication settles the promise of connect and stops its timer.
authenticates :
    let s = receive 0 (some (obj (field (text "type") (str (text "auth_success")) end))) online in
    (outcome_of 0 s.settled ≡ some done) × (runs 0 s.timers ≡ false)
unfolding code
authenticates = (refl, refl)

-- The result of a control request settles its promise and stops its timer.
answers :
    let s = receive 0 (some (obj result)) asking in
    (outcome_of 1 s.settled ≡ some (resolved (obj result)))
    × (runs 1 s.timers ≡ false)
    × (s.pending ≡ [])
unfolding code
answers = (refl, refl, refl)

Reach-answers_example : lives 1 asking ≡ true
unfolding code
Reach-answers_example =
    Reach-answers (text "ws://localhost:9876") (text "s") (text "c") asking 1
      (next online-Reach (controls (text "r1") (text "eval") undefined)) (omega arith)

close-abandons_example :
    (is_settled 1 (close asking) ≡ false) × (runs 1 (close asking).timers ≡ false)
unfolding code
close-abandons_example =
    close-abandons (text "ws://localhost:9876") (text "s") (text "c") 1 asking (close asking)
      (next online-Reach (controls (text "r1") (text "eval") undefined)) refl stop
