-- ===== src/Host/Tests.antt =====
-- bin/aria-bridge-host.js, run.
use aria_bridge.Prelude.{
  ℕ, ◌+◌, ◌-◌, ◌*◌, ◌/◌, ◌≤◌, true, false, Text, text, text_eq, lower, index_of, includes, contains,
  Option, none, some, List, [], ◌∷◌, ◌++◌, ◌≡◌, refl, arith, get_last?,
}
use aria_bridge.Value.{Value, undefined, bool, nat, str, obj, Fields, end, field, truthy}
use aria_bridge.Value.Props.{get, put}
use aria_bridge.HostUtils as U
use aria_bridge.Socket.State.{opened, Frame}
use aria_bridge.Host.State.{
  socket, session, Sock, Session, Host, init, lookup, erase, same_key, same_number, update_session,
  member, discard,
}
use aria_bridge.Host.Values.{
  printable, get_subscription_level_for_log_level, subscription_includes_level,
  bridge_has_capability, consumer_wants_capability, prop,
}
use aria_bridge.Host.Values as V
use aria_bridge.Host.Routing.{
  find_sock, is_open, send_to, renew_window, count_event, filter_keeps, is_capability, filter_event,
  suits, should_route, offer, offer_all,
}
use aria_bridge.Host.Sockets.{
  update_sock, drop_sock, close_with, on_connection, handle_auth, admit, join_role, on_result,
}
use aria_bridge.Host.Bridges.{
  on_hello, on_screenshot, forward_screenshot, complete_screenshot, send_all_to, on_request,
  on_event, handle_bridge,
}
use aria_bridge.Host.Consumers.{
  enqueue, forward, on_subscribe, targets, on_control, handle_consumer, handle_client,
  handle_message, receive, forget, on_close, drop_replies, control_forwarded,
}
use aria_bridge.Host.Http.{
  get_http_session, touch, connect, session_hello, session_poll, session_result, serve, endpoint,
  with_session, control_result,
}
use aria_bridge.Host.Steps.{Event, connection, close, message, request, happen, Reach, begin, later}
use aria_bridge.Host.Secrecy.Clients.{IsSilent}
use aria_bridge.Host.Secrecy.{Reach-IsSilent}
use aria_bridge.Host.Overload.{Call, noise_passed, noise_passed-paced}
use aria_bridge.Host.Control.{post, commands, control_payload, control-roundtrip}
use aria_bridge.Host.Agreement.{value_of, predicates-agree}
use aria_bridge.Host.References.{IsTidy}
use aria_bridge.Host.References.Reach.{Reach-IsTidy}
use aria_bridge.Host.References.Routes.{Reach-routes}
use aria_bridge.Host.References.Suits.{Returns}
use aria_bridge.Host.Screenshots.{Outcome, on_screenshot-paced}

code : Unit {0}
unfolding text_eq lower index_of includes contains get put truthy init lookup erase same_key
    same_number update_session member discard printable get_subscription_level_for_log_level
    subscription_includes_level bridge_has_capability consumer_wants_capability V.lower find_sock
    is_open send_to renew_window count_event filter_keeps is_capability filter_event suits
    should_route offer offer_all update_sock drop_sock close_with on_connection handle_auth admit
    join_role on_result on_hello on_screenshot forward_screenshot complete_screenshot send_all_to
    on_request on_event handle_bridge enqueue forward on_subscribe targets on_control
    handle_consumer handle_client handle_message receive forget on_close drop_replies
    get_http_session touch connect session_hello session_poll session_result serve endpoint
    with_session happen noise_passed
code = tt

abbrev to_string : Value → Text
to_string v = text "1"

abbrev message_of : List (Text × Value) → Fields
message_of [] = end
message_of ((k, v) ∷ fs) = field k v (message_of fs)

abbrev word : Text → Text → Text × Value
word k v = (k, str v)

abbrev says : ℕ → List (Text × Value) → Event
says id fs = message 7 id (some (obj (message_of fs)))

abbrev auth : ℕ → Text → Event
auth id role = says id (
    word (text "type") (text "auth")
    ∷ word (text "secret") (text "k")
    ∷ word (text "role") role
    ∷ word (text "clientId") (text "c")
    ∷ [])

abbrev after : List Event → Host → Host
after [] h = h
after (e ∷ es) h = after es (happen to_string e h)

abbrev list_of : List Text → Value
list_of ts = value_of (some ts)

-- A bridge and a consumer, with an event that the consumer gets.
abbrev greeted : Host
greeted =
    after
      (connection
        ∷ auth 0 (text "bridge")
        ∷ connection
        ∷ auth 1 (text "consumer")
        ∷ says 1 (
            word (text "type") (text "subscribe")
            ∷ (text "levels", list_of (text "info" ∷ []))
            ∷ [])
        ∷ says 0 (word (text "type") (text "info") ∷ word (text "level") (text "info") ∷ [])
        ∷ [])
      (init (text "k") 0)

event_routed :
    get_last? greeted.sent
    ≡ some (record {
      socket = 1;
      body =
          obj (
            message_of (word (text "type") (text "info") ∷ word (text "level") (text "info") ∷ []));
    })
unfolding code
event_routed = refl

-- An HTTP bridge whose capabilities are a text closes the socket of any consumer that sends a
-- control request.
abbrev unlisted : Host
unlisted =
    after
      (request 7 (text "id")
          (post (text "/bridge/connect") (obj (message_of (word (text "secret") (text "k") ∷ []))))
        ∷ request 7 [] (
            post (text "/bridge/hello") (
              obj (
                message_of (
                  word (text "sessionId") (text "id")
                  ∷ word (text "capabilities") (text "control")
                  ∷ []))))
        ∷ connection
        ∷ auth 1 (text "consumer")
        ∷ says 1 (word (text "type") (text "control") ∷ word (text "id") (text "r") ∷ [])
        ∷ [])
      (init (text "k") 0)

abbrev closed_by : Option Sock → Option (ℕ × Text)
closed_by none = none
closed_by (some s) = s.closed_with

consumer_closed : closed_by (find_sock 1 unlisted.socks) ≡ some (1011, text "Internal error")
unfolding code
consumer_closed = refl

abbrev guess : Fields
guess = message_of (word (text "type") (text "auth") ∷ word (text "secret") (text "g") ∷ [])

Reach-IsSilent_example : IsSilent (text "k") (
    happen to_string
      (message 5 0 (some (obj guess)))
      (happen to_string connection (init (text "k") 0)))
unfolding text_eq get truthy
Reach-IsSilent_example =
    Reach-IsSilent 0 to_string
      (later (later begin connection tt) (message 5 0 (some (obj guess))) refl)

abbrev calls : List Call
calls =
    record { now = 9; message = obj guess; llm_filter = text "minimal" }
    ∷ record { now = 10011; message = obj guess; llm_filter = text "aggressive" }
    ∷ []

noise_passed-paced_example :
    noise_passed to_string calls (init (text "k") 3)
    ≤ 500 * (1 + (20000 - (init (text "k") 3).window_start) / 10001)
unfolding init
noise_passed-paced_example =
    noise_passed-paced to_string 20000 calls (init (text "k") 3)
      (omega arith, (omega arith, omega arith))

predicates-agree_example :
    (bridge_has_capability to_string (list_of (text "Control" ∷ [])) (text "control")
      ≡ some (U.bridge_has_capability (some (text "Control" ∷ [])) (text "control")))
    × (consumer_wants_capability to_string (list_of (text "Control" ∷ [])) (text "control")
        ≡ some (U.consumer_wants_capability (some (text "Control" ∷ [])) (text "control")))
    × (subscription_includes_level to_string undefined (str (text "warn"))
        ≡ some (U.subscription_includes_level none (some (text "warn"))))
    × (subscription_includes_level to_string (list_of (text "info" ∷ [])) (str (text "warn"))
        ≡ some (U.subscription_includes_level (some (text "info" ∷ [])) (some (text "warn"))))
    × (subscription_includes_level to_string (list_of []) (str (text "warn")) ≡ some false)
    × (U.subscription_includes_level (some []) (some (text "error")) ≡ true)
predicates-agree_example =
    predicates-agree to_string (some (text "Control" ∷ [])) (text "control") (text "info") []
      (some (text "warn"))

abbrev sock_of : ℕ → Text → Sock
sock_of id role = record {
  id = id;
  ready = opened;
  is_authenticated = true;
  role = str role;
  client_id = str (text "c");
  auth_timeout = false;
  closed_with = none;
}

abbrev shot : Fields
shot = message_of (
    word (text "type") (text "screenshot")
    ∷ word (text "mime") (text "image/png")
    ∷ word (text "data") (text "AA")
    ∷ [])

reached :
    (es : List Event) (h : Host)
    → Reach to_string (λ e. Unit {0}) (init (text "k") 0) h
    → Reach to_string (λ e. Unit {0}) (init (text "k") 0) (after es h)
reached [] h r = r
reached (e ∷ es) h r = reached es (happen to_string e h) (later r e tt)

abbrev meeting : List Event
meeting =
    connection
    ∷ auth 0 (text "bridge")
    ∷ says 0 (
        word (text "type") (text "hello")
        ∷ (text "capabilities", list_of (text "screenshot" ∷ []))
        ∷ [])
    ∷ connection
    ∷ auth 1 (text "consumer")
    ∷ says 1
        (word (text "type") (text "subscribe") ∷ (text "levels", list_of (text "info" ∷ [])) ∷ [])
    ∷ []

-- A bridge that takes screenshots, and a consumer.
abbrev watched : Host
watched = after meeting (init (text "k") 0)

on_screenshot-paced_example :
    Outcome to_string 5000
      (sock_of 0 (text "bridge"))
      shot
      watched
      (on_screenshot to_string 5000 (sock_of 0 (text "bridge")) shot watched).0
on_screenshot-paced_example =
    on_screenshot-paced to_string 5000 (sock_of 0 (text "bridge")) shot watched

Reach-IsTidy_example : IsTidy (after (meeting ++ close 1 ∷ []) (init (text "k") 0))
Reach-IsTidy_example =
    Reach-IsTidy to_string (text "k") 0
      (reached (meeting ++ close 1 ∷ []) (init (text "k") 0) begin)

Reach-routes_example :
    Returns
      (offer_all to_string 9
        (obj shot)
        (some (obj shot))
        (socket 0)
        (after meeting (init (text "k") 0)).consumers
        []
        (after meeting (init (text "k") 0))).1
unfolding code
Reach-routes_example =
    Reach-routes to_string (text "k") 0 9 0 (obj shot) (some (obj shot))
      (reached meeting (init (text "k") 0) begin) refl

abbrev body_of : Option Frame → Option Value
body_of none = none
body_of (some f) = some f.body

shot_passes :
    body_of
      (get_last? (on_screenshot to_string 5000 (sock_of 0 (text "bridge")) shot watched).0.sent)
    ≡ some (obj (complete_screenshot to_string 5000 shot))
unfolding code
shot_passes = refl

abbrev polling : Session
polling = record { id = 3; session_id = text "id"; queue = nat 1 ∷ []; last_seen = 0 }

-- A consumer, and a session of the HTTP bridge that takes control requests.
abbrev controlled : Host
controlled = record (init (text "k") 0) {
  bridges = session 3 ∷ [];
  consumers = 2 ∷ [];
  sessions = polling ∷ [];
  capabilities =
      (session 3, record { capabilities = list_of (text "control" ∷ []); rest = [] }) ∷ [];
  socks = sock_of 2 (text "consumer") ∷ [];
  next_id = 4;
}

abbrev ask : Value
ask = obj (message_of (word (text "type") (text "control") ∷ word (text "id") (text "r") ∷ []))

abbrev poll_body : Fields
poll_body = message_of (word (text "sessionId") (text "id") ∷ [])

abbrev result_body : Fields
result_body = message_of (
    word (text "sessionId") (text "id") ∷ word (text "id") (text "r") ∷ (text "ok", bool true) ∷ [])

control-roundtrip_example :
    let asking = on_control to_string 9 (sock_of 2 (text "consumer")) ask controlled in
    let polling_for = serve to_string 9 [] (post (text "/bridge/control/poll") (obj poll_body)) in
    let answering = serve to_string 9 [] (post (text "/bridge/control/result") (obj result_body)) in
    let polled = polling_for asking.0 in
    let answered = answering polled.0 in
    (polled.1 ≡ commands ((nat 1 ∷ []) ++ control_payload (text "r") ask ∷ []))
    × ((polling_for polled.0).1 ≡ commands [])
    × (answered.0.sent
        ≡ (controlled.sent
            ++ record { socket = 2; body = control_forwarded (str (text "r")) 1 } ∷ [])
          ++ record { socket = 2; body = control_result (obj result_body) } ∷ [])
    × ((answering answered.0).0.sent ≡ answered.0.sent)
unfolding code
control-roundtrip_example =
    control-roundtrip to_string 9 114 [] [] (text "id") (sock_of 2 (text "consumer")) polling ask
      poll_body result_body controlled refl refl refl refl refl refl refl
