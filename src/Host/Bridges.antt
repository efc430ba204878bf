-- ===== src/Host/Bridges.antt =====
-- bin/aria-bridge-host.js: the messages of a bridge that is connected by a WebSocket.
use aria_bridge.Prelude.{
  ℕ, ◌+◌, ◌-◌, ◌/◌, ltb, ◌==◌, Bool, true, false, not, ◌&&◌, ◌||◌, Text, text, decimal, contains,
  any, if◌then◌else◌, Option, none, some, List, [], ◌∷◌, ◌++◌,
}
use aria_bridge.Value.{Value, nat, str, arr, obj, nil, elems, Fields, end, field, truthy}
use aria_bridge.Value.Props.{get, put}
use aria_bridge.Host.State.{socket, same_peer, Sock, Hello, Host, lookup, insert, same_key}
use aria_bridge.Host.Values.{prop, or, is_word, printable, joins, spread}
use aria_bridge.Host.Routing.{send_to, offer_all}
use aria_bridge.Host.Sockets.{same_id, logged, return, notice, failed_control, on_result, shown}

abbrev pub screenshot_rate_limit_ms : ℕ
screenshot_rate_limit_ms = 2000

-- `capabilities.includes('screenshot')`, which a list and a text have.
abbrev pub includes_word : Text → Value → Option Bool
includes_word word (arr xs) = some (any (is_word word) (elems xs))
includes_word word (str s) = some (contains s word)
includes_word word v = none

abbrev pub has_screenshot : Option Hello → Option Bool
has_screenshot none = some false
has_screenshot (some m) = includes_word (text "screenshot") m.capabilities

abbrev pub hello_ack : Value → Value → Value
hello_ack client_id protocol = obj (
    field (text "type") (str (text "hello_ack"))
      (field (text "clientId") client_id (field (text "protocol") protocol end)))

unfoldable pub on_hello : Sock → Value → Host → Host × Bool
on_hello s msg h =
    let capabilities = or (prop (text "capabilities") msg) (arr nil) in
    let route = prop (text "route") msg in
    let url = prop (text "url") msg in
    let protocol = or (prop (text "protocol") msg) (nat 1) in
    let hello : Hello = record {
      capabilities = capabilities;
      rest = route ∷ url ∷ protocol ∷ prop (text "platform") msg ∷ prop (text "projectId") msg ∷ [];
    } in
    logged
      (printable s.client_id
        && joins capabilities
        && printable (or route (str (text "none")))
        && printable (or url (str (text "none")))
        && printable protocol)
      (λ x. return (send_to s.id (hello_ack s.client_id protocol) x))
      (record h { capabilities = insert same_peer (socket s.id) hello h.capabilities })

-- `Math.ceil(ms / 1000)`.
abbrev pub seconds : ℕ → Text
seconds ms = decimal ((ms + 999) / 1000)

abbrev pub rate_limit_notice : ℕ → Value
rate_limit_notice wait_ms = obj (
    field (text "type") (str (text "rate_limit_notice")) (
      field (text "reason") (str (text "rate_limit")) (
        field (text "retryAfterMs") (nat wait_ms) (
          field (text "message")
            (str (
              text "Screenshot rate limit: wait "
              ++ (seconds wait_ms ++ text "s before next screenshot")))
            end))))

-- Whether a screenshot comes too soon after another one; a time of 0 counts as none.
abbrev pub too_soon : ℕ → Option ℕ → Bool
too_soon now none = false
too_soon now (some last) = not (last == 0) && ltb now (last + screenshot_rate_limit_ms)

abbrev pub wait_of : ℕ → Option ℕ → ℕ
wait_of now none = 0
wait_of now (some last) = last + screenshot_rate_limit_ms - now

-- `if (!message.name) message.name = v`.
abbrev pub fill : Text → Value → Fields → Fields
fill name v msg = if truthy (get name msg) then msg else put name v msg

unfoldable pub send_all_to : List ℕ → Value → Host → Host
send_all_to [] body h = h
send_all_to (c ∷ cs) body h = send_all_to cs body (send_to c body h)

module _ (to_string : Value → Text) where
  unfoldable pub complete_screenshot : ℕ → Fields → Fields
  complete_screenshot now msg =
      let timed = fill (text "timestamp") (nat now) msg in
      let placed = fill (text "platform") (str (text "web")) timed in
      let leveled = fill (text "level") (str (text "info")) placed in
      let page = or (get (text "route") msg) (or (get (text "url") msg) (str (text "unknown"))) in
      fill (text "message") (str (text "Screenshot: " ++ shown to_string page)) leveled

  -- A screenshot that consumers wait for.
  unfoldable pub forward_screenshot : ℕ → Sock → Fields → List ℕ → Host → Host × Bool
  forward_screenshot now s msg chosen h =
      let limited = record h { last_screenshot = insert same_id s.id now h.last_screenshot } in
      let mime = get (text "mime") msg in
      let body = get (text "data") msg in
      let page = or (get (text "route") msg) (or (get (text "url") msg) (str (text "unknown"))) in
      if not (truthy mime && truthy body)
      then logged (printable s.client_id)
          (λ x. return (
            send_to s.id
              (notice (text "invalid_format")
                (text "Screenshot missing required fields: mime, data"))
              x))
          limited
      else logged (truthy (get (text "message") msg) || printable page)
          (λ x.
            logged
              (printable s.client_id && printable mime && printable (prop (text "length") body))
              return (send_all_to chosen (obj (complete_screenshot now msg)) x))
          limited

  abbrev pub screenshot_chosen : ℕ → Sock → Fields → Host × Option (List ℕ) → Host × Bool
  screenshot_chosen now s msg (h, none) = (h, true)
  screenshot_chosen now s msg (h, some []) =
      logged (printable s.client_id)
        (λ x. return (
          send_to s.id
            (notice (text "no_consumers") (text "No consumers subscribed to screenshot capability"))
            x))
        h
  screenshot_chosen now s msg (h, some (c ∷ cs)) = forward_screenshot now s msg (c ∷ cs) h

  -- A screenshot of a bridge whose capabilities name it, or not.
  abbrev pub screenshot_checked : Option Bool → ℕ → Sock → Fields → Host → Host × Bool
  screenshot_checked none now s msg h = (h, true)
  screenshot_checked (some false) now s msg h =
      logged (printable s.client_id)
        (λ x. return (
          send_to s.id
            (notice (text "missing_capability")
              (text "Screenshot capability not advertised in hello"))
            x))
        h
  screenshot_checked (some true) now s msg h =
      let last = lookup same_id s.id h.last_screenshot in
      if too_soon now last
      then logged (printable s.client_id)
          (λ x. return (send_to s.id (rate_limit_notice (wait_of now last)) x)) h
      else screenshot_chosen now s msg
          (offer_all to_string now (obj msg) none (socket s.id) h.consumers [] h)

  unfoldable pub on_screenshot : ℕ → Sock → Fields → Host → Host × Bool
  on_screenshot now s msg h =
      screenshot_checked (has_screenshot (lookup same_peer (socket s.id) h.capabilities)) now s msg
        h

  abbrev pub request_offered : Sock → Value → Host × Option (List ℕ) → Host × Bool
  request_offered s id (h, none) = (h, true)
  request_offered s id (h, some []) =
      return (send_to s.id (failed_control id (text "No consumers connected for control")) h)
  request_offered s id (h, some (c ∷ cs)) =
      return (record h { pending = insert same_key id s.id h.pending })

  -- A control request of a bridge goes to the consumers.
  unfoldable pub on_request : ℕ → Sock → Value → Host → Host × Bool
  on_request now s msg h =
      let leveled = obj (put (text "level") (str (text "info")) (spread msg)) in
      request_offered s (prop (text "id") msg)
        (offer_all to_string now leveled (some msg) (socket s.id) h.consumers [] h)

  -- The line of the log for an event that went to some consumers.
  abbrev pub event_offered : Value → Value → Host × Option (List ℕ) → Host × Bool
  event_offered client_id msg (h, none) = (h, true)
  event_offered client_id msg (h, some []) = (h, false)
  event_offered client_id msg (h, some (c ∷ cs)) =
      logged
        (printable client_id
          && printable (or (prop (text "type") msg) (str (text "unknown")))
          && printable (or (prop (text "level") msg) (str (text "none"))))
        return h

  unfoldable pub on_event : ℕ → Sock → Value → Host → Host × Bool
  on_event now s msg h =
      event_offered s.client_id msg
        (offer_all to_string now msg (some msg) (socket s.id) h.consumers [] h)

  -- The messages of a bridge, by type. One that has a type is an object.
  unfoldable pub handle_bridge : ℕ → Sock → Value → Host → Host × Bool
  handle_bridge now s msg h =
      let kind = prop (text "type") msg in
      if is_word (text "hello") kind
      then on_hello s msg h
      else if is_word (text "control_result") kind
      then return (on_result (prop (text "id") msg) msg h)
      else if is_word (text "control_request") kind
      then on_request now s msg h
      else if is_word (text "screenshot") kind
      then on_screenshot now s (spread msg) h
      else on_event now s msg h
