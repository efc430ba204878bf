-- ===== src/Client/Events/Delivery.antt =====
-- `sendEvent`, src/client.ts: the events that are not throttled all reach the socket or its buffer.
use aria_bridge.Prelude.{
  ℕ, Bool, true, false, ◌||◌, Text, text, text_eq, get_last?, get_last?-append, leb, length, drop,
  if_elim, some, ◌∷◌, ◌≡◌, refl, ap, ◌⊎◌, inl, inr, Bool-cases, text_eq_iff, arith,
}
use aria_bridge.Value.{Value, str, obj, Fields}
use aria_bridge.Value.Props.{get}
use aria_bridge.Constants.{buffer_limit}
use aria_bridge.Socket.Redact.{redact_event, with_type, validate_and_redact}
use aria_bridge.Socket.State.{BridgeWebSocket, is_open}
use aria_bridge.Socket.Operations.{transmit, send_raw, enqueue, send_safe, send}
use aria_bridge.Client.Events.{Bridge, nullish, is_urgent, full_event, pass_on, send_event}

-- The socket is open and the event went out on it, or it is not and the event is the last that waits.
abbrev pub Delivered : Value → BridgeWebSocket → BridgeWebSocket → Type 0
Delivered v before after =
    ((is_open before.ws ≡ true) × (after.wire ≡ transmit before.ws v before.wire))
    ⊎ ((is_open before.ws ≡ false) × (get_last? after.buffer ≡ some v))

-- The events that are not throttled: those that ask for it, errors, navigation and network events.
abbrev pub IsUnthrottled : Bool → Text → Type 0
IsUnthrottled bypass kind =
    (bypass ≡ true) ⊎ (kind ≡ text "error") ⊎ (kind ≡ text "navigation") ⊎ (kind ≡ text "network")

bypasses :
    (bypass : Bool) (v : Value) (kind : Text)
    → v ≡ str kind
    → IsUnthrottled bypass kind
    → (bypass || is_urgent v) ≡ true
unfolding is_urgent
bypasses bypass v kind t u = rw t (
    ground (
      arith,
      text_eq_iff kind (text "error"),
      text_eq_iff kind (text "navigation"),
      text_eq_iff kind (text "network"),
    ))

enqueue-last : (v : Value) (s : BridgeWebSocket) → get_last? (enqueue v s).buffer ≡ some v
unfolding enqueue
enqueue-last v s =
    if_elim (λ (t : BridgeWebSocket). get_last? t.buffer ≡ some v)
      (leb buffer_limit (length s.buffer)) (get_last?-append (drop 1 s.buffer) v)
      (get_last?-append s.buffer v)

send_safe-Delivered : (v : Value) (s : BridgeWebSocket) → Delivered v s (send_safe (some v) s)
unfolding send_safe send_raw
send_safe-Delivered v s = elim (Bool-cases (is_open s.ws)) [
  | inl o ↦ inl (o, rw o refl)
  | inr o ↦ inr (o, rw o (enqueue-last v s))
]

full_event-validated :
    (now : ℕ) (e : Fields) (b : Bridge) (c : ℕ) (kind : Text)
    → get (text "type") e ≡ str (c ∷ kind)
    → validate_and_redact (obj (full_event now e b))
      ≡ some (obj (redact_event (full_event now e b)))
unfolding validate_and_redact full_event get text_eq with_type
full_event-validated now e b c kind t =
    ap (λ k. with_type (nullish k (str (text "log"))) (full_event now e b)) t

-- An event whose type is a text that is not empty, and that asks to bypass the throttle or is an
-- error, navigation or network event, goes out redacted on the open socket, or becomes the last event
-- that waits where the socket is not open; the throttler stays as it is.
pub send_event-delivers :
    (now : ℕ) (bypass : Bool) (e : Fields) (b : Bridge) (c : ℕ) (kind : Text)
    → get (text "type") e ≡ str (c ∷ kind)
    → IsUnthrottled bypass (c ∷ kind)
    → Delivered (obj (redact_event (full_event now e b))) b.ws (send_event now bypass e b).ws
      × ((send_event now bypass e b).throttler ≡ b.throttler)
unfolding send_event pass_on send
send_event-delivers now bypass e b c kind t u =
    let v = obj (redact_event (full_event now e b)) in
    rw (bypasses bypass (get (text "type") e) (c ∷ kind) t u, full_event-validated now e b c kind t)
      (send_safe-Delivered v b.ws, refl)
