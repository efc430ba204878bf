-- ===== src/Socket/Outbox.antt =====
-- src/websocket.ts, `send`, `enqueue` and `flushBuffer`: the buffer against a history that forgets
-- nothing.
use aria_bridge.Prelude.{
  ◌-◌, ◌≤◌, ◌<◌, false, leb, leb→le, length, drop, last_n, last_n-append_full, last_n-append_short,
  length-append, length-drop, Bool-cases, Option, none, some, List, [], ◌∷◌, ◌++◌, ◌≡◌, arith, ap,
  ◌∙◌, sym, inl, inr, subst, append_assoc, append-nil,
}
use aria_bridge.Value.{Value}
use aria_bridge.Constants.{buffer_limit}
use aria_bridge.Socket.Redact.{validate_and_redact}
use aria_bridge.Socket.State.{BridgeWebSocket, is_open}
use aria_bridge.Socket.Operations.{enqueue, send_safe, send}

-- The buffer holds the last 200 of the events that were accepted since it was last flushed, and
-- `dropped` counts the others.
pub record Holds (s : BridgeWebSocket) (accepted : List Value) : Type 0 where
  pub kept : s.buffer ≡ last_n buffer_limit accepted
  pub lost : s.dropped ≡ length accepted - buffer_limit

length-kept :
    (s : BridgeWebSocket) (accepted : List Value)
    → Holds s accepted
    → length s.buffer ≡ length accepted - (length accepted - buffer_limit)
length-kept s accepted h = ap length h.kept ∙ length-drop (length accepted - buffer_limit) accepted

enqueue-Holds :
    (ev : Value) (s : BridgeWebSocket) (accepted : List Value)
    → Holds s accepted
    → Holds (enqueue ev s) (accepted ++ ev ∷ [])
unfolding enqueue
enqueue-Holds ev s accepted h = elim (Bool-cases (leb buffer_limit (length s.buffer))) [
  | inl full ↦
      let over = leb→le buffer_limit (length s.buffer) full in
      let many : buffer_limit ≤ length accepted = omega (arith, length-kept s accepted h) in
      rw full (record {
        kept =
            ap (λ b. drop 1 b ++ ev ∷ []) h.kept
            ∙ last_n-append_full buffer_limit accepted ev many (omega arith);
        lost = omega (arith, h.lost, length-append accepted (ev ∷ []));
      })
  | inr room ↦
      let under : length s.buffer < buffer_limit = ground arith in
      let few : length accepted < buffer_limit = omega (arith, length-kept s accepted h) in
      rw room (record {
        kept = ap (λ b. b ++ ev ∷ []) h.kept ∙ last_n-append_short buffer_limit accepted ev few;
        lost = omega (arith, h.lost, length-append accepted (ev ∷ []));
      })
]

abbrev pub accept_one : Option Value → List Value → List Value
accept_one none events = events
accept_one (some safe) events = safe ∷ events

-- The events that `validateAndRedact` lets through, as it lets them through.
unfoldable pub accept : List Value → List Value
accept [] = []
accept (ev ∷ events) = accept_one (validate_and_redact ev) (accept events)

-- The calls of `send`, one for each event.
unfoldable pub send_all : List Value → BridgeWebSocket → BridgeWebSocket
send_all [] s = s
send_all (ev ∷ events) s = send_all events (send ev s)

-- Only the buffer has changed since `before`, by the events `accepted`.
pub record Waits (before s : BridgeWebSocket) (accepted : List Value) : Type 0 where
  pub outbox : Holds s accepted
  pub ws : s.ws ≡ before.ws
  pub wire : s.wire ≡ before.wire
  pub config : s.config ≡ before.config

enqueue-keeps :
    (ev : Value) (s : BridgeWebSocket)
    → ((enqueue ev s).ws ≡ s.ws)
      × ((enqueue ev s).wire ≡ s.wire)
      × ((enqueue ev s).config ≡ s.config)
unfolding enqueue
enqueue-keeps ev s = ground arith

send_safe-Waits :
    (safe : Option Value) (before s : BridgeWebSocket) (accepted : List Value)
    → is_open before.ws ≡ false
    → Waits before s accepted
    → Waits before (send_safe safe s) (accepted ++ accept_one safe [])
unfolding send_safe
send_safe-Waits none before s accepted closed w =
    subst (Waits before s) (sym (append-nil accepted)) w
send_safe-Waits (some safe) before s accepted closed w =
    let (ws, wire, config) = enqueue-keeps safe s in
    rw (ap is_open w.ws ∙ closed) (record {
      outbox = enqueue-Holds safe s accepted w.outbox;
      ws = ws ∙ w.ws;
      wire = wire ∙ w.wire;
      config = config ∙ w.config;
    })

accept_one-append :
    (safe : Option Value) (xs ys : List Value)
    → (xs ++ accept_one safe []) ++ ys ≡ xs ++ accept_one safe ys
accept_one-append none xs ys = ap (λ zs. zs ++ ys) (append-nil xs)
accept_one-append (some safe) xs ys = append_assoc xs (safe ∷ []) ys

pub send_all-Waits :
    (events : List Value) (before s : BridgeWebSocket) (accepted : List Value)
    → is_open before.ws ≡ false
    → Waits before s accepted
    → Waits before (send_all events s) (accepted ++ accept events)
unfolding send_all accept send
send_all-Waits [] before s accepted closed w = subst (Waits before s) (sym (append-nil accepted)) w
send_all-Waits (ev ∷ events) before s accepted closed w =
    let safe = validate_and_redact ev in
    subst (Waits before (send_all events (send_safe safe s)))
      (accept_one-append safe accepted (accept events))
      (send_all-Waits events before (send_safe safe s) (accepted ++ accept_one safe []) closed
        (send_safe-Waits safe before s accepted closed w))
