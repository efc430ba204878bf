-- ===== src/Socket/Opening.antt =====
-- src/websocket.ts, `onopen`: what goes out, in which order, when a socket opens.
use aria_bridge.Prelude.{
  ℕ, ◌-◌, false, Text, ltb, length, last_n, if◌then◌else◌, Bool-cases, Option, some, List, [], ◌∷◌,
  ◌++◌, ◌≡◌, refl, ==_iff, arith, ap, ◌∙◌, sym, inl, inr, append_assoc, append-nil,
}
use aria_bridge.Value.{Value}
use aria_bridge.Constants.{buffer_limit, reconnect_initial_delay_ms}
use aria_bridge.Socket.State.{
  connecting, opened, Connection, Frame, Config, BridgeWebSocket, is_open,
}
use aria_bridge.Socket.Operations.{
  flush_events, send_raw, send_hello, start_heartbeat, stop_heartbeat, flush_buffer, drop_notice,
  auth_message, hello_message, on_open,
}
use aria_bridge.Socket.Steps.{mark}
use aria_bridge.Socket.Outbox.{Waits, accept, send_all, send_all-Waits}

abbrev pub frames : ℕ → List Value → List Frame
frames id [] = []
frames id (v ∷ vs) = record { socket = id; body = v } ∷ frames id vs

frames-append : (id : ℕ) (us vs : List Value) → frames id (us ++ vs) ≡ frames id us ++ frames id vs
frames-append id [] vs = refl
frames-append id (u ∷ us) vs = ap (◌∷◌ (record { socket = id; body = u })) (frames-append id us vs)

-- An open socket.
abbrev pub live : ℕ → Option Connection
live id = some (record { id = id; ready = opened })

flush_events-append :
    (id : ℕ) (events : List Value) (wire : List Frame)
    → flush_events (live id) events wire ≡ wire ++ frames id events
unfolding flush_events
flush_events-append id [] wire = sym (append-nil wire)
flush_events-append id (ev ∷ events) wire =
    flush_events-append id events (wire ++ record { socket = id; body = ev } ∷ [])
    ∙ append_assoc wire (record { socket = id; body = ev } ∷ []) (frames id events)

-- The notice of lost events, where some were lost.
abbrev pub notices : ℕ → List Value
notices n = if ltb 0 n then drop_notice n ∷ [] else []

flush_buffer_open :
    (id : ℕ) (s : BridgeWebSocket)
    → ((flush_buffer (record s { ws = live id })).wire
        ≡ s.wire ++ frames id (s.buffer ++ notices s.dropped))
      × ((flush_buffer (record s { ws = live id })).buffer ≡ [])
      × ((flush_buffer (record s { ws = live id })).dropped ≡ 0)
unfolding flush_buffer
flush_buffer_open id s = elim (Bool-cases (ltb 0 s.dropped)) [
  | inl lost ↦ rw lost (
    ap (λ w. w ++ frames id (drop_notice s.dropped ∷ [])) (flush_events-append id s.buffer s.wire)
        ∙ append_assoc s.wire (frames id s.buffer) (frames id (drop_notice s.dropped ∷ []))
        ∙ ap (◌++◌ s.wire) (sym (frames-append id s.buffer (drop_notice s.dropped ∷ []))),
    refl,
    refl,
  )
  | inr full ↦ rw full (
    flush_events-append id s.buffer s.wire
        ∙ ap (λ b. s.wire ++ frames id b) (sym (append-nil s.buffer)),
    refl,
    ground arith,
  )
]

-- What a socket gets when it opens.
abbrev pub greeting : Config → Option (Text × Text) → List Value
greeting config page = auth_message config ∷ hello_message config page ∷ []

pub on_open-sends :
    (id : ℕ) (page : Option (Text × Text)) (s : BridgeWebSocket)
    → let u = on_open id page (record s { ws = live id }) in
      (u.wire ≡ s.wire ++ frames id (greeting s.config page ++ (s.buffer ++ notices s.dropped)))
      × (u.buffer ≡ [])
      × (u.dropped ≡ 0)
unfolding on_open start_heartbeat stop_heartbeat send_hello send_raw
on_open-sends id page s =
    let ready = record s {
      ws = live id;
      reconnect_delay = reconnect_initial_delay_ms;
      hello_sent = false;
    } in
    let greeted = send_hello page (send_raw (auth_message s.config) (start_heartbeat ready)) in
    let auth : List Frame = frames id (auth_message s.config ∷ []) in
    let hello : List Frame = frames id (hello_message s.config page ∷ []) in
    let rest = frames id (s.buffer ++ notices s.dropped) in
    let (wire, buffer, dropped) = flush_buffer_open id greeted in
    (
      wire ∙ append_assoc (s.wire ++ auth) hello rest ∙ append_assoc s.wire auth (hello ++ rest),
      buffer,
      dropped,
    )

-- A socket that connects, with nothing that waits and nothing dropped, while events come in: when it
-- opens, it gets the authentication, the greeting, the last 200 of the events that were accepted, in
-- their order, and, if there were more, a notice of how many were dropped. Nothing stays in the
-- buffer, and nothing went out before.
pub on_open-delivers :
    (id : ℕ) (page : Option (Text × Text)) (events : List Value) (s : BridgeWebSocket)
    → s.ws ≡ some (record { id = id; ready = connecting })
    → s.buffer ≡ []
    → s.dropped ≡ 0
    → let t = send_all events s in
      let u = on_open id page (record t { ws = mark opened id t.ws }) in
      let accepted = accept events in
      (t.wire ≡ s.wire)
      × (u.wire
          ≡ s.wire
            ++ frames id (
                greeting s.config page
                ++ (last_n buffer_limit accepted ++ notices (length accepted - buffer_limit))))
      × (u.buffer ≡ [])
      × (u.dropped ≡ 0)
on_open-delivers id page events s held empty none_lost =
    let start : Waits s s [] = record {
      outbox = record { kept = empty; lost = none_lost ∙ omega arith };
      ws = refl;
      wire = refl;
      config = refl;
    } in
    let w = send_all-Waits events s s [] (ap is_open held) start in
    let t = send_all events s in
    let (wire, buffer, dropped) = on_open-sends id page t in
    let opens : mark opened id t.ws ≡ live id =
      ap (mark opened id) (w.ws ∙ held) ∙ ground (arith, ==_iff id id) in
    rw opens (w.wire, wire ∙ simp (w.wire, w.config, w.outbox.kept, w.outbox.lost), buffer, dropped)
