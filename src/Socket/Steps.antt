-- ===== src/Socket/Steps.antt =====
-- src/websocket.ts: what may happen to a `BridgeWebSocket`. The program calls its methods, and the
-- environment its callbacks, in any order; each runs to its end before the next. The callbacks of a
-- promise run at the end of the step that settles it.
use aria_bridge.Prelude.{
  ℕ, Bool, true, false, Text, ◌==◌, if◌then◌else◌, Option, none, some, List, ◌∷◌, ◌++◌, ◌≡◌,
  get_elem?,
}
use aria_bridge.Value.{Value}
use aria_bridge.Socket.State.{
  Ready, connecting, opened, closing, closed, Connection, TimerKind, reconnect, ping, deadline,
  Timer, Config, BridgeWebSocket, init,
}
use aria_bridge.Socket.Operations.{
  clear_id, connect, on_open, on_error, on_close, handle_incoming, send, disconnect,
  set_control_handler, Outcome, control_settles, reconnect_fires, ping_fires, deadline_fires,
}

-- The socket `id` changes its state. A socket that `this.ws` no longer holds is not looked at.
abbrev pub mark : Ready → ℕ → Option Connection → Option Connection
mark ready id none = none
mark ready id (some c) = if c.id == id then some (record c { ready = ready }) else some c

abbrev pub is_connecting : Ready → Bool
is_connecting connecting = true
is_connecting _ = false

-- A socket opens once: if it is the one that `this.ws` holds, it is still connecting.
abbrev pub may_open : ℕ → Option Connection → Bool
may_open id none = true
may_open id (some c) = if c.id == id then is_connecting c.ready else true

-- A timer that has run out no longer runs; an interval goes on.
unfoldable pub fire : Bool → Timer → TimerKind → BridgeWebSocket → BridgeWebSocket
fire made t reconnect s = reconnect_fires made (record s { timers = clear_id t.id s.timers })
fire made t ping s = ping_fires s
fire made t deadline s = deadline_fires (record s { timers = clear_id t.id s.timers })

pub data Step (s : BridgeWebSocket) : BridgeWebSocket → Type 0 where
  connects : (made : Bool) → Step s (connect false made s)
  sends : (event : Value) → Step s (send event s)
  disconnects : Step s (disconnect s)
  sets_handler : Step s (set_control_handler s)
  opens :
      (id : ℕ) (page : Option (Text × Text))
      → may_open id s.ws ≡ true
      → Step s (on_open id page (record s { ws = mark opened id s.ws }))
  receives : (raw : Option Value) → Step s (handle_incoming raw s)
  errs : (id : ℕ) → Step s (on_error id s)
  starts_closing : (id : ℕ) → Step s (record s { ws = mark closing id s.ws })
  closes : (id : ℕ) → Step s (on_close (record s { ws = mark closed id s.ws }))
  fires :
      (made : Bool) (i : ℕ) (t : Timer)
      → get_elem? s.timers i ≡ some t
      → Step s (fire made t t.kind s)
  settles :
      (before after : List Value) (id : Value) (outcome : Outcome)
      → s.running ≡ before ++ (id ∷ after)
      → Step s (control_settles id outcome (record s { running = before ++ after }))

-- The states that a fresh object can come to.
pub data Reach (config : Config) : BridgeWebSocket → Type 0 where
  fresh : Reach config (init config)
  next : {s t : BridgeWebSocket} → Reach config s → Step s t → Reach config t
