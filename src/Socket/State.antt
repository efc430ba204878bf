-- ===== src/Socket/State.antt =====
-- src/websocket.ts: the fields of `BridgeWebSocket`, and the parts of its environment that it acts
-- on: the sockets that it has made, the timers that run, and what went out on each socket.
use aria_bridge.Prelude.{ℕ, Bool, true, false, Text, Option, none, some, List, []}
use aria_bridge.Value.{Value}
use aria_bridge.Constants.{reconnect_initial_delay_ms}

-- `readyState` of a socket.
pub data Ready : Type 0 where
  connecting opened closing closed : Ready

-- `this.ws`; sockets are told apart by a number.
pub record Connection : Type 0 where
  pub id : ℕ
  pub ready : Ready

-- What a timer was set for: `scheduleReconnect`, the interval of `startHeartbeat`, and the timeout
-- of `setHeartbeatTimeout`.
pub data TimerKind : Type 0 where
  reconnect ping deadline : TimerKind

pub record Timer : Type 0 where
  pub id : ℕ
  pub kind : TimerKind
  pub delay : ℕ

-- One call of `send` on a socket, with the value that was handed to `JSON.stringify`.
pub record Frame : Type 0 where
  pub socket : ℕ
  pub body : Value

-- A promise of `connect` that is neither resolved nor rejected; `retry` marks the calls of
-- `scheduleReconnect`, whose rejection doubles the delay.
pub record Attempt : Type 0 where
  pub socket : ℕ
  pub retry : Bool

-- What the constructor was given.
pub record Config : Type 0 where
  pub secret : Text
  pub capabilities : List Text
  pub platform : Text
  pub project_id : Option Text

pub record BridgeWebSocket : Type 0 where
  pub config : Config
  pub ws : Option Connection
  pub reconnect_timeout : Option ℕ
  pub reconnect_delay : ℕ
  pub heartbeat_interval : Option ℕ
  pub heartbeat_timeout : Option ℕ
  pub hello_sent : Bool
  pub control_handler : Bool
  pub buffer : List Value
  pub dropped : ℕ
  -- The environment: running timers, frames in the order they were sent, open promises, the ids of
  -- the control requests whose handler has not settled, and the next unused number.
  pub timers : List Timer
  pub wire : List Frame
  pub attempts : List Attempt
  pub running : List Value
  pub next_id : ℕ

-- `new BridgeWebSocket(url, secret, capabilities, platform, projectId)`.
unfoldable pub init : Config → BridgeWebSocket
init config = record {
  config = config;
  ws = none;
  reconnect_timeout = none;
  reconnect_delay = reconnect_initial_delay_ms;
  heartbeat_interval = none;
  heartbeat_timeout = none;
  hello_sent = false;
  control_handler = false;
  buffer = [];
  dropped = 0;
  timers = [];
  wire = [];
  attempts = [];
  running = [];
  next_id = 0;
}

abbrev pub is_opened : Ready → Bool
is_opened opened = true
is_opened _ = false

-- `this.ws?.readyState === 1`.
abbrev pub is_open : Option Connection → Bool
is_open none = false
is_open (some c) = is_opened c.ready
