-- ===== src/Mcp/Consumer/State.antt =====
-- src/mcp/consumer.ts: the fields of `HostConsumer`, and the parts of its environment that it acts on.
use aria_bridge.Prelude.{ℕ, Text, Option, none, List, []}
use aria_bridge.Value.{Value, Fields}
use aria_bridge.Socket.State.{Connection, Frame}

-- How a promise was settled: resolved with nothing or with a message, or rejected with the message
-- of an error.
pub data Outcome : Type 0 where
  done : Outcome
  resolved : Value → Outcome
  rejected : Value → Outcome

-- A promise that is settled. Promises are told apart by a number.
pub record Settlement : Type 0 where
  pub promise : ℕ
  pub outcome : Outcome

-- An entry of `pendingControls`: its key, and the promise whose callbacks and timer it holds.
pub record Pending : Type 0 where
  pub request : Text
  pub promise : ℕ

-- What a timer was set for: the timeouts of `connect`, of `subscribe`, and of a control request.
pub data Purpose : Type 0 where
  auth_timeout subscribe_timeout : Purpose
  control_timeout : Text → Purpose

-- A timer that runs, with the promise that it rejects.
pub record Timeout : Type 0 where
  pub promise : ℕ
  pub purpose : Purpose

pub data Awaited : Type 0 where
  auth_success subscribe_ack : Awaited

-- `authListener` of `connect` and `listener` of `subscribe`, on the socket that they were added to.
pub record Listener : Type 0 where
  pub socket : ℕ
  pub awaits : Awaited
  pub promise : ℕ

-- A call of `emit`.
pub data Emitted : Type 0 where
  acknowledged : Fields → Emitted
  control_result : Fields → Emitted
  bridge_event : Fields → Emitted

pub record HostConsumer : Type 0 where
  pub url : Text
  pub secret : Text
  pub client_id : Text
  pub ws : Option Connection
  pub pending : List Pending
  -- The environment: running timers, listeners of messages, the sockets
  -- whose first error is awaited, frames, emitted events, settled promises, and the
  -- next number of a promise or socket.
  pub timers : List Timeout
  pub listeners : List Listener
  pub fails : List ℕ
  pub wire : List Frame
  pub emitted : List Emitted
  pub settled : List Settlement
  pub next_id : ℕ

-- `new HostConsumer(meta, clientId)`.
unfoldable pub init : (url secret client_id : Text) → HostConsumer
init url secret client_id = record {
  url = url;
  secret = secret;
  client_id = client_id;
  ws = none;
  pending = [];
  timers = [];
  listeners = [];
  fails = [];
  wire = [];
  emitted = [];
  settled = [];
  next_id = 0;
}
