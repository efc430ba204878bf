-- ===== src/Mcp/Consumer/Steps.antt =====
-- src/mcp/consumer.ts: what may happen to a `HostConsumer`, in any order.
use aria_bridge.Prelude.{ℕ, Text, Option, some, ◌≡◌, get_elem?}
use aria_bridge.Value.{Value}
use aria_bridge.Socket.State.{Ready, opened}
use aria_bridge.Socket.Steps.{mark}
use aria_bridge.Mcp.Consumer.State.{HostConsumer, Timeout, init}
use aria_bridge.Mcp.Consumer.Operations.{
  connect, on_open, on_error, subscribe, send_control, receive, timeout_fires, close,
}

-- All but `close`.
pub data Call (s : HostConsumer) : HostConsumer → Type 0 where
  connects : (thrown : Option Value) → Call s (connect thrown s)
  opens : (id : ℕ) → Call s (on_open (record s { ws = mark opened id s.ws }))
  errs : (id : ℕ) (message : Value) → Call s (on_error id message s)
  changes : (id : ℕ) (ready : Ready) → Call s (record s { ws = mark ready id s.ws })
  subscribes : (message : Value) → Call s (subscribe message s)
  controls : (id action : Text) (args : Value) → Call s (send_control id action args s)
  receives : (id : ℕ) (raw : Option Value) → Call s (receive id raw s)
  expires : (i : ℕ) (t : Timeout) → get_elem? s.timers i ≡ some t → Call s (timeout_fires t s)

pub data Step (s : HostConsumer) : HostConsumer → Type 0 where
  calls : {t : HostConsumer} → Call s t → Step s t
  closes : Step s (close s)

-- The states that calls lead to, from a fresh object.
pub data Reach (url secret client_id : Text) : HostConsumer → Type 0 where
  fresh : Reach url secret client_id (init url secret client_id)
  next :
      {s t : HostConsumer} → Reach url secret client_id s → Call s t → Reach url secret client_id t

-- The states that any steps lead to, from a given one.
pub data Steps (s : HostConsumer) : HostConsumer → Type 0 where
  stop : Steps s s
  further : {t u : HostConsumer} → Steps s t → Step t u → Steps s u
