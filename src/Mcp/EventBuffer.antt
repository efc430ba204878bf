-- ===== src/Mcp/EventBuffer.antt =====
-- `EventBuffer`, src/mcp/event-buffer.ts: the last events that came from the host.
pub mod History
pub mod Queries
mod Tests
use aria_bridge.Prelude.{
  ℕ, zero, suc, ◌+◌, Bool, false, ◌||◌, Text, text, text_eq, length, last_n, filter, get_last?,
  get_elem?, ◌==◌, if◌then◌else◌, Option, none, some, List, [], ◌∷◌, ◌++◌,
}
use aria_bridge.Value.{Number, Value, str, nat, Fields}
use aria_bridge.Value.Props.{get, put}
use aria_bridge.Value.Numbers.{max_one, exceeds, trunc}

pub record EventBuffer : Type 0 where
  pub limit : Number
  pub counter : ℕ
  pub events : List Fields

-- `new EventBuffer(limit)`.
unfoldable pub init : Number → EventBuffer
init limit = record { limit = max_one limit; counter = 0; events = [] }

-- `xs.slice(-n)`: `-0` is no index from the end.
unfoldable pub slice_last {ℓ} : {A : Type ℓ} → ℕ → List A → List A
slice_last n xs = if n == 0 then xs else last_n n xs

-- `{ ...event, __id: id }`.
unfoldable pub stamp : ℕ → Fields → Fields
stamp id event = put (text "__id") (nat id) event

unfoldable pub push : Fields → EventBuffer → EventBuffer × Fields
push event b =
    let buffered = stamp (b.counter + 1) event in
    let events = b.events ++ buffered ∷ [] in
    (
      record b {
        counter = b.counter + 1;
        events =
            if exceeds (length events) b.limit then slice_last (trunc b.limit) events else events;
      },
      buffered,
    )

-- `v === word`.
unfoldable pub is_text : Text → Value → Bool
is_text word (str s) = text_eq s word
is_text word v = false

abbrev pub has_type : Text → Fields → Bool
has_type kind e = is_text kind (get (text "type") e)

abbrev pub is_error : Fields → Bool
is_error e = is_text (text "error") (get (text "level") e)

unfoldable pub recent : ℕ → EventBuffer → List Fields
recent max b = slice_last max b.events

unfoldable pub errors : ℕ → EventBuffer → List Fields
errors max b = slice_last max (filter is_error b.events)

unfoldable pub network : ℕ → EventBuffer → List Fields
network max b = slice_last max (filter (has_type (text "network")) b.events)

unfoldable pub navigation : ℕ → EventBuffer → List Fields
navigation max b =
    slice_last max
      (filter (λ e. has_type (text "navigation") e || has_type (text "pageview") e) b.events)

-- `if (this.events[i].type === 'screenshot') return this.events[i]`, with the later rounds.
abbrev pub pick : (Fields → Bool) → Option Fields → Option Fields → Option Fields
pick p none rest = none
pick p (some e) rest = if p e then some e else rest

-- The loop of `latestScreenshot`, over the indices below `i`.
unfoldable pub find_back : (Fields → Bool) → ℕ → List Fields → Option Fields
find_back p zero events = none
find_back p (suc i) events = pick p (get_elem? events i) (find_back p i events)

unfoldable pub latest_screenshot : EventBuffer → Option Fields
latest_screenshot b = find_back (has_type (text "screenshot")) (length b.events) b.events

pub record Stats : Type 0 where
  pub total_events : ℕ
  pub error_count : ℕ
  pub last_id : Value

abbrev pub id_of : Option Fields → Value
id_of none = nat 0
id_of (some e) = get (text "__id") e

-- `events.length ? events[events.length - 1].__id : 0`.
unfoldable pub last_id : List Fields → Value
last_id events = id_of (get_last? events)

unfoldable pub stats : EventBuffer → Stats
stats b = record {
  total_events = length b.events;
  error_count = length (filter is_error b.events);
  last_id = last_id b.events;
}
