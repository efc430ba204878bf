-- ===== src/Client/Network.antt =====
-- `instrumentNodeNetwork`, src/client.ts: one patch of the network modules for the whole process, and
-- the sinks of the bridges that share it.
pub mod Sinks
pub mod Requests
mod Tests
use aria_bridge.Prelude.{
  ℕ, ◌+◌, ◌-◌, ◌==◌, Bool, true, false, not, ◌&&◌, ◌||◌, Text, text, contains, if◌then◌else◌,
  Option, none, some, List, [], ◌∷◌, ◌++◌,
}
use aria_bridge.Value.{Value, undefined, bool, nat, str, obj, Fields, end, field, truthy}

-- `NodeNetworkSink`. Sinks are told apart by a number.
pub record Sink : Type 0 where
  pub id : ℕ
  pub bridge_url : Option Text

-- `NodeNetworkPatchState`.
pub record PatchState : Type 0 where
  pub count : ℕ
  pub sinks : List Sink

-- The property of the global object, and whether the network modules are patched.
pub record Process : Type 0 where
  pub state : Option PatchState
  pub patched : Bool

abbrev pub fresh_process : Process
fresh_process = record { state = none; patched = false }

-- `instrumentNodeNetwork`, given `getState()`.
abbrev pub join : Option PatchState → Sink → Process → Process
join (some existing) sink p = record p {
  state = some (record { count = existing.count + 1; sinks = existing.sinks ++ sink ∷ [] });
}
join none sink p = record { state = some (record { count = 1; sinks = sink ∷ [] }); patched = true }

unfoldable pub attach : Sink → Process → Process
attach sink p = join p.state sink p

-- `sinks.filter((s) => s !== targetSink)`.
unfoldable pub remove_sink : ℕ → List Sink → List Sink
remove_sink id [] = []
remove_sink id (s ∷ ss) = if s.id == id then remove_sink id ss else s ∷ remove_sink id ss

abbrev pub is_empty : List Sink → Bool
is_empty [] = true
is_empty (s ∷ ss) = false

-- The function that `detach(targetSink)` returns, given `getState()`.
abbrev pub leave : Option PatchState → ℕ → Process → Process
leave none id p = p
leave (some current) id p =
    let sinks = remove_sink id current.sinks in
    let count = current.count - 1 in
    if count == 0 || is_empty sinks
    then record { state = none; patched = false }
    else record p { state = some (record { count = count; sinks = sinks }) }

unfoldable pub detach : ℕ → Process → Process
detach id p = leave p.state id p

-- The argument of `dispatchNetwork`; the fields that may be missing are values.
pub record Payload : Type 0 where
  pub request_id : Text
  pub url : Text
  pub method : Text
  pub status : Value
  pub ok : Option Bool
  pub duration_ms : ℕ
  pub request_size : Value
  pub response_size : Value
  pub transport : Text
  pub error_message : Value
  pub message : Text
  pub breadcrumb_level : Text
  pub event_level : Text
  pub bypass_throttle : Option Bool

-- A call of `addBreadcrumb` and then one of `sendEvent`, on one sink.
pub record Delivery : Type 0 where
  pub sink : ℕ
  pub breadcrumb_level : Text
  pub message : Text
  pub event : Fields
  pub bypass : Bool

abbrev pub ok_value : Option Bool → Value
ok_value none = undefined
ok_value (some b) = bool b

-- `payload.bypassThrottle ?? (payload.ok === undefined ? true : !payload.ok)`.
abbrev pub bypass_of : Option Bool → Option Bool → Bool
bypass_of (some b) ok = b
bypass_of none none = true
bypass_of none (some ok) = not ok

unfoldable pub network_event : Payload → Fields
network_event p = field (text "type") (str (text "network")) (
    field (text "level") (str p.event_level) (
      field (text "message") (str p.message) (
        field (text "network")
          (obj (
            field (text "requestId") (str p.request_id) (
              field (text "url") (str p.url) (
                field (text "method") (str p.method) (
                  field (text "status") p.status (
                    field (text "ok") (ok_value p.ok) (
                      field (text "durationMs") (nat p.duration_ms) (
                        field (text "requestSize") p.request_size (
                          field (text "responseSize") p.response_size (
                            field (text "transport") (str p.transport)
                              (field (text "errorMessage") p.error_message end)))))))))))
          end)))

-- `target.bridgeUrl && payload.url && payload.url.includes(target.bridgeUrl)`: the bridge's own
-- traffic.
abbrev pub is_own : Text → Option Text → Bool
is_own url none = false
is_own url (some own) = truthy (str own) && truthy (str url) && contains url own

unfoldable pub deliver : Payload → List Sink → List Delivery
deliver payload [] = []
deliver payload (s ∷ ss) =
    let rest = deliver payload ss in
    if is_own payload.url s.bridge_url
    then rest
    else record {
      sink = s.id;
      breadcrumb_level = payload.breadcrumb_level;
      message = payload.message;
      event = network_event payload;
      bypass = bypass_of payload.bypass_throttle payload.ok;
    }
      ∷ rest

abbrev pub sinks_of : Option PatchState → List Sink
sinks_of none = []
sinks_of (some st) = st.sinks

unfoldable pub dispatch_network : Payload → Process → List Delivery
dispatch_network payload p = deliver payload (sinks_of p.state)
