-- ===== src/Mcp/Server.antt =====
-- src/mcp/server.ts and src/mcp/mappers.ts: the resources and tools that the server offers.
pub mod Announcements
pub mod Unconnected
mod Tests
use aria_bridge.Prelude.{
  ℕ, ◌+◌, Bool, true, false, not, ◌||◌, Text, text, text_eq, length, filter, map, if◌then◌else◌,
  Option, none, some, List, [], ◌∷◌, ◌++◌,
}
use aria_bridge.Value.{
  Number, finite, Value, undefined, num, bool, nat, str, arr, obj, Items, items, Fields, end, field,
}
use aria_bridge.Value.Props.{get, put, has}
use aria_bridge.Mcp.EventBuffer as Buffer
use aria_bridge.Mcp.EventBuffer.{EventBuffer, is_text, is_error, last_id}
use aria_bridge.Mcp.Validation.{
  Result, ok, throws, nullish_or, SubscribeArgs, validate_subscribe_args, ControlArgs,
  validate_control_args,
}
use aria_bridge.Mcp.Config.{BridgeMeta, ResolvedMcpConfig}
use aria_bridge.Mcp.Consumer.State.{HostConsumer}
use aria_bridge.Mcp.Consumer.Operations as Consumer

-- The variables of `startMcpServer`, and the notifications that went out.
pub record McpServer : Type 0 where
  pub config : ResolvedMcpConfig
  pub consumer : HostConsumer
  pub buffer : EventBuffer
  pub connected : Bool
  pub notices : List Value

-- The server after the attempt to connect: the consumer as the attempt left it, and whether it is
-- connected and subscribed.
unfoldable pub start_mcp_server : ResolvedMcpConfig → HostConsumer → Bool → McpServer
start_mcp_server config consumer connected = record {
  config = config;
  consumer = consumer;
  buffer = Buffer.init config.buffer_size;
  connected = connected;
  notices = [];
}

-- What a resource holds: `text` is the payload, printed.
pub record Contents : Type 0 where
  pub uri : Text
  pub payload : Value

abbrev pub to_json_content : Text → Value → Contents
to_json_content uri payload = record { uri = uri; payload = payload }

unfoldable pub project_metadata : BridgeMeta → Fields
project_metadata meta = field (text "url") meta.url (
    field (text "secret") (str (text "[redacted]")) (
      field (text "port") meta.port (
        field (text "workspacePath") meta.workspace_path (
          field (text "pid") meta.pid (
            field (text "heartbeatAt") meta.heartbeat_at
              (field (text "startedAt") meta.started_at end))))))

-- The resources that `notifyResourceUpdates` names for a type of event.
unfoldable pub updated_uris : Value → List Text
updated_uris kind =
    (text "bridge://events/recent" ∷ text "bridge://stats" ∷ [])
    ++ ((if is_text (text "error") kind then text "bridge://events/errors" ∷ [] else [])
        ++ ((if is_text (text "network") kind then text "bridge://events/network" ∷ [] else [])
            ++ ((if is_text (text "navigation") kind || is_text (text "pageview") kind
                  then text "bridge://events/navigation" ∷ []
                  else [])
                ++ (if is_text (text "screenshot") kind
                    then text "bridge://events/screenshot" ∷ []
                    else []))))

abbrev pub notification : Text → Value → Value
notification method params =
    obj (field (text "method") (str method) (field (text "params") params end))

abbrev pub resource_updated : Text → Value
resource_updated uri =
    notification (text "notifications/resources/updated") (obj (field (text "uri") (str uri) end))

-- The listeners of the consumer, which are there only where it is connected.
unfoldable pub on_bridge_event : Fields → McpServer → McpServer
on_bridge_event event s =
    if s.connected
    then record s {
      buffer = (Buffer.push event s.buffer).0;
      notices =
          s.notices
          ++ (notification (text "bridge/event") (obj event)
              ∷ map resource_updated (updated_uris (get (text "type") event)));
    }
    else s

unfoldable pub on_control_result : Value → McpServer → McpServer
on_control_result result s =
    if s.connected
    then record s { notices = s.notices ++ notification (text "bridge/control_result") result ∷ [] }
    else s

abbrev pub event_list : List Fields → Value
event_list events = arr (items (map obj events))

abbrev pub screenshot_or_none : Option Fields → Value
screenshot_or_none none =
    obj (field (text "message") (str (text "No screenshots captured yet")) end)
screenshot_or_none (some e) = obj e

abbrev pub unknown_resource : Text → Text
unknown_resource uri = text "Unknown resource uri: " ++ uri

abbrev pub unknown_tool : Text → Text
unknown_tool name = text "Unknown tool: " ++ name

-- What a call of a tool comes to: an answer, an error that is thrown, or the wait for a promise of the
-- consumer, whose outcome is answered as it is, or as this text.
pub data Reply : Type 0 where
  answers : (is_error : Bool) → Text → Reply
  throws_error : Text → Reply
  awaits : ℕ → Option Text → Reply

abbrev pub value_of_texts : Option (List Text) → Value
value_of_texts none = undefined
value_of_texts (some ts) = arr (items (map str ts))

abbrev pub value_of_text : Option Text → Value
value_of_text none = undefined
value_of_text (some t) = str t

-- `{ type: 'subscribe', ...parsed }`.
abbrev pub subscribe_message : SubscribeArgs → Value
subscribe_message parsed = obj (
    field (text "type") (str (text "subscribe")) (
      field (text "levels") (value_of_texts (some parsed.levels)) (
        field (text "capabilities") (value_of_texts parsed.capabilities)
          (field (text "llm_filter") (value_of_text parsed.llm_filter) end))))

abbrev pub subscribed : Result SubscribeArgs → McpServer → McpServer × Reply
subscribed (throws e) s = (s, throws_error e)
subscribed (ok parsed) s = (
  record s { consumer = Consumer.subscribe (subscribe_message parsed) s.consumer },
  awaits s.consumer.next_id (some (text "subscription updated")),
)

abbrev pub controlled : Text → Result ControlArgs → McpServer → McpServer × Reply
controlled id (throws e) s = (s, throws_error e)
controlled id (ok parsed) s = (
  record s {
    consumer =
        Consumer.send_control id parsed.action (nullish_or parsed.args (value_of_text parsed.code))
          s.consumer;
  },
  awaits s.consumer.next_id none,
)

-- `v + 1`, of a value of `byType`: a count, or the text of what every object has by that name.
abbrev pub plus_one : Value → Value
plus_one (num (finite sign n shift)) = nat (n + 1)
plus_one (str t) = str (t ++ text "1")
plus_one v = v

-- What is asked of the language: `Number` of what is no number, the text of a value that names a
-- property, and what `(byType[key] || 0) + 1` is for a key that was not set.
module _ (to_number : Value → Number) (to_key : Value → Text) (first : Text → Value) where
  abbrev pub count_type : Text → Fields → Fields
  count_type key counts =
      put key (if has key counts then plus_one (get key counts) else first key) counts

  unfoldable pub count_types : List Fields → Fields → Fields
  count_types [] counts = counts
  count_types (e ∷ es) counts = count_types es (count_type (to_key (get (text "type") e)) counts)

  unfoldable pub project_stats : List Fields → Value
  project_stats events = obj (
      field (text "total") (nat (length events)) (
        field (text "errors") (nat (length (filter is_error events))) (
          field (text "byType") (obj (count_types events end))
            (field (text "lastEventId") (last_id events) end))))

  -- The resources that need a connection; the limits are the defaults of the buffer's methods.
  unfoldable pub read_connected : Text → EventBuffer → Result Contents
  read_connected uri b =
      if text_eq uri (text "bridge://events/recent")
      then ok (to_json_content uri (event_list (Buffer.recent 100 b)))
      else if text_eq uri (text "bridge://events/errors")
      then ok (to_json_content uri (event_list (Buffer.errors 50 b)))
      else if text_eq uri (text "bridge://events/network")
      then ok (to_json_content uri (event_list (Buffer.network 50 b)))
      else if text_eq uri (text "bridge://events/navigation")
      then ok (to_json_content uri (event_list (Buffer.navigation 50 b)))
      else if text_eq uri (text "bridge://events/screenshot")
      then ok (to_json_content uri (screenshot_or_none (Buffer.latest_screenshot b)))
      else if text_eq uri (text "bridge://stats")
      then ok (to_json_content (text "bridge://stats") (project_stats (Buffer.recent 100 b)))
      else throws (unknown_resource uri)

  -- `${config.meta.url}` in a text.
  abbrev pub shown_url : McpServer → Text
  shown_url s = to_key s.config.meta.url

  abbrev pub unavailable : McpServer → Value
  unavailable s = obj (
      field (text "error") (str (text "Bridge host not available")) (
        field (text "message")
          (str (
            text "Ensure a browser or app with @shaneholloman/aria-bridge is running on "
            ++ shown_url s))
          end))

  abbrev pub metadata_of : McpServer → Value
  metadata_of s =
      let meta = project_metadata s.config.meta in
      if s.connected
      then obj (put (text "connected") (bool true) meta)
      else obj (
          put (text "message")
            (str (
              text "Bridge host not available at "
              ++ (shown_url s ++ text ". MCP server is running but cannot receive events.")))
            (put (text "connected") (bool false) meta))

  -- The handler of `resources/read`.
  unfoldable pub read_resource : Text → McpServer → Result Contents
  read_resource uri s =
      if text_eq uri (text "bridge://metadata")
      then ok (to_json_content (text "bridge://metadata") (metadata_of s))
      else if not s.connected
      then ok (to_json_content uri (unavailable s))
      else read_connected uri s.buffer

  abbrev pub refusal : McpServer → Text
  refusal s =
      text
        "Bridge host not available. Ensure a browser or app with @shaneholloman/aria-bridge is running on "
      ++ shown_url s

  -- The handler of `tools/call`, with the id that a control request would get.
  unfoldable pub call_tool : Text → Text → Value → McpServer → McpServer × Reply
  call_tool id name args s =
      if not s.connected
      then (s, answers true (refusal s))
      else if text_eq name (text "subscribe_to_events")
      then subscribed (validate_subscribe_args args) s
      else if text_eq name (text "send_control")
      then controlled id (validate_control_args to_number args) s
      else (s, throws_error (unknown_tool name))

-- `stop`.
unfoldable pub stop : McpServer → McpServer
stop s = record s { consumer = Consumer.close s.consumer }
