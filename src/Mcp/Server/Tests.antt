-- ===== src/Mcp/Server/Tests.antt =====
-- The server at concrete events.
use aria_bridge.Prelude.{
  none, ◌++◌, false, Bool, true, false, Text, text, text_eq, includes, [], ◌∷◌, ◌≡◌, refl, inr, inl,
}
use aria_bridge.Value.{
  bool, obj, Number, finite, Value, undefined, null, nat, str, Fields, end, field,
}
use aria_bridge.Value.Props.{get, put, has}
use aria_bridge.Value.Numbers.{max_one, exceeds, trunc}
use aria_bridge.Mcp.EventBuffer as Buffer
use aria_bridge.Mcp.EventBuffer.{is_text}
use aria_bridge.Mcp.Config.{ResolvedMcpConfig}
use aria_bridge.Mcp.Consumer.State as Consumer
use aria_bridge.Mcp.Validation.{ok, prop}
use aria_bridge.Mcp.Server.{
  McpServer, Contents, start_mcp_server, answers, updated_uris, on_bridge_event, read_connected,
  read_resource, call_tool, to_json_content, event_list,
}
use aria_bridge.Mcp.Server.Announcements.{on_bridge_event-announces}
use aria_bridge.Mcp.Server.Unconnected.{
  moves, emits_event, Runs, starts, then_happens, IsIdle, start_mcp_server-stays,
}
use aria_bridge.Mcp.Consumer.Steps.{calls, connects}
use aria_bridge.Mcp.Consumer.Operations as Operations

code : Unit {0}
unfolding text_eq includes get put has max_one exceeds trunc is_text Buffer.init Buffer.push
    Buffer.stamp Buffer.slice_last Buffer.errors start_mcp_server updated_uris on_bridge_event
    read_connected read_resource
code = tt

abbrev to_number : Value → Number
to_number v = finite false 0 0

abbrev to_key : Value → Text
to_key v = text "k"

abbrev first : Text → Value
first key = nat 1

abbrev config : ResolvedMcpConfig
config = record {
  meta = record {
    url = str (text "ws://h");
    secret = str (text "s");
    port = undefined;
    workspace_path = undefined;
    pid = undefined;
    heartbeat_at = undefined;
    started_at = undefined;
  };
  client_id = text "c";
  buffer_size = finite false 5 0;
  debug = false;
  levels = [];
  capabilities = [];
  llm_filter = text "off";
}

abbrev consumer : Consumer.HostConsumer
consumer = Consumer.init (text "ws://h") (text "s") (text "c")

abbrev server : Bool → McpServer
server connected = start_mcp_server config consumer connected

abbrev console_error : Fields
console_error =
    field (text "type") (str (text "console")) (field (text "level") (str (text "error")) end)

-- An event of the console at the level of errors shows among the errors, which are not announced.
error_unannounced :
    (read_resource to_number to_key first
        (text "bridge://events/errors")
        (on_bridge_event console_error (server true))
      ≡ ok (
          to_json_content
            (text "bridge://events/errors")
            (event_list (Buffer.stamp 1 console_error ∷ []))))
    × (includes (updated_uris (str (text "console"))) (text "bridge://events/errors") ≡ false)
unfolding code
error_unannounced = (refl, refl)

on_bridge_event-announces_example :
    read_resource to_number to_key first
      (text "bridge://events/navigation")
      (on_bridge_event console_error (server true))
    ≡ read_resource to_number to_key first (text "bridge://events/navigation") (server true)
unfolding code
on_bridge_event-announces_example =
    on_bridge_event-announces to_number to_key first (text "bridge://events/navigation")
      console_error (server true) (inr (inl refl)) refl refl refl

-- The server once its consumer has begun to connect, and an event of the console came in.
abbrev idle : McpServer
idle =
    on_bridge_event console_error
      (record (server false) { consumer = Operations.connect none consumer })

idle-Runs : Runs to_number to_key first (server false) idle
unfolding start_mcp_server Consumer.init
idle-Runs =
    then_happens (then_happens starts (moves (calls (connects none)))) (emits_event console_error)

start_mcp_server-stays_example :
    IsIdle to_number to_key first config idle
    × (call_tool to_number to_key first (text "i") (text "send_control") null idle ≡ (
      idle,
      answers true (
          text
            "Bridge host not available. Ensure a browser or app with @shaneholloman/aria-bridge is running on "
          ++ text "k"),
    ))
    × (read_resource to_number to_key first (text "bridge://stats") idle
        ≡ ok (record {
          uri = text "bridge://stats";
          payload = obj (
              field (text "error") (str (text "Bridge host not available")) (
                field
                  (text "message")
                  (str (
                    text "Ensure a browser or app with @shaneholloman/aria-bridge is running on "
                    ++ text "k"))
                  end));
        }))
    × ((c : Contents) × (read_resource to_number to_key first (text "bridge://metadata") idle
          ≡ ok c)
        × (prop (text "connected") c.payload ≡ bool false))
unfolding text_eq
start_mcp_server-stays_example =
    start_mcp_server-stays to_number to_key first config consumer idle (text "i")
      (text "send_control") (text "bridge://stats") null idle-Runs refl
