-- ===== src/Mcp/Server/Unconnected.antt =====
-- src/mcp/server.ts: a server that did not connect when it started.
use aria_bridge.Prelude.{
  true, false, Text, text, text_eq, [], ◌++◌, ◌≡◌, refl, ap, sym, subst, not, if_true, if_false,
}
use aria_bridge.Value.{Number, Value, bool, str, obj, Fields, end, field}
use aria_bridge.Value.Props.{get, put}
use aria_bridge.Mcp.Consumer.State.{HostConsumer}
use aria_bridge.Mcp.Consumer.Steps.{Step}
use aria_bridge.Mcp.EventBuffer as Buffer
use aria_bridge.Mcp.Config.{ResolvedMcpConfig}
use aria_bridge.Mcp.Validation.{ok, prop}
use aria_bridge.Mcp.Server.{
  McpServer, start_mcp_server, Contents, Reply, answers, on_bridge_event, on_control_result,
  call_tool, read_resource, project_metadata, to_json_content, metadata_of,
}

module _ (to_number : Value → Number) (to_key : Value → Text) (first : Text → Value) where
  -- What may happen to a server: the consumer goes its way (its socket, its timers, its calls, its
  -- close), it emits an event or a result, or a tool is called.
  pub data Happens (s : McpServer) : McpServer → Type 0 where
    moves : {c : HostConsumer} → Step s.consumer c → Happens s (record s { consumer = c })
    emits_event : (e : Fields) → Happens s (on_bridge_event e s)
    emits_result : (r : Value) → Happens s (on_control_result r s)
    calls_tool :
        (id name : Text) (args : Value)
        → Happens s (call_tool to_number to_key first id name args s).0

  pub data Runs (s : McpServer) : McpServer → Type 0 where
    starts : Runs s s
    then_happens : {t u : McpServer} → Runs s t → Happens t u → Runs s u

  -- The server is not connected, and has taken in and told nothing.
  pub record IsIdle (config : ResolvedMcpConfig) (s : McpServer) : Type 0 where
    pub unconnected : s.connected ≡ false
    pub configured : s.config ≡ config
    pub empty : s.buffer ≡ Buffer.init config.buffer_size
    pub silent : s.notices ≡ []

  Happens-IsIdle :
      (config : ResolvedMcpConfig) {s t : McpServer}
      → Happens s t
      → IsIdle config s
      → IsIdle config t
  unfolding on_bridge_event on_control_result call_tool
  Happens-IsIdle config (moves st) i = record {
    unconnected = i.unconnected;
    configured = i.configured;
    empty = i.empty;
    silent = i.silent;
  }
  Happens-IsIdle config (emits_event e) i =
      subst (IsIdle config) (sym (if_false _ _ i.unconnected)) i
  Happens-IsIdle config (emits_result r) i =
      subst (IsIdle config) (sym (if_false _ _ i.unconnected)) i
  Happens-IsIdle config (calls_tool id name args) i =
      subst (IsIdle config)
        (sym (ap (λ (x : McpServer × Reply). x.0) (if_true _ _ (ap not i.unconnected)))) i

  Runs-IsIdle :
      (config : ResolvedMcpConfig) {s t : McpServer} → Runs s t → IsIdle config s → IsIdle config t
  Runs-IsIdle config starts i = i
  Runs-IsIdle config (then_happens r h) i = Happens-IsIdle config h (Runs-IsIdle config r i)

  -- A server that is not connected when it starts stays so for good, whatever its consumer does, even
  -- if that connects later: it keeps no event and sends no notice, each call of a tool leaves it as it
  -- is and is answered with the error that the host is not available, a resource other than the metadata
  -- reads as that error, and the metadata say that it is not connected.
  pub start_mcp_server-stays :
      (config : ResolvedMcpConfig) (consumer : HostConsumer) (s : McpServer) (id name uri : Text)
      (args : Value)
      → Runs (start_mcp_server config consumer false) s
      → text_eq uri (text "bridge://metadata") ≡ false
      → IsIdle config s
        × (call_tool to_number to_key first id name args s ≡ (
          s,
          answers true (
              text
                "Bridge host not available. Ensure a browser or app with @shaneholloman/aria-bridge is running on "
              ++ to_key config.meta.url),
        ))
        × (read_resource to_number to_key first uri s
            ≡ ok (record {
              uri = uri;
              payload = obj (
                  field (text "error") (str (text "Bridge host not available")) (
                    field
                      (text "message")
                      (str (
                        text
                          "Ensure a browser or app with @shaneholloman/aria-bridge is running on "
                        ++ to_key config.meta.url))
                      end));
            }))
        × ((c : Contents) × (read_resource to_number to_key first (text "bridge://metadata") s
              ≡ ok c)
            × (prop (text "connected") c.payload ≡ bool false))
  unfolding start_mcp_server call_tool read_resource project_metadata get put text_eq
  start_mcp_server-stays config consumer s id name uri args r other =
      let idle =
        Runs-IsIdle config r
          (record { unconnected = refl; configured = refl; empty = refl; silent = refl }) in
      let off = idle.unconnected in
      (
        idle,
        rw (off, idle.configured) refl,
        rw (other, off, idle.configured) refl,
        (
          to_json_content (text "bridge://metadata") (metadata_of to_number to_key first s),
          refl,
          rw off refl,
        ),
      )
