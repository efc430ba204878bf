-- ===== src/Client/Options/Advertised.antt =====
-- `startBridge`, src/client.ts, to bin/aria-bridge-host.js: what a host makes of the greeting of a
-- bridge with some options.
use aria_bridge.Prelude.{Bool, Text, text, Option}
use aria_bridge.Value.{Value}
use aria_bridge.Socket.Operations.{hello_message}
use aria_bridge.Host.Values.{prop}
use aria_bridge.HostUtils as HostUtils
use aria_bridge.Client.Options.{Settings}
use aria_bridge.Client.Events.{start}

-- The capabilities in the greeting of a bridge that has started.
abbrev pub greeted : Bool → Text → Option (Text × Text) → Settings → Value
greeted made platform page s =
    prop (text "capabilities") (hello_message (start made platform s).ws.config page)
