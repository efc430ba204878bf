-- ===== src/Lib.antt =====
-- aria-bridge: a bridge that runs in an application and sends its errors, console output and network
-- calls to a host on the developer's machine, and a server that offers what the host receives to
-- tools.
--
-- A bridge (src/client.ts) holds one `BridgeWebSocket` (src/websocket.ts), which connects to the host,
-- greets it, keeps the connection alive, buffers events while it is down and redacts each event before
-- it leaves. The host (bin/aria-bridge-host.js) holds the lock of a workspace, keeps a file that tells
-- clients its address and its secret, and routes events to its consumers by level and capability, with
-- predicates that it shares with src/host-utils.ts; a bridge may also be a session over HTTP. The
-- MCP server (src/mcp) is such a consumer: it keeps the last events in a buffer, checks the arguments of
-- its tools and sends control requests, each with a promise and a timer.
--
-- The parts, and where they are modelled:
--   Prelude        lists, texts and tests. A text is the list of its UTF-16 code units.
--   Value          the values of the language, as JSON texts stand for them; reading and writing the
--                  properties of an object (Value/Props); numbers as ± mantissa / 2 ^ shift
--                  (Value/Numbers).
--   Constants      src/constants.ts.
--   Socket         src/websocket.ts. Redact has `validateAndRedact` and `redactObject`; State the
--                  fields of the class and its environment; Operations one function for each method
--                  and callback; Steps what may happen in any order; Timers and Ownership, Outbox and
--                  Opening, Order, Waiting and Reconnect what holds of every run.
--   HostUtils      src/host-utils.ts.
--   Host           bin/aria-bridge-host.js. State has the variables of `startServer` and its sockets;
--                  Values what it makes of the values in a message; Routing the filters and the loop
--                  over the consumers; Sockets the connection and its authentication; Bridges and
--                  Consumers the messages by role, and the close event; Http the endpoints; Steps what
--                  may happen in any order. Secrecy, References, Overload, Control (with Sessions),
--                  Agreement and Screenshots (with Frames) have the proofs. Start is the start of
--                  the process: the lock, the file, the port and the secret, with the proofs in
--                  Ports, Lock and Announce.
--   Mcp            src/mcp: EventBuffer (event-buffer.ts), Validation (validation.ts), Config (config.ts),
--                  Cli (cli.ts), Consumer (consumer.ts) and Server (server.ts and mappers.ts), which holds
--                  a consumer and a buffer and calls the others. In Consumer, State has the fields of
--                  the class and its environment, Operations one function for each method and
--                  callback, Steps what may happen in any order, Promises and Close what becomes of the
--                  promises, Asked what holds of a request that waits, and Untouched and Lost what no
--                  step does to a promise that nothing refers to.
--   Client         src/client.ts and src/throttle.ts. Options has the decision to start and the
--                  capabilities, and what the host makes of them (Advertised); Throttle the
--                  throttling; Events `sendEvent`, the breadcrumbs, the patched console and the
--                  functions of the connection; Navigation the tracking of urls, and what goes out of
--                  it (Follows); Serialize what a console call's arguments are sent as; Network the
--                  patch of Node's network modules, its sinks and its requests; Discovery the file
--                  that a running host keeps.
--
-- The state of a `BridgeWebSocket` is a record with the fields of the class and, for what it acts on,
-- the timers that run, the frames that went out on each socket, the open promises of `connect` and the
-- control requests whose handler has not settled. Sockets and timers are numbered in the order in
-- which they were made. A method or callback is a function from state to state; `Step` lists all that
-- the program or the environment may call next, with nothing assumed of the order but that a socket
-- opens once. A frame is the value that the code hands to `JSON.stringify`, and what comes in is the
-- value that `JSON.parse` returns, or `none` where it throws.
--
-- The state of a `HostConsumer` has, beside its fields, the timers that run, the listeners of messages,
-- and the promises that are settled; a promise has the number of the timer that was set with it. A
-- promise settles once, as in the language: of two outcomes the first counts. The state of a bridge
-- (`Client.Events.Bridge`) holds its `BridgeWebSocket`, so that what `sendEvent` passes on is what that
-- model sends, buffers and redacts. The clock is an argument of each function that reads it.
--
-- A handler of the host returns the host and whether it threw, which closes the socket: a value in a
-- message may be anything, so that to print it, or to read it as a list, may throw. The host reads its
-- clock once for a message. Printing a value that is neither a text nor missing is a parameter. A map
-- is a list of its entries, whose order is never read, and a set a list in the order of its items.
-- Sockets and sessions are numbered; a socket leaves the state when it has closed. The files of the
-- host hold the values that were written, and the platform says which processes and ports there are.
--
-- Recursion is on lists; `decimal`, which prints a number, has fuel one above the number, and reading
-- its digits gives the number back. The search for a port has fuel 65537, one more than there are
-- ports and the first that is none. `safeSerialize` recurs on the depth that is left.
--
-- Not modelled: the WebSocket and HTTP implementations, whose events are the steps; the shutdown of the
-- host, and a reason to close that is too long; what the bridge itself logs to the console; functions
-- as values inside events; the patches of fetch and XMLHttpRequest; the lists of resources and tools.
-- The path of a url (`new URL`) is a parameter, and a console call gets its message and its serialized
-- arguments with it. `toLowerCase` is that of ASCII, with the two letters outside of it
-- whose lower case holds an ASCII letter; every other unit is kept, so two names that differ only in the
-- case of such letters are told apart. `Number` of a value that is no number is a parameter
-- of the tool arguments' model, and `Buffer.byteLength` one of the requests'.
pub mod Prelude
pub mod Value
pub mod Constants
pub mod Socket
pub mod Mcp
pub mod HostUtils
pub mod Host
pub mod Client
