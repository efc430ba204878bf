-- ===== src/Host/Steps.antt =====
-- bin/aria-bridge-host.js: what can happen to a host, and the hosts that come of it.
use aria_bridge.Prelude.{ℕ, Text, Option, none, some}
use aria_bridge.Value.{Value}
use aria_bridge.Socket.State.{Ready, opened, closing}
use aria_bridge.Host.State.{Sock, Host}
use aria_bridge.Host.Routing.{find_sock}
use aria_bridge.Host.Sockets.{update_sock, on_connection, auth_timeout_fires}
use aria_bridge.Host.Consumers.{receive, on_close}
use aria_bridge.Host.Http.{Request, prune_http_sessions, serve}

-- `message now id raw` is a text from the socket `id`, which `none` stands for where it is no JSON;
-- `request now drawn req` is a request whose connection would draw that text; `closes id` is the
-- other side that begins to close.
pub data Event : Type 0 where
  connection : Event
  timeout closes close : ℕ → Event
  message : ℕ → ℕ → Option Value → Event
  request : ℕ → Text → Request → Event
  prune : ℕ → Event

abbrev pub on_sock : Option Sock → (Sock → Host → Host) → Host → Host
on_sock none f h = h
on_sock (some s) f h = f s h

abbrev pub begin_close : Ready → Sock → Sock
begin_close opened s = record s { ready = closing }
begin_close _ s = s

module _ (to_string : Value → Text) where
  -- A socket that is not there has no events.
  unfoldable pub happen : Event → Host → Host
  happen connection h = on_connection h
  happen (timeout id) h = on_sock (find_sock id h.socks) auth_timeout_fires h
  happen (closes id) h = record h { socks = update_sock id (λ s. begin_close s.ready s) h.socks }
  happen (close id) h = on_sock (find_sock id h.socks) on_close h
  happen (message now id raw) h = receive to_string now id raw h
  happen (request now drawn req) h = (serve to_string now drawn req h).0
  happen (prune now) h = prune_http_sessions now h

  -- The hosts that events with a property lead to.
  pub data Reach (P : Event → Type 0) (start : Host) : Host → Type 0 where
    begin : Reach P start start
    later : {h : Host} → Reach P start h → (e : Event) → P e → Reach P start (happen e h)
