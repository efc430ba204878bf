-- ===== src/Host/References/Reach.antt =====
-- bin/aria-bridge-host.js: whatever happens, the references of the host are right.
use aria_bridge.Prelude.{ℕ, Text, some, Option-cases, ◌≡◌, sym, subst, inl, inr}
use aria_bridge.Value.{Value}
use aria_bridge.Host.State.{Host, init}
use aria_bridge.Host.Routing.{find_sock}
use aria_bridge.Host.Steps.{
  Event, connection, timeout, closes, close, message, request, prune, begin_close, happen, Reach,
  begin, later,
}
use aria_bridge.Host.References.{IsTidy}
use aria_bridge.Host.References.Sockets.{find_sock-id, begin_close-IsMild}
use aria_bridge.Host.References.Operations.{
  update-IsTidy, on_connection-IsTidy, auth_timeout_fires-IsTidy,
}
use aria_bridge.Host.References.Close.{on_close-IsTidy}
use aria_bridge.Host.References.Consumers.{receive-IsTidy}
use aria_bridge.Host.References.Http.{prune_http_sessions-IsTidy, serve-IsTidy}

happen-IsTidy :
    (to_string : Value → Text) (e : Event) (h : Host) → IsTidy h → IsTidy (happen to_string e h)
unfolding happen
happen-IsTidy to_string connection h t = on_connection-IsTidy h t
happen-IsTidy to_string (timeout id) h t = elim (Option-cases (find_sock id h.socks)) [
  | inl gone ↦ rw gone t
  | inr (s, found) ↦ rw found (auth_timeout_fires-IsTidy s h t)
]
happen-IsTidy to_string (closes id) h t =
    update-IsTidy id (λ s. begin_close s.ready s) h begin_close-IsMild t
happen-IsTidy to_string (close id) h t = elim (Option-cases (find_sock id h.socks)) [
  | inl gone ↦ rw gone t
  | inr (s, found) ↦
      let at : s.id ≡ id = find_sock-id id h.socks s found in
      let here : find_sock s.id h.socks ≡ some s =
        subst (λ i. find_sock i h.socks ≡ some s) (sym at) found in
      rw found (on_close-IsTidy s h here t)
]
happen-IsTidy to_string (message now id raw) h t = receive-IsTidy to_string now id raw h t
happen-IsTidy to_string (request now drawn req) h t = serve-IsTidy to_string now drawn req h t
happen-IsTidy to_string (prune now) h t = prune_http_sessions-IsTidy now h t

-- Whatever happens to a host, each socket that its bridges, consumers, capabilities, subscriptions,
-- last screenshots and pending control requests refer to has not closed and has been authenticated,
-- in the role that it is kept for, and the capabilities that an open socket told of itself, and the
-- levels and capabilities that it asked for, are lists.
pub Reach-IsTidy :
    (to_string : Value → Text) (secret : Text) (start : ℕ) {h : Host}
    → Reach to_string (λ e. Unit {0}) (init secret start) h
    → IsTidy h
unfolding init
Reach-IsTidy to_string secret start begin = (tt, tt, tt, tt, tt, tt, tt)
Reach-IsTidy to_string secret start (later {h} r e _) =
    happen-IsTidy to_string e h (Reach-IsTidy to_string secret start r)
