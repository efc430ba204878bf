-- ===== src/Host/References/Operations.antt =====
-- bin/aria-bridge-host.js: the operations on sockets keep the references right.
use aria_bridge.Prelude.{
  ℕ, ◌+◌, Bool, true, false, not, ◌&&◌, Text, text, if_elim, Option, none, some, List, ◌∷◌, All,
  All-map, ◌≡◌, refl, sym, subst, arith,
}
use aria_bridge.Value.{Value, null}
use aria_bridge.Socket.State.{opened}
use aria_bridge.Host.State.{Sock, Host, lookup, erase, same_key}
use aria_bridge.Host.Routing.{is_open, send_to}
use aria_bridge.Host.Sockets.{
  update_sock, start_close, close_with, on_connection, auth_timeout_fires, on_result, pass_result,
}
use aria_bridge.Host.Consumers.{caught}
use aria_bridge.Host.References.{tracked, Tidy, IsTidy, Asks, IsNumbered, Keeps, Tidy-kept}
use aria_bridge.Host.References.Maps.{All-erase_kept}
use aria_bridge.Host.References.Sockets.{
  update-Keeps, update-IsNumbered, start_close-IsMild, connected-Keeps, IsMild,
}

-- The sockets change, and the references stay.
pub socks-IsTidy :
    (h : Host) (ss : List Sock) (n : ℕ)
    → IsTidy h
    → Keeps h.socks ss
    → All (IsNumbered n) ss
    → IsTidy (record h { socks = ss; next_id = n })
socks-IsTidy h ss n t k m =
    Tidy-kept h.socks ss k h.bridges h.consumers h.capabilities h.subscriptions h.last_screenshot
      h.pending h.next_id n t m

pub update-IsTidy :
    (k : ℕ) (f : Sock → Sock) (h : Host)
    → IsMild f
    → IsTidy h
    → IsTidy (record h { socks = update_sock k f h.socks })
update-IsTidy k f h mild t =
    socks-IsTidy h (update_sock k f h.socks) h.next_id t (update-Keeps k f h.socks mild)
      (update-IsNumbered h.next_id k f h.socks (λ s. (mild s).0) t.6)

pub close_with-IsTidy :
    (id code : ℕ) (reason : Text) (h : Host) → IsTidy h → IsTidy (close_with id code reason h)
unfolding close_with
close_with-IsTidy id code reason h t =
    update-IsTidy id (λ s. start_close code reason s.ready s) h (start_close-IsMild code reason) t

pub on_connection-IsTidy : (h : Host) → IsTidy h → IsTidy (on_connection h)
unfolding on_connection
on_connection-IsTidy h t =
    let x : Sock = record {
      id = h.next_id;
      ready = opened;
      is_authenticated = false;
      role = null;
      client_id = null;
      auth_timeout = true;
      closed_with = none;
    } in
    socks-IsTidy h (x ∷ h.socks) (h.next_id + 1) t (connected-Keeps x h.socks t.6) (
      omega arith,
      All-map (IsNumbered h.next_id) (IsNumbered (h.next_id + 1)) h.socks (λ s p. omega arith) t.6,
    )

pub auth_timeout_fires-IsTidy : (s : Sock) (h : Host) → IsTidy h → IsTidy (auth_timeout_fires s h)
unfolding auth_timeout_fires
auth_timeout_fires-IsTidy s h t =
    let unset : Host = record h {
      socks = update_sock s.id (λ x. record x { auth_timeout = false }) h.socks;
    } in
    let tidy : IsTidy unset =
      update-IsTidy s.id (λ x. record x { auth_timeout = false }) h
        (λ x. (refl, refl, refl, λ o. o)) t in
    if_elim IsTidy (s.auth_timeout && not s.is_authenticated)
      (close_with-IsTidy s.id 1008 (text "Authentication timeout") unset tidy) tidy

pub caught-IsTidy :
    (to_string : Value → Text) (id : ℕ) (r : Host × Bool)
    → IsTidy r.0
    → IsTidy (caught to_string id r)
caught-IsTidy to_string id (h, true) t = close_with-IsTidy id 1011 (text "Internal error") h t
caught-IsTidy to_string id (h, false) t = t

-- The frames that went out are no reference.
pub send_to-tracked : (id : ℕ) (body : Value) (h : Host) → tracked (send_to id body h) ≡ tracked h
unfolding send_to
send_to-tracked id body h = if_elim (λ (g : Host). tracked g ≡ tracked h) (is_open id h) refl refl

pub send_to-IsTidy : (id : ℕ) (body : Value) (h : Host) → IsTidy h → IsTidy (send_to id body h)
send_to-IsTidy id body h t = subst Tidy (sym (send_to-tracked id body h)) t

pub pending-IsTidy :
    (h : Host) (pending : List (Value × ℕ))
    → IsTidy h
    → All (Asks h.socks) pending
    → IsTidy (record h { pending = pending })
pending-IsTidy h pending (b, c, g, s, l, _, m) p = (b, c, g, s, l, p, m)

pass_result-IsTidy :
    (o : Option ℕ) (id body : Value) (h : Host) → IsTidy h → IsTidy (pass_result o id body h)
unfolding send_to
pass_result-IsTidy none id body h t = t
pass_result-IsTidy (some reply_to) id body h t =
    let rest = erase same_key id h.pending in
    let Passed : Host → Host = λ g. record g { pending = rest } in
    let tidy : IsTidy (Passed h) =
      pending-IsTidy h rest t (All-erase_kept same_key (Asks h.socks) id h.pending t.5) in
    let same : tracked (Passed (send_to reply_to body h)) ≡ tracked (Passed h) =
      if_elim (λ (g : Host). tracked (Passed g) ≡ tracked (Passed h)) (is_open reply_to h) refl
        refl in
    if_elim IsTidy (is_open reply_to h) (subst Tidy (sym same) tidy) t

pub on_result-IsTidy : (id body : Value) (h : Host) → IsTidy h → IsTidy (on_result id body h)
unfolding on_result
on_result-IsTidy id body h t = pass_result-IsTidy (lookup same_key id h.pending) id body h t
