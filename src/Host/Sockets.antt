-- ===== src/Host/Sockets.antt =====
-- bin/aria-bridge-host.js: the `connection` handler, for bridges and consumers on WebSockets.
use aria_bridge.Prelude.{
  ℕ, ◌+◌, ◌==◌, Bool, true, false, not, ◌&&◌, Text, text, decimal, if◌then◌else◌, Option, none,
  some, List, [], ◌∷◌, ◌++◌,
}
use aria_bridge.Value.{Value, null, bool, str, obj, end, field, truthy}
use aria_bridge.Socket.State.{Ready, opened, closing, closed}
use aria_bridge.Host.State.{socket, same_peer, Sock, Host, lookup, erase, add, same_key}
use aria_bridge.Host.Values.{prop, or, is_word, printable}
use aria_bridge.Host.Routing.{is_open, send_to}

abbrev pub same_id : ℕ → ℕ → Bool
same_id a b = a == b

unfoldable pub update_sock : ℕ → (Sock → Sock) → List Sock → List Sock
update_sock id f [] = []
update_sock id f (s ∷ ss) = (if s.id == id then f s else s) ∷ update_sock id f ss

unfoldable pub drop_sock : ℕ → List Sock → List Sock
drop_sock id [] = []
drop_sock id (s ∷ ss) = let rest = drop_sock id ss in if s.id == id then rest else s ∷ rest

-- `ws.close(code, reason)`: a socket that closes already is left alone.
abbrev pub start_close : ℕ → Text → Ready → Sock → Sock
start_close code reason closing s = s
start_close code reason closed s = s
start_close code reason _ s = record s { ready = closing; closed_with = some (code, reason) }

unfoldable pub close_with : ℕ → ℕ → Text → Host → Host
close_with id code reason h = record h {
  socks = update_sock id (λ s. start_close code reason s.ready s) h.socks;
}

-- The `connection` event, with the timer for the authentication.
unfoldable pub on_connection : Host → Host
on_connection h = record h {
  socks =
      record {
        id = h.next_id;
        ready = opened;
        is_authenticated = false;
        role = null;
        client_id = null;
        auth_timeout = true;
        closed_with = none;
      }
      ∷ h.socks;
  next_id = h.next_id + 1;
}

-- The timer runs out, if it was not cleared.
unfoldable pub auth_timeout_fires : Sock → Host → Host
auth_timeout_fires s h =
    if s.auth_timeout && not s.is_authenticated
    then close_with s.id 1008 (text "Authentication timeout")
        (record h { socks = update_sock s.id (λ x. record x { auth_timeout = false }) h.socks })
    else record h { socks = update_sock s.id (λ x. record x { auth_timeout = false }) h.socks }

-- What follows a line of the log: to print it may throw. `true` is a handler that threw.
abbrev pub logged : Bool → (Host → Host × Bool) → Host → Host × Bool
logged true k h = k h
logged false k h = (h, true)

abbrev pub return : Host → Host × Bool
return h = (h, false)

abbrev pub notice : Text → Text → Value
notice reason message = obj (
    field (text "type") (str (text "rate_limit_notice"))
      (field (text "reason") (str reason) (field (text "message") (str message) end)))

abbrev pub failed_control : Value → Text → Value
failed_control id message = obj (
    field (text "type") (str (text "control_result")) (
      field (text "id") id (
        field (text "ok") (bool false)
          (field (text "error") (obj (field (text "message") (str message) end)) end))))

-- A result for a control request goes to the one that asked, if it is there, and only once.
abbrev pub pass_result : Option ℕ → Value → Value → Host → Host
pass_result none id body h = h
pass_result (some reply_to) id body h =
    if is_open reply_to h
    then record (send_to reply_to body h) { pending = erase same_key id h.pending }
    else h

unfoldable pub on_result : Value → Value → Host → Host
on_result id body h = pass_result (lookup same_key id h.pending) id body h

module _ (to_string : Value → Text) where
  -- `${v}` of a value that can be printed.
  abbrev pub shown : Value → Text
  shown (str s) = s
  shown v = to_string v

  -- `role` is neither bridge nor consumer, or the client joins the others of its role.
  unfoldable pub join_role : ℕ → Value → Value → Host → Host × Bool
  join_role id role client_id h =
      let success = obj (
        field (text "type") (str (text "auth_success"))
          (field (text "role") role (field (text "clientId") client_id end))) in
      let welcome =
        λ (g : Host). logged (printable client_id) (λ x. return (send_to id success x)) g in
      if is_word (text "bridge") role
      then welcome (record h { bridges = add same_peer (socket id) h.bridges })
      else if is_word (text "consumer") role
      then welcome (record h { consumers = add same_id id h.consumers })
      else logged (printable role)
          (λ x. return (close_with id 1008 (text "Invalid role: " ++ shown role) x)) h

  -- A client that gave the secret.
  unfoldable pub admit : ℕ → ℕ → Value → Host → Host × Bool
  admit now id msg h =
      let role = or (prop (text "role") msg) (str (text "bridge")) in
      let given = prop (text "clientId") msg in
      let client_id = or given (str (shown role ++ (text "-" ++ decimal now))) in
      let known = record h {
        socks = update_sock id (λ s. record s { is_authenticated = true; role = role }) h.socks;
      } in
      if not (truthy given) && not (printable role)
      then (known, true)
      else join_role id role client_id (record known {
        socks =
            update_sock id (λ s. record s { client_id = client_id; auth_timeout = false })
              known.socks;
      })

  -- A message of a client that has not been authenticated.
  unfoldable pub handle_auth : ℕ → ℕ → Value → Host → Host × Bool
  handle_auth now id msg h =
      if is_word (text "auth") (prop (text "type") msg)
      then if is_word h.secret (prop (text "secret") msg)
        then admit now id msg h
        else return (close_with id 1008 (text "Invalid secret") h)
      else return (close_with id 1008 (text "Authentication required") h)
