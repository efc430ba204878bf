-- ===== src/Host/References/Join.antt =====
-- bin/aria-bridge-host.js: a client that authenticates becomes a bridge or a consumer.
use aria_bridge.Prelude.{
  ℕ, Bool, true, false, not, ◌&&◌, Text, text, decimal, ◌++◌, List, if◌then◌else◌, if_elim, if_true,
  if_false, some, ◌≡◌, refl, sym, subst, Bool-cases, inl, inr,
}
use aria_bridge.Value.{Value, str, obj, end, field, truthy}
use aria_bridge.Host.State.{socket, same_peer, Sock, Host, add}
use aria_bridge.Host.Values.{is_word, prop, or, printable}
use aria_bridge.Host.Routing.{find_sock, send_to}
use aria_bridge.Host.Sockets.{
  same_id, update_sock, close_with, logged, return, shown, join_role, admit, handle_auth,
}
use aria_bridge.Host.Screenshots.{logged-Holds}
use aria_bridge.Host.References.{IsTidy, IsBridge, IsConsumer}
use aria_bridge.Host.References.Maps.{All-add}
use aria_bridge.Host.References.Sockets.{
  find_sock-update_own, update-Keeps_stranger, update-IsNumbered,
}
use aria_bridge.Host.References.Operations.{
  socks-IsTidy, update-IsTidy, close_with-IsTidy, send_to-IsTidy,
}

-- The socket has been authenticated, with this role.
abbrev Joined : Value → ℕ → List Sock → Type 0
Joined role id ss =
    (s : Sock) × (find_sock id ss ≡ some s) × (s.is_authenticated ≡ true) × (s.role ≡ role)

bridges-IsTidy :
    (id : ℕ) (h : Host)
    → IsTidy h
    → IsBridge h.socks (socket id)
    → IsTidy (record h { bridges = add same_peer (socket id) h.bridges })
bridges-IsTidy id h (b, c, g, s, l, p, m) k =
    (All-add same_peer (IsBridge h.socks) (socket id) h.bridges k b, c, g, s, l, p, m)

consumers-IsTidy :
    (id : ℕ) (h : Host)
    → IsTidy h
    → IsConsumer h.socks id
    → IsTidy (record h { consumers = add same_id id h.consumers })
consumers-IsTidy id h (b, c, g, s, l, p, m) k =
    (b, All-add same_id (IsConsumer h.socks) id h.consumers k c, g, s, l, p, m)

module _ (to_string : Value → Text) where
  join_role-IsTidy :
      (id : ℕ) (role client_id : Value) (h : Host)
      → IsTidy h
      → Joined role id h.socks
      → IsTidy (join_role to_string id role client_id h).0
  unfolding join_role
  join_role-IsTidy id role client_id h t (s, found, a, same) =
      let success = obj (
        field (text "type") (str (text "auth_success"))
          (field (text "role") role (field (text "clientId") client_id end))) in
      let welcome =
        λ (g : Host). logged (printable client_id) (λ x. return (send_to id success x)) g in
      let with_bridge : Host = record h { bridges = add same_peer (socket id) h.bridges } in
      let with_consumer : Host = record h { consumers = add same_id id h.consumers } in
      let reason = text "Invalid role: " ++ shown to_string role in
      let refused = logged (printable role) (λ x. return (close_with id 1008 reason x)) h in
      let Goal : Host × Bool → Type 0 = λ r. IsTidy r.0 in
      let welcomed : (g : Host) → IsTidy g → Goal (welcome g) = λ g u.
        logged-Holds IsTidy (printable client_id) (λ x. return (send_to id success x)) g u
          (send_to-IsTidy id success g u) in
      let as_consumer = if is_word (text "consumer") role then welcome with_consumer else refused in
      let is = λ (word : Text) (e : is_word word role ≡ true).
        subst (λ v. is_word word v ≡ true) (sym same) e in
      elim (Bool-cases (is_word (text "bridge") role)) [
        | inl e ↦
            subst Goal (sym (if_true (welcome with_bridge) as_consumer e))
              (welcomed with_bridge (bridges-IsTidy id h t (s, found, a, is (text "bridge") e)))
        | inr e ↦
            subst Goal (sym (if_false (welcome with_bridge) as_consumer e))
              (elim (Bool-cases (is_word (text "consumer") role)) [
                | inl c ↦ subst Goal (sym (if_true (welcome with_consumer) refused c)) (
                    welcomed with_consumer
                      (consumers-IsTidy id h t (s, found, a, is (text "consumer") c)))
                | inr c ↦ subst Goal (sym (if_false (welcome with_consumer) refused c)) (
                    logged-Holds IsTidy (printable role) (λ x. return (close_with id 1008 reason x))
                      h t (close_with-IsTidy id 1008 reason h t))
              ])
      ]

  admit-IsTidy :
      (now id : ℕ) (msg : Value) (s : Sock) (h : Host)
      → IsTidy h
      → find_sock id h.socks ≡ some s
      → s.is_authenticated ≡ false
      → IsTidy (admit to_string now id msg h).0
  unfolding admit
  admit-IsTidy now id msg s h t found new =
      let role = or (prop (text "role") msg) (str (text "bridge")) in
      let given = prop (text "clientId") msg in
      let client_id = or given (str (shown to_string role ++ (text "-" ++ decimal now))) in
      let joins : Sock → Sock = λ x. record x { is_authenticated = true; role = role } in
      let names : Sock → Sock = λ x. record x { client_id = client_id; auth_timeout = false } in
      let known : Host = record h { socks = update_sock id joins h.socks } in
      let tidy : IsTidy known =
        socks-IsTidy h (update_sock id joins h.socks) h.next_id t
          (update-Keeps_stranger id joins h.socks s (λ x. refl) found new)
          (update-IsNumbered h.next_id id joins h.socks (λ x. refl) t.6) in
      let named : Host = record known { socks = update_sock id names known.socks } in
      let named_tidy : IsTidy named =
        update-IsTidy id names known (λ x. (refl, refl, refl, λ o. o)) tidy in
      let at =
        find_sock-update_own id names (λ x. refl) known.socks (joins s)
          (find_sock-update_own id joins (λ x. refl) h.socks s found) in
      if_elim (λ (r : Host × Bool). IsTidy r.0) (not (truthy given) && not (printable role)) tidy
        (join_role-IsTidy id role client_id named named_tidy (names (joins s), at, refl, refl))

  pub handle_auth-IsTidy :
      (now id : ℕ) (msg : Value) (s : Sock) (h : Host)
      → IsTidy h
      → find_sock id h.socks ≡ some s
      → s.is_authenticated ≡ false
      → IsTidy (handle_auth to_string now id msg h).0
  unfolding handle_auth
  handle_auth-IsTidy now id msg s h t found new =
      let Goal : Host × Bool → Type 0 = λ r. IsTidy r.0 in
      if_elim Goal (is_word (text "auth") (prop (text "type") msg))
        (if_elim Goal (is_word h.secret (prop (text "secret") msg))
          (admit-IsTidy now id msg s h t found new)
          (close_with-IsTidy id 1008 (text "Invalid secret") h t))
        (close_with-IsTidy id 1008 (text "Authentication required") h t)
