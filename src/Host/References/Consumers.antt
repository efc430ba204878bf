-- ===== src/Host/References/Consumers.antt =====
-- bin/aria-bridge-host.js: the messages of a consumer keep the references right.
use aria_bridge.Prelude.{
  ℕ, Bool, true, false, not, ◌&&◌, ◌||◌, Text, text, decimal, includes, length, if◌then◌else◌,
  if_elim, if_true, if_false, Option, none, some, Option-cases, List, [], ◌∷◌, ◌++◌, ◌≡◌, refl, sym,
  subst, ◌∙◌, arith, Bool-cases, inl, inr,
}
use aria_bridge.Value.{Value, null, str, arr, nil, cons, obj, end, field, truthy}
use aria_bridge.Value.Props.{put}
use aria_bridge.Mcp.Validation.{filters}
use aria_bridge.Host.State.{Peer, socket, session, Sock, Subscription, Host, insert, same_key}
use aria_bridge.Host.Values.{is_word, prop, or, printable, joins, spread, lower}
use aria_bridge.Host.Routing.{find_sock, send_to}
use aria_bridge.Host.Sockets.{
  same_id, close_with, logged, return, failed_control, shown, handle_auth,
}
use aria_bridge.Host.Bridges.{handle_bridge}
use aria_bridge.Host.Consumers.{
  subscribe_ack, enqueue, forward, control_forwarded, on_subscribe, targets, request_targeted,
  on_control, handle_consumer, handle_client, handle_message, handle_raw, caught, receive,
}
use aria_bridge.Host.Screenshots.{logged-Holds}
use aria_bridge.Host.References.{Tidy, tracked, IsTidy, is_list, Subscribes, Asks}
use aria_bridge.Host.References.Maps.{All-erase_kept}
use aria_bridge.Host.References.Sockets.{find_sock-id}
use aria_bridge.Host.References.Operations.{
  close_with-IsTidy, send_to-IsTidy, send_to-tracked, on_result-IsTidy, pending-IsTidy,
  caught-IsTidy,
}
use aria_bridge.Host.References.Join.{handle_auth-IsTidy}
use aria_bridge.Host.References.Bridges.{handle_bridge-IsTidy}
use aria_bridge.Host.References.Greeting.{
  Acts, acting, joins-is_list, close_with-ready, close_with-Known,
}

subscription-IsTidy :
    (id : ℕ) (sub : Subscription) (h : Host)
    → IsTidy h
    → Subscribes h.socks (id, sub)
    → IsTidy (record h { subscriptions = insert same_id id sub h.subscriptions })
subscription-IsTidy id sub h (b, c, g, s, l, p, n) k =
    (b, c, g, (k, All-erase_kept same_id (Subscribes h.socks) id h.subscriptions s), l, p, n)

forward-tracked :
    (ps : List Peer) (body : Value) (h : Host) → tracked (forward ps body h) ≡ tracked h
unfolding forward
forward-tracked [] body h = refl
forward-tracked (socket id ∷ ps) body h =
    forward-tracked ps body (send_to id body h) ∙ send_to-tracked id body h
forward-tracked (session id ∷ ps) body h =
    forward-tracked ps body (record h { sessions = enqueue id body h.sessions })

last_two : (a b c : Bool) → (a && b && c) ≡ true → (b ≡ true) × (c ≡ true)
last_two a b c h = (ground arith, ground arith)

module _ (to_string : Value → Text) where
  -- A subscription whose levels or capabilities are no list throws, and the socket is closed.
  logged-subscription :
      (b : Bool) (ack : Value) (s : Sock) (sub : Subscription) (h : Host)
      → IsTidy h
      → Acts (text "consumer") s h
      → (b ≡ true → (is_list sub.levels ≡ true) × (is_list sub.capabilities ≡ true))
      → IsTidy (
          caught to_string s.id (
            logged b
              (λ x. return (send_to s.id ack x))
              (record h { subscriptions = insert same_id s.id sub h.subscriptions })))
  unfolding close_with
  logged-subscription true ack s sub h t a e =
      let told : Host = record h { subscriptions = insert same_id s.id sub h.subscriptions } in
      send_to-IsTidy s.id ack told
        (subscription-IsTidy s.id sub h t (acting (text "consumer") s h a, λ o. e refl))
  logged-subscription false ack s sub h t a e =
      let reason = text "Internal error" in
      let shut = close_with s.id 1011 reason h in
      subscription-IsTidy s.id sub shut (close_with-IsTidy s.id 1011 reason h t) (
        close_with-Known (text "consumer") 1011 reason s h a,
        λ o. absurd (ground (arith, close_with-ready 1011 reason s h a.0)),
      )

  on_subscribe-IsTidy :
      (s : Sock) (msg : Value) (h : Host)
      → IsTidy h
      → Acts (text "consumer") s h
      → IsTidy (caught to_string s.id (on_subscribe to_string s msg h))
  unfolding on_subscribe
  on_subscribe-IsTidy s msg h t a =
      let raw = lower to_string (or (prop (text "llm_filter") msg) (str (text "off"))) in
      let sub : Subscription = record {
        levels = or (prop (text "levels") msg) (arr (cons (str (text "errors")) nil));
        capabilities = or (prop (text "capabilities") msg) (arr nil);
        llm_filter = if includes filters raw then raw else text "off";
      } in
      let fits : Bool = printable s.client_id && joins sub.levels && joins sub.capabilities in
      logged-subscription fits (subscribe_ack s.client_id sub) s sub h t a (λ e.
        let (l, c) =
          last_two (printable s.client_id) (joins sub.levels) (joins sub.capabilities) e in
        (joins-is_list sub.levels l, joins-is_list sub.capabilities c))

  request_targeted-IsTidy :
      (s : Sock) (id payload : Value) (o : Option (List Peer)) (h : Host)
      → IsTidy h
      → Acts (text "consumer") s h
      → IsTidy (request_targeted to_string s id payload o h).0
  request_targeted-IsTidy s id payload none h t a = t
  request_targeted-IsTidy s id payload (some []) h t a =
      send_to-IsTidy s.id
        (failed_control id (text "No bridge with control capability is connected")) h t
  request_targeted-IsTidy s id payload (some (p ∷ ps)) h t (found, x, _) =
      let waiting : Host = record h { pending = insert same_key id s.id h.pending } in
      let tidy : IsTidy waiting =
        pending-IsTidy h (insert same_key id s.id h.pending) t
          ((s, found, x), All-erase_kept same_key (Asks h.socks) id h.pending t.5) in
      send_to-IsTidy s.id (control_forwarded id (length (p ∷ ps)))
        (forward (p ∷ ps) payload waiting)
        (subst Tidy (sym (forward-tracked (p ∷ ps) payload waiting)) tidy)

  on_control-IsTidy :
      (now : ℕ) (s : Sock) (msg : Value) (h : Host)
      → IsTidy h
      → Acts (text "consumer") s h
      → IsTidy (on_control to_string now s msg h).0
  unfolding on_control
  on_control-IsTidy now s msg h t a =
      let given = prop (text "id") msg in
      let id = or given (str (shown to_string s.client_id ++ (text "-" ++ decimal now))) in
      let payload =
        obj (put (text "id") id (put (text "type") (str (text "control_request")) (spread msg))) in
      if_elim (λ (r : Host × Bool). IsTidy r.0) (not (truthy given) && not (printable s.client_id))
        t (request_targeted-IsTidy s id payload (targets to_string h h.bridges) h t a)

  handle_consumer-IsTidy :
      (now : ℕ) (s : Sock) (msg : Value) (h : Host)
      → IsTidy h
      → Acts (text "consumer") s h
      → IsTidy (caught to_string s.id (handle_consumer to_string now s msg h))
  unfolding handle_consumer
  handle_consumer-IsTidy now s msg h t a =
      let kind = prop (text "type") msg in
      let Goal : Host × Bool → Type 0 = λ r. IsTidy (caught to_string s.id r) in
      let in_log = printable s.client_id && printable (or kind (str (text "unknown"))) in
      if_elim Goal (is_word (text "subscribe") kind) (on_subscribe-IsTidy s msg h t a) (
        if_elim Goal (is_word (text "control_request") kind || is_word (text "control") kind)
          (caught-IsTidy to_string s.id (on_control to_string now s msg h)
            (on_control-IsTidy now s msg h t a))
          (if_elim Goal (is_word (text "control_result") kind)
            (on_result-IsTidy (prop (text "id") msg) msg h t)
            (caught-IsTidy to_string s.id (logged in_log return h)
              (logged-Holds IsTidy in_log return h t t))))

  handle_client-IsTidy :
      (now : ℕ) (s : Sock) (msg : Value) (h : Host)
      → IsTidy h
      → find_sock s.id h.socks ≡ some s
      → s.is_authenticated ≡ true
      → IsTidy (caught to_string s.id (handle_client to_string now s msg h))
  unfolding handle_client
  handle_client-IsTidy now s msg h t found a =
      let Goal : Host × Bool → Type 0 = λ r. IsTidy (caught to_string s.id r) in
      let pong = obj (field (text "type") (str (text "pong")) end) in
      let as_bridge = handle_bridge to_string now s msg h in
      let as_consumer =
        if is_word (text "consumer") s.role
        then handle_consumer to_string now s msg h
        else return h in
      if_elim Goal (is_word (text "ping") (prop (text "type") msg)) (send_to-IsTidy s.id pong h t)
        (elim (Bool-cases (is_word (text "bridge") s.role)) [
          | inl e ↦
              subst Goal (sym (if_true as_bridge as_consumer e))
                (handle_bridge-IsTidy to_string now s msg h t (found, a, e))
          | inr e ↦
              subst Goal (sym (if_false as_bridge as_consumer e))
                (elim (Bool-cases (is_word (text "consumer") s.role)) [
                  | inl c ↦
                      subst Goal
                        (sym (if_true (handle_consumer to_string now s msg h) (return h) c))
                        (handle_consumer-IsTidy now s msg h t (found, a, c))
                  | inr c ↦
                      subst Goal
                        (sym (if_false (handle_consumer to_string now s msg h) (return h) c)) t
                ])
        ])

  handle_message-IsTidy :
      (now : ℕ) (s : Sock) (msg : Value) (h : Host)
      → IsTidy h
      → find_sock s.id h.socks ≡ some s
      → IsTidy (caught to_string s.id (handle_message to_string now s msg h))
  unfolding handle_message
  handle_message-IsTidy now s msg h t found =
      let Goal : Host × Bool → Type 0 = λ r. IsTidy (caught to_string s.id r) in
      let client = handle_client to_string now s msg h in
      let stranger = handle_auth to_string now s.id msg h in
      elim (Bool-cases s.is_authenticated) [
        | inl a ↦
            subst Goal (sym (if_true client stranger a))
              (handle_client-IsTidy now s msg h t found a)
        | inr new ↦ subst Goal (sym (if_false client stranger new)) (
            caught-IsTidy to_string s.id stranger
              (handle_auth-IsTidy to_string now s.id msg s h t found new))
      ]

  handle_raw-IsTidy :
      (now : ℕ) (s : Sock) (raw : Option Value) (h : Host)
      → IsTidy h
      → find_sock s.id h.socks ≡ some s
      → IsTidy (caught to_string s.id (handle_raw to_string now s raw h))
  handle_raw-IsTidy now s none h t found = caught-IsTidy to_string s.id (h, true) t
  handle_raw-IsTidy now s (some null) h t found = caught-IsTidy to_string s.id (h, true) t
  handle_raw-IsTidy now s (some v) h t found = handle_message-IsTidy now s v h t found

  pub receive-IsTidy :
      (now id : ℕ) (raw : Option Value) (h : Host)
      → IsTidy h
      → IsTidy (receive to_string now id raw h)
  unfolding receive
  receive-IsTidy now id raw h t = elim (Option-cases (find_sock id h.socks)) [
    | inl gone ↦ rw gone t
    | inr (s, found) ↦
        let at : s.id ≡ id = find_sock-id id h.socks s found in
        let here : find_sock s.id h.socks ≡ some s =
          subst (λ i. find_sock i h.socks ≡ some s) (sym at) found in
        rw found (handle_raw-IsTidy now s raw h t here)
  ]
