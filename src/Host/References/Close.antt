-- ===== src/Host/References/Close.antt =====
-- bin/aria-bridge-host.js: when a socket has closed, nothing refers to it.
use aria_bridge.Prelude.{
  ℕ, ◌==◌, ==_iff, true, false, Text, text, text_eq, text_eq_iff, some, List, [], ◌∷◌, All, All-map,
  ◌≡◌, refl, ap, sym, subst, ◌∙◌, arith, Bool-cases, inl, inr,
}
use aria_bridge.Value.{Value, str}
use aria_bridge.Host.State.{
  Peer, socket, session, same_peer, Sock, Hello, Subscription, Host, erase, discard,
}
use aria_bridge.Host.Values.{is_word}
use aria_bridge.Host.Routing.{find_sock, is_ready}
use aria_bridge.Host.Sockets.{same_id, drop_sock}
use aria_bridge.Host.Consumers.{drop_replies, forget, on_close}
use aria_bridge.Host.References.{
  IsTidy, Known, IsBridge, IsConsumer, Greets, Subscribes, Shoots, Asks, IsNumbered,
}
use aria_bridge.Host.References.Maps.{All-erase, All-discard}
use aria_bridge.Host.References.Sockets.{find_sock-drop_other, drop-IsNumbered}

one_role : (v : Value) → is_word (text "bridge") v ≡ true → is_word (text "consumer") v ≡ false
unfolding text_eq
one_role (str s) e =
    subst (λ t. text_eq t (text "consumer") ≡ false) (sym ((text_eq_iff s (text "bridge")).0 e))
      refl
one_role _ e = cc

-- A socket that is found is not the one whose role is another.
Known-apart :
    (role : Text) (k id : ℕ) (ss : List Sock) (s : Sock)
    → find_sock k ss ≡ some s
    → is_word role s.role ≡ false
    → Known role ss id
    → (id == k) ≡ false
Known-apart role k id ss s here not_so (x, found, a, r) = elim (Bool-cases (id == k)) [
  | inl same ↦
      let at : id ≡ k = ground (arith, ==_iff id k) in
      let there : find_sock k ss ≡ some x = subst (λ i. find_sock i ss ≡ some x) at found in
      let it : x ≡ s = ground arith in
      absurd (ground (arith, ap (λ (y : Sock). is_word role y.role) it))
  | inr other ↦ other
]

module _ (k : ℕ) (ss : List Sock) where
  Known-drop :
      (role : Text) (id : ℕ)
      → Known role ss id × ((id == k) ≡ false)
      → Known role (drop_sock k ss) id
  Known-drop role id ((s, found, a, r), ne) = (s, find_sock-drop_other k id ss ne ∙ found, a, r)

  IsBridge-drop :
      (p : Peer) → IsBridge ss p × (same_peer p (socket k) ≡ false) → IsBridge (drop_sock k ss) p
  IsBridge-drop (socket id) h = Known-drop (text "bridge") id h
  IsBridge-drop (session id) h = tt

  Greets-drop :
      (e : Peer × Hello)
      → Greets ss e × (same_peer e.0 (socket k) ≡ false)
      → Greets (drop_sock k ss) e
  Greets-drop (socket id, m) ((b, l), ne) = (
    Known-drop (text "bridge") id (b, ne),
    λ o. l (sym (ap is_ready (find_sock-drop_other k id ss ne)) ∙ o),
  )
  Greets-drop (session id, m) h = tt

  Subscribes-drop :
      (e : ℕ × Subscription)
      → Subscribes ss e × ((e.0 == k) ≡ false)
      → Subscribes (drop_sock k ss) e
  Subscribes-drop (id, sub) ((b, l), ne) = (
    Known-drop (text "consumer") id (b, ne),
    λ o. l (sym (ap is_ready (find_sock-drop_other k id ss ne)) ∙ o),
  )

  Shoots-drop : (e : ℕ × ℕ) → Shoots ss e × ((e.0 == k) ≡ false) → Shoots (drop_sock k ss) e
  Shoots-drop (id, time) h = Known-drop (text "bridge") id h

  drop_replies-Asks :
      (es : List (Value × ℕ)) → All (Asks ss) es → All (Asks (drop_sock k ss)) (drop_replies k es)
  unfolding drop_replies
  drop_replies-Asks [] h = tt
  drop_replies-Asks ((key, id) ∷ es) ((s, found, a), h) =
      let rest = drop_replies-Asks es h in
      elim (Bool-cases (id == k)) [
        | inl same ↦ rw same rest
        | inr other ↦ rw other ((s, find_sock-drop_other k id ss other ∙ found, a), rest)
      ]

  module _ (s : Sock) (here : find_sock k ss ≡ some s) where
    IsBridge-other :
        is_word (text "bridge") s.role ≡ false
        → (p : Peer) → IsBridge ss p
        → IsBridge (drop_sock k ss) p
    IsBridge-other e (socket id) b =
        Known-drop (text "bridge") id (b, Known-apart (text "bridge") k id ss s here e b)
    IsBridge-other e (session id) b = tt

    Greets-other :
        is_word (text "bridge") s.role ≡ false
        → (x : Peer × Hello) → Greets ss x
        → Greets (drop_sock k ss) x
    Greets-other e (socket id, m) (b, l) =
        Greets-drop (socket id, m) ((b, l), Known-apart (text "bridge") k id ss s here e b)
    Greets-other e (session id, m) b = tt

    Shoots-other :
        is_word (text "bridge") s.role ≡ false
        → (x : ℕ × ℕ) → Shoots ss x
        → Shoots (drop_sock k ss) x
    Shoots-other e (id, time) b =
        Known-drop (text "bridge") id (b, Known-apart (text "bridge") k id ss s here e b)

    IsConsumer-other :
        is_word (text "consumer") s.role ≡ false
        → (id : ℕ) → IsConsumer ss id
        → IsConsumer (drop_sock k ss) id
    IsConsumer-other e id b =
        Known-drop (text "consumer") id (b, Known-apart (text "consumer") k id ss s here e b)

    Subscribes-other :
        is_word (text "consumer") s.role ≡ false
        → (x : ℕ × Subscription) → Subscribes ss x
        → Subscribes (drop_sock k ss) x
    Subscribes-other e (id, sub) (b, l) =
        Subscribes-drop (id, sub) ((b, l), Known-apart (text "consumer") k id ss s here e b)

-- The host after the sets and maps have forgotten the socket.
abbrev closed_host : Sock → Host → Host
closed_host s g = record g { pending = drop_replies s.id g.pending; socks = drop_sock s.id g.socks }

module _ (s : Sock) (h : Host) (here : find_sock s.id h.socks ≡ some s) (t : IsTidy h) where
  -- What the sets and maps of a role hold, where the socket has another one.
  bridges_left :
      is_word (text "bridge") s.role ≡ false
      → All (IsBridge (drop_sock s.id h.socks)) h.bridges
        × All (Greets (drop_sock s.id h.socks)) h.capabilities
        × All (Shoots (drop_sock s.id h.socks)) h.last_screenshot
  bridges_left e =
      let ss = h.socks in
      let ss' = drop_sock s.id ss in
      (
        All-map (IsBridge ss) (IsBridge ss') h.bridges (IsBridge-other s.id ss s here e) t.0,
        All-map (Greets ss) (Greets ss') h.capabilities (Greets-other s.id ss s here e) t.2,
        All-map (Shoots ss) (Shoots ss') h.last_screenshot (Shoots-other s.id ss s here e) t.4,
      )

  consumers_left :
      is_word (text "consumer") s.role ≡ false
      → All (IsConsumer (drop_sock s.id h.socks)) h.consumers
        × All (Subscribes (drop_sock s.id h.socks)) h.subscriptions
  consumers_left e =
      let ss = h.socks in
      let ss' = drop_sock s.id ss in
      (
        All-map (IsConsumer ss) (IsConsumer ss') h.consumers (IsConsumer-other s.id ss s here e)
            t.1,
        All-map (Subscribes ss) (Subscribes ss') h.subscriptions (Subscribes-other s.id ss s here e)
            t.3,
      )

  closed-Asks : All (Asks (drop_sock s.id h.socks)) (drop_replies s.id h.pending)
  closed-Asks = drop_replies-Asks s.id h.socks h.pending t.5

  closed-IsNumbered : All (IsNumbered h.next_id) (drop_sock s.id h.socks)
  closed-IsNumbered = drop-IsNumbered h.next_id s.id h.socks t.6

  bridge_closed :
      is_word (text "consumer") s.role ≡ false
      → IsTidy (
          closed_host s (record h {
            bridges = discard same_peer (socket s.id) h.bridges;
            capabilities = erase same_peer (socket s.id) h.capabilities;
            last_screenshot = erase same_id s.id h.last_screenshot;
          }))
  bridge_closed e =
      let ss = h.socks in
      let ss' = drop_sock s.id ss in
      let (cs, us) = consumers_left e in
      (
        All-map _ (IsBridge ss') (discard same_peer (socket s.id) h.bridges) (IsBridge-drop s.id ss)
            (All-discard same_peer (IsBridge ss) (socket s.id) h.bridges t.0),
        cs,
        All-map _ (Greets ss') (erase same_peer (socket s.id) h.capabilities) (Greets-drop s.id ss)
            (All-erase same_peer (Greets ss) (socket s.id) h.capabilities t.2),
        us,
        All-map _ (Shoots ss') (erase same_id s.id h.last_screenshot) (Shoots-drop s.id ss)
            (All-erase same_id (Shoots ss) s.id h.last_screenshot t.4),
        closed-Asks,
        closed-IsNumbered,
      )

  consumer_closed :
      is_word (text "bridge") s.role ≡ false
      → IsTidy (
          closed_host s (record h {
            consumers = discard same_id s.id h.consumers;
            subscriptions = erase same_id s.id h.subscriptions;
          }))
  consumer_closed e =
      let ss = h.socks in
      let ss' = drop_sock s.id ss in
      let (bs, gs, ls) = bridges_left e in
      (
        bs,
        All-map _ (IsConsumer ss') (discard same_id s.id h.consumers)
            (λ id x. Known-drop s.id ss (text "consumer") id x)
            (All-discard same_id (IsConsumer ss) s.id h.consumers t.1),
        gs,
        All-map _ (Subscribes ss') (erase same_id s.id h.subscriptions) (Subscribes-drop s.id ss)
            (All-erase same_id (Subscribes ss) s.id h.subscriptions t.3),
        ls,
        closed-Asks,
        closed-IsNumbered,
      )

  other_closed :
      is_word (text "bridge") s.role ≡ false
      → is_word (text "consumer") s.role ≡ false
      → IsTidy (closed_host s h)
  other_closed e f =
      let (bs, gs, ls) = bridges_left e in
      let (cs, us) = consumers_left f in (bs, cs, gs, us, ls, closed-Asks, closed-IsNumbered)

  pub on_close-IsTidy : IsTidy (on_close s h)
  unfolding on_close forget
  on_close-IsTidy = elim (Bool-cases (is_word (text "bridge") s.role)) [
    | inl e ↦ rw e (bridge_closed (one_role s.role e))
    | inr e ↦ elim (Bool-cases (is_word (text "consumer") s.role)) [
      | inl c ↦ rw (e, c) (consumer_closed e)
      | inr c ↦ rw (e, c) (other_closed e c)
    ]
  ]
