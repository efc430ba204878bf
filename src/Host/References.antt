-- ===== src/Host/References.antt =====
-- bin/aria-bridge-host.js: what the sets and maps of the host refer to. A reference is to a socket that
-- is there, and what an open socket told of itself can be read as lists.
pub mod Maps
pub mod Sockets
pub mod Operations
pub mod Close
pub mod Routing
pub mod Join
pub mod Greeting
pub mod Bridges
pub mod Consumers
pub mod Http
pub mod Reach
pub mod Suits
pub mod Routes
use aria_bridge.Prelude.{
  ℕ, ◌<◌, Bool, true, false, Text, text, Option, none, some, List, All, All-map, ◌≡◌, refl, ap, sym,
  subst, ◌∙◌,
}
use aria_bridge.Value.{Value, arr}
use aria_bridge.Socket.State.{is_opened}
use aria_bridge.Host.State.{Peer, socket, session, Sock, Hello, Subscription, Host}
use aria_bridge.Host.Values.{is_word}
use aria_bridge.Host.Routing.{find_sock, is_ready}

-- The parts of the host that hold references, with the sockets that are there.
abbrev pub Tracked : Type 0
Tracked =
    List Sock
    × List Peer
    × List ℕ
    × List (Peer × Hello)
    × List (ℕ × Subscription)
    × List (ℕ × ℕ)
    × List (Value × ℕ)
    × ℕ

abbrev pub tracked : Host → Tracked
tracked h = (
  h.socks, h.bridges, h.consumers, h.capabilities, h.subscriptions, h.last_screenshot, h.pending,
  h.next_id,
)

abbrev pub is_list : Value → Bool
is_list (arr xs) = true
is_list v = false

-- A socket that is there and has been authenticated.
abbrev pub Present : List Sock → ℕ → Type 0
Present ss id = (s : Sock) × (find_sock id ss ≡ some s) × (s.is_authenticated ≡ true)

-- And with this role.
abbrev pub Known : Text → List Sock → ℕ → Type 0
Known role ss id =
    (s : Sock) × (find_sock id ss ≡ some s)
    × (s.is_authenticated ≡ true)
    × (is_word role s.role ≡ true)

abbrev pub IsBridge : List Sock → Peer → Type 0
IsBridge ss (socket id) = Known (text "bridge") ss id
IsBridge ss (session id) = Unit

abbrev pub IsConsumer : List Sock → ℕ → Type 0
IsConsumer ss id = Known (text "consumer") ss id

abbrev pub Greets : List Sock → Peer × Hello → Type 0
Greets ss (socket id, m) =
    Known (text "bridge") ss id
    × (is_ready (find_sock id ss) ≡ true → is_list m.capabilities ≡ true)
Greets ss (session id, m) = Unit

abbrev pub Subscribes : List Sock → ℕ × Subscription → Type 0
Subscribes ss (id, sub) =
    IsConsumer ss id
    × (is_ready (find_sock id ss) ≡ true
        → (is_list sub.levels ≡ true) × (is_list sub.capabilities ≡ true))

abbrev pub Shoots : List Sock → ℕ × ℕ → Type 0
Shoots ss (id, time) = Known (text "bridge") ss id

abbrev pub Asks : List Sock → Value × ℕ → Type 0
Asks ss (key, id) = Present ss id

abbrev pub IsNumbered : ℕ → Sock → Type 0
IsNumbered n s = s.id < n

-- Every reference is to a socket that is there, in the role that it is kept for.
abbrev pub Tidy : Tracked → Type 0
Tidy t =
    All (IsBridge t.0) t.1
    × All (IsConsumer t.0) t.2
    × All (Greets t.0) t.3
    × All (Subscribes t.0) t.4
    × All (Shoots t.0) t.5
    × All (Asks t.0) t.6
    × All (IsNumbered t.7) t.0

abbrev pub IsTidy : Host → Type 0
IsTidy h = Tidy (tracked h)

-- What was authenticated is so still, with its role, and what had closed has not opened.
abbrev pub Keeps : List Sock → List Sock → Type 0
Keeps ss ss' =
    (id : ℕ) (s : Sock)
    → find_sock id ss ≡ some s
    → s.is_authenticated ≡ true
    → (s' : Sock) × (find_sock id ss' ≡ some s')
      × (s'.is_authenticated ≡ true)
      × (s'.role ≡ s.role)
      × (is_opened s'.ready ≡ true → is_opened s.ready ≡ true)

module _ (ss ss' : List Sock) (keeps : Keeps ss ss') where
  Known-kept : (role : Text) (id : ℕ) → Known role ss id → Known role ss' id
  Known-kept role id (s, found, a, r) =
      let (s', found', a', same, _) = keeps id s found a in
      (s', found', a', subst (λ v. is_word role v ≡ true) (sym same) r)

  Present-kept : (id : ℕ) → Present ss id → Present ss' id
  Present-kept id (s, found, a) =
      let (s', found', a', _, _) = keeps id s found a in (s', found', a')

  ready-kept :
      (role : Text) (id : ℕ)
      → Known role ss id
      → is_ready (find_sock id ss') ≡ true
      → is_ready (find_sock id ss) ≡ true
  ready-kept role id (s, found, a, r) e =
      let (s', found', _, _, opens) = keeps id s found a in
      ap is_ready found ∙ opens (sym (ap is_ready found') ∙ e)

  IsBridge-kept : (p : Peer) → IsBridge ss p → IsBridge ss' p
  IsBridge-kept (socket id) k = Known-kept (text "bridge") id k
  IsBridge-kept (session id) k = k

  Greets-kept : (e : Peer × Hello) → Greets ss e → Greets ss' e
  Greets-kept (socket id, m) (k, l) =
      (Known-kept (text "bridge") id k, λ o. l (ready-kept (text "bridge") id k o))
  Greets-kept (session id, m) k = k

  Subscribes-kept : (e : ℕ × Subscription) → Subscribes ss e → Subscribes ss' e
  Subscribes-kept (id, sub) (k, l) =
      (Known-kept (text "consumer") id k, λ o. l (ready-kept (text "consumer") id k o))

  Shoots-kept : (e : ℕ × ℕ) → Shoots ss e → Shoots ss' e
  Shoots-kept (id, time) k = Known-kept (text "bridge") id k

  Asks-kept : (e : Value × ℕ) → Asks ss e → Asks ss' e
  Asks-kept (key, id) k = Present-kept id k

  pub Tidy-kept :
      (bridges : List Peer) (consumers : List ℕ) (hellos : List (Peer × Hello))
      (subs : List (ℕ × Subscription)) (shots : List (ℕ × ℕ)) (pending : List (Value × ℕ))
      (n n' : ℕ)
      → Tidy (ss, bridges, consumers, hellos, subs, shots, pending, n)
      → All (IsNumbered n') ss'
      → Tidy (ss', bridges, consumers, hellos, subs, shots, pending, n')
  Tidy-kept bridges consumers hellos subs shots pending n n' (b, c, g, s, t, p, _) m = (
    All-map (IsBridge ss) (IsBridge ss') bridges IsBridge-kept b,
    All-map (IsConsumer ss) (IsConsumer ss') consumers (Known-kept (text "consumer")) c,
    All-map (Greets ss) (Greets ss') hellos Greets-kept g,
    All-map (Subscribes ss) (Subscribes ss') subs Subscribes-kept s,
    All-map (Shoots ss) (Shoots ss') shots Shoots-kept t,
    All-map (Asks ss) (Asks ss') pending Asks-kept p,
    m,
  )
