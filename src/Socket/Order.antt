-- ===== src/Socket/Order.antt =====
-- src/websocket.ts: on every socket the authentication goes out first and the greeting second.
pub mod Methods
pub mod Reachable
use aria_bridge.Prelude.{
  ℕ, ◌+◌, ◌≤◌, ◌<◌, Bool, Text, if◌then◌else◌, Bool-cases, Option, none, some, List, [], ◌∷◌, ◌++◌,
  ◌≡◌, refl, ==_iff, ◌==◌, arith, ap, ◌∙◌, sym, ◌⊎◌, inl, inr, ◌≢◌, subst, append-nil,
}
use aria_bridge.Value.{Value}
use aria_bridge.Socket.State.{Ready, connecting, opened, closing, closed, Connection, Frame, Config}
use aria_bridge.Socket.Operations.{transmit, flush_events, auth_message, hello_message}
use aria_bridge.Socket.Opening.{frames, greeting}

-- What went out on one socket.
pub sent_on : ℕ → List Frame → List Value
sent_on id [] = []
sent_on id (f ∷ fs) = if f.socket == id then f.body ∷ sent_on id fs else sent_on id fs

pub sent_on-append :
    (id : ℕ) (us vs : List Frame) → sent_on id (us ++ vs) ≡ sent_on id us ++ sent_on id vs
unfolding sent_on
sent_on-append id [] vs = refl
sent_on-append id (f ∷ us) vs = ground (arith, sent_on-append id us vs)

pub sent_on-frames_self : (id : ℕ) (vs : List Value) → sent_on id (frames id vs) ≡ vs
unfolding sent_on
sent_on-frames_self id [] = refl
sent_on-frames_self id (v ∷ vs) = ground (arith, sent_on-frames_self id vs)

pub sent_on-frames_ne : (id j : ℕ) (vs : List Value) → id ≢ j → sent_on j (frames id vs) ≡ []
unfolding sent_on
sent_on-frames_ne id j [] h = refl
sent_on-frames_ne id j (v ∷ vs) h = ground (arith, sent_on-frames_ne id j vs)

-- The authentication, the greeting, then anything.
abbrev pub Opens : Config → List Value → Type 0
Opens config sent =
    (page : Option (Text × Text)) × (rest : List Value) × (sent
      ≡ auth_message config ∷ hello_message config page ∷ rest)

abbrev pub Current : Config → Ready → List Value → Type 0
Current config connecting sent = sent ≡ []
Current config opened sent = Opens config sent
Current config closing sent = Unit
Current config closed sent = Unit

abbrev pub Held : Config → Option Connection → ℕ → List Frame → Type 0
Held config none n wire = Unit
Held config (some c) n wire = (c.id < n) × Current config c.ready (sent_on c.id wire)

pub record Ordered (config : Config) (ws : Option Connection) (n : ℕ) (wire : List Frame)
    : Type 0 where
  pub greeted : (id : ℕ) → (sent_on id wire ≡ []) ⊎ Opens config (sent_on id wire)
  pub unused : (id : ℕ) → n ≤ id → sent_on id wire ≡ []
  pub held : Held config ws n wire

module _ (config : Config) where
  Held-weaken :
      (ws : Option Connection) (m n : ℕ) (wire : List Frame)
      → m ≤ n
      → Held config ws m wire
      → Held config ws n wire
  Held-weaken none m n wire le h = tt
  Held-weaken (some c) m n wire le (lt, h) = (omega arith, h)

  pub Ordered-weaken :
      (ws : Option Connection) (m n : ℕ) (wire : List Frame)
      → m ≤ n
      → Ordered config ws m wire
      → Ordered config ws n wire
  Ordered-weaken ws m n wire le o = record {
    greeted = o.greeted;
    unused = λ id h. o.unused id (omega arith);
    held = Held-weaken ws m n wire le o.held;
  }

  -- More on a socket that has been greeted.
  Opens-append : (us vs : List Value) → Opens config us → Opens config (us ++ vs)
  Opens-append us vs (page, rest, e) = (page, rest ++ vs, ap (λ ws. ws ++ vs) e)

  pub Ordered-append :
      (id n : ℕ) (wire : List Frame) (vs : List Value)
      → Ordered config (some (record { id = id; ready = opened })) n wire
      → Ordered config (some (record { id = id; ready = opened })) n (wire ++ frames id vs)
  Ordered-append id n wire vs o = record {
    greeted = λ j. elim (Bool-cases (id == j)) [
      | inl same ↦
          inr (
            subst (λ k. Opens config (sent_on k (wire ++ frames id vs))) ((==_iff id j).0 same)
              more)
      | inr other ↦
          subst (λ xs. (xs ≡ []) ⊎ Opens config xs) (sym (elsewhere j (ground arith))) (o.greeted j)
    ];
    unused = λ j h. elsewhere j (omega (arith, o.held.0)) ∙ o.unused j h;
    held = (o.held.0, more);
  }
    where
      more : Opens config (sent_on id (wire ++ frames id vs))
      more =
          subst (Opens config)
            (sym (
              sent_on-append id wire (frames id vs)
              ∙ ap (◌++◌ (sent_on id wire)) (sent_on-frames_self id vs)))
            (Opens-append (sent_on id wire) vs o.held.1)

      elsewhere : (j : ℕ) → id ≢ j → sent_on j (wire ++ frames id vs) ≡ sent_on j wire
      elsewhere j h =
          sent_on-append j wire (frames id vs)
          ∙ ap (◌++◌ (sent_on j wire)) (sent_on-frames_ne id j vs h)
          ∙ append-nil (sent_on j wire)

  transmit_ready :
      (id : ℕ) (ready : Ready) (n : ℕ) (v : Value) (wire : List Frame)
      → Ordered config (some (record { id = id; ready = ready })) n wire
      → Ordered config
          (some (record { id = id; ready = ready }))
          n
          (transmit (some (record { id = id; ready = ready })) v wire)
  transmit_ready id opened n v wire o = Ordered-append id n wire (v ∷ []) o
  transmit_ready id _ n v wire o = o

  pub Ordered-transmit :
      (ws : Option Connection) (n : ℕ) (v : Value) (wire : List Frame)
      → Ordered config ws n wire
      → Ordered config ws n (transmit ws v wire)
  Ordered-transmit none n v wire o = o
  Ordered-transmit (some c) n v wire o = transmit_ready c.id c.ready n v wire o

  pub Ordered-flush_events :
      (ws : Option Connection) (n : ℕ) (events : List Value) (wire : List Frame)
      → Ordered config ws n wire
      → Ordered config ws n (flush_events ws events wire)
  unfolding flush_events
  Ordered-flush_events ws n [] wire o = o
  Ordered-flush_events ws n (ev ∷ events) wire o =
      Ordered-flush_events ws n events (transmit ws ev wire) (Ordered-transmit ws n ev wire o)

  -- The socket may be given up, or replaced.
  pub Ordered-hold :
      (ws ws' : Option Connection) (n : ℕ) (wire : List Frame)
      → Held config ws' n wire
      → Ordered config ws n wire
      → Ordered config ws' n wire
  Ordered-hold ws ws' n wire h o = record { greeted = o.greeted; unused = o.unused; held = h }

  pub Ordered-connect :
      (ws : Option Connection) (n : ℕ) (wire : List Frame)
      → Ordered config ws n wire
      → Ordered config (some (record { id = n; ready = connecting })) (n + 1) wire
  Ordered-connect ws n wire o =
      Ordered-hold ws (some (record { id = n; ready = connecting })) (n + 1) wire
        (omega arith, o.unused n (omega arith)) (Ordered-weaken ws n (n + 1) wire (omega arith) o)

  -- A socket that opens is greeted before anything else.
  pub Ordered-greet :
      (id n m : ℕ) (page : Option (Text × Text)) (wire : List Frame) (vs : List Value)
      → n ≤ m
      → Ordered config (some (record { id = id; ready = connecting })) n wire
      → Ordered config
          (some (record { id = id; ready = opened }))
          m
          (wire ++ frames id (greeting config page ++ vs))
  Ordered-greet id n m page wire vs le o = record {
    greeted = λ j. elim (Bool-cases (id == j)) [
      | inl same ↦ inr (
          subst (λ k. Opens config (sent_on k (wire ++ frames id sent))) ((==_iff id j).0 same)
            greets)
      | inr other ↦
          subst (λ xs. (xs ≡ []) ⊎ Opens config xs) (sym (elsewhere j (ground arith))) (o.greeted j)
    ];
    unused = λ j h. elsewhere j (omega (arith, o.held.0)) ∙ o.unused j (omega arith);
    held = (omega (arith, o.held.0), greets);
  }
    where
      sent : List Value
      sent = greeting config page ++ vs

      greets : Opens config (sent_on id (wire ++ frames id sent))
      greets = (
        page,
        vs,
        sent_on-append id wire (frames id sent)
            ∙ ap (λ us. us ++ sent_on id (frames id sent)) o.held.1
            ∙ sent_on-frames_self id sent,
      )

      elsewhere : (j : ℕ) → id ≢ j → sent_on j (wire ++ frames id sent) ≡ sent_on j wire
      elsewhere j h =
          sent_on-append j wire (frames id sent)
          ∙ ap (◌++◌ (sent_on j wire)) (sent_on-frames_ne id j sent h)
          ∙ append-nil (sent_on j wire)
