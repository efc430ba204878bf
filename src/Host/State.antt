-- ===== src/Host/State.antt =====
-- bin/aria-bridge-host.js: what `startServer` keeps, and the parts of its environment that it acts on.
use aria_bridge.Prelude.{
  ℕ, ◌*◌, ◌^◌, ◌&&◌, ◌||◌, ◌==◌, Bool, true, false, Text, text_eq, if◌then◌else◌, Option, none,
  some, List, [], ◌∷◌, ◌++◌,
}
use aria_bridge.Value.{Number, finite, infinite, nan, Value, undefined, null, bool, num, str}
use aria_bridge.Socket.State.{Ready, Frame}

-- A client of the role bridge: a WebSocket, or a session of the HTTP bridge. Both are told apart by
-- numbers.
pub data Peer : Type 0 where
  socket session : ℕ → Peer

abbrev pub same_peer : Peer → Peer → Bool
same_peer (socket a) (socket b) = a == b
same_peer (session a) (session b) = a == b
same_peer _ _ = false

-- A WebSocket with the variables of its `connection` handler, and what it was closed with.
pub record Sock : Type 0 where
  pub id : ℕ
  pub ready : Ready
  pub is_authenticated : Bool
  pub role : Value
  pub client_id : Value
  pub auth_timeout : Bool
  pub closed_with : Option (ℕ × Text)

pub record Session : Type 0 where
  pub id : ℕ
  pub session_id : Text
  pub queue : List Value
  pub last_seen : ℕ

-- A value of `bridgeCapabilities`; the other entries of a hello are kept and never read.
pub record Hello : Type 0 where
  pub capabilities : Value
  pub rest : List Value

-- A value of `consumerSubscriptions`.
pub record Subscription : Type 0 where
  pub levels : Value
  pub capabilities : Value
  pub llm_filter : Text

pub record Host : Type 0 where
  pub secret : Text
  pub bridges : List Peer
  pub consumers : List ℕ
  pub sessions : List Session
  pub capabilities : List (Peer × Hello)
  pub subscriptions : List (ℕ × Subscription)
  -- `pendingControl`: of an entry only `replyTo` is read.
  pub pending : List (Value × ℕ)
  pub last_screenshot : List (ℕ × ℕ)
  pub window_start : ℕ
  pub window_count : ℕ
  -- The environment: the sockets that have not closed, the frames that went out, in their order, and
  -- the next unused number.
  pub socks : List Sock
  pub sent : List Frame
  pub next_id : ℕ

unfoldable pub init : Text → ℕ → Host
init secret now = record {
  secret = secret;
  bridges = [];
  consumers = [];
  sessions = [];
  capabilities = [];
  subscriptions = [];
  pending = [];
  last_screenshot = [];
  window_start = now;
  window_count = 0;
  socks = [];
  sent = [];
  next_id = 0;
}

unfoldable pub update_session : ℕ → (Session → Session) → List Session → List Session
update_session id f [] = []
update_session id f (s ∷ ss) = (if s.id == id then f s else s) ∷ update_session id f ss

-- Maps and sets, as lists with a test of equal keys.
module _ {ℓ κ} {K : Type ℓ} {V : Type κ} (same : K → K → Bool) where
  -- `map.get(k)`.
  unfoldable pub lookup : K → List (K × V) → Option V
  lookup k [] = none
  lookup k ((j, v) ∷ m) = if same j k then some v else lookup k m

  -- `map.delete(k)`.
  unfoldable pub erase : K → List (K × V) → List (K × V)
  erase k [] = []
  erase k ((j, v) ∷ m) = let rest = erase k m in if same j k then rest else (j, v) ∷ rest

  -- `map.set(k, v)`; the order of a map's entries is never read.
  abbrev pub insert : K → V → List (K × V) → List (K × V)
  insert k v m = (k, v) ∷ erase k m

module _ {ℓ} {K : Type ℓ} (same : K → K → Bool) where
  -- `set.has(k)`.
  unfoldable pub member : K → List K → Bool
  member k [] = false
  member k (j ∷ ks) = same j k || member k ks

  -- `set.delete(k)`.
  unfoldable pub discard : K → List K → List K
  discard k [] = []
  discard k (j ∷ ks) = let rest = discard k ks in if same j k then rest else j ∷ rest

  -- `set.add(k)`: a new key stands last.
  abbrev pub add : K → List K → List K
  add k ks = if member k ks then ks else ks ++ k ∷ []

-- Equality of keys of a map: two objects are never the same, since each message is parsed anew.
abbrev pub same_sign : Bool → Bool → Bool
same_sign true b = b
same_sign false true = false
same_sign false false = true

unfoldable pub same_number : Number → Number → Bool
same_number (finite a m s) (finite b n t) = (m * 2 ^ t == n * 2 ^ s) && (m == 0 || same_sign a b)
same_number (infinite a) (infinite b) = same_sign a b
same_number nan nan = true
same_number _ _ = false

unfoldable pub same_key : Value → Value → Bool
same_key undefined undefined = true
same_key null null = true
same_key (bool a) (bool b) = same_sign a b
same_key (num a) (num b) = same_number a b
same_key (str a) (str b) = text_eq a b
same_key _ _ = false
