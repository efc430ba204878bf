-- ===== src/Client/Options.antt =====
-- `startBridge`, src/client.ts: whether a bridge starts, and what its options come to.
pub mod Advertised
use aria_bridge.Prelude.{
  includes, map, lower, ℕ, Bool, true, false, ◌&&◌, ◌||◌, Text, text, text_eq, if◌then◌else◌,
  Option, none, some, List, [], ◌∷◌, ◌++◌, arith, ◌≡◌, ◌⊎◌, ◌↔◌, text_eq_iff,
}
use aria_bridge.HostUtils.{bridge_has_capability}

-- `BridgeOptions`; of the screenshot provider only whether there is one.
pub record BridgeOptions : Type 0 where
  pub url : Option Text
  pub secret : Option Text
  pub project_id : Option Text
  pub max_breadcrumbs : Option ℕ
  pub throttle_ms : Option ℕ
  pub enabled : Option Bool
  pub enable_pageview : Option Bool
  pub enable_navigation : Option Bool
  pub enable_network : Option Bool
  pub enable_screenshot : Option Bool
  pub enable_control : Option Bool
  pub screenshot_provider : Bool

-- `v ?? w`.
abbrev pub default {ℓ} : {A : Type ℓ} → Option A → A → A
default none w = w
default (some v) w = v

abbrev pub given {ℓ} : {A : Type ℓ} → Option A → Bool
given none = false
given (some v) = true

-- `getEnv('ARIA_BRIDGE') === '1'`.
abbrev pub is_forced : Option Text → Bool
is_forced none = false
is_forced (some v) = text_eq v (text "1")

-- `shouldEnable`, with the environment variable and `isDevMode()`.
unfoldable pub should_enable : Option Text → Bool → BridgeOptions → Bool
should_enable env dev o =
    if is_forced env then true else default o.enabled (dev && (given o.url || given o.secret))

-- What the host wrote down of itself, as far as a bridge uses it.
pub record HostMeta : Type 0 where
  pub url : Text
  pub secret : Text

abbrev pub meta_url : Option HostMeta → Option Text
meta_url none = none
meta_url (some m) = some m.url

abbrev pub meta_secret : Option HostMeta → Option Text
meta_secret none = none
meta_secret (some m) = some m.secret

pub record Settings : Type 0 where
  pub url : Text
  pub secret : Text
  pub project_id : Option Text
  pub max_breadcrumbs : ℕ
  pub throttle_ms : ℕ
  pub enable_pageview : Bool
  pub enable_navigation : Bool
  pub enable_network : Bool
  pub enable_screenshot : Bool
  pub enable_control : Bool

unfoldable pub resolve : Option HostMeta → BridgeOptions → Settings
resolve meta o = record {
  url = default o.url (default (meta_url meta) (text "ws://localhost:9876"));
  secret = default o.secret (default (meta_secret meta) (text "dev-secret"));
  project_id = o.project_id;
  max_breadcrumbs = default o.max_breadcrumbs 50;
  throttle_ms = default o.throttle_ms 100;
  enable_pageview = default o.enable_pageview false;
  enable_navigation = default o.enable_navigation true;
  enable_network = default o.enable_network true;
  enable_screenshot = default o.enable_screenshot o.screenshot_provider;
  enable_control = default o.enable_control false;
}

-- `if (enabled) capabilities.push(word)`.
abbrev pub push_if : Bool → Text → List Text → List Text
push_if true word words = words ++ word ∷ []
push_if false word words = words

unfoldable pub capabilities : Settings → List Text
capabilities s =
    let always = text "error" ∷ text "console" ∷ [] in
    let pageview = push_if s.enable_pageview (text "pageview") always in
    let navigation = push_if s.enable_navigation (text "navigation") pageview in
    let screenshot = push_if s.enable_screenshot (text "screenshot") navigation in
    let network = push_if s.enable_network (text "network") screenshot in
    push_if s.enable_control (text "control") network

-- A bridge starts exactly when ARIA_BRIDGE is 1, or its options enable it, or they leave that open
-- and give a url or a secret in development.
pub should_enable_iff :
    (env : Option Text) (dev : Bool) (o : BridgeOptions)
    → (should_enable env dev o ≡ true) ↔ (
        (env ≡ some (text "1"))
        ⊎ (o.enabled ≡ some true)
        ⊎ ((o.enabled ≡ none) × (dev ≡ true) × ((given o.url || given o.secret) ≡ true)))
unfolding should_enable
should_enable_iff none dev o = ground arith
should_enable_iff (some v) dev o = ground (arith, text_eq_iff v (text "1"))

includes-push_if :
    (b : Bool) (word k : Text) (words : List Text)
    → includes (map lower (push_if b word words)) k
      ≡ (includes (map lower words) k || (b && text_eq (lower word) k))
unfolding includes
includes-push_if false word k words = ground arith
includes-push_if true word k [] = ground arith
includes-push_if true word k (w ∷ words) = ground (arith, includes-push_if true word k words)

-- What the host looks for in the list.
includes-capabilities :
    (s : Settings) (k : Text)
    → includes (map lower (capabilities s)) k ≡ (
        includes (map lower (text "error" ∷ text "console" ∷ [])) k
        || (s.enable_pageview && text_eq (lower (text "pageview")) k)
        || (s.enable_navigation && text_eq (lower (text "navigation")) k)
        || (s.enable_screenshot && text_eq (lower (text "screenshot")) k)
        || (s.enable_network && text_eq (lower (text "network")) k)
        || (s.enable_control && text_eq (lower (text "control")) k))
unfolding capabilities
includes-capabilities s k =
    let always = text "error" ∷ text "console" ∷ [] in
    let pageview = push_if s.enable_pageview (text "pageview") always in
    let navigation = push_if s.enable_navigation (text "navigation") pageview in
    let screenshot = push_if s.enable_screenshot (text "screenshot") navigation in
    let network = push_if s.enable_network (text "network") screenshot in
    ground (
      arith,
      includes-push_if s.enable_control (text "control") k network,
      includes-push_if s.enable_network (text "network") k screenshot,
      includes-push_if s.enable_screenshot (text "screenshot") k navigation,
      includes-push_if s.enable_navigation (text "navigation") k pageview,
      includes-push_if s.enable_pageview (text "pageview") k always,
    )

-- The library's predicate finds each capability of a bridge exactly when its settings enable it, and
-- errors and console output always.
pub capabilities-advertise :
    (s : Settings)
    → (bridge_has_capability (some (capabilities s)) (text "error") ≡ true)
      × (bridge_has_capability (some (capabilities s)) (text "console") ≡ true)
      × (bridge_has_capability (some (capabilities s)) (text "pageview") ≡ s.enable_pageview)
      × (bridge_has_capability (some (capabilities s)) (text "navigation") ≡ s.enable_navigation)
      × (bridge_has_capability (some (capabilities s)) (text "screenshot") ≡ s.enable_screenshot)
      × (bridge_has_capability (some (capabilities s)) (text "network") ≡ s.enable_network)
      × (bridge_has_capability (some (capabilities s)) (text "control") ≡ s.enable_control)
unfolding bridge_has_capability includes lower text_eq
capabilities-advertise s = (
  includes-capabilities s (text "error"),
  includes-capabilities s (text "console"),
  ground (arith, includes-capabilities s (text "pageview")),
  ground (arith, includes-capabilities s (text "navigation")),
  ground (arith, includes-capabilities s (text "screenshot")),
  ground (arith, includes-capabilities s (text "network")),
  ground (arith, includes-capabilities s (text "control")),
)
