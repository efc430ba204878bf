-- ===== src/HostUtils/Tests.antt =====
-- Levels and capabilities at concrete subscriptions.
use aria_bridge.Prelude.{
  ◌≤◌, true, false, Text, text, text_eq, includes, index_of, Option, none, some, List, [], ◌∷◌, ◌≡◌,
  refl, ◌≢◌, ◌↔◌, ◌⊎◌,
}
use aria_bridge.Prelude as P
use aria_bridge.HostUtils.{
  get_subscription_level_for_log_level, subscription_includes_level, bridge_has_capability,
  consumer_wants_capability,
}
use aria_bridge.HostUtils.Levels.{severity}

code : Unit {0}
unfolding text_eq includes index_of P.lower severity get_subscription_level_for_log_level
    subscription_includes_level bridge_has_capability consumer_wants_capability
code = tt

abbrev caps : Option (List Text)
caps = some (text "Network" ∷ text "screenshot" ∷ [])

-- src/__tests__/host-utils.test.ts
tested :
    (subscription_includes_level none (some (text "error")) ≡ true)
    × (subscription_includes_level none (some (text "warn")) ≡ false)
    × (subscription_includes_level (some (text "INFO" ∷ [])) (some (text "warn")) ≡ true)
    × (subscription_includes_level (some (text "info" ∷ [])) (some (text "debug")) ≡ false)
    × (bridge_has_capability caps (text "network") ≡ true)
    × (consumer_wants_capability (some []) (text "network") ≡ true)
unfolding code
tested = (refl, refl, refl, refl, refl, refl)
