-- ===== src/Host/References/Suits.antt =====
-- bin/aria-bridge-host.js: the predicates of the routing throw no error where they read lists.
use aria_bridge.Prelude.{
  ℕ, ◌==◌, ==_iff, Bool, true, false, not, ◌&&◌, any, filter, map, Text, text, if◌then◌else◌,
  if_elim, if_true, if_false, Option, none, some, Option-cases, List, [], ◌∷◌, ◌++◌, All, ◌≡◌, ◌≢◌,
  refl, ap, sym, subst, ◌∙◌, arith, Bool-cases, ◌⊎◌, inl, inr,
}
use aria_bridge.Prelude as P
use aria_bridge.Value.{Value, undefined, str, arr, truthy}
use aria_bridge.HostUtils.{not_empty}
use aria_bridge.Host.State.{Hello, Subscription}
use aria_bridge.Host.Values.{
  prop, or, list_or, ◌>>=◌, lower, subscription_includes_level, bridge_has_capability,
  consumer_wants_capability,
}
use aria_bridge.Host.Routing.{is_capability, levels_of, requested_of, caps_of, suits}
use aria_bridge.Host.References.{is_list}

-- Something was got, and nothing was thrown.
abbrev pub Returns {ℓ} : {A : Type ℓ} → Option A → Type 0
Returns none = ⊥
Returns (some a) = Unit

pub bind-Returns {ℓ κ} :
    {A : Type ℓ} {B : Type κ} (o : Option A) (f : A → Option B)
    → Returns o
    → ((a : A) → Returns (f a))
    → Returns (o >>= f)
bind-Returns none f h k = absurd h
bind-Returns (some a) f h k = k a

-- A list, or nothing.
abbrev pub IsReadable : Value → Type 0
IsReadable v = (is_list v ≡ true) ⊎ (v ≡ undefined)

pub list_or-Returns : (others : List Value) (v : Value) → IsReadable v → Returns (list_or others v)
unfolding truthy
list_or-Returns others (arr xs) h = tt
list_or-Returns others undefined h = tt
list_or-Returns others _ (inl e) = cc
list_or-Returns others _ (inr e) = cc

module _ (to_string : Value → Text) where
  pub subscription_includes_level-Returns :
      (levels level : Value)
      → IsReadable levels
      → Returns (subscription_includes_level to_string levels level)
  unfolding subscription_includes_level
  subscription_includes_level-Returns levels level r =
      bind-Returns (list_or (str (text "errors") ∷ []) levels) _
        (list_or-Returns (str (text "errors") ∷ []) levels r) (λ a. tt)

  pub consumer_wants_capability-Returns :
      (caps : Value) (capability : Text)
      → IsReadable caps
      → Returns (consumer_wants_capability to_string caps capability)
  unfolding consumer_wants_capability
  consumer_wants_capability-Returns caps capability r =
      bind-Returns (list_or [] caps) _ (list_or-Returns [] caps r) (λ a. tt)

  pub bridge_has_capability-Returns :
      (caps : Value) (capability : Text)
      → IsReadable caps
      → Returns (bridge_has_capability to_string caps capability)
  unfolding bridge_has_capability
  bridge_has_capability-Returns caps capability r =
      if_elim Returns (not (not_empty (P.lower capability))) tt
        (bind-Returns (list_or [] caps) _ (list_or-Returns [] caps r) (λ a. tt))

  pub suits-Returns :
      (sub : Option Subscription) (hello : Option Hello) (msg : Value)
      → IsReadable (levels_of sub)
      → IsReadable (requested_of sub)
      → IsReadable (caps_of hello)
      → Returns (suits to_string sub hello msg)
  unfolding suits
  suits-Returns sub hello msg l r c =
      let kind = lower to_string (or (prop (text "type") msg) (str [])) in
      let level = or (prop (text "level") msg) (str (text "info")) in
      bind-Returns (subscription_includes_level to_string (levels_of sub) level) _
        (subscription_includes_level-Returns (levels_of sub) level l)
        (λ level_ok. if_elim Returns (not level_ok) tt (
          if_elim Returns (is_capability kind)
            (bind-Returns (consumer_wants_capability to_string (requested_of sub) kind) _
              (consumer_wants_capability-Returns (requested_of sub) kind r)
              (λ wanted.
                if_elim Returns (not wanted) tt
                  (bridge_has_capability-Returns (caps_of hello) kind c)))
            tt))
