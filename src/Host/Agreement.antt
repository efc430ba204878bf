-- ===== src/Host/Agreement.antt =====
-- bin/aria-bridge-host.js and src/host-utils.ts: the host has its own copies of the predicates that
-- the library exports.
use aria_bridge.Prelude.{
  ℕ, Bool, true, false, not, ◌||◌, Text, text, text_eq, includes, index_of, any, filter,
  if◌then◌else◌, Option, none, some, List, [], ◌∷◌, map, ◌≡◌, refl, ap, ◌∙◌, arith, Bool-cases, inl,
  inr, if_elim,
}
use aria_bridge.Prelude as P
use aria_bridge.Value.{Value, undefined, str, arr, items, elems, truthy}
use aria_bridge.HostUtils.{level_order, index_ge, not_empty}
use aria_bridge.HostUtils as U
use aria_bridge.Host.Values.{
  lower, get_subscription_level_for_log_level, subscription_includes_level, bridge_has_capability,
  consumer_wants_capability,
}

-- A list of texts, or a missing one.
abbrev pub values_of : List Text → List Value
values_of ts = map str ts

abbrev pub value_of : Option (List Text) → Value
value_of none = undefined
value_of (some ts) = arr (items (values_of ts))

abbrev pub text_value : Option Text → Value
text_value none = undefined
text_value (some t) = str t

elems-items : (vs : List Value) → elems (items vs) ≡ vs
elems-items [] = refl
elems-items (v ∷ vs) = ap (◌∷◌ v) (elems-items vs)

module _ (to_string : Value → Text) where
  map-lower-values : (ts : List Text) → map (lower to_string) (values_of ts) ≡ map P.lower ts
  unfolding lower
  map-lower-values [] = refl
  map-lower-values (t ∷ ts) = ap (◌∷◌ (P.lower t)) (map-lower-values ts)

  lowered : (ts : List Text) → map (lower to_string) (elems (items (values_of ts))) ≡ map P.lower ts
  lowered ts = rw (elems-items (values_of ts)) (map-lower-values ts)

  level_eq :
      (lvl : Option Text)
      → get_subscription_level_for_log_level to_string (text_value lvl)
        ≡ U.get_subscription_level_for_log_level lvl
  unfolding get_subscription_level_for_log_level U.get_subscription_level_for_log_level lower
  level_eq none = refl
  level_eq (some t) = refl

  any-values :
      (i : Option ℕ) (ts : List Text)
      → any
          (λ sub. index_ge (index_of (lower to_string sub) level_order) i)
          (elems (items (values_of ts)))
        ≡ any (λ sub. index_ge (index_of (P.lower sub) level_order) i) ts
  unfolding lower
  any-values i [] = refl
  any-values i (t ∷ ts) =
      ap (λ b. index_ge (index_of (P.lower t) level_order) i || b) (any-values i ts)

  missing_levels :
      (lvl : Option Text)
      → subscription_includes_level to_string undefined (text_value lvl)
        ≡ some (U.subscription_includes_level none lvl)
  unfolding subscription_includes_level U.subscription_includes_level lower truthy
  missing_levels lvl = rw (level_eq lvl) refl

  given_levels :
      (l : Text) (ls : List Text) (lvl : Option Text)
      → subscription_includes_level to_string (value_of (some (l ∷ ls))) (text_value lvl)
        ≡ some (U.subscription_includes_level (some (l ∷ ls)) lvl)
  unfolding subscription_includes_level U.subscription_includes_level
  given_levels l ls lvl =
      let Answer : Text → Option Bool = λ e. some (
        any (λ sub. index_ge (index_of (lower to_string sub) level_order) (index_of e level_order))
          (elems (items (values_of (l ∷ ls))))) in
      let e = U.get_subscription_level_for_log_level lvl in
      ap Answer (level_eq lvl) ∙ ap some (any-values (index_of e level_order) (l ∷ ls))

  caps-agree :
      (caps : Option (List Text)) (capability : Text)
      → bridge_has_capability to_string (value_of caps) capability
        ≡ some (U.bridge_has_capability caps capability)
  unfolding bridge_has_capability U.bridge_has_capability truthy
  caps-agree none capability = elim (Bool-cases (not_empty (P.lower capability))) [
    | inl e ↦ rw e refl
    | inr e ↦ rw e refl
  ]
  caps-agree (some ts) capability = elim (Bool-cases (not_empty (P.lower capability))) [
    | inl e ↦ rw (e, lowered ts) refl
    | inr e ↦ rw e refl
  ]

  wants-agree :
      (caps : Option (List Text)) (capability : Text)
      → consumer_wants_capability to_string (value_of caps) capability
        ≡ some (U.consumer_wants_capability caps capability)
  unfolding consumer_wants_capability U.consumer_wants_capability truthy
  wants-agree none capability = refl
  wants-agree (some ts) capability = rw (lowered ts) refl

  -- On texts the host's predicates answer as those of the library: which capabilities a bridge has,
  -- which ones a consumer wants, and which levels a subscription includes whose list of levels is
  -- missing or has an item. An empty list of levels includes none for the host, while for the
  -- library it includes errors.
  pub predicates-agree :
      (caps : Option (List Text)) (capability l : Text) (ls : List Text) (lvl : Option Text)
      → (bridge_has_capability to_string (value_of caps) capability
          ≡ some (U.bridge_has_capability caps capability))
        × (consumer_wants_capability to_string (value_of caps) capability
            ≡ some (U.consumer_wants_capability caps capability))
        × (subscription_includes_level to_string (value_of none) (text_value lvl)
            ≡ some (U.subscription_includes_level none lvl))
        × (subscription_includes_level to_string (value_of (some (l ∷ ls))) (text_value lvl)
            ≡ some (U.subscription_includes_level (some (l ∷ ls)) lvl))
        × (subscription_includes_level to_string (value_of (some [])) (text_value lvl) ≡ some false)
        × (U.subscription_includes_level (some []) (some (text "error")) ≡ true)
  unfolding subscription_includes_level U.subscription_includes_level
      U.get_subscription_level_for_log_level text_eq index_of P.lower
  predicates-agree caps capability l ls lvl = (
    caps-agree caps capability,
    wants-agree caps capability,
    missing_levels lvl,
    given_levels l ls lvl,
    refl,
    refl,
  )
