-- ===== src/HostUtils/Levels.antt =====
-- src/host-utils.ts: a subscription to a level is one to every level that is more severe.
use aria_bridge.Prelude.{
  ℕ, zero, suc, ◌≤◌, Bool, true, ◌||◌, Text, text, text_eq, index_of, any, get_elem?, leb, leb→le,
  le→leb, if◌then◌else◌, Bool-cases, Option-cases, Option, none, some, List, [], ◌∷◌, ◌≡◌, refl,
  ◌≢◌, ◌↔◌, ◌⊎◌, inl, inr, arith, ◌∙◌,
}
use aria_bridge.Prelude as P
use aria_bridge.HostUtils.{
  level_order, lower, get_subscription_level_for_log_level, index_ge, levels_or_errors,
  subscription_includes_level,
}

-- How far from an error a message of this level is.
unfoldable pub severity : Option Text → ℕ
severity level =
    if text_eq (lower level) (text "error")
    then 0
    else if text_eq (lower level) (text "warn")
    then 1
    else if text_eq (lower level) (text "debug")
    then 3
    else 2

index_of-level :
    (level : Option Text)
    → index_of (get_subscription_level_for_log_level level) level_order ≡ some (severity level)
unfolding severity get_subscription_level_for_log_level
index_of-level level = elim (Bool-cases (text_eq (lower level) (text "error"))) [
  | inl e ↦ rw e (unfold index_of text_eq in refl)
  | inr e ↦ elim (Bool-cases (text_eq (lower level) (text "warn"))) [
    | inl w ↦ rw (e, w) (unfold index_of text_eq in refl)
    | inr w ↦ elim (Bool-cases (text_eq (lower level) (text "debug"))) [
      | inl d ↦ rw (e, w, d) (unfold index_of text_eq in refl)
      | inr d ↦ rw (e, w, d) (unfold index_of text_eq in refl)
    ]
  ]
]

-- A level of the list that stands in the order at `k` or later.
abbrev pub Reaches : List Text → ℕ → Type 0
Reaches levels k =
    (i : ℕ) × (l : Text) × (n : ℕ) × (get_elem? levels i ≡ some l)
    × (index_of (P.lower l) level_order ≡ some n)
    × (k ≤ n)

Reaches-cons : (l : Text) (levels : List Text) (k : ℕ) → Reaches levels k → Reaches (l ∷ levels) k
Reaches-cons l levels k (i, m, n, at, rank, le) = (suc i, m, n, at, rank, le)

Reaches-of_any :
    (levels : List Text) (k : ℕ)
    → any (λ level. index_ge (index_of (P.lower level) level_order) (some k)) levels ≡ true
    → Reaches levels k
Reaches-of_any [] k h = cc
Reaches-of_any (l ∷ levels) k h = elim (Option-cases (index_of (P.lower l) level_order)) [
  | inl unknown ↦ Reaches-cons l levels k (Reaches-of_any levels k (ground arith))
  | inr (n, rank) ↦ elim (Bool-cases (leb k n)) [
    | inl le ↦ (0, l, n, refl, rank, leb→le k n le)
    | inr less ↦ Reaches-cons l levels k (Reaches-of_any levels k (ground arith))
  ]
]

any_of_Reaches :
    (levels : List Text) (k i : ℕ) (l : Text) (n : ℕ)
    → get_elem? levels i ≡ some l
    → index_of (P.lower l) level_order ≡ some n
    → k ≤ n
    → any (λ level. index_ge (index_of (P.lower level) level_order) (some k)) levels ≡ true
any_of_Reaches [] k i l n at rank le = cc
any_of_Reaches (m ∷ levels) k zero l n at rank le =
    let same : m ≡ l = cc in rw (same, rank, le→leb k n le)
any_of_Reaches (m ∷ levels) k (suc i) l n at rank le =
    ground (arith, any_of_Reaches levels k i l n at rank le)

-- An event passes exactly when a level of the subscription, which is "errors" where there is none,
-- stands in the order as far as the event is from an error, or further.
pub subscription_includes_level_iff :
    (levels : Option (List Text)) (level : Option Text)
    → (subscription_includes_level levels level ≡ true)
      ↔ Reaches (levels_or_errors levels) (severity level)
unfolding subscription_includes_level
subscription_includes_level_iff levels level = rw (index_of-level level) (
  Reaches-of_any (levels_or_errors levels) (severity level),
  λ (i, l, n, at, rank, le).
      any_of_Reaches (levels_or_errors levels) (severity level) i l n at rank le,
)

-- A subscription that lets an event pass lets every event pass that is as severe, or more.
pub subscription_includes_level_mono :
    (levels : Option (List Text)) (a b : Option Text)
    → severity b ≤ severity a
    → subscription_includes_level levels a ≡ true
    → subscription_includes_level levels b ≡ true
subscription_includes_level_mono levels a b h passes =
    let (i, l, n, at, rank, le) = (subscription_includes_level_iff levels a).0 passes in
    (subscription_includes_level_iff levels b).1 (i, l, n, at, rank, omega arith)
