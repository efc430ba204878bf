-- ===== src/HostUtils/Laws.antt =====
-- src/host-utils.ts: when a bridge has a capability and a consumer wants it.
use aria_bridge.Prelude.{
  ℕ, zero, suc, Bool, true, false, ◌||◌, not, Text, text, text_eq, text_eq_iff, includes, any,
  filter, get_elem?, All, if◌then◌else◌, Bool-cases, Option, none, some, List, [], ◌∷◌, map, ◌≡◌,
  refl, ◌≢◌, ◌↔◌, ◌⊎◌, inl, inr, arith, ap, ◌∙◌,
}
use aria_bridge.Prelude as P
use aria_bridge.HostUtils.{or_empty, not_empty, bridge_has_capability, consumer_wants_capability}

-- A capability of the list that is spelled like `cap`, in any case.
abbrev pub Lists : List Text → Text → Type 0
Lists caps cap = (i : ℕ) × (c : Text) × (get_elem? caps i ≡ some c) × (P.lower c ≡ P.lower cap)

Lists-cons : (d : Text) (caps : List Text) (cap : Text) → Lists caps cap → Lists (d ∷ caps) cap
Lists-cons d caps cap (i, c, at, same) = (suc i, c, at, same)

Lists-of_includes :
    (caps : List Text) (cap : Text)
    → includes (map P.lower caps) (P.lower cap) ≡ true
    → Lists caps cap
unfolding includes
Lists-of_includes [] cap h = cc
Lists-of_includes (c ∷ caps) cap h = elim (Bool-cases (text_eq (P.lower c) (P.lower cap))) [
  | inl same ↦ (0, c, refl, (text_eq_iff _ _).0 same)
  | inr other ↦ Lists-cons c caps cap (Lists-of_includes caps cap (ground arith))
]

includes_of_Lists :
    (caps : List Text) (cap : Text) (i : ℕ) (c : Text)
    → get_elem? caps i ≡ some c
    → P.lower c ≡ P.lower cap
    → includes (map P.lower caps) (P.lower cap) ≡ true
unfolding includes
includes_of_Lists [] cap i c at same = cc
includes_of_Lists (d ∷ caps) cap zero c at same =
    ground (arith, text_eq_iff (P.lower d) (P.lower cap))
includes_of_Lists (d ∷ caps) cap (suc i) c at same =
    ground (arith, includes_of_Lists caps cap i c at same)

not_empty_iff : (s : Text) → (not_empty s ≡ true) ↔ (s ≢ [])
not_empty_iff [] = ground arith
not_empty_iff (c ∷ s) = ground arith

-- A bridge has a capability exactly when the name is not empty and one of its capabilities is spelled
-- like it, in any case.
pub bridge_has_capability_iff :
    (caps : Option (List Text)) (cap : Text)
    → (bridge_has_capability caps cap ≡ true) ↔ ((P.lower cap ≢ []) × Lists (or_empty caps) cap)
unfolding bridge_has_capability
bridge_has_capability_iff caps cap = elim (Bool-cases (not_empty (P.lower cap))) [
  | inl named ↦ rw named (
    λ h. ((not_empty_iff (P.lower cap)).0 named, Lists-of_includes (or_empty caps) cap h),
    λ h. includes_of_Lists (or_empty caps) cap h.1.0 h.1.1 h.1.2 h.1.3,
  )
  | inr unnamed ↦
      rw unnamed
        (λ h. absurd (ground arith), λ h. absurd (ground (arith, not_empty_iff (P.lower cap))))
]

empty_first :
    (xs : List Text) (t : Text)
    → includes (filter not_empty xs) t ≡ (if not_empty t then includes xs t else false)
    → includes (filter not_empty xs) t ≡ (if not_empty t then includes ([] ∷ xs) t else false)
unfolding includes text_eq
empty_first xs [] h = h
empty_first xs (d ∷ t) h = h

full_first :
    (c : ℕ) (s : Text) (xs : List Text) (t : Text)
    → includes (filter not_empty xs) t ≡ (if not_empty t then includes xs t else false)
    → includes ((c ∷ s) ∷ filter not_empty xs) t
      ≡ (if not_empty t then includes ((c ∷ s) ∷ xs) t else false)
unfolding includes text_eq
full_first c s xs [] h = h
full_first c s xs (d ∷ t) h = ap (λ b. text_eq (c ∷ s) (d ∷ t) || b) h

includes-filter :
    (xs : List Text) (t : Text)
    → includes (filter not_empty xs) t ≡ (if not_empty t then includes xs t else false)
unfolding includes
includes-filter [] t = ground arith
includes-filter ([] ∷ xs) t = empty_first xs t (includes-filter xs t)
includes-filter ((c ∷ s) ∷ xs) t = full_first c s xs t (includes-filter xs t)

none_requested :
    (caps : List Text)
    → any (λ _. true) (filter not_empty (map P.lower caps)) ≡ false
    → All (λ c. P.lower c ≡ []) caps
none_requested [] h = tt
none_requested (c ∷ caps) h = elim (Bool-cases (not_empty (P.lower c))) [
  | inl named ↦ absurd (ground arith)
  | inr unnamed ↦ (ground (arith, not_empty_iff (P.lower c)), none_requested caps (ground arith))
]

none_requested_of :
    (caps : List Text)
    → All (λ c. P.lower c ≡ []) caps
    → any (λ _. true) (filter not_empty (map P.lower caps)) ≡ false
none_requested_of [] h = refl
none_requested_of (c ∷ caps) (e, h) = rw e (none_requested_of caps h)

-- A consumer wants a capability exactly when it names none at all, or one that is spelled like it, in
-- any case.
pub consumer_wants_capability_iff :
    (caps : Option (List Text)) (cap : Text)
    → (consumer_wants_capability caps cap ≡ true) ↔ (
        All (λ c. P.lower c ≡ []) (or_empty caps)
        ⊎ ((P.lower cap ≢ []) × Lists (or_empty caps) cap))
unfolding consumer_wants_capability
consumer_wants_capability_iff caps cap = (to, from)
  where
    asked : Bool
    asked = any (λ _. true) (filter not_empty (map P.lower (or_empty caps)))

    to :
        consumer_wants_capability caps cap ≡ true
        → All (λ c. P.lower c ≡ []) (or_empty caps)
          ⊎ ((P.lower cap ≢ []) × Lists (or_empty caps) cap)
    to h = elim (Bool-cases asked) [
      | inl some_asked ↦ elim (Bool-cases (not_empty (P.lower cap))) [
        | inl named ↦ inr (
          (not_empty_iff (P.lower cap)).0 named,
          Lists-of_includes (or_empty caps) cap
              (ground (arith, includes-filter (map P.lower (or_empty caps)) (P.lower cap))),
        )
        | inr unnamed ↦
            absurd (ground (arith, includes-filter (map P.lower (or_empty caps)) (P.lower cap)))
      ]
      | inr none_asked ↦ inl (none_requested (or_empty caps) none_asked)
    ]

    from :
        (All (λ c. P.lower c ≡ []) (or_empty caps)
          ⊎ ((P.lower cap ≢ []) × Lists (or_empty caps) cap))
        → consumer_wants_capability caps cap ≡ true
    from (inl all_empty) = rw (none_requested_of (or_empty caps) all_empty)
    from (inr (named, (i, c, at, same))) =
        let inc = includes_of_Lists (or_empty caps) cap i c at same in
        ground (
          arith,
          includes-filter (map P.lower (or_empty caps)) (P.lower cap),
          not_empty_iff (P.lower cap),
        )
