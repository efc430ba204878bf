-- ===== src/Host/Start/Ports.antt =====
-- `findAvailablePort`, bin/aria-bridge-host.js: the search comes to an end.
use aria_bridge.Prelude.{
  ℕ, zero, suc, ◌+◌, ◌≤◌, ◌<◌, ltb, ltb→lt, le_of_ltb-false, ◌==◌, Bool, true, false, if◌then◌else◌,
  arith, ◌≡◌, refl, subst, Bool-cases, inl, inr,
}
use aria_bridge.Host.Start.{Search, found, bad_port, no_fuel, find_available_port}

-- The port that is found is the first that is free, or there is none from `start` on.
abbrev pub IsFirst : (ℕ → Bool) → ℕ → ℕ → Search → Type 0
IsFirst taken given start (found p) =
    (q : ℕ) × (start ≤ q)
    × (q ≤ 65535)
    × (taken q ≡ false)
    × ((r : ℕ) → start ≤ r → r < q → taken r ≡ true)
    × (p ≡ (if q == 0 then given else q))
IsFirst taken given start bad_port = (r : ℕ) → start ≤ r → r ≤ 65535 → taken r ≡ true
IsFirst taken given start no_fuel = ⊥

-- What holds of the first number and of all later ones.
from_suc :
    (taken : ℕ → Bool) (start r : ℕ)
    → taken start ≡ true
    → start ≤ r
    → (start + 1 ≤ r → taken r ≡ true)
    → taken r ≡ true
from_suc taken start r t a f = elim (Bool-cases (start == r)) [
  | inl same ↦ let e : start ≡ r = ground arith in subst (λ x. taken x ≡ true) e t
  | inr other ↦ f (ground arith)
]

later-IsFirst :
    (taken : ℕ → Bool) (given start : ℕ) (r : Search)
    → taken start ≡ true
    → IsFirst taken given (start + 1) r
    → IsFirst taken given start r
later-IsFirst taken given start (found p) t (q, a, b, c, d, e) =
    (q, omega arith, b, c, λ r g l. from_suc taken start r t g (λ k. d r k l), e)
later-IsFirst taken given start bad_port t f = λ r g l. from_suc taken start r t g (λ k. f r k l)
later-IsFirst taken given start no_fuel t f = f

-- The search for a port ends, within the fuel that covers the ports from the first one on: it finds
-- the first port that is free (or the one that the platform gives, where that is the port 0), or no
-- port from the first one up to 65535 is free and it throws.
pub find_available_port-IsFirst :
    (fuel : ℕ) (taken : ℕ → Bool) (given start : ℕ)
    → 65537 ≤ fuel + start
    → 1 ≤ fuel
    → IsFirst taken given start (find_available_port fuel taken given start)
unfolding find_available_port
find_available_port-IsFirst zero taken given start f g = absurd (omega arith)
find_available_port-IsFirst (suc fuel) taken given start f g = elim (Bool-cases (ltb 65535 start)) [
  | inl over ↦ rw over (λ r a b. absurd (ground (arith, ltb→lt _ _ over)))
  | inr low ↦ elim (Bool-cases (taken start)) [
    | inl t ↦
        let fits : start ≤ 65535 = le_of_ltb-false _ _ low in
        rw (low, t)
          (later-IsFirst taken given start (find_available_port fuel taken given (start + 1)) t
            (find_available_port-IsFirst fuel taken given (start + 1) (omega arith) (omega arith)))
    | inr free ↦
        rw (low, free)
          (start, omega arith, le_of_ltb-false _ _ low, free, (λ r a b. absurd (omega arith)), refl)
  ]
]
