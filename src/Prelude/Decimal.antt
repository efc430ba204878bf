-- ===== src/Prelude/Decimal.antt =====
-- Numbers as a template string prints them, `${n}`, for a natural number `n`.
use Prim.Native.Nat.{ℕ, zero, suc, ◌+◌, ◌-◌, ◌*◌, ◌/◌, ◌%◌, ◌<◌, ◌≤◌}
use mathlib.Core.List.{[], ◌∷◌}
use mathlib.Core.Path.{◌≡◌}
use native.Mathlib.Omega.{arith}
use aria_bridge.Prelude.Lists.{All}
use aria_bridge.Prelude.Tests.{ltb, if◌then◌else◌, Bool-cases}
use aria_bridge.Prelude.Texts.{Text}
use mathlib.Core.Logic.{inl, inr}

-- The digits of `n` before `acc`. A number below `fuel` has enough fuel.
digits : ℕ → ℕ → Text → Text
digits zero n acc = acc
digits (suc fuel) n acc =
    let rest = digits fuel (n / 10) ((b'0' + n % 10) ∷ acc) in
    if ltb n 10 then (b'0' + n) ∷ acc else rest

unfoldable pub decimal : ℕ → Text
unfolding digits
decimal n = digits (suc n) n []

pub read_from : ℕ → Text → ℕ
read_from a [] = a
read_from a (c ∷ s) = read_from (a * 10 + (c - b'0')) s

read_from-digits :
    (fuel n : ℕ) (acc : Text) → n < fuel → read_from 0 (digits fuel n acc) ≡ read_from n acc
unfolding digits read_from
read_from-digits zero n acc h = absurd (omega arith)
read_from-digits (suc fuel) n acc h =
    ground (arith, read_from-digits fuel (n / 10) ((b'0' + n % 10) ∷ acc))

-- Reading the digits gives the number back: the fuel is enough.
pub read_from-decimal : (n : ℕ) → read_from 0 (decimal n) ≡ n
unfolding decimal read_from
read_from-decimal n = read_from-digits (suc n) n [] (omega arith)

abbrev pub IsDigit : ℕ → Type 0
IsDigit c = (b'0' ≤ c) × (c ≤ b'9')

digits-IsDigit : (fuel n : ℕ) (acc : Text) → All IsDigit acc → All IsDigit (digits fuel n acc)
unfolding digits
digits-IsDigit zero n acc h = h
digits-IsDigit (suc fuel) n acc h = elim (Bool-cases (ltb n 10)) [
  | inl e ↦ rw e (ground arith, h)
  | inr e ↦ rw e (digits-IsDigit fuel (n / 10) ((b'0' + n % 10) ∷ acc) (omega arith, h))
]

pub decimal-IsDigit : (n : ℕ) → All IsDigit (decimal n)
unfolding decimal
decimal-IsDigit n = digits-IsDigit (suc n) n [] tt
