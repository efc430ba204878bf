-- ===== src/Value/Numbers.antt =====
-- Comparisons and roundings of numbers that the program makes. A finite number is
-- ± mantissa / 2 ^ shift; whatever is compared with `NaN` fails.
use aria_bridge.Prelude.{ℕ, ◌+◌, ◌*◌, ◌/◌, ◌^◌, Bool, true, false, ltb, if◌then◌else◌}
use aria_bridge.Value.{Number, finite, infinite, nan}

-- `Math.max(1, x)`.
unfoldable pub max_one : Number → Number
max_one (finite true mantissa shift) = finite false 1 0
max_one (finite false mantissa shift) =
    if ltb mantissa (2 ^ shift) then finite false 1 0 else finite false mantissa shift
max_one (infinite true) = finite false 1 0
max_one (infinite false) = infinite false
max_one nan = nan

-- `n > x`, for a count `n`.
unfoldable pub exceeds : ℕ → Number → Bool
exceeds n (finite true mantissa shift) = ltb 0 (n + mantissa)
exceeds n (finite false mantissa shift) = ltb mantissa (n * 2 ^ shift)
exceeds n (infinite negative) = negative
exceeds n nan = false

-- `Math.trunc(x)` of a finite number that is not negative, as `slice` takes it.
unfoldable pub trunc : Number → ℕ
trunc (finite negative mantissa shift) = mantissa / 2 ^ shift
trunc (infinite negative) = 0
trunc nan = 0
