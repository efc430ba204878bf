-- ===== src/Client/Throttle.antt =====
-- src/throttle.ts: events that come too fast are dropped.
use aria_bridge.Prelude.{
  subst, sym, All-map, All, ℕ, ◌+◌, ◌≤◌, ◌<◌, leb, Bool, true, false, if◌then◌else◌, List, [], ◌∷◌,
  arith, ◌≡◌, refl, Bool-cases, inl, inr, ◌⊎◌,
}

-- Times are `Date.now()`, in milliseconds.
pub record Throttler : Type 0 where
  pub last_call : ℕ
  pub delay_ms : ℕ

-- `new Throttler(delayMs)`.
abbrev pub init : ℕ → Throttler
init delay_ms = record { last_call = 0; delay_ms = delay_ms }

-- `now - this.lastCall >= this.delayMs`, with the subtraction moved to the other side.
unfoldable pub should_allow : ℕ → Throttler → Throttler × Bool
should_allow now t =
    if leb (t.last_call + t.delay_ms) now then (record t { last_call = now }, true) else (t, false)

abbrev note : ℕ → Bool → List ℕ → List ℕ
note now true times = now ∷ times
note now false times = times

-- The calls at these times, one after the other, and the times of those that were allowed.
unfoldable pub allowed : Throttler → List ℕ → List ℕ
allowed t [] = []
allowed t (now ∷ times) =
    let answer = should_allow now t in note now answer.1 (allowed answer.0 times)

-- Each time comes at least `delay` after the one before, the first one after `last`.
unfoldable pub Spaced : ℕ → ℕ → List ℕ → Type 0
Spaced delay last [] = Unit
Spaced delay last (now ∷ times) = (last + delay ≤ now) × Spaced delay now times

-- The time is one of the list, or less than `delay` after one of them or after `last`.
unfoldable pub Covers : ℕ → ℕ → List ℕ → ℕ → Type 0
Covers delay last [] x = x < last + delay
Covers delay last (now ∷ times) x = (x < last + delay) ⊎ (x ≡ now) ⊎ Covers delay now times x

allowed-late :
    (t : Throttler) (now : ℕ) (times : List ℕ)
    → leb (t.last_call + t.delay_ms) now ≡ true
    → allowed t (now ∷ times) ≡ now ∷ allowed (record t { last_call = now }) times
unfolding allowed should_allow
allowed-late t now times late = rw late refl

allowed-early :
    (t : Throttler) (now : ℕ) (times : List ℕ)
    → leb (t.last_call + t.delay_ms) now ≡ false
    → allowed t (now ∷ times) ≡ allowed t times
unfolding allowed should_allow
allowed-early t now times early = rw early refl

allowed-Spaced : (t : Throttler) (times : List ℕ) → Spaced t.delay_ms t.last_call (allowed t times)
unfolding allowed Spaced
allowed-Spaced t [] = tt
allowed-Spaced t (now ∷ times) = elim (Bool-cases (leb (t.last_call + t.delay_ms) now)) [
  | inl late ↦
      subst (Spaced t.delay_ms t.last_call) (sym (allowed-late t now times late))
        (ground (arith, late), allowed-Spaced (record t { last_call = now }) times)
  | inr early ↦
      subst (Spaced t.delay_ms t.last_call) (sym (allowed-early t now times early))
        (allowed-Spaced t times)
]

Covers-of_near : (delay last x : ℕ) (times : List ℕ) → x < last + delay → Covers delay last times x
unfolding Covers
Covers-of_near delay last x [] h = h
Covers-of_near delay last x (t ∷ times) h = inl h

-- Each of these times is covered by those that were allowed.
abbrev AllCovered : Throttler → List ℕ → List ℕ → Type 0
AllCovered t times passed = All (Covers t.delay_ms t.last_call passed) times

allowed-Covers : (t : Throttler) (times : List ℕ) → AllCovered t times (allowed t times)
unfolding Covers
allowed-Covers t [] = tt
allowed-Covers t (now ∷ times) = elim (Bool-cases (leb (t.last_call + t.delay_ms) now)) [
  | inl late ↦
      let u = record t { last_call = now } in
      subst (AllCovered t (now ∷ times)) (sym (allowed-late t now times late)) (
        inr (inl refl),
        All-map (Covers t.delay_ms now (allowed u times))
            (Covers t.delay_ms t.last_call (now ∷ allowed u times)) times (λ x c. inr (inr c))
            (allowed-Covers u times),
      )
  | inr early ↦ subst (AllCovered t (now ∷ times)) (sym (allowed-early t now times early)) (
    Covers-of_near t.delay_ms t.last_call now (allowed t times) (ground (arith, early)),
    allowed-Covers t times,
  )
]

-- Events that are throttled go out at least the delay apart, and each call was allowed or comes less
-- than the delay after one that was, or after the last one before, whatever the clock does.
pub allowed-paced :
    (t : Throttler) (times : List ℕ)
    → Spaced t.delay_ms t.last_call (allowed t times)
      × All (Covers t.delay_ms t.last_call (allowed t times)) times
allowed-paced t times = (allowed-Spaced t times, allowed-Covers t times)
