-- ===== src/Mcp/EventBuffer/History.antt =====
-- src/mcp/event-buffer.ts, `push`: the buffer against a history that forgets nothing.
use aria_bridge.Prelude.{
  ℕ, ◌+◌, ◌-◌, ◌*◌, ◌/◌, ◌^◌, ◌≤◌, ◌<◌, true, false, length, last_n, last_n-push, length-append,
  ltb, ltb→lt, lt→ltb, drop-nil, le_of_ltb-false, ltb-false_of_le, if◌then◌else◌, Option, none,
  some, List, [], ◌∷◌, ◌++◌, ◌≡◌, refl, arith, ap, ◌∙◌, sym, append_assoc, append-nil, subst,
  Bool-cases, inl, inr,
}
use native.Mathlib.Nat.{div-lt_iff_lt-mul, le-div_iff_mul-le, one-le-pow, one-mul}
use aria_bridge.Value.{Number, finite, infinite, nan, Fields}
use aria_bridge.Value.Numbers.{max_one, exceeds, trunc}
use aria_bridge.Mcp.EventBuffer.{EventBuffer, init, slice_last, stamp, push}

-- A limit that acts as the number `size` does.
record Caps (limit : Number) (size : ℕ) : Type 0 where
  exceeds_iff : (n : ℕ) → exceeds n limit ≡ ltb size n
  trunc_eq : trunc limit ≡ size
  positive : 1 ≤ size

one-Caps : Caps (finite false 1 0) 1
unfolding exceeds trunc
one-Caps = record { exceeds_iff = λ n. ground arith; trunc_eq = refl; positive = omega arith }

ltb_mul : (m p n : ℕ) → 0 < p → ltb m (n * p) ≡ ltb (m / p) n
ltb_mul m p n h = elim (Bool-cases (ltb (m / p) n)) [
  | inl under ↦ lt→ltb m (n * p) ((div-lt_iff_lt-mul h).0 (ltb→lt (m / p) n under)) ∙ sym under
  | inr over ↦
      ltb-false_of_le m (n * p) ((le-div_iff_mul-le h).0 (le_of_ltb-false (m / p) n over))
      ∙ sym over
]

two_pow-pos : (k : ℕ) → 0 < 2 ^ k
two_pow-pos k = one-le-pow k 2 (omega arith)

large-Caps : (m k : ℕ) → ltb m (2 ^ k) ≡ false → Caps (finite false m k) (m / 2 ^ k)
unfolding exceeds trunc
large-Caps m k h = record {
  exceeds_iff = λ n. ltb_mul m (2 ^ k) n (two_pow-pos k);
  trunc_eq = refl;
  positive = (le-div_iff_mul-le (two_pow-pos k)).1 (rw one-mul (le_of_ltb-false m (2 ^ k) h));
}

-- How many events a buffer keeps that was made with this limit, if it is no number that counts.
unfoldable pub size_of : Number → Option ℕ
size_of (finite true m k) = some 1
size_of (finite false m k) = some (if ltb m (2 ^ k) then 1 else m / 2 ^ k)
size_of (infinite true) = some 1
size_of (infinite false) = none
size_of nan = none

max_one-Caps : (limit : Number) (size : ℕ) → size_of limit ≡ some size → Caps (max_one limit) size
unfolding size_of max_one
max_one-Caps (finite true m k) size e = let same : 1 ≡ size = cc in rw (← same) one-Caps
max_one-Caps (finite false m k) size e = elim (Bool-cases (ltb m (2 ^ k))) [
  | inl small ↦ rw small (let same : 1 ≡ size = ground arith in rw (← same) one-Caps)
  | inr large ↦
      rw large (let same : m / 2 ^ k ≡ size = ground arith in rw (← same) (large-Caps m k large))
]
max_one-Caps (infinite true) size e = let same : 1 ≡ size = cc in rw (← same) one-Caps
max_one-Caps (infinite false) size e = cc
max_one-Caps nan size e = cc

-- The events with their numbers, from `id` on.
unfoldable pub stamp_from : ℕ → List Fields → List Fields
stamp_from id [] = []
stamp_from id (e ∷ es) = stamp id e ∷ stamp_from (id + 1) es

unfoldable pub push_all : List Fields → EventBuffer → EventBuffer
push_all [] b = b
push_all (e ∷ es) b = push_all es (push e b).0

-- The buffer holds the last `size` of the events that were pushed.
record Keeps (size : ℕ) (b : EventBuffer) (history : List Fields) : Type 0 where
  capped : Caps b.limit size
  kept : b.events ≡ last_n size history
  counted : b.counter ≡ length history

slice_last_pos : (n : ℕ) (xs : List Fields) → 1 ≤ n → slice_last n xs ≡ last_n n xs
unfolding slice_last
slice_last_pos n xs h = ground arith

push-Keeps :
    (size : ℕ) (e : Fields) (b : EventBuffer) (history : List Fields)
    → Keeps size b history
    → Keeps size (push e b).0 (history ++ stamp (length history + 1) e ∷ [])
unfolding push
push-Keeps size e b history k = record {
  capped = k.capped;
  kept =
      let added = stamp (length history + 1) e in
      rw
        (
          k.counted, k.kept, k.capped.exceeds_iff, k.capped.trunc_eq, slice_last_pos,
          k.capped.positive,
        )
        (last_n-push size history added k.capped.positive);
  counted = omega (arith, k.counted, length-append history (stamp (length history + 1) e ∷ []));
}

push_all-Keeps :
    (size : ℕ) (es : List Fields) (b : EventBuffer) (history : List Fields)
    → Keeps size b history
    → Keeps size (push_all es b) (history ++ stamp_from (length history + 1) es)
unfolding push_all stamp_from
push_all-Keeps size [] b history k = subst (Keeps size b) (sym (append-nil history)) k
push_all-Keeps size (e ∷ es) b history k =
    let added = stamp (length history + 1) e in
    let size_next : length (history ++ added ∷ []) ≡ length history + 1 =
      omega (arith, length-append history (added ∷ [])) in
    subst (Keeps size (push_all es (push e b).0))
      (append_assoc history (added ∷ []) (stamp_from (length (history ++ added ∷ []) + 1) es)
        ∙ ap (λ n. history ++ added ∷ stamp_from (n + 1) es) size_next)
      (push_all-Keeps size es (push e b).0 (history ++ added ∷ []) (push-Keeps size e b history k))

-- A buffer with a limit that counts holds the last so many of the events that were pushed, each
-- with its number, and never less than one.
pub push_all-window :
    (limit : Number) (size : ℕ) (es : List Fields)
    → size_of limit ≡ some size
    → let b = push_all es (init limit) in
      (b.events ≡ last_n size (stamp_from 1 es))
      × (b.counter ≡ length (stamp_from 1 es))
      × (1 ≤ size)
unfolding init
push_all-window limit size es e =
    let start : Keeps size (init limit) [] = record {
      capped = max_one-Caps limit size e;
      kept = sym (drop-nil (0 - size));
      counted = refl;
    } in
    let k = push_all-Keeps size es (init limit) [] start in (k.kept, k.counted, k.capped.positive)

module _ (limit : Number) (endless : (n : ℕ) → exceeds n limit ≡ false) where
  push_all-endless :
      (es history : List Fields) (b : EventBuffer)
      → b.limit ≡ limit
      → b.counter ≡ length history
      → b.events ≡ history
      → (push_all es b).events ≡ history ++ stamp_from (length history + 1) es
  unfolding push_all stamp_from push
  push_all-endless [] history b l c e = e ∙ sym (append-nil history)
  push_all-endless (x ∷ es) history b l c e =
      let added = stamp (length history + 1) x in
      let size_next : length (history ++ added ∷ []) ≡ length history + 1 =
        omega (arith, length-append history (added ∷ [])) in
      push_all-endless es (history ++ added ∷ []) (push x b).0 l (omega (arith, c, size_next))
        (rw (l, c, e, endless) refl)
      ∙ append_assoc history (added ∷ []) (stamp_from (length (history ++ added ∷ []) + 1) es)
      ∙ ap (λ n. history ++ added ∷ stamp_from (n + 1) es) size_next

exceeds-endless :
    (limit : Number) → size_of limit ≡ none → (n : ℕ) → exceeds n (max_one limit) ≡ false
unfolding size_of exceeds max_one
exceeds-endless (finite true m k) e n = cc
exceeds-endless (finite false m k) e n = cc
exceeds-endless (infinite true) e n = cc
exceeds-endless (infinite false) e n = refl
exceeds-endless nan e n = refl

-- With a limit that is `NaN`, as `Number` makes of a word on the command line, or infinite, the
-- buffer holds every event that was ever pushed.
pub push_all-unbounded :
    (limit : Number) (es : List Fields)
    → size_of limit ≡ none
    → (push_all es (init limit)).events ≡ stamp_from 1 es
unfolding init
push_all-unbounded limit es e =
    push_all-endless (max_one limit) (exceeds-endless limit e) es [] (init limit) refl refl refl
