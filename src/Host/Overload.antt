-- ===== src/Host/Overload.antt =====
-- bin/aria-bridge-host.js: the guard against too many events for the consumers that filter them.
use aria_bridge.Prelude.{
  ℕ, ◌+◌, ◌*◌, ◌-◌, ◌/◌, ◌<◌, ◌≤◌, ltb→lt, le_of_ltb-false, ◌⊎◌, min, ltb, Bool, true, false, not,
  ◌&&◌, Text, text, text_eq, List, [], ◌∷◌, ◌≡◌, refl, arith, Bool-cases, inl, inr,
}
use aria_bridge.Value.{Value}
use aria_bridge.Host.State.{Host}
use aria_bridge.Host.Values.{prop, is_word}
use aria_bridge.Host.Routing.{window_ms, window_limit, renew_window, count_event, filter_event}

-- A call of `filterEventForConsumer`.
pub record Call : Type 0 where
  pub now : ℕ
  pub message : Value
  pub llm_filter : Text

-- The filter is on, and the event is no error.
abbrev pub is_noise : Call → Bool
is_noise c =
    not (text_eq c.llm_filter (text "off"))
    && not (is_word (text "error") (prop (text "level") c.message))

-- The calls come one after the other, between two times.
abbrev pub InOrder : ℕ → ℕ → List Call → Type 0
InOrder from until [] = from ≤ until
InOrder from until (c ∷ cs) = (from ≤ c.now) × InOrder c.now until cs

until_of : (from until : ℕ) (cs : List Call) → InOrder from until cs → from ≤ until
until_of from until [] h = h
until_of from until (c ∷ cs) (p, h) = omega (arith, until_of c.now until cs h)

abbrev pub one : Bool → ℕ
one true = 1
one false = 0

-- What a call does to the window.
counted :
    (now : ℕ) (h : Host)
    → (h.window_start + 10000 < now
        × ((count_event now h).window_start ≡ now)
        × ((count_event now h).window_count ≡ 1))
      ⊎ (now ≤ h.window_start + 10000
          × ((count_event now h).window_start ≡ h.window_start)
          × ((count_event now h).window_count ≡ h.window_count + 1))
unfolding count_event renew_window
counted now h = elim (Bool-cases (ltb (h.window_start + window_ms) now)) [
  | inl over ↦ inl (ltb→lt _ _ over, rw over refl, rw over refl)
  | inr still ↦ inr (le_of_ltb-false _ _ still, rw still refl, rw still refl)
]

-- One call more, in a window that begins at `a` with `n` calls, and after it at `b` with `m`.
step_bound :
    (now until a b n m x rest : ℕ)
    → a ≤ now
    → now ≤ until
    → ((a + 10000 < now) × (b ≡ now) × (m ≡ 1)) ⊎ ((now ≤ a + 10000) × (b ≡ a) × (m ≡ n + 1))
    → x ≤ one (not (ltb window_limit m))
    → rest + min m 500 ≤ 500 * (1 + (until - b) / 10001)
    → x + rest + min n 500 ≤ 500 * (1 + (until - a) / 10001)
step_bound now until a b n m x rest p q (inl (over, start, count)) few h = ground arith
step_bound now until a b n m x rest p q (inr (still, start, count)) few h = ground arith

module _ (to_string : Value → Text) where
  -- How much of the noise passes.
  unfoldable pub noise_passed : List Call → Host → ℕ
  noise_passed [] h = 0
  noise_passed (c ∷ cs) h =
      let r = filter_event to_string c.now c.message c.llm_filter h in
      one (r.1 && is_noise c) + noise_passed cs r.0

  passes-count :
      (c : Call) (h : Host)
      → one ((filter_event to_string c.now c.message c.llm_filter h).1 && is_noise c)
        ≤ one (not (ltb window_limit (count_event c.now h).window_count))
  unfolding filter_event
  passes-count c h = ground arith

  noise_passed-bound :
      (from until : ℕ) (cs : List Call) (h : Host)
      → h.window_start ≤ from
      → InOrder from until cs
      → noise_passed cs h + min h.window_count 500 ≤ 500 * (1 + (until - h.window_start) / 10001)
  unfolding noise_passed filter_event
  noise_passed-bound from until [] h p o = omega arith
  noise_passed-bound from until (c ∷ cs) h p (q, o) =
      let g = count_event c.now h in
      let window = counted c.now h in
      let rest = noise_passed-bound c.now until cs g (ground arith) o in
      step_bound c.now until h.window_start g.window_start h.window_count g.window_count
        (one ((filter_event to_string c.now c.message c.llm_filter h).1 && is_noise c))
        (noise_passed cs g) (omega arith) (until_of c.now until cs o) window (passes-count c h) rest

  -- Calls that come one after the other until a time let at most 500 events that are no errors
  -- through to consumers with a filter, for each window of more than 10 s that has begun since the
  -- current one did.
  pub noise_passed-paced :
      (until : ℕ) (cs : List Call) (h : Host)
      → InOrder h.window_start until cs
      → noise_passed cs h ≤ 500 * (1 + (until - h.window_start) / 10001)
  noise_passed-paced until cs h o =
      let b = noise_passed-bound h.window_start until cs h (omega arith) o in omega arith
