-- ===== src/Client/Discovery.antt =====
-- `readHealthyMeta` and `ensureHostIfPossible`, src/client.ts: the file that a running host keeps.
mod Tests
use aria_bridge.Prelude.{
  if_true, ℕ, ◌+◌, ◌≤◌, ltb, Bool, true, false, not, ◌&&◌, text, if◌then◌else◌, Option, none, some,
  arith, ◌≡◌, ◌↔◌, List, [], ◌∷◌,
}
use aria_bridge.Value.{Value, obj, Fields, truthy}
use aria_bridge.Value.Props.{get}

abbrev pub stale_ms : ℕ
stale_ms = 15000

-- `age > HOST_HEARTBEAT_STALE_MS` for the time of something, in milliseconds; `none` is NaN, which no
-- comparison holds of.
abbrev pub is_stale : ℕ → Option ℕ → Bool
is_stale now none = false
is_stale now (some time) = ltb (time + stale_ms) now

-- The same for the time of a file that may be missing.
abbrev pub is_recent : ℕ → Option ℕ → Bool
is_recent now none = false
is_recent now (some time) = not (is_stale now (some time))

-- What is asked of the platform: whether a process can be signalled, the time that a date stands for,
-- and the time at which the file was written, or `none` where `statSync` throws.
module _ (alive : Value → Bool) (time_of : Value → Option ℕ) (written : Option ℕ) where
  -- Whether an object passes the checks, in their order.
  unfoldable pub is_healthy : ℕ → Fields → Bool
  is_healthy now meta =
      let pid = get (text "pid") meta in
      let heartbeat = get (text "heartbeatAt") meta in
      if not (truthy (get (text "url") meta))
      then false
      else if not (truthy (get (text "secret") meta))
      then false
      else if truthy pid && not (alive pid)
      then false
      else if truthy heartbeat && is_stale now (time_of heartbeat)
      then false
      else if not (truthy heartbeat) && not (truthy pid)
      then is_recent now written
      else true

  -- `readHealthyMeta`: `none` is a file that cannot be read or parsed. A value that is no object has no
  -- url, or throws.
  unfoldable pub read_healthy_meta : ℕ → Option Value → Option Fields
  read_healthy_meta now (some (obj meta)) = if is_healthy now meta then some meta else none
  read_healthy_meta now raw = none

  -- `const fresh = …; if (fresh) return fresh`, with the later rounds.
  abbrev or_later : Option Fields → Option Fields → Option Fields
  or_later none later = later
  or_later (some meta) later = some meta

  -- The loop that waits for a host that was started: what the clock says and the file holds, each time
  -- that the file is read, up to the deadline.
  unfoldable pub poll : ℕ → List (ℕ × Option Value) → Option Fields
  poll deadline [] = none
  poll deadline ((now, raw) ∷ reads) =
      let rest = poll deadline reads in
      if ltb now deadline then or_later (read_healthy_meta now raw) rest else none

  -- What became of the host that was to be started: it was started at this time, and then the file is
  -- read these times; or to start it threw.
  abbrev await : Option (ℕ × List (ℕ × Option Value)) → Option Fields → Option Fields
  await none last = none
  await (some (start, reads)) last = or_later (poll (start + 2000) reads) last

  -- `ensureHostIfPossible`, in development and on Node or not: the first read of the file, the start of
  -- a host, and the last read.
  unfoldable pub ensure_host :
      (dev node : Bool)
      → ℕ × Option Value
      → Option (ℕ × List (ℕ × Option Value))
      → ℕ × Option Value
      → Option Fields
  ensure_host dev node (now, raw) started (later, last) =
      if not dev
      then none
      else if not node
      then none
      else or_later (read_healthy_meta now raw) (await started (read_healthy_meta later last))

-- The time is at most 15 seconds ago, or no time.
abbrev pub NotStale : ℕ → Option ℕ → Type 0
NotStale now none = Unit
NotStale now (some time) = now ≤ time + stale_ms

-- There is a time, and it is at most 15 seconds ago.
abbrev pub IsRecent : ℕ → Option ℕ → Type 0
IsRecent now none = ⊥
IsRecent now (some time) = now ≤ time + stale_ms

checks_iff :
    (now : ℕ) (u s p a h : Bool) (time written : Option ℕ)
    → ((if not u
          then false
          else if not s
          then false
          else if p && not a
          then false
          else if h && is_stale now time
          then false
          else if not h && not p
          then is_recent now written
          else true)
        ≡ true)
      ↔ ((u ≡ true)
          × (s ≡ true)
          × (p ≡ true → a ≡ true)
          × (h ≡ true → NotStale now time)
          × (p ≡ false → h ≡ false → IsRecent now written))
checks_iff now u s p a h none none = ground arith
checks_iff now u s p a h none (some w) = ground arith
checks_iff now u s p a h (some t) none = ground arith
checks_iff now u s p a h (some t) (some w) = ground arith

-- Metadata of a host counts exactly when it has a url and a secret, its process lives if it names one,
-- its heartbeat is at most 15 seconds old or no date if it has one, and, if it has neither, the file is
-- at most 15 seconds old.
pub read_healthy_meta_iff :
    (alive : Value → Bool) (time_of : Value → Option ℕ) (written : Option ℕ) (now : ℕ)
    (meta : Fields)
    → (read_healthy_meta alive time_of written now (some (obj meta)) ≡ some meta) ↔ (
        (truthy (get (text "url") meta) ≡ true)
        × (truthy (get (text "secret") meta) ≡ true)
        × (truthy (get (text "pid") meta) ≡ true → alive (get (text "pid") meta) ≡ true)
        × (truthy (get (text "heartbeatAt") meta) ≡ true
            → NotStale now (time_of (get (text "heartbeatAt") meta)))
        × (truthy (get (text "pid") meta) ≡ false
            → truthy (get (text "heartbeatAt") meta) ≡ false
            → IsRecent now written))
unfolding read_healthy_meta is_healthy
read_healthy_meta_iff alive time_of written now meta =
    let pid = get (text "pid") meta in
    let heartbeat = get (text "heartbeatAt") meta in
    let checks =
      checks_iff now (truthy (get (text "url") meta)) (truthy (get (text "secret") meta))
        (truthy pid) (alive pid) (truthy heartbeat) (time_of heartbeat) written in
    (λ e. checks.0 (ground (arith, e)), λ h. if_true (some meta) none (checks.1 h))
