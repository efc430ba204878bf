-- ===== src/Host/Start.antt =====
-- bin/aria-bridge-host.js: the start of a host, its lock and the file that tells clients of it.
mod Tests
pub mod Ports
pub mod Lock
pub mod Announce
use aria_bridge.Prelude.{
  ℕ, zero, suc, ◌+◌, ◌==◌, ltb, Bool, true, false, not, ◌&&◌, Text, text, text_eq, decimal,
  if◌then◌else◌, Option, none, some, List, [], ◌∷◌, ◌++◌,
}
use aria_bridge.Value.{Value, null, nat, str, obj, Fields, end, field, truthy}
use aria_bridge.Value.Props.{get, put}
use aria_bridge.HostUtils.{not_empty}
use aria_bridge.Client.Discovery.{is_stale}
use aria_bridge.Host.Values.{prop}

-- A file: it is missing, it is no JSON or cannot be read, or it holds a value.
pub data File : Type 0 where
  missing unreadable : File
  holds : Value → File

-- The two files in `.aria`.
pub record Disk : Type 0 where
  pub lock : File
  pub meta : File

-- The process that starts: its number, the workspace, and the port it was told.
pub record Process : Type 0 where
  pub pid : ℕ
  pub workspace_path : Text
  pub preferred_port : ℕ

abbrev pub lock_data : Process → Text → Value
lock_data p started_at = obj (
    field (text "pid") (nat p.pid) (
      field (text "startedAt") (str started_at)
        (field (text "workspacePath") (str p.workspace_path) end)))

-- What is asked of the platform: whether a process can be signalled, and the time that a date stands
-- for, `none` where it is no date.
module _ (alive : Value → Bool) (time_of : Value → Option ℕ) where
  -- A heartbeat that is too old; to read a property of `null` throws, which is caught.
  abbrev pub stale_meta : ℕ → File → Bool
  stale_meta now missing = false
  stale_meta now unreadable = false
  stale_meta now (holds v) =
      truthy (prop (text "heartbeatAt") v) && is_stale now (time_of (prop (text "heartbeatAt") v))

  -- Whether the value in the lock is that of a host that runs.
  abbrev pub held : ℕ → File → Value → Bool
  held now meta v =
      (truthy (prop (text "pid") v) && alive (prop (text "pid") v)) && not (stale_meta now meta)

  -- Whether the process goes on, after it has looked at the lock.
  abbrev pub may_take : ℕ → File → File → Bool
  may_take now meta missing = true
  may_take now meta unreadable = false
  may_take now meta (holds null) = false
  may_take now meta (holds v) = not (held now meta v)

  -- `tryAcquireLock`: `none` is `process.exit(1)`.
  unfoldable pub try_acquire_lock : ℕ → Text → Process → Disk → Option Disk
  try_acquire_lock now started_at p disk =
      if may_take now disk.meta disk.lock
      then some (record disk { lock = holds (lock_data p started_at) })
      else none

unfoldable pub release_lock : Disk → Disk
release_lock disk = record disk { lock = missing }

-- What `findAvailablePort` comes to: a port, or an error that is thrown for a port that is none.
-- `no_fuel` is that of the model.
pub data Search : Type 0 where
  found : ℕ → Search
  bad_port no_fuel : Search

-- `server.listen(port)`, where the platform says which ports are taken, and which one it gives for
-- the port 0.
unfoldable pub find_available_port : ℕ → (ℕ → Bool) → ℕ → ℕ → Search
find_available_port zero taken given start_port = no_fuel
find_available_port (suc fuel) taken given start_port =
    let next = find_available_port fuel taken given (start_port + 1) in
    if ltb 65535 start_port
    then bad_port
    else if taken start_port
    then next
    else found (if start_port == 0 then given else start_port)

-- The text in a property of a value, if it is one that is not empty.
abbrev pub secret_of : Value → Option Text
secret_of (str (c ∷ s)) = some (c ∷ s)
secret_of v = none

abbrev pub load_existing_secret : File → Option Text
load_existing_secret (holds v) = secret_of (prop (text "secret") v)
load_existing_secret file = none

-- `a || b` of texts that may be missing.
abbrev pub or_text : Option Text → Option Text → Option Text
or_text none b = b
or_text (some []) b = b
or_text (some (c ∷ s)) b = some (c ∷ s)

abbrev pub text_or : Option Text → Text → Text
text_or none t = t
text_or (some []) t = t
text_or (some (c ∷ s)) t = c ∷ s

-- The secret, from the two variables of the environment, the file, and the bytes that are drawn.
unfoldable pub choose_secret : Option Text → Option Text → File → Text → Text
choose_secret env host_env meta drawn =
    text_or (or_text (or_text env host_env) (load_existing_secret meta)) drawn

unfoldable pub metadata : Process → ℕ → Text → Text → Fields
metadata p port secret started_at =
    field (text "url") (str (text "ws://127.0.0.1:" ++ decimal port)) (
      field (text "port") (nat port) (
        field (text "secret") (str secret) (
          field (text "workspacePath") (str p.workspace_path) (
            field (text "startedAt") (str started_at)
              (field (text "pid") (nat p.pid) (field (text "heartbeatAt") (str started_at) end))))))

-- A round of the timer of `startHeartbeat`.
unfoldable pub heartbeat : Text → Fields → Fields
heartbeat at meta = put (text "heartbeatAt") (str at) meta

-- What a start has, besides the disk: the clock, its text, the environment, the ports and the draw.
pub record Boot : Type 0 where
  pub now : ℕ
  pub at : Text
  pub env : Option Text
  pub host_env : Option Text
  pub taken : ℕ → Bool
  pub given_port : ℕ
  pub drawn : Text

-- A start: a host that runs on a port with a secret, or the end of the process. A port that is none
-- throws, and the lock is released.
pub data Started : Type 0 where
  runs : Disk → ℕ → Text → Started
  exits : Disk → Started

abbrev pub on_port : Boot → Process → Disk → Search → Started
on_port b p disk (found port) =
    let secret = choose_secret b.env b.host_env disk.meta b.drawn in
    runs (record disk { meta = holds (obj (metadata p port secret b.at)) }) port secret
on_port b p disk bad_port = exits (release_lock disk)
on_port b p disk no_fuel = exits disk

module _ (alive : Value → Bool) (time_of : Value → Option ℕ) where
  abbrev pub locked : Boot → Process → Disk → Option Disk → Started
  locked b p disk none = exits disk
  locked b p disk (some mine) =
      on_port b p mine (find_available_port 65537 b.taken b.given_port p.preferred_port)

  -- `startServer`, up to the clients.
  unfoldable pub start_server : Boot → Process → Disk → Started
  start_server b p disk = locked b p disk (try_acquire_lock alive time_of b.now b.at p disk)
