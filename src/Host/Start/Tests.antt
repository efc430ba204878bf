-- ===== src/Host/Start/Tests.antt =====
-- The start of a host, bin/aria-bridge-host.js, run.
use aria_bridge.Prelude.{
  ℕ, ◌==◌, Bool, true, text, text_eq, decimal, Option, none, some, [], ◌++◌, ◌≡◌, refl, arith, inr,
}
use aria_bridge.Value.{Value, str, obj, Fields, truthy}
use aria_bridge.Value.Props.{get, put}
use aria_bridge.Client.Discovery.{read_healthy_meta}
use aria_bridge.Host.Start.{
  missing, unreadable, holds, Disk, Process, lock_data, try_acquire_lock, find_available_port,
  choose_secret, metadata, heartbeat, Boot, runs, exits, start_server,
}
use aria_bridge.Host.Start.Ports.{IsFirst, find_available_port-IsFirst}
use aria_bridge.Host.Start.Lock.{files_of, start_server-excludes, start_server-takes_over}
use aria_bridge.Host.Start.Announce.{IsGiven, start_server-announces}

code : Unit {0}
unfolding text_eq get put truthy try_acquire_lock find_available_port choose_secret metadata
    heartbeat start_server
code = tt

abbrev alive : Value → Bool
alive pid = true

-- Each date stands for the same time.
abbrev time_of : Value → Option ℕ
time_of v = some 20000

abbrev taken : ℕ → Bool
taken p = p == 9876

abbrev first : Process
first = record { pid = 7; workspace_path = text "w"; preferred_port = 9876 }

abbrev second : Process
second = record { pid = 8; workspace_path = text "w"; preferred_port = 9876 }

abbrev boot : ℕ → Boot
boot now = record {
  now = now;
  at = text "t";
  env = none;
  host_env = none;
  taken = taken;
  given_port = 0;
  drawn = text "k";
}

abbrev empty_disk : Disk
empty_disk = record { lock = missing; meta = missing }

abbrev running : Disk
running = files_of first 9877 (text "k") (text "t") (text "t")

started : start_server alive time_of (boot 20000) first empty_disk ≡ runs running 9877 (text "k")
unfolding code
started = refl

-- A host that has taken the lock, and has not written its file yet, loses the lock to another one
-- where the file of an earlier host is old.
lock_lost :
    try_acquire_lock alive time_of 50001
      (text "t")
      second
      (record running { lock = holds (lock_data first (text "now")) })
    ≡ some (record running { lock = holds (lock_data second (text "t")) })
unfolding code
lock_lost = refl

-- A lock that is no JSON keeps any host from starting.
lock_broken :
    start_server alive time_of (boot 20000) first (record empty_disk { lock = unreadable })
    ≡ exits (record empty_disk { lock = unreadable })
unfolding code
lock_broken = refl

find_available_port-IsFirst_example : IsFirst taken 5 9876 (find_available_port 65537 taken 5 9876)
find_available_port-IsFirst_example =
    find_available_port-IsFirst 65537 taken 5 9876 (omega arith) (omega arith)

start_server-excludes_example :
    start_server alive time_of (boot 30000) second running ≡ exits running
start_server-excludes_example =
    start_server-excludes alive time_of 20000 116 9877 (text "k") (text "t") [] first second
      (boot 30000) (λ e. absurd (omega arith)) refl refl (omega arith)

start_server-takes_over_example :
    start_server alive time_of (boot 36000) second running
    ≡ runs (files_of second 9877 (text "k") (text "t") (text "t")) 9877 (text "k")
unfolding find_available_port
start_server-takes_over_example =
    start_server-takes_over alive time_of 20000 116 9877 107 9877 [] (text "t") [] first second
      (boot 36000) refl (inr (omega arith)) refl refl refl

start_server-announces_example :
    (meta : Fields) × (running.meta ≡ holds (obj meta))
    × (read_healthy_meta alive time_of none 35000 (some (obj (heartbeat (text "u") meta)))
        ≡ some (heartbeat (text "u") meta))
    × (get (text "url") (heartbeat (text "u") meta) ≡ str (text "ws://127.0.0.1:" ++ decimal 9877))
    × (get (text "secret") (heartbeat (text "u") meta) ≡ str (text "k"))
    × IsGiven (text "k")
start_server-announces_example =
    start_server-announces alive time_of (boot 20000) first empty_disk running 9877 35000 20000 117
      (text "k") [] none started (107, [], refl) (λ e. absurd (omega arith)) refl refl (omega arith)
