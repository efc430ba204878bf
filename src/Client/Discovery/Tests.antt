-- ===== src/Client/Discovery/Tests.antt =====
-- `readHealthyMeta`, src/client.ts, run.
use aria_bridge.Prelude.{ℕ, Bool, true, text, text_eq, Option, none, some, [], ◌∷◌, ◌≡◌, refl}
use aria_bridge.Value.{Value, str, obj, Fields, end, field, truthy}
use aria_bridge.Value.Props.{get}
use aria_bridge.Client.Discovery.{is_healthy, read_healthy_meta, poll, ensure_host}

code : Unit {0}
unfolding text_eq get truthy is_healthy read_healthy_meta poll ensure_host
code = tt

abbrev alive : Value → Bool
alive pid = true

-- No date can be read.
abbrev time_of : Value → Option ℕ
time_of v = none

abbrev meta : Fields
meta =
    field (text "url") (str (text "ws://localhost:9876"))
      (field (text "secret") (str (text "s")) (field (text "heartbeatAt") (str (text "soon")) end))

-- A heartbeat that is no date never goes stale.
soon_counts : read_healthy_meta alive time_of none 1000000000000 (some (obj meta)) ≡ some meta
unfolding code
soon_counts = refl

-- A host that has just been started is found once it has written the file, within two seconds.
waits :
    (ensure_host alive time_of none true true
        (1000, none)
        (some (1001, (1200, none) ∷ (1500, some (obj meta)) ∷ []))
        (9000, none)
      ≡ some meta)
    × (ensure_host alive time_of none true true
          (1000, none)
          (some (1001, (3001, some (obj meta)) ∷ []))
          (9000, none)
        ≡ none)
unfolding code
waits = (refl, refl)
