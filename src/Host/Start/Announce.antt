-- ===== src/Host/Start/Announce.antt =====
-- `startServer`, bin/aria-bridge-host.js, and `readHealthyMeta`, src/client.ts: a client finds the host
-- that has started.
use aria_bridge.Prelude.{
  ℕ, ◌+◌, ◌≤◌, ltb, ltb-false_of_le, ◌==◌, ==_iff, Bool, true, false, Text, text, text_eq, decimal,
  Option, none, some, [], ◌∷◌, ◌++◌, arith, ◌≡◌, ◌≢◌, refl, subst, sym, ap,
}
use aria_bridge.Value.{Value, nat, str, obj, Fields, truthy}
use aria_bridge.Value.Props.{get, put}
use aria_bridge.Client.Discovery.{read_healthy_meta, is_healthy}
use aria_bridge.Host.Start.{
  File, holds, Disk, Process, Search, found, bad_port, no_fuel, find_available_port, choose_secret,
  text_or, metadata, heartbeat, Boot, runs, on_port, locked, start_server,
}

on_port-runs :
    (b : Boot) (p : Process) (disk : Disk) (r : Search) {d : Disk} {port : ℕ} {secret : Text}
    → on_port b p disk r ≡ runs d port secret
    → (r ≡ found port)
      × (secret ≡ choose_secret b.env b.host_env disk.meta b.drawn)
      × (d ≡ record disk { meta = holds (obj (metadata p port secret b.at)) })
on_port-runs b p disk (found q) e = (cc, cc, cc)
on_port-runs b p disk bad_port e = cc
on_port-runs b p disk no_fuel e = cc

-- A text that is not empty.
abbrev pub IsGiven : Text → Type 0
IsGiven t = (c : ℕ) × (s : Text) × (t ≡ c ∷ s)

text_or-IsGiven : (o : Option Text) (t : Text) → IsGiven t → IsGiven (text_or o t)
text_or-IsGiven none t g = g
text_or-IsGiven (some []) t g = g
text_or-IsGiven (some (c ∷ s)) t g = (c, s, refl)

choose_secret-IsGiven :
    (env host_env : Option Text) (meta : File) (drawn : Text)
    → IsGiven drawn
    → IsGiven (choose_secret env host_env meta drawn)
unfolding choose_secret
choose_secret-IsGiven env host_env meta drawn g = text_or-IsGiven _ drawn g

module _ (alive : Value → Bool) (time_of : Value → Option ℕ) where
  healthy_of :
      (written : Option ℕ) (now t c s port : ℕ) (secret started_at at : Text) (p : Process)
      → p.pid ≢ 0
      → alive (nat p.pid) ≡ true
      → time_of (str (c ∷ at)) ≡ some t
      → now ≤ t + 15000
      → read_healthy_meta alive time_of written now
          (some (obj (heartbeat (c ∷ at) (metadata p port (s ∷ secret) started_at))))
        ≡ some (heartbeat (c ∷ at) (metadata p port (s ∷ secret) started_at))
  unfolding read_healthy_meta is_healthy heartbeat metadata get put text_eq truthy
  healthy_of written now t c s port secret started_at at p ne a e fresh =
      let new : ltb (t + 15000) now ≡ false = ltb-false_of_le (t + 15000) now fresh in
      let pid : (p.pid == 0) ≡ false = ground (arith, ==_iff p.pid 0) in rw (pid, a, e, new) refl

  locked-runs :
      (b : Boot) (p : Process) (disk d : Disk) (port : ℕ) (secret : Text) (o : Option Disk)
      → locked alive time_of b p disk o ≡ runs d port secret
      → IsGiven b.drawn
      → IsGiven secret × (d.meta ≡ holds (obj (metadata p port secret b.at)))
  locked-runs b p disk d port secret none e g = cc
  locked-runs b p disk d port secret (some mine) e g =
      let search = find_available_port 65537 b.taken b.given_port p.preferred_port in
      let (_, chosen, same) = on_port-runs b p mine search e in
      (
        subst IsGiven (sym chosen) (choose_secret-IsGiven b.env b.host_env mine.meta b.drawn g),
        ap (λ (x : Disk). x.meta) same,
      )

  -- A host that has started, with the draw not empty, is found by a client as long as its process
  -- runs and its last heartbeat is at most 15 s old: what the client reads has the host's address
  -- and its secret, which is not empty.
  pub start_server-announces :
      (b : Boot) (p : Process) (disk d : Disk) (port now t c : ℕ) (secret at : Text)
      (written : Option ℕ)
      → start_server alive time_of b p disk ≡ runs d port secret
      → IsGiven b.drawn
      → p.pid ≢ 0
      → alive (nat p.pid) ≡ true
      → time_of (str (c ∷ at)) ≡ some t
      → now ≤ t + 15000
      → (meta : Fields) × (d.meta ≡ holds (obj meta))
        × (read_healthy_meta alive time_of written now (some (obj (heartbeat (c ∷ at) meta)))
            ≡ some (heartbeat (c ∷ at) meta))
        × (get (text "url") (heartbeat (c ∷ at) meta)
            ≡ str (text "ws://127.0.0.1:" ++ decimal port))
        × (get (text "secret") (heartbeat (c ∷ at) meta) ≡ str secret)
        × IsGiven secret
  unfolding start_server heartbeat metadata get put text_eq
  start_server-announces b p disk d port now t c secret at written e g ne a h fresh =
      let (given, kept) = locked-runs b p disk d port secret _ e g in
      let (s, rest, same) = given in
      let Healthy : Text → Type 0 = λ x.
        read_healthy_meta alive time_of written now
          (some (obj (heartbeat (c ∷ at) (metadata p port x b.at))))
        ≡ some (heartbeat (c ∷ at) (metadata p port x b.at)) in
      let healthy = healthy_of written now t c s port rest b.at at p ne a h fresh in
      (metadata p port secret b.at, kept, subst Healthy (sym same) healthy, refl, refl, given)
