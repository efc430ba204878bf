-- ===== src/Host/Start/Lock.antt =====
-- `startServer` and `tryAcquireLock`, bin/aria-bridge-host.js: one host for a workspace, and the next
-- one takes its place with the same secret.
use aria_bridge.Prelude.{
  ℕ, ◌+◌, ◌≤◌, ◌<◌, ltb, lt→ltb, ◌==◌, ==_iff, Bool, true, false, not, ◌&&◌, Text, text_eq, Option,
  none, some, ◌∷◌, arith, ◌≡◌, ◌≢◌, ◌⊎◌, refl, ap, ◌∙◌, inl, inr,
}
use aria_bridge.Value.{Value, nat, str, obj, truthy}
use aria_bridge.Value.Props.{get, put}
use aria_bridge.Host.Start.{
  holds, Disk, Process, lock_data, may_take, held, try_acquire_lock, found, find_available_port,
  choose_secret, metadata, heartbeat, Boot, runs, exits, start_server,
}

-- The files of a process that runs: it has a secret that is not empty, and the last heartbeat was at
-- the time that `at` stands for.
abbrev pub files_of : Process → ℕ → Text → Text → Text → Disk
files_of p port secret started_at at = record {
  lock = holds (lock_data p started_at);
  meta = holds (obj (heartbeat at (metadata p port secret started_at)));
}

module _ (alive : Value → Bool) (time_of : Value → Option ℕ) where
  -- What the lock of a process says to another one.
  held_eq :
      (now t c port : ℕ) (secret started_at at : Text) (p : Process)
      → time_of (str (c ∷ at)) ≡ some t
      → held alive time_of now
          (files_of p port secret started_at (c ∷ at)).meta
          (lock_data p started_at)
        ≡ ((not (p.pid == 0) && alive (nat p.pid)) && not (ltb (t + 15000) now))
  unfolding get put text_eq heartbeat metadata truthy
  held_eq now t c port secret started_at at p e = rw e refl

  may_take_eq :
      (now t c port : ℕ) (secret started_at at : Text) (p : Process)
      → time_of (str (c ∷ at)) ≡ some t
      → may_take alive time_of now
          (files_of p port secret started_at (c ∷ at)).meta
          (files_of p port secret started_at (c ∷ at)).lock
        ≡ not ((not (p.pid == 0) && alive (nat p.pid)) && not (ltb (t + 15000) now))
  may_take_eq now t c port secret started_at at p e =
      ap not (held_eq now t c port secret started_at at p e)

  -- As long as a host's process runs and its last heartbeat is at most 15 s old, another process
  -- that starts for the workspace exits, and the files stay as they are.
  pub start_server-excludes :
      (t c port : ℕ) (secret started_at at : Text) (p q : Process) (b : Boot)
      → p.pid ≢ 0
      → alive (nat p.pid) ≡ true
      → time_of (str (c ∷ at)) ≡ some t
      → b.now ≤ t + 15000
      → start_server alive time_of b q (files_of p port secret started_at (c ∷ at))
        ≡ exits (files_of p port secret started_at (c ∷ at))
  unfolding start_server try_acquire_lock
  start_server-excludes t c port secret started_at at p q b ne a e fresh =
      let kept : may_take alive time_of b.now (files_of p port secret started_at (c ∷ at)).meta
            (files_of p port secret started_at (c ∷ at)).lock
          ≡ false =
        may_take_eq b.now t c port secret started_at at p e ∙ ground (arith, ==_iff p.pid 0) in
      rw kept refl

  may_take_of :
      (now t c port : ℕ) (secret started_at at : Text) (p : Process)
      → time_of (str (c ∷ at)) ≡ some t
      → (alive (nat p.pid) ≡ false) ⊎ (t + 15000 < now)
      → may_take alive time_of now
          (files_of p port secret started_at (c ∷ at)).meta
          (files_of p port secret started_at (c ∷ at)).lock
        ≡ true
  may_take_of now t c port secret started_at at p e (inl dead) =
      may_take_eq now t c port secret started_at at p e ∙ ground arith
  may_take_of now t c port secret started_at at p e (inr old) =
      may_take_eq now t c port secret started_at at p e ∙ ground (arith, lt→ltb _ _ old)

  pub taken_over :
      (b : Boot) (q : Process) (disk : Disk) (port : ℕ)
      → may_take alive time_of b.now disk.meta disk.lock ≡ true
      → find_available_port 65537 b.taken b.given_port q.preferred_port ≡ found port
      → start_server alive time_of b q disk ≡ (
          let secret = choose_secret b.env b.host_env disk.meta b.drawn in
          runs (files_of q port secret b.at b.at) port secret)
  unfolding start_server try_acquire_lock heartbeat metadata put text_eq
  taken_over b q disk port take free = rw (take, free) refl

  secret-kept :
      (at drawn started_at : Text) (p : Process) (port c : ℕ) (secret : Text)
      → choose_secret none none (files_of p port (c ∷ secret) started_at at).meta drawn ≡ c ∷ secret
  unfolding choose_secret heartbeat metadata get put text_eq
  secret-kept at drawn started_at p port c secret = refl

  -- When a host's process has ended, or its last heartbeat is more than 15 s old, a process that
  -- starts with no secret in its environment, and finds a port, runs with the secret of that host,
  -- which is not empty, and the files become its own.
  pub start_server-takes_over :
      (t c port c' port' : ℕ) (secret started_at at : Text) (p q : Process) (b : Boot)
      → time_of (str (c ∷ at)) ≡ some t
      → (alive (nat p.pid) ≡ false) ⊎ (t + 15000 < b.now)
      → b.env ≡ none
      → b.host_env ≡ none
      → find_available_port 65537 b.taken b.given_port q.preferred_port ≡ found port'
      → start_server alive time_of b q (files_of p port (c' ∷ secret) started_at (c ∷ at))
        ≡ runs (files_of q port' (c' ∷ secret) b.at b.at) port' (c' ∷ secret)
  start_server-takes_over t c port c' port' secret started_at at p q b e gone no_env no_host free =
      let disk = files_of p port (c' ∷ secret) started_at (c ∷ at) in
      let kept : choose_secret b.env b.host_env disk.meta b.drawn ≡ c' ∷ secret =
        ap (λ env. choose_secret env b.host_env disk.meta b.drawn) no_env
        ∙ ap (λ env. choose_secret none env disk.meta b.drawn) no_host
        ∙ secret-kept (c ∷ at) b.drawn started_at p port c' secret in
      taken_over b q disk port' (may_take_of b.now t c port (c' ∷ secret) started_at at p e gone)
        free
      ∙ ap (λ x. runs (files_of q port' x b.at b.at) port' x) kept
