-- ===== src/Mcp/Consumer/Untouched/Mentions.antt =====
-- src/mcp/consumer.ts: the lists that a promise may stand in, and what removes it from them.
use aria_bridge.Prelude.{
  get_elem?, zero, suc, ℕ, Bool, true, false, ◌||◌, Text, ◌==◌, ==_iff, Option, none, some, List,
  [], ◌∷◌, ◌++◌, arith, ◌≡◌,
}
use aria_bridge.Socket.State.{Connection}
use aria_bridge.Mcp.Consumer.State.{Timeout, Listener, Pending}
use aria_bridge.Mcp.Consumer.Operations.{
  drop_timer, find_pending, drop_pending, drop_listener, includes, drop_id, drop_timers,
}
use aria_bridge.Mcp.Consumer.Promises.{runs, runs-drop_timer}

-- An entry of the pending controls holds the promise.
unfoldable pub pends : ℕ → List Pending → Bool
pends p [] = false
pends p (e ∷ es) = e.promise == p || pends p es

-- A listener holds the promise.
unfoldable pub hears : ℕ → List Listener → Bool
hears p [] = false
hears p (l ∷ ls) = l.promise == p || hears p ls

pub pends-drop_pending :
    (p : ℕ) (id : Text) (es : List Pending)
    → pends p es ≡ false
    → pends p (drop_pending id es) ≡ false
unfolding pends drop_pending
pends-drop_pending p id [] h = h
pends-drop_pending p id (e ∷ es) h = ground (arith, pends-drop_pending p id es)

pub pends_of_find :
    (p q : ℕ) (id : Text) (es : List Pending)
    → pends p es ≡ false
    → find_pending id es ≡ some q
    → (q == p) ≡ false
unfolding pends find_pending
pends_of_find p q id [] h e = ground arith
pends_of_find p q id (x ∷ es) h e = ground (arith, pends_of_find p q id es)

pub hears-append :
    (p : ℕ) (l : Listener) (ls : List Listener)
    → hears p ls ≡ false
    → (l.promise == p) ≡ false
    → hears p (ls ++ l ∷ []) ≡ false
unfolding hears
hears-append p l [] h e = ground arith
hears-append p l (k ∷ ks) h e = ground (arith, hears-append p l ks)

pub hears-drop_listener :
    (p : ℕ) (ws : Option Connection) (l : Listener) (ls : List Listener)
    → hears p ls ≡ false
    → hears p (drop_listener ws l ls) ≡ false
unfolding hears drop_listener
hears-drop_listener p none l ls h = h
hears-drop_listener p (some c) l [] h = h
hears-drop_listener p (some c) l (k ∷ ks) h = ground (arith, hears-drop_listener p (some c) l ks)

pub includes-drop_id :
    (p id : ℕ) (xs : List ℕ) → includes p xs ≡ false → includes p (drop_id id xs) ≡ false
unfolding includes drop_id
includes-drop_id p id [] h = h
includes-drop_id p id (x ∷ xs) h = ground (arith, includes-drop_id p id xs)

pub includes_other :
    (p q : ℕ) (xs : List ℕ) → includes p xs ≡ false → includes q xs ≡ true → (q == p) ≡ false
unfolding includes
includes_other p q [] h i = ground arith
includes_other p q (x ∷ xs) h i =
    ground (arith, includes_other p q xs, ==_iff x q, ==_iff x p, ==_iff q p)

pub runs-drop_timers :
    (p : ℕ) (es : List Pending) (ts : List Timeout)
    → runs p ts ≡ false
    → runs p (drop_timers es ts) ≡ false
unfolding drop_timers
runs-drop_timers p [] ts h = h
runs-drop_timers p (e ∷ es) ts h =
    runs-drop_timers p es (drop_timer e.promise ts) (ground (arith, runs-drop_timer p e.promise ts))

pub runs_other :
    (p i : ℕ) (t : Timeout) (ts : List Timeout)
    → runs p ts ≡ false
    → get_elem? ts i ≡ some t
    → (t.promise == p) ≡ false
unfolding runs
runs_other p i t [] h e = cc
runs_other p zero t (x ∷ ts) h e = ground arith
runs_other p (suc i) t (x ∷ ts) h e = ground (arith, runs_other p i t ts)
