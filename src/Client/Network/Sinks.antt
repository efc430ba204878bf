-- ===== src/Client/Network/Sinks.antt =====
-- `instrumentNodeNetwork` and `detach`, src/client.ts: the shared patch against the list of the sinks
-- that are there.
use aria_bridge.Prelude.{
  if_false, ◌∙◌, ℕ, ◌+◌, ◌-◌, ◌==◌, ==_iff, Bool, true, false, ◌&&◌, ◌||◌, length, length-append,
  if◌then◌else◌, some, List, [], ◌∷◌, ◌++◌, arith, ◌≡◌, refl, ap, ◌∙◌,
}
use aria_bridge.Client.Network.{
  Sink, Process, fresh_process, attach, remove_sink, is_empty, detach, Payload, deliver,
  dispatch_network,
}

-- The process in which these sinks share the patch.
unfoldable pub shared_by : List Sink → Process
shared_by [] = fresh_process
shared_by (s ∷ ss) = record {
  state = some (record { count = length (s ∷ ss); sinks = s ∷ ss });
  patched = true;
}

-- What bridges do: one starts, or one calls the function that it got.
pub data Use : Type 0 where
  joins : Sink → Use
  leaves : ℕ → Use

unfoldable pub use_all : List Use → Process → Process
use_all [] p = p
use_all (joins s ∷ us) p = use_all us (attach s p)
use_all (leaves id ∷ us) p = use_all us (detach id p)

-- The sinks that are there afterwards.
unfoldable pub remaining : List Use → List Sink → List Sink
remaining [] ss = ss
remaining (joins s ∷ us) ss = remaining us (ss ++ s ∷ [])
remaining (leaves id ∷ us) ss = remaining us (remove_sink id ss)

unfoldable pub occurrences : ℕ → List Sink → ℕ
occurrences id [] = 0
occurrences id (s ∷ ss) = (if s.id == id then 1 else 0) + occurrences id ss

-- Each sink that leaves is there, once.
unfoldable pub in_turn : List Use → List Sink → Bool
in_turn [] ss = true
in_turn (joins s ∷ us) ss = in_turn us (ss ++ s ∷ [])
in_turn (leaves id ∷ us) ss = occurrences id ss == 1 && in_turn us (remove_sink id ss)

length-remove_sink :
    (id : ℕ) (ss : List Sink) → length (remove_sink id ss) + occurrences id ss ≡ length ss
unfolding remove_sink occurrences
length-remove_sink id [] = refl
length-remove_sink id (s ∷ ss) = ground (arith, length-remove_sink id ss)

attach-shared_by : (s : Sink) (ss : List Sink) → attach s (shared_by ss) ≡ shared_by (ss ++ s ∷ [])
unfolding attach shared_by
attach-shared_by s [] = refl
attach-shared_by s (x ∷ ss) =
    let e : length (x ∷ ss) + 1 ≡ length (x ∷ (ss ++ s ∷ [])) =
      omega (arith, length-append ss (s ∷ [])) in
    ap
      (λ n. record {
        state = some (record { count = n; sinks = x ∷ (ss ++ s ∷ []) });
        patched = true;
      })
      e

-- What is left of the patch when the list that is left is known.
leave_with :
    (n : ℕ) (ss : List Sink)
    → n ≡ length ss
    → (if n == 0 || is_empty ss
        then fresh_process
        else record { state = some (record { count = n; sinks = ss }); patched = true })
      ≡ shared_by ss
unfolding shared_by
leave_with n [] e = ground arith
leave_with n (s ∷ ss) e =
    let more : (n == 0 || false) ≡ false = ground arith in
    if_false fresh_process _ more
    ∙ ap (λ m. record { state = some (record { count = m; sinks = s ∷ ss }); patched = true }) e

detach-shared_by :
    (id : ℕ) (ss : List Sink)
    → occurrences id ss ≡ 1
    → detach id (shared_by ss) ≡ shared_by (remove_sink id ss)
unfolding detach shared_by remove_sink
detach-shared_by id [] e = refl
detach-shared_by id (s ∷ ss) e =
    leave_with (length (s ∷ ss) - 1) (remove_sink id (s ∷ ss))
      (omega (arith, length-remove_sink id (s ∷ ss)))

-- As long as each sink leaves once and after it joined, the network modules are patched exactly while
-- a sink is there, and the sinks that are there are those that joined and have not left.
pub use_all-shares :
    (us : List Use) (ss : List Sink)
    → in_turn us ss ≡ true
    → use_all us (shared_by ss) ≡ shared_by (remaining us ss)
unfolding use_all remaining in_turn
use_all-shares [] ss h = refl
use_all-shares (joins s ∷ us) ss h = rw (attach-shared_by s ss) (use_all-shares us (ss ++ s ∷ []) h)
use_all-shares (leaves id ∷ us) ss h =
    rw (detach-shared_by id ss (ground (arith, ==_iff (occurrences id ss) 1)))
      (use_all-shares us (remove_sink id ss) (ground arith))

-- When one of two bridges disconnects twice, the network modules are no longer patched, and the other
-- bridge, which is still there, gets no network events.
pub detach-twice :
    (a b : Sink) (payload : Payload)
    → (b.id == a.id) ≡ false
    → let p = detach a.id (detach a.id (attach b (attach a fresh_process))) in
      (p.patched ≡ false) × (dispatch_network payload p ≡ [])
unfolding attach detach remove_sink dispatch_network deliver
detach-twice a b payload other = rw (other, (==_iff a.id a.id).1 refl) (refl, refl)
