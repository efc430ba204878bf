-- ===== src/Client/Events/Breadcrumbs.antt =====
-- `addBreadcrumb`, src/client.ts: the breadcrumbs are the last messages.
use aria_bridge.Prelude.{
  ◌-◌, zero, suc, min, if_true, if_false, drop-append, last_n-append_full, last_n-append_short,
  ltb→lt, ℕ, ◌+◌, ◌≤◌, ltb, length, length-append, drop, last_n, length-last_n, Text, List, [], ◌∷◌,
  ◌++◌, map, arith, ◌≡◌, refl, ap, ◌∙◌, sym, append_assoc, append-nil, Bool-cases, inl, inr,
}
use aria_bridge.Value.{Value}
use aria_bridge.Client.Events.{Bridge, breadcrumb, trim, add_breadcrumb}

-- The messages, each with its time and its level.
pub record Message : Type 0 where
  pub time : ℕ
  pub level : Text
  pub message : Text

unfoldable pub add_all : List Message → Bridge → Bridge
add_all [] b = b
add_all (m ∷ ms) b = add_all ms (add_breadcrumb m.time m.level m.message b)

abbrev pub crumb : Message → Value
crumb m = breadcrumb m.time m.level m.message

drop-length : (xs : List Value) → drop (length xs) xs ≡ []
drop-length [] = refl
drop-length (x ∷ xs) = drop-length xs

last_n-zero : (xs : List Value) → last_n 0 xs ≡ []
last_n-zero xs =
    let all : length xs - 0 ≡ length xs = omega arith in ap (λ k. drop k xs) all ∙ drop-length xs

-- To drop the first item of a list that has become too long is to keep the window of the last ones.
trim-last_n :
    (n : ℕ) (xs : List Value) (x : Value) → trim n (last_n n xs ++ x ∷ []) ≡ last_n n (xs ++ x ∷ [])
unfolding trim
trim-last_n zero xs x = rw (last_n-zero xs, last_n-zero (xs ++ x ∷ [])) refl
trim-last_n (suc n) xs x =
    let size : length (last_n (suc n) xs ++ x ∷ []) ≡ min (suc n) (length xs) + 1 =
      omega (arith, length-append (last_n (suc n) xs) (x ∷ []), length-last_n (suc n) xs) in
    elim (Bool-cases (ltb (suc n) (length (last_n (suc n) xs ++ x ∷ [])))) [
      | inl over ↦
          let many : suc n ≤ length xs = omega (arith, size, ltb→lt _ _ over) in
          if_true _ _ over
          ∙ drop-append 1 (last_n (suc n) xs) (x ∷ []) (omega (arith, length-last_n (suc n) xs))
          ∙ last_n-append_full (suc n) xs x many (omega arith)
      | inr fits ↦
          let few : min (suc n) (length xs) + 1 ≤ suc n = ground (arith, size) in
          if_false _ _ fits ∙ last_n-append_short (suc n) xs x (omega arith)
    ]

-- The breadcrumbs are the last of all messages that were added, at most as many as the bridge keeps.
pub add_all-keeps :
    (ms : List Message) (b : Bridge) (before : List Value)
    → b.breadcrumbs ≡ last_n b.settings.max_breadcrumbs before
    → ((add_all ms b).breadcrumbs ≡ last_n b.settings.max_breadcrumbs (before ++ map crumb ms))
unfolding add_all add_breadcrumb
add_all-keeps [] b before h = h ∙ ap (last_n b.settings.max_breadcrumbs) (sym (append-nil before))
add_all-keeps (m ∷ ms) b before h =
    let c = add_breadcrumb m.time m.level m.message b in
    add_all-keeps ms c (before ++ crumb m ∷ []) (
      ap (λ crumbs. trim b.settings.max_breadcrumbs (crumbs ++ crumb m ∷ [])) h
      ∙ trim-last_n b.settings.max_breadcrumbs before (crumb m))
    ∙ ap (last_n b.settings.max_breadcrumbs) (append_assoc before (crumb m ∷ []) (map crumb ms))
