-- ===== src/Host/References/Sockets.antt =====
-- The sockets of the host: how a change of one leaves the others, and what it keeps of itself.
use aria_bridge.Prelude.{
  ℕ, ◌<◌, ◌==◌, ==_iff, true, false, Text, if◌then◌else◌, if_elim, if_true, if_false, some, List,
  [], ◌∷◌, All, ◌≡◌, refl, ap, sym, subst, ◌∙◌, arith, Bool-cases, inl, inr,
}
use aria_bridge.Socket.State.{Ready, connecting, opened, closing, closed, is_opened}
use aria_bridge.Host.State.{Sock}
use aria_bridge.Host.Routing.{find_sock}
use aria_bridge.Host.Sockets.{update_sock, drop_sock, start_close}
use aria_bridge.Host.Steps.{begin_close}
use aria_bridge.Host.References.{Keeps, IsNumbered}

pub find_sock-id : (id : ℕ) (ss : List Sock) (s : Sock) → find_sock id ss ≡ some s → s.id ≡ id
unfolding find_sock
find_sock-id id [] s e = cc
find_sock-id id (x ∷ ss) s e = elim (Bool-cases (x.id == id)) [
  | inl same ↦
      let it : x ≡ s = ground arith in subst (λ y. y.id ≡ id) it (ground (arith, ==_iff x.id id))
  | inr other ↦ find_sock-id id ss s (ground arith)
]

pub All-find_sock :
    (P : Sock → Type 0) (id : ℕ) (ss : List Sock) (s : Sock)
    → All P ss
    → find_sock id ss ≡ some s
    → P s
unfolding find_sock
All-find_sock P id [] s h e = cc
All-find_sock P id (x ∷ ss) s (p, h) e = elim (Bool-cases (x.id == id)) [
  | inl same ↦ let it : x ≡ s = ground arith in subst P it p
  | inr other ↦ All-find_sock P id ss s h (ground arith)
]

module _ (k : ℕ) (f : Sock → Sock) (kept_id : (s : Sock) → (f s).id ≡ s.id) where
  pub find_sock-update_other :
      (id : ℕ) (ss : List Sock)
      → (id == k) ≡ false
      → find_sock id (update_sock k f ss) ≡ find_sock id ss
  unfolding find_sock update_sock
  find_sock-update_other id [] ne = refl
  find_sock-update_other id (x ∷ ss) ne =
      let tail = find_sock id (update_sock k f ss) in
      let rest = find_sock-update_other id ss ne in
      let Goal : Sock → Type 0 =
        λ y. (if y.id == id then some y else tail) ≡ find_sock id (x ∷ ss) in
      elim (Bool-cases (x.id == k)) [
        | inl same ↦
            let apart : (x.id == id) ≡ false =
              ground (arith, ==_iff x.id k, ==_iff x.id id, ==_iff id k) in
            let away : ((f x).id == id) ≡ false =
              subst (λ i. (i == id) ≡ false) (sym (kept_id x)) apart in
            subst Goal (sym (if_true (f x) x same)) (
              if_false (some (f x)) tail away
              ∙ rest
              ∙ sym (if_false (some x) (find_sock id ss) apart))
        | inr other ↦
            subst Goal (sym (if_false (f x) x other))
              (ap (λ r. if x.id == id then some x else r) rest)
      ]

  pub find_sock-update_own :
      (ss : List Sock) (s : Sock)
      → find_sock k ss ≡ some s
      → find_sock k (update_sock k f ss) ≡ some (f s)
  unfolding find_sock update_sock
  find_sock-update_own [] s e = cc
  find_sock-update_own (x ∷ ss) s e =
      let tail = find_sock k (update_sock k f ss) in
      let Goal : Sock → Type 0 = λ y. (if y.id == k then some y else tail) ≡ some (f s) in
      elim (Bool-cases (x.id == k)) [
        | inl same ↦
            let it : x ≡ s = ground arith in
            let own : ((f x).id == k) ≡ true =
              subst (λ i. (i == k) ≡ true) (sym (kept_id x)) same in
            subst Goal (sym (if_true (f x) x same))
              (if_true (some (f x)) tail own ∙ ap (λ z. some (f z)) it)
        | inr other ↦
            subst Goal (sym (if_false (f x) x other))
              (if_false (some x) tail other ∙ find_sock-update_own ss s (ground arith))
      ]

pub find_sock-drop_other :
    (k id : ℕ) (ss : List Sock)
    → (id == k) ≡ false
    → find_sock id (drop_sock k ss) ≡ find_sock id ss
unfolding find_sock drop_sock
find_sock-drop_other k id [] ne = refl
find_sock-drop_other k id (x ∷ ss) ne =
    let rest = find_sock-drop_other k id ss ne in
    elim (Bool-cases (x.id == k)) [
      | inl same ↦
          let apart : (x.id == id) ≡ false =
            ground (arith, ==_iff x.id k, ==_iff x.id id, ==_iff id k) in
          ap (find_sock id) (if_true (drop_sock k ss) (x ∷ drop_sock k ss) same)
          ∙ rest
          ∙ sym (if_false (some x) (find_sock id ss) apart)
      | inr other ↦
          ap (find_sock id) (if_false (drop_sock k ss) (x ∷ drop_sock k ss) other)
          ∙ ap (λ r. if x.id == id then some x else r) rest
    ]

-- A change that keeps the number and, of a socket that was authenticated, what counts.
abbrev pub IsMild : (Sock → Sock) → Type 0
IsMild f =
    (s : Sock)
    → ((f s).id ≡ s.id)
      × ((f s).is_authenticated ≡ s.is_authenticated)
      × ((f s).role ≡ s.role)
      × (is_opened (f s).ready ≡ true → is_opened s.ready ≡ true)

pub update-Keeps :
    (k : ℕ) (f : Sock → Sock) (ss : List Sock) → IsMild f → Keeps ss (update_sock k f ss)
update-Keeps k f ss mild = λ id s e a. elim (Bool-cases (id == k)) [
  | inl same ↦
      let at : id ≡ k = ground (arith, ==_iff id k) in
      let here : find_sock k ss ≡ some s = subst (λ i. find_sock i ss ≡ some s) at e in
      let (_, b, c, d) = mild s in
      let found = find_sock-update_own k f (λ x. (mild x).0) ss s here in
      (f s, subst (λ i. find_sock i (update_sock k f ss) ≡ some (f s)) (sym at) found, b ∙ a, c, d)
  | inr other ↦ (s, find_sock-update_other k f (λ x. (mild x).0) id ss other ∙ e, a, refl, λ o. o)
]

-- A socket that was not authenticated may change in all but its number.
pub update-Keeps_stranger :
    (k : ℕ) (f : Sock → Sock) (ss : List Sock) (x : Sock)
    → ((s : Sock) → (f s).id ≡ s.id)
    → find_sock k ss ≡ some x
    → x.is_authenticated ≡ false
    → Keeps ss (update_sock k f ss)
update-Keeps_stranger k f ss x kept_id here never = λ id s e a. elim (Bool-cases (id == k)) [
  | inl same ↦
      let at : id ≡ k = ground (arith, ==_iff id k) in
      let it : s ≡ x = ground arith in
      absurd (ground (arith, ap (λ (y : Sock). y.is_authenticated) it))
  | inr other ↦ (s, find_sock-update_other k f kept_id id ss other ∙ e, a, refl, λ o. o)
]

pub update-IsNumbered :
    (n k : ℕ) (f : Sock → Sock) (ss : List Sock)
    → ((s : Sock) → (f s).id ≡ s.id)
    → All (IsNumbered n) ss
    → All (IsNumbered n) (update_sock k f ss)
unfolding update_sock
update-IsNumbered n k f [] kept_id h = tt
update-IsNumbered n k f (x ∷ ss) kept_id (p, h) = (
  if_elim (IsNumbered n) (x.id == k) (subst (λ i. i < n) (sym (kept_id x)) p) p,
  update-IsNumbered n k f ss kept_id h,
)

pub drop-IsNumbered :
    (n k : ℕ) (ss : List Sock) → All (IsNumbered n) ss → All (IsNumbered n) (drop_sock k ss)
unfolding drop_sock
drop-IsNumbered n k [] h = tt
drop-IsNumbered n k (x ∷ ss) (p, h) =
    let rest = drop-IsNumbered n k ss h in if_elim (All (IsNumbered n)) (x.id == k) rest (p, rest)

pub start_close-IsMild :
    (code : ℕ) (reason : Text) → IsMild (λ s. start_close code reason s.ready s)
start_close-IsMild code reason s = go s.ready s refl
  where
    go :
        (r : Ready) (s : Sock)
        → s.ready ≡ r
        → ((start_close code reason r s).id ≡ s.id)
          × ((start_close code reason r s).is_authenticated ≡ s.is_authenticated)
          × ((start_close code reason r s).role ≡ s.role)
          × (is_opened (start_close code reason r s).ready ≡ true → is_opened s.ready ≡ true)
    go connecting s e = (refl, refl, refl, λ o. absurd (ground arith))
    go opened s e = (refl, refl, refl, λ o. absurd (ground arith))
    go closing s e = (refl, refl, refl, λ o. o)
    go closed s e = (refl, refl, refl, λ o. o)

pub begin_close-IsMild : IsMild (λ s. begin_close s.ready s)
begin_close-IsMild s = go s.ready s
  where
    go :
        (r : Ready) (s : Sock)
        → ((begin_close r s).id ≡ s.id)
          × ((begin_close r s).is_authenticated ≡ s.is_authenticated)
          × ((begin_close r s).role ≡ s.role)
          × (is_opened (begin_close r s).ready ≡ true → is_opened s.ready ≡ true)
    go connecting s = (refl, refl, refl, λ o. o)
    go opened s = (refl, refl, refl, λ o. absurd (ground arith))
    go closing s = (refl, refl, refl, λ o. o)
    go closed s = (refl, refl, refl, λ o. o)

-- A new socket with the next number.
pub connected-Keeps : (x : Sock) (ss : List Sock) → All (IsNumbered x.id) ss → Keeps ss (x ∷ ss)
unfolding find_sock
connected-Keeps x ss m = λ id s e a.
    let below : s.id < x.id = All-find_sock (IsNumbered x.id) id ss s m e in
    let at : s.id ≡ id = find_sock-id id ss s e in
    let other : (x.id == id) ≡ false = ground (arith, ==_iff x.id id) in
    (s, if_false (some x) (find_sock id ss) other ∙ e, a, refl, λ o. o)
