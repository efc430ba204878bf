-- ===== src/Host/References/Maps.antt =====
-- The maps and sets of the host: what stays after an entry was deleted.
use aria_bridge.Prelude.{
  Bool, false, List, [], ◌∷◌, All, All-append, ◌≡◌, Bool-cases, inl, inr, if_elim,
}
use aria_bridge.Host.State.{erase, discard, add, member}

module _ {ℓ κ} {K : Type ℓ} {V : Type κ} (same : K → K → Bool) (P : K × V → Type 0) where
  -- What stays has another key.
  pub All-erase :
      (k : K) (m : List (K × V)) → All P m → All (λ e. P e × (same e.0 k ≡ false)) (erase same k m)
  unfolding erase
  All-erase k [] h = tt
  All-erase k ((j, v) ∷ m) (p, h) = elim (Bool-cases (same j k)) [
    | inl e ↦ rw e (All-erase k m h)
    | inr e ↦ rw e ((p, e), All-erase k m h)
  ]

  pub All-erase_kept : (k : K) (m : List (K × V)) → All P m → All P (erase same k m)
  unfolding erase
  All-erase_kept k [] h = tt
  All-erase_kept k ((j, v) ∷ m) (p, h) =
      let rest = All-erase_kept k m h in if_elim (All P) (same j k) rest (p, rest)

module _ {ℓ} {K : Type ℓ} (same : K → K → Bool) (P : K → Type 0) where
  pub All-discard :
      (k : K) (ks : List K) → All P ks → All (λ j. P j × (same j k ≡ false)) (discard same k ks)
  unfolding discard
  All-discard k [] h = tt
  All-discard k (j ∷ ks) (p, h) = elim (Bool-cases (same j k)) [
    | inl e ↦ rw e (All-discard k ks h)
    | inr e ↦ rw e ((p, e), All-discard k ks h)
  ]

  pub All-add : (k : K) (ks : List K) → P k → All P ks → All P (add same k ks)
  All-add k ks p h = if_elim (All P) (member same k ks) h (All-append P ks (k ∷ []) h (p, tt))
