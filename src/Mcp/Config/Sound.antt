-- ===== src/Mcp/Config/Sound.antt =====
-- src/mcp/config.ts: what a configuration that was resolved holds.
use aria_bridge.Prelude.{
  text_eq_refl, subst, if_elim, true, false, ◌&&◌, ◌||◌, Text, text, text_eq, text_eq_iff, includes,
  any, if◌then◌else◌, Option, List, [], ◌∷◌, arith, ◌≡◌, refl, sym, ap, ◌∙◌, Bool-cases, inl, inr,
}
use aria_bridge.Value.{truthy, Fields}
use aria_bridge.Mcp.Validation as Validation
use aria_bridge.Mcp.Validation.{Result, ok, throws, ◌>>=◌, add_new}
use aria_bridge.Mcp.Validation.Arrays.{IsDistinct, includes-add_new, add_new-IsDistinct}
use aria_bridge.Mcp.Config.{
  resolved, McpOptions, Environment, MetaFile, read_meta_file, keep_allowed, or_fallback,
  or_default, normalize_levels, normalize_capabilities, default_levels, default_capabilities,
  BridgeMeta, ResolvedMcpConfig, resolve_meta, resolve_with, workspace_of, resolve_mcp_config,
}

includes-keep_allowed :
    (allowed set xs : List Text) (t : Text)
    → includes (keep_allowed allowed set xs) t
      ≡ (includes set t || (includes allowed t && includes xs t))
unfolding keep_allowed includes
includes-keep_allowed allowed set [] t = ground arith
includes-keep_allowed allowed set (x ∷ xs) t = elim (Bool-cases (includes allowed x)) [
  | inl inside ↦ ground (
    arith,
    inside,
    includes-keep_allowed allowed (add_new x set) xs t,
    includes-add_new x t set,
    text_eq_iff x t,
  )
  | inr outside ↦ ground (arith, outside, includes-keep_allowed allowed set xs t, text_eq_iff x t)
]

keep_allowed-IsDistinct :
    (allowed set xs : List Text) → IsDistinct set → IsDistinct (keep_allowed allowed set xs)
unfolding keep_allowed
keep_allowed-IsDistinct allowed set [] d = d
keep_allowed-IsDistinct allowed set (x ∷ xs) d =
    keep_allowed-IsDistinct allowed (if includes allowed x then add_new x set else set) xs
      (if_elim IsDistinct (includes allowed x) (add_new-IsDistinct x set d) d)

-- The allowed words of those that were asked for, each once, or the fallback where there are none.
abbrev pub IsNormalized : List Text → List Text → List Text → List Text → Type 0
IsNormalized allowed fallback asked out =
    IsDistinct out
    × ((t : Text)
        → includes out t ≡ (
            if any (includes allowed) asked
            then includes allowed t && includes asked t
            else includes fallback t))

any_kept :
    (allowed asked : List Text)
    → any (includes allowed) asked ≡ false
    → (t : Text) → (includes allowed t && includes asked t) ≡ false
unfolding includes
any_kept allowed [] h t = ground arith
any_kept allowed (x ∷ xs) h t =
    ground (arith, any_kept allowed xs (ground arith) t, text_eq_iff x t)

any_found :
    (allowed asked : List Text)
    → any (includes allowed) asked ≡ true
    → (t : Text) × ((includes allowed t && includes asked t) ≡ true)
unfolding includes
any_found allowed [] h = cc
any_found allowed (x ∷ xs) h = elim (Bool-cases (includes allowed x)) [
  | inl inside ↦ (x, ground (arith, inside, text_eq_refl x))
  | inr outside ↦
      let (t, e) = any_found allowed xs (ground (arith, outside, h)) in (t, ground (arith, e))
]

or_fallback-IsNormalized :
    (allowed fallback asked kept : List Text)
    → IsDistinct fallback
    → kept ≡ keep_allowed allowed [] asked
    → IsNormalized allowed fallback asked (or_fallback fallback kept)
unfolding includes
or_fallback-IsNormalized allowed fallback asked [] d e = (
  d,
  λ t. elim (Bool-cases (any (includes allowed) asked)) [
    | inl kept ↦
        let (u, found) = any_found allowed asked kept in
        let empty : false ≡ includes (keep_allowed allowed [] asked) u = ap (λ k. includes k u) e in
        absurd (ground (arith, found, empty, includes-keep_allowed allowed [] asked u))
    | inr gone ↦ rw gone refl
  ],
)
or_fallback-IsNormalized allowed fallback asked (x ∷ xs) d e = (
  subst IsDistinct (sym e) (keep_allowed-IsDistinct allowed [] asked tt),
  λ t. elim (Bool-cases (any (includes allowed) asked)) [
    | inl kept ↦ rw kept (ap (λ k. includes k t) e ∙ includes-keep_allowed allowed [] asked t)
    | inr gone ↦
        let here : includes (x ∷ xs) x ≡ includes (keep_allowed allowed [] asked) x =
          ap (λ k. includes k x) e in
        absurd (
          ground (
            arith,
            here,
            text_eq_refl x,
            any_kept allowed asked gone x,
            includes-keep_allowed allowed [] asked x,
          ))
  ],
)

-- What holds of a configuration.
pub record IsSound (o : McpOptions) (c : ResolvedMcpConfig) : Type 0 where
  pub has_url : truthy c.meta.url ≡ true
  pub has_secret : truthy c.meta.secret ≡ true
  pub levels :
      IsNormalized Validation.levels
        (text "errors" ∷ [])
        (or_default o.levels default_levels)
        c.levels
  pub capabilities :
      IsNormalized Validation.caps
        (text "error" ∷ text "console" ∷ [])
        (or_default o.capabilities default_capabilities)
        c.capabilities

resolved-IsSound :
    (o : McpOptions) (env : Environment) (meta : BridgeMeta)
    → truthy meta.url ≡ true
    → truthy meta.secret ≡ true
    → IsSound o (resolved o env meta)
unfolding resolved normalize_levels normalize_capabilities includes text_eq
resolved-IsSound o env meta u v = record {
  has_url = u;
  has_secret = v;
  levels = or_fallback-IsNormalized Validation.levels _ _ _ (refl, tt) refl;
  capabilities = or_fallback-IsNormalized Validation.caps _ _ _ (refl, (refl, tt)) refl;
}

resolve_with-IsSound :
    (o : McpOptions) (env : Environment) (meta : BridgeMeta) (c : ResolvedMcpConfig)
    → resolve_with o env meta ≡ ok c
    → IsSound o c
unfolding resolve_with
resolve_with-IsSound o env meta c e =
    let u : truthy meta.url ≡ true = ground (arith, e) in
    let v : truthy meta.secret ≡ true = ground (arith, e) in
    let same : resolved o env meta ≡ c = ground (arith, e, u, v) in
    subst (IsSound o) same (resolved-IsSound o env meta u v)

-- A configuration that is resolved has a url and a secret that are not empty; its levels and its
-- capabilities are the known ones of those that were asked for, each once, or the defaults where none
-- is known.
pub resolve_mcp_config-IsSound :
    (refusal : Text) (o : McpOptions) (env : Environment) (file : Text → MetaFile)
    (c : ResolvedMcpConfig)
    → resolve_mcp_config refusal o env file ≡ ok c
    → IsSound o c
unfolding resolve_mcp_config
resolve_mcp_config-IsSound refusal o env file c e =
    read_then (read_meta_file refusal workspace (file workspace)) e
  where
    workspace : Text
    workspace = workspace_of o env

    read_then :
        (r : Result (Option Fields))
        → (r >>= (λ from_disk. resolve_with o env (resolve_meta o env workspace from_disk))) ≡ ok c
        → IsSound o c
    read_then (ok from_disk) h =
        resolve_with-IsSound o env (resolve_meta o env workspace from_disk) c h
    read_then (throws message) h = cc
