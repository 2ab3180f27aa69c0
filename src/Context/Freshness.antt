-- ===== src/Context/Freshness.antt =====
-- When a sealed context is still fresh.
use platform_ops.Base.{
  String, List, Option, ℕ, ◌∷◌, ◌≡◌, if◌then◌else◌, ◌∙◌, ◌==◌, string_eq, ◌&&◌, [], refl, some,
  Elem, ◌⊎◌, inr, inl, arith, any, Bool, true, false, ◌↔◌, sym, All, All-elem, none, All-of_Elem,
  ok, ap,
}
use mathlib.Core.Option.{some-injective}
use mathlib.Core.Path.{subst}
use platform_ops.Base.Dict
use platform_ops.Base.Dict.{lookup-insert, lookup-nil}
use platform_ops.Registry.{ResourceScope}
use platform_ops.Binding.{CloudResourceContainerBinding, active, provider_binding_state_eq}
use platform_ops.Context.{
  ResolvedResourceScopeContext, current_versions, changed, is_complete_and_active, stale_for,
  requires_fresh_resolution, ResolvedBindingVersion, ResourceScopeAuthorizationDecision,
  validate_context, seal, sealed_contents, ResourceScopeGovernanceDecision,
}

-- An active binding of the scope, with this id and version, is among the current bindings.
abbrev pub HasCurrent : String → List CloudResourceContainerBinding → String → ℕ → Type 0
HasCurrent scope_id bs i v =
    (b : CloudResourceContainerBinding) × Elem b bs
    × (b.scope_id ≡ scope_id)
    × (b.state ≡ active)
    × (b.binding_id ≡ i)
    × (b.version ≡ v)

-- Current bindings with one id have one version, as in a registry, where an id stands once.
abbrev pub VersionsAgree : List CloudResourceContainerBinding → Type 0
VersionsAgree bs =
    (x y : CloudResourceContainerBinding)
    → Elem x bs
    → Elem y bs
    → x.binding_id ≡ y.binding_id
    → x.version ≡ y.version

module _ (scope_id i : String) (v : ℕ) where
  lookup_keeps :
      (bs : List CloudResourceContainerBinding) (d : Dict.Dict String ℕ)
      → ((x : CloudResourceContainerBinding) → Elem x bs → x.binding_id ≡ i → x.version ≡ v)
      → Dict.lookup i d ≡ some v
      → Dict.lookup i (current_versions scope_id bs d) ≡ some v
  unfolding current_versions
  lookup_keeps [] d same h = h
  lookup_keeps (b ∷ bs) d same h =
      lookup_keeps bs _ (λ x m. same x (inr m))
        (ground (arith, lookup-insert i b.binding_id b.version d, same b (inl refl)))

  lookup_finds :
      (bs : List CloudResourceContainerBinding) (d : Dict.Dict String ℕ)
      (b : CloudResourceContainerBinding)
      → ((x : CloudResourceContainerBinding) → Elem x bs → x.binding_id ≡ i → x.version ≡ v)
      → Elem b bs
      → b.scope_id ≡ scope_id
      → b.state ≡ active
      → b.binding_id ≡ i
      → b.version ≡ v
      → Dict.lookup i (current_versions scope_id bs d) ≡ some v
  unfolding current_versions
  lookup_finds [] d b same m here live own ver = elim m [ ]
  lookup_finds (x ∷ bs) d b same (inl e) here live own ver =
      lookup_keeps bs _ (λ y m. same y (inr m))
        (ground (arith, lookup-insert i x.binding_id x.version d))
  lookup_finds (x ∷ bs) d b same (inr m) here live own ver =
      lookup_finds bs _ b (λ y n. same y (inr n)) m here live own ver

  entry :
      (b : CloudResourceContainerBinding) (d : Dict.Dict String ℕ)
      → Dict.lookup i (
          if b.scope_id == scope_id && b.state == active
          then Dict.insert b.binding_id b.version d
          else d)
        ≡ some v
      → ((b.scope_id ≡ scope_id) × (b.state ≡ active) × (b.binding_id ≡ i) × (b.version ≡ v))
        ⊎ (Dict.lookup i d ≡ some v)
  entry b d e = ground (arith, lookup-insert i b.binding_id b.version d)

  lookup_sound :
      (bs : List CloudResourceContainerBinding) (d : Dict.Dict String ℕ)
      → Dict.lookup i (current_versions scope_id bs d) ≡ some v
      → HasCurrent scope_id bs i v ⊎ (Dict.lookup i d ≡ some v)
  unfolding current_versions
  lookup_sound [] d h = inr h
  lookup_sound (b ∷ bs) d h = elim (lookup_sound bs _ h) [
    | inl (x, m, here, live, own, ver) ↦ inl (x, inr m, here, live, own, ver)
    | inr e ↦ elim (entry b d e) [
      | inl own ↦ inl (b, inl refl, own.0, own.1, own.2, own.3)
      | inr old ↦ inr old
    ]
  ]

changed_iff :
    (scope_id : String) (bs : List CloudResourceContainerBinding)
    (snapshot : ResolvedBindingVersion)
    → VersionsAgree bs
    → (changed (current_versions scope_id bs []) snapshot ≡ false)
      ↔ HasCurrent scope_id bs snapshot.binding_id snapshot.version
unfolding changed
changed_iff scope_id bs snapshot agree = (to, from)
  where
    to :
        changed (current_versions scope_id bs []) snapshot ≡ false
        → HasCurrent scope_id bs snapshot.binding_id snapshot.version
    to h =
        elim (lookup_sound scope_id snapshot.binding_id snapshot.version bs []
          (ground (arith, h))) [
            | inl current ↦ current
            | inr e ↦ absurd (ground (arith, e, lookup-nil {V = ℕ} snapshot.binding_id))
          ]

    from :
        HasCurrent scope_id bs snapshot.binding_id snapshot.version
        → changed (current_versions scope_id bs []) snapshot ≡ false
    from (b, m, here, live, own, ver) =
        let found =
          lookup_finds scope_id snapshot.binding_id snapshot.version bs [] b
            (λ x n e. agree x b n m (e ∙ sym own) ∙ ver) m here live own ver in
        rw found (ground arith)

any-false_iff :
    {A : Type 0} (p : A → Bool) (xs : List A) → (any p xs ≡ false) ↔ All (λ x. p x ≡ false) xs
unfolding any
any-false_iff p [] = (λ h. tt, λ h. refl)
any-false_iff p (x ∷ xs) = ground (arith, any-false_iff p xs)

-- The registries still agree with a sealed context.
pub record IsFresh (c : ResolvedResourceScopeContext) (s : ResourceScope)
    (bs : List CloudResourceContainerBinding) : Type 0 where
  pub routable : is_complete_and_active s ≡ true
  pub same_scope : s.scope_id ≡ c.scope_id
  pub same_path : s.canonical_path ≡ c.canonical_path
  pub same_version : s.version ≡ c.scope_version
  pub current :
      (snapshot : ResolvedBindingVersion)
      → Elem snapshot c.binding_versions
      → HasCurrent s.scope_id bs snapshot.binding_id snapshot.version

module _ (c : ResolvedResourceScopeContext) (s : ResourceScope)
    (bs : List CloudResourceContainerBinding) where
  stale_for_iff : (stale_for c s bs ≡ false) ↔ (
      (is_complete_and_active s ≡ true)
      × (s.scope_id ≡ c.scope_id)
      × (s.canonical_path ≡ c.canonical_path)
      × (s.version ≡ c.scope_version)
      × All
          (λ snapshot. changed (current_versions s.scope_id bs []) snapshot ≡ false)
          c.binding_versions)
  unfolding stale_for
  stale_for_iff =
      ground (arith, any-false_iff (changed (current_versions s.scope_id bs [])) c.binding_versions)

fresh_of :
    (c : ResolvedResourceScopeContext) (s : ResourceScope) (bs : List CloudResourceContainerBinding)
    → VersionsAgree bs
    → IsFresh c s bs
    → stale_for c s bs ≡ false
fresh_of c s bs agree f = (stale_for_iff c s bs).1 (
  f.routable,
  f.same_scope,
  f.same_path,
  f.same_version,
  All-of_Elem _ c.binding_versions
      (λ snapshot m. (changed_iff s.scope_id bs snapshot agree).1 (f.current snapshot m)),
)

-- A context needs no fresh resolution exactly if the registry still has its scope, complete and
-- active, under the same id, path and version, and each sealed binding is still active for the
-- scope at the sealed version. The current bindings hold one version for each id.
pub requires_fresh_resolution_iff :
    (c : ResolvedResourceScopeContext) (o : Option ResourceScope)
    (bs : List CloudResourceContainerBinding)
    → VersionsAgree bs
    → (requires_fresh_resolution c o bs ≡ false)
      ↔ ((s : ResourceScope) × (o ≡ some s) × IsFresh c s bs)
unfolding requires_fresh_resolution
requires_fresh_resolution_iff c none bs agree = (λ h. cc, λ h. cc h.1)
requires_fresh_resolution_iff c (some s) bs agree = (to, from)
  where
    to : stale_for c s bs ≡ false → (t : ResourceScope) × (some s ≡ some t) × IsFresh c t bs
    to h =
        let p = (stale_for_iff c s bs).0 h in
        (
          s,
          refl,
          record {
            routable = p.0;
            same_scope = p.1;
            same_path = p.2;
            same_version = p.3;
            current = λ snapshot m.
                (changed_iff s.scope_id bs snapshot agree).0
                  (All-elem _ c.binding_versions snapshot p.4 m);
          },
        )

    from : (t : ResourceScope) × (some s ≡ some t) × IsFresh c t bs → stale_for c s bs ≡ false
    from (t, e, f) =
        fresh_of c s bs agree (subst (λ x. IsFresh c x bs) (sym (some-injective s t e)) f)

module _ (sha256_hex : String → String) where
  -- What a sealed context attests.
  pub record SealedFrom (s : ResourceScope) (a : ResourceScopeAuthorizationDecision)
      (g : ResourceScopeGovernanceDecision) (b : CloudResourceContainerBinding)
      (c : ResolvedResourceScopeContext) : Type 0 where
    pub routable : is_complete_and_active s ≡ true
    pub authorized : a.allowed ≡ true
    pub governed : (g.allowed ≡ true) ⊎ (g.approval_required ≡ true)
    pub bound : b.scope_id ≡ s.scope_id
    pub live : b.state ≡ active
    pub contents : c ≡ sealed_contents sha256_hex s a g b

  validate_context-eq :
      (c x : ResolvedResourceScopeContext) → validate_context sha256_hex c ≡ ok x → c ≡ x
  unfolding validate_context
  validate_context-eq c x h = ground arith

  -- `seal` succeeds only on an active scope, an allowing authorization, a governance decision
  -- that allows or asks for approval and an active binding of the scope, and what it returns is
  -- the snapshot of these four.
  pub seal-SealedFrom :
      (s : ResourceScope) (a : ResourceScopeAuthorizationDecision)
      (g : ResourceScopeGovernanceDecision) (b : CloudResourceContainerBinding)
      (c : ResolvedResourceScopeContext)
      → seal sha256_hex s a g b ≡ ok c
      → SealedFrom s a g b c
  unfolding seal
  seal-SealedFrom s a g b c h =
      ground (arith, validate_context-eq (sealed_contents sha256_hex s a g b) c)

  -- A context just sealed is fresh for the scope and any current bindings that hold the binding.
  pub requires_fresh_resolution-seal :
      (s : ResourceScope) (a : ResourceScopeAuthorizationDecision)
      (g : ResourceScopeGovernanceDecision) (b : CloudResourceContainerBinding)
      (c : ResolvedResourceScopeContext) (bs : List CloudResourceContainerBinding)
      → VersionsAgree bs
      → Elem b bs
      → seal sha256_hex s a g b ≡ ok c
      → requires_fresh_resolution c (some s) bs ≡ false
  unfolding sealed_contents
  requires_fresh_resolution-seal s a g b c bs agree held h =
      let f = seal-SealedFrom s a g b c h in
      (requires_fresh_resolution_iff c (some s) bs agree).1 (
        s,
        refl,
        subst (λ x. IsFresh x s bs) (sym f.contents)
            (record {
              routable = f.routable;
              same_scope = refl;
              same_path = refl;
              same_version = refl;
              current = λ snapshot m. elim m [
                | inl e ↦ (
                  b,
                  held,
                  f.bound,
                  f.live,
                  sym (ap (λ (x : ResolvedBindingVersion). x.binding_id) e),
                  sym (ap (λ (x : ResolvedBindingVersion). x.version) e),
                )
                | inr none_left ↦ absurd none_left
              ];
            }),
      )
