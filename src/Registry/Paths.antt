-- ===== src/Registry/Paths.antt =====
-- The canonical path of a constructed scope determines the five slugs: a slug holds no colon.
use mathlib.Core.Path.{subst}
use text.Mathlib.TextLemmas.{append_cancel_left}
use platform_ops.Base.{
  all_chars, Unicode, ◌≡◌, NoColon, colon_split, false, String, true, ok, ◌≢◌, arith, nat_eq, ℕ,
  Result-cases, inl, inr, sym, ap, ◌∙◌,
}
use platform_ops.Registry.{
  ResourceScope, slug, slug_char, build_scope, canonical_path, validate_part,
  validate_hierarchy_and_path, Char, validate_organization, build_scope_lem, validate_business_unit,
  validate_team, validate_project,
}

-- What the code relies on: a colon is not alphanumeric.
abbrev pub SeparatesPaths : Unicode → Type 0
SeparatesPaths u = u.is_alnum ":" ≡ false

slug_char-colon : (u : Unicode) (c : Char) → SeparatesPaths u → slug_char u c ≡ true → c ≢ ":"
unfolding nat_eq
slug_char-colon u c sep h e =
    let at_colon : slug_char u ":" ≡ true = subst (λ (d : Char). slug_char u d ≡ true) e h in
    ground (arith, at_colon)

all_chars-NoColon :
    (u : Unicode) (s : String) → SeparatesPaths u → all_chars (slug_char u) s ≡ true → NoColon s
unfolding all_chars
all_chars-NoColon u String.[] sep h = tt
all_chars-NoColon u (String.◌∷◌ c s) sep h =
    (slug_char-colon u c sep (ground arith), all_chars-NoColon u s sep (ground arith))

slug-NoColon : (u : Unicode) (s t : String) → SeparatesPaths u → slug u s ≡ ok t → NoColon s
unfolding slug
slug-NoColon u s t sep h = all_chars-NoColon u s sep (ground arith)

validate_part-NoColon :
    (u : Unicode) (n : ℕ) (i s : String) (x : Unit {0})
    → SeparatesPaths u
    → validate_part u n i s ≡ ok x
    → NoColon s
unfolding validate_part
validate_part-NoColon u n i s x sep h = elim (Result-cases (slug u s)) [
  | inl (t, e) ↦ slug-NoColon u s t sep e
  | inr (e, raised) ↦ absurd (ground (arith, raised))
]

record SlugsNoColon (s : ResourceScope) : Type 0 where
  organization : NoColon s.organization.slug
  business_unit : NoColon s.business_unit.slug
  team : NoColon s.team.slug
  project : NoColon s.project.slug

record IsBuiltFrom (u : Unicode) (s t : ResourceScope) : Type 0 where
  same : t ≡ record s { canonical_path = canonical_path s }
  organization : validate_organization u s.organization ≡ ok tt
  business_unit : validate_business_unit u s.business_unit ≡ ok tt
  team : validate_team u s.team ≡ ok tt
  project : validate_project u s.project ≡ ok tt

same_but_path :
    (s t : ResourceScope)
    → validate_hierarchy_and_path s ≡ ok t
    → t ≡ record s { canonical_path = canonical_path s }
unfolding validate_hierarchy_and_path
same_but_path s t h = ground arith

built_from : (u : Unicode) (s t : ResourceScope) → build_scope u s ≡ ok t → IsBuiltFrom u s t
built_from u s t h = let h' = sym (build_scope_lem u s) ∙ h in ground (arith, same_but_path s t)

no_colons :
    (u : Unicode) (s t : ResourceScope) → SeparatesPaths u → IsBuiltFrom u s t → SlugsNoColon s
unfolding validate_organization validate_business_unit validate_team validate_project
no_colons u s t sep b = record {
  organization = validate_part-NoColon u _ _ _ tt sep b.organization;
  business_unit = ground (
    arith,
    validate_part-NoColon u 4 s.business_unit.business_unit_id s.business_unit.slug tt sep,
  );
  team = ground (arith, validate_part-NoColon u 5 s.team.team_id s.team.slug tt sep);
  project = ground (arith, validate_part-NoColon u 8 s.project.project_id s.project.slug tt sep);
}

slugs_of_paths :
    (u : Unicode) (s t : ResourceScope)
    → SeparatesPaths u
    → SlugsNoColon s
    → SlugsNoColon t
    → canonical_path s ≡ canonical_path t
    → (s.organization.slug ≡ t.organization.slug)
      × (s.business_unit.slug ≡ t.business_unit.slug)
      × (s.team.slug ≡ t.team.slug)
      × (s.project.slug ≡ t.project.slug)
      × (s.environment.slug ≡ t.environment.slug)
unfolding canonical_path
slugs_of_paths u s t sep hs ht e =
    let a = append_cancel_left "org:" _ _ e in
    let b = colon_split "bu:" _ _ _ _ hs.organization ht.organization a in
    let c = colon_split "team:" _ _ _ _ hs.business_unit ht.business_unit b.1 in
    let d = colon_split "project:" _ _ _ _ hs.team ht.team c.1 in
    let f = colon_split "env:" _ _ _ _ hs.project ht.project d.1 in (b.0, c.0, d.0, f.0, f.1)

-- Two scopes that were constructed and have one canonical path have the same five slugs, if the
-- Unicode tables do not count the colon as alphanumeric.
pub build_scope-canonical_path :
    (u : Unicode) (a b s t : ResourceScope)
    → SeparatesPaths u
    → build_scope u a ≡ ok s
    → build_scope u b ≡ ok t
    → s.canonical_path ≡ t.canonical_path
    → (s.organization.slug ≡ t.organization.slug)
      × (s.business_unit.slug ≡ t.business_unit.slug)
      × (s.team.slug ≡ t.team.slug)
      × (s.project.slug ≡ t.project.slug)
      × (s.environment.slug ≡ t.environment.slug)
build_scope-canonical_path u a b s t sep ha hb e =
    let p = built_from u a s ha in
    let q = built_from u b t hb in
    let same_path =
      sym (ap (λ (x : ResourceScope). x.canonical_path) p.same)
      ∙ e
      ∙ ap (λ (x : ResourceScope). x.canonical_path) q.same in
    ground (arith, slugs_of_paths u a b sep (no_colons u a s sep p) (no_colons u b t sep q))
