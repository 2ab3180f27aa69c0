-- ===== src/Intake/Hints.antt =====
-- The text form of a scope: `parse_scope_hint` of gateway/scope.py.
pub mod Printing
use Prim.Native.Char.{Char, code}
use text.Mathlib.TextLemmas.{nil-append, cons-append}
use platform_ops.Base.{
  List, String, split, Bool, Result, any, ◌==◌, string_eq, if◌then◌else◌, err, ok, some, cons_head,
  count_char, ◌≡◌, ℕ, ◌≢◌, ◌<>◌, arith, refl, ◌+◌, ◌∙◌, nat_eq, ap,
}
use Prim.Native.Char.{Char, code}
use text.Mathlib.TextLemmas.{nil-append, cons-append}
use platform_ops.Base.{List, [], ◌∷◌}
use platform_ops.Intake.{ScopeHint, TenantRef, org_bu}

pub data HintError : Type 0 where
  bad_scope bad_tenant : HintError

-- `any(not part for part in parts)`
unfoldable pub any_empty : List String → Bool
any_empty parts = any (λ part. part == "") parts

unfoldable pub hint_of : String → String → List String → Result HintError ScopeHint
unfolding any_empty
hint_of project workspace (org ∷ bu ∷ []) =
    if any_empty (org ∷ bu ∷ [])
    then err bad_tenant
    else ok (record {
      tenant = record { org = org; bu = bu };
      project = some project;
      workspace = some workspace;
    })
hint_of project workspace [] = err bad_tenant
hint_of project workspace (org ∷ []) = err bad_tenant
hint_of project workspace (org ∷ bu ∷ more ∷ rest) = err bad_tenant

unfoldable pub hint_parts : List String → Result HintError ScopeHint
unfolding any_empty hint_of split
hint_parts (tenant ∷ project ∷ workspace ∷ []) =
    if any_empty (tenant ∷ project ∷ workspace ∷ [])
    then err bad_scope
    else hint_of project workspace (split b':' tenant)
hint_parts [] = err bad_scope
hint_parts (tenant ∷ []) = err bad_scope
hint_parts (tenant ∷ project ∷ []) = err bad_scope
hint_parts (tenant ∷ project ∷ workspace ∷ more ∷ rest) = err bad_scope

unfoldable pub parse_scope_hint : String → Result HintError ScopeHint
unfolding hint_parts split
parse_scope_hint value = hint_parts (split b'/' value)

-- `org:bu/project/workspace`
abbrev pub hint_text : TenantRef → String → String → String
hint_text tenant project workspace = org_bu tenant <> ("/" <> (project <> ("/" <> workspace)))

pub cons_head_lem :
    (c : Char) (s : String) (rest : List String) → cons_head c (s ∷ rest) ≡ String.◌∷◌ c s ∷ rest
unfolding cons_head
cons_head_lem c s rest = refl

split_free : (k : ℕ) (s : String) → count_char k s ≡ 0 → split k s ≡ s ∷ []
unfolding split count_char
split_free k String.[] h = refl
split_free k (String.◌∷◌ c s) h = ground (arith, h, split_free k s, cons_head_lem c s [])

split_at :
    (k : ℕ) (c : Char) (s t : String)
    → count_char k s ≡ 0
    → code c ≡ k
    → split k (s <> String.◌∷◌ c t) ≡ s ∷ split k t
unfolding split count_char
split_at k c String.[] t h same = ground (arith, same, nil-append (String.◌∷◌ c t))
split_at k c (String.◌∷◌ d s) t h same = ground (
  arith,
  h,
  same,
  split_at k c s t,
  cons-append d s (String.◌∷◌ c t),
  cons_head_lem d s (split k t),
)

pub count_char-append :
    (k : ℕ) (s t : String) → count_char k (s <> t) ≡ count_char k s + count_char k t
unfolding count_char
count_char-append k String.[] t = ground (arith, nil-append t)
count_char-append k (String.◌∷◌ c s) t = ground (arith, count_char-append k s t, cons-append c s t)

abbrev pub colon_sign : Char
colon_sign = ":"

abbrev pub slash_sign : Char
slash_sign = "/"

pub colon_append : (s : String) → ":" <> s ≡ String.◌∷◌ colon_sign s
colon_append s = cons-append colon_sign "" s ∙ ap (λ t. String.◌∷◌ colon_sign t) (nil-append s)

pub slash_append : (s : String) → "/" <> s ≡ String.◌∷◌ slash_sign s
slash_append s = cons-append slash_sign "" s ∙ ap (λ t. String.◌∷◌ slash_sign t) (nil-append s)

count-slash_colon : count_char b'/' ":" ≡ 0
unfolding count_char nat_eq
count-slash_colon = refl

-- The parts that the form can carry: none is empty, the organization and the business unit have
-- neither separator, the project and the workspace no `/`.
pub record IsPlain (tenant : TenantRef) (project workspace : String) : Type 0 where
  pub org_given : tenant.org ≢ ""
  pub bu_given : tenant.bu ≢ ""
  pub project_given : project ≢ ""
  pub workspace_given : workspace ≢ ""
  pub org_slash : count_char b'/' tenant.org ≡ 0
  pub bu_slash : count_char b'/' tenant.bu ≡ 0
  pub org_colon : count_char b':' tenant.org ≡ 0
  pub bu_colon : count_char b':' tenant.bu ≡ 0
  pub project_slash : count_char b'/' project ≡ 0
  pub workspace_slash : count_char b'/' workspace ≡ 0

module _ (tenant : TenantRef) (project workspace : String)
    (p : IsPlain tenant project workspace) where
  tenant_slash : count_char b'/' (org_bu tenant) ≡ 0
  unfolding org_bu
  tenant_slash = ground (
    arith,
    count_char-append b'/' tenant.org (":" <> tenant.bu),
    count_char-append b'/' ":" tenant.bu,
    count-slash_colon,
    p.org_slash,
    p.bu_slash,
  )

  tenant_parts : split b':' (org_bu tenant) ≡ tenant.org ∷ tenant.bu ∷ []
  unfolding org_bu
  tenant_parts = ground (
    arith,
    colon_append tenant.bu,
    split_at b':' colon_sign tenant.org tenant.bu p.org_colon refl,
    split_free b':' tenant.bu p.bu_colon,
  )

  text_parts :
      split b'/' (hint_text tenant project workspace) ≡ org_bu tenant ∷ project ∷ workspace ∷ []
  text_parts = ground (
    arith,
    slash_append (project <> ("/" <> workspace)),
    slash_append workspace,
    split_at b'/' slash_sign (org_bu tenant) (project <> ("/" <> workspace)) tenant_slash refl,
    split_at b'/' slash_sign project workspace p.project_slash refl,
    split_free b'/' workspace p.workspace_slash,
  )

  tenant_given : org_bu tenant ≢ ""
  unfolding count_char
  tenant_given = λ h. ground (arith, h, tenant_parts, split_free b':' "" refl)

  -- The text form of plain parts parses back to them.
  pub parse-hint_text :
      parse_scope_hint (hint_text tenant project workspace)
      ≡ ok (record { tenant = tenant; project = some project; workspace = some workspace })
  unfolding parse_scope_hint hint_parts hint_of any_empty any
  parse-hint_text = ground (
    arith, text_parts, tenant_parts, tenant_given, p.org_given, p.bu_given, p.project_given,
    p.workspace_given,
  )
