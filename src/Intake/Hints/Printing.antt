-- ===== src/Intake/Hints/Printing.antt =====
-- A text that parses is the text form of the hint that it parses to.
use Prim.Native.Char.{Char, code}
use text.Mathlib.TextLemmas.{nil-append, cons-append}
use text.Mathlib.TextEquality.{Char-path}
use mathlib.Core.Path.{subst, sym}
use platform_ops.Base.{
  List, [], ◌∷◌, ◌≡◌, ◌<>◌, String, split, count_char, cons_head, refl, arith, inl, inr, Elem, ◌≢◌,
  ap, ◌∙◌, nat_eq, ok, some, any, ◌↔◌,
}
use platform_ops.Intake.Hints.{
  cons_head_lem, hint_of, hint_parts, org_bu, slash_sign, ScopeHint, parse_scope_hint, any_empty,
  TenantRef, slash_append, IsPlain, colon_sign, count_char-append, hint_text, colon_append,
  parse-hint_text,
}

-- `sep.join(parts)` of a first part and the others
join : Char → String → List String → String
join c w [] = w
join c w (v ∷ vs) = w <> String.◌∷◌ c (join c v vs)

-- A text is the join of its parts, and no part has the separator.
record IsSplit (c : Char) (s : String) (parts : List String) : Type 0 where
  head : String
  tail : List String
  shape : parts ≡ head ∷ tail
  joined : join c head tail ≡ s
  free : (w : String) → Elem w parts → count_char (code c) w ≡ 0

join_cons :
    (c d : Char) (w : String) (ws : List String)
    → join c (String.◌∷◌ d w) ws ≡ String.◌∷◌ d (join c w ws)
unfolding join
join_cons c d w [] = refl
join_cons c d w (v ∷ vs) = cons-append d w (String.◌∷◌ c (join c v vs))

IsSplit-at_separator :
    (c d : Char) (s : String) (parts : List String)
    → code d ≡ code c
    → IsSplit c s parts
    → IsSplit c (String.◌∷◌ d s) ("" ∷ parts)
unfolding join count_char
IsSplit-at_separator c d s parts same r = record {
  head = "";
  tail = parts;
  shape = refl;
  joined =
      ap (join c "") r.shape
      ∙ (nil-append (String.◌∷◌ c (join c r.head r.tail))
          ∙ (ap (λ t. String.◌∷◌ c t) r.joined
              ∙ ap (λ e. String.◌∷◌ e s) (Char-path c d (sym same))));
  free = λ w m. elim m [ inl empty ↦ ap (count_char (code c)) empty | inr later ↦ r.free w later ];
}

IsSplit-inside :
    (c d : Char) (s : String) (parts : List String)
    → code d ≢ code c
    → IsSplit c s parts
    → IsSplit c (String.◌∷◌ d s) (cons_head d parts)
unfolding count_char
IsSplit-inside c d s parts other r = record {
  head = String.◌∷◌ d r.head;
  tail = r.tail;
  shape = headed;
  joined = join_cons c d r.head r.tail ∙ ap (λ t. String.◌∷◌ d t) r.joined;
  free = λ w m. elim (subst (λ ps. Elem w ps) headed m) [
    | inl here ↦
        ap (count_char (code c)) here
        ∙ ground
            (arith, other, r.free r.head (subst (λ ps. Elem r.head ps) (sym r.shape) (inl refl)))
    | inr later ↦ r.free w (subst (λ ps. Elem w ps) (sym r.shape) (inr later))
  ];
}
  where
    headed : cons_head d parts ≡ String.◌∷◌ d r.head ∷ r.tail
    headed = ap (cons_head d) r.shape ∙ cons_head_lem d r.head r.tail

split-IsSplit : (c : Char) (s : String) → IsSplit c s (split (code c) s)
unfolding split join count_char
split-IsSplit c String.[] = record {
  head = "";
  tail = [];
  shape = refl;
  joined = refl;
  free = λ w m. elim m [ inl empty ↦ ap (count_char (code c)) empty | inr later ↦ elim later [ ] ];
}
split-IsSplit c (String.◌∷◌ d s) = elim (nat_eq.dec (code d) (code c)) [
  | yes same ↦
      subst (λ ps. IsSplit c (String.◌∷◌ d s) ps) (ground (arith, same))
        (IsSplit-at_separator c d s (split (code c) s) same (split-IsSplit c s))
  | no other ↦
      subst (λ ps. IsSplit c (String.◌∷◌ d s) ps) (ground (arith, other))
        (IsSplit-inside c d s (split (code c) s) other (split-IsSplit c s))
]

-- Of all the parts
join_list : Char → List String → String
unfolding join
join_list c [] = ""
join_list c (w ∷ ws) = join c w ws

split-joined : (c : Char) (s : String) → join_list c (split (code c) s) ≡ s
unfolding join_list
split-joined c s = let r = split-IsSplit c s in ap (join_list c) r.shape ∙ r.joined

-- What the checks on the parts leave
hint_of-inv :
    (project workspace : String) (parts : List String) (h : ScopeHint)
    → hint_of project workspace parts ≡ ok h
    → (parts ≡ h.tenant.org ∷ h.tenant.bu ∷ [])
      × (h.tenant.org ≢ "")
      × (h.tenant.bu ≢ "")
      × (h.project ≡ some project)
      × (h.workspace ≡ some workspace)
unfolding hint_of any_empty any
hint_of-inv project workspace [] h e = absurd (ground (arith, e))
hint_of-inv project workspace (org ∷ []) h e = absurd (ground (arith, e))
hint_of-inv project workspace (org ∷ bu ∷ []) h e = ground (arith, e)
hint_of-inv project workspace (org ∷ bu ∷ more ∷ rest) h e = absurd (ground (arith, e))

hint_parts-inv :
    (parts : List String) (h : ScopeHint)
    → hint_parts parts ≡ ok h
    → (tenant : String) × (project : String) × (workspace : String) × (parts
        ≡ tenant ∷ project ∷ workspace ∷ [])
      × (project ≢ "")
      × (workspace ≢ "")
      × (hint_of project workspace (split b':' tenant) ≡ ok h)
unfolding hint_parts any_empty any
hint_parts-inv [] h e = absurd (ground (arith, e))
hint_parts-inv (tenant ∷ []) h e = absurd (ground (arith, e))
hint_parts-inv (tenant ∷ project ∷ []) h e = absurd (ground (arith, e))
hint_parts-inv (tenant ∷ project ∷ workspace ∷ []) h e =
    (tenant, project, workspace, refl, ground (arith, e), ground (arith, e), ground (arith, e))
hint_parts-inv (tenant ∷ project ∷ workspace ∷ more ∷ rest) h e = absurd (ground (arith, e))

tenant_text :
    (tenant : String) (t : TenantRef)
    → split b':' tenant ≡ t.org ∷ t.bu ∷ []
    → (tenant ≡ org_bu t) × (count_char b':' t.org ≡ 0) × (count_char b':' t.bu ≡ 0)
unfolding org_bu join_list join
tenant_text tenant t parts =
    let r = split-IsSplit colon_sign tenant in
    (
      sym (split-joined colon_sign tenant)
          ∙ (ap (join_list colon_sign) parts ∙ ap (λ s. t.org <> s) (sym (colon_append t.bu))),
      r.free t.org (subst (λ ps. Elem t.org ps) (sym parts) (inl refl)),
      r.free t.bu (subst (λ ps. Elem t.bu ps) (sym parts) (inr (inl refl))),
    )

no_slash :
    (t : TenantRef)
    → count_char b'/' (org_bu t) ≡ 0
    → (count_char b'/' t.org ≡ 0) × (count_char b'/' t.bu ≡ 0)
unfolding org_bu
no_slash t h =
    ground (arith, h, count_char-append b'/' t.org (":" <> t.bu), count_char-append b'/' ":" t.bu)

value_text :
    (value tenant project workspace : String)
    → split b'/' value ≡ tenant ∷ project ∷ workspace ∷ []
    → value ≡ tenant <> ("/" <> (project <> ("/" <> workspace)))
unfolding join_list join
value_text value tenant project workspace parts =
    sym (split-joined slash_sign value)
    ∙ (ap (join_list slash_sign) parts
        ∙ ground (arith, slash_append workspace, slash_append (project <> ("/" <> workspace))))

-- What a text that parses is made of
pub record IsPrinted (value : String) (h : ScopeHint) : Type 0 where
  pub project_part : String
  pub workspace_part : String
  pub plain : IsPlain h.tenant project_part workspace_part
  pub project : h.project ≡ some project_part
  pub workspace : h.workspace ≡ some workspace_part
  pub printed : value ≡ hint_text h.tenant project_part workspace_part

parsed-IsPrinted :
    (value : String) (h : ScopeHint) → parse_scope_hint value ≡ ok h → IsPrinted value h
unfolding parse_scope_hint
parsed-IsPrinted value h e =
    let (tenant, project, workspace, parts, project_given, workspace_given, inner) =
      hint_parts-inv (split b'/' value) h e in
    let (tenants, org_given, bu_given, same_project, same_workspace) =
      hint_of-inv project workspace (split b':' tenant) h inner in
    let (text, org_colon, bu_colon) = tenant_text tenant h.tenant tenants in
    let free = (split-IsSplit slash_sign value).free in
    let slashes = no_slash h.tenant (
      subst (λ s. count_char b'/' s ≡ 0) text
        (free tenant (subst (λ ps. Elem tenant ps) (sym parts) (inl refl)))) in
    record {
      project_part = project;
      workspace_part = workspace;
      plain = record {
        org_given = org_given;
        bu_given = bu_given;
        project_given = project_given;
        workspace_given = workspace_given;
        org_slash = slashes.0;
        bu_slash = slashes.1;
        org_colon = org_colon;
        bu_colon = bu_colon;
        project_slash = free project (subst (λ ps. Elem project ps) (sym parts) (inr (inl refl)));
        workspace_slash =
            free workspace (subst (λ ps. Elem workspace ps) (sym parts) (inr (inr (inl refl))));
      };
      project = same_project;
      workspace = same_workspace;
      printed =
          value_text value tenant project workspace parts
          ∙ ap (λ s. s <> ("/" <> (project <> ("/" <> workspace)))) text;
    }

hint_ext :
    (h : ScopeHint) (project workspace : String)
    → h.project ≡ some project
    → h.workspace ≡ some workspace
    → Path ScopeHint
        (record { tenant = h.tenant; project = some project; workspace = some workspace })
        h
hint_ext h project workspace p w = cc

-- A text parses to a hint exactly when it is the text form of the hint's parts: the organization,
-- the business unit, the project and the workspace are not empty, the first two have no separator
-- and the last two no `/`.
pub parse_scope_hint_iff :
    (value : String) (h : ScopeHint) → (parse_scope_hint value ≡ ok h) ↔ IsPrinted value h
parse_scope_hint_iff value h = (
  parsed-IsPrinted value h,
  λ i.
      ap parse_scope_hint i.printed
      ∙ (parse-hint_text h.tenant i.project_part i.workspace_part i.plain
          ∙ ap (λ x. ok x) (hint_ext h i.project_part i.workspace_part i.project i.workspace)),
)
