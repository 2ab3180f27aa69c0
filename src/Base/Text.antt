-- ===== src/Base/Text.antt =====
-- Text as Python's `str` sees it. The Unicode tables behind `isalpha`, `isalnum`, `isspace` and
-- `lower` are a parameter of the model.
use Prim.Native.Char.{Char}
use Prim.Native.Nat.{ℕ}
use Prim.Native.String.{String, ◌++◌, count}
use mathlib.Core.Bool.{Bool, true, ◌&&◌}
use mathlib.Core.Path.{◌≡◌, refl, sym}
use mathlib.Core.Logic.{◌≢◌}
use text.Mathlib.TextLemmas.{cons-eq-cons, nil-append, cons-append, append_cancel_left}

pub record Unicode : Type 0 where
  pub is_alpha : Char → Bool
  pub is_alnum : Char → Bool
  pub is_space : Char → Bool
  pub lower : String → String

-- `len(s)`
abbrev pub len : String → ℕ
len s = count s

-- `all(p(c) for c in s)`
unfoldable pub all_chars : (Char → Bool) → String → Bool
all_chars p String.[] = true
all_chars p (String.◌∷◌ c s) = p c && all_chars p s

abbrev colon : Char
colon = ":"

abbrev pub NoColon : String → Type 0
NoColon String.[] = Unit
NoColon (String.◌∷◌ c s) = (c ≢ colon) × NoColon s

-- A text without a colon is read off in front of a separator that begins with one.
pub colon_split :
    (sep s t a b : String)
    → NoColon s
    → NoColon t
    → s ++ (String.◌∷◌ colon sep ++ a) ≡ t ++ (String.◌∷◌ colon sep ++ b)
    → (s ≡ t) × (a ≡ b)
colon_split sep String.[] String.[] a b hs ht e =
    let q = append_cancel_left sep a b (cons-eq-cons.0 (simp (nil-append, cons-append) at e)).1 in
    (refl, q)
colon_split sep String.[] (String.◌∷◌ c t) a b hs ht e =
    absurd (ht.0 (sym (cons-eq-cons.0 (simp (nil-append, cons-append) at e)).0))
colon_split sep (String.◌∷◌ c s) String.[] a b hs ht e =
    absurd (hs.0 (cons-eq-cons.0 (simp (nil-append, cons-append) at e)).0)
colon_split sep (String.◌∷◌ c s) (String.◌∷◌ d t) a b hs ht e =
    let q = cons-eq-cons.0 (
      rw (cons-append c s (String.◌∷◌ colon sep ++ a), cons-append d t (String.◌∷◌ colon sep ++ b))
        at e) in
    let r = colon_split sep s t a b hs.1 ht.1 q.1 in (cc (q.0, r.0), r.1)
