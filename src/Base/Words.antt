-- ===== src/Base/Words.antt =====
-- Python's `strip`, `count`, `split` and `startswith` for one character, given by its code.
use Prim.Native.Nat.{ℕ, ◌+◌}
use Prim.Native.Char.{Char, code}
use Prim.Native.String.{String}
use mathlib.Core.Bool.{Bool, false, not, ◌&&◌, ◌||◌}
use platform_ops.Base.Lists.{filter}
use mathlib.Core.List.{List, [], ◌∷◌}
use platform_ops.Base.Equality.{◌==◌, nat_eq, if◌then◌else◌, string_eq}

unfoldable pub count_char : ℕ → String → ℕ
count_char sep String.[] = 0
count_char sep (String.◌∷◌ c s) = (if code c == sep then 1 else 0) + count_char sep s

unfoldable pub any_char : (Char → Bool) → String → Bool
any_char p String.[] = false
any_char p (String.◌∷◌ c s) = p c || any_char p s

unfoldable pub starts_with : ℕ → String → Bool
starts_with k String.[] = false
starts_with k (String.◌∷◌ c s) = code c == k

unfoldable pub ends_with : ℕ → String → Bool
ends_with k String.[] = false
ends_with k (String.◌∷◌ c s) = if s == "" then code c == k else ends_with k s

-- `s.lstrip()` and `s.rstrip()`, with the test for white space
lstrip : (Char → Bool) → String → String
lstrip is_space String.[] = ""
lstrip is_space (String.◌∷◌ c s) =
    let rest = lstrip is_space s in if is_space c then rest else String.◌∷◌ c s

rstrip : (Char → Bool) → String → String
rstrip is_space String.[] = ""
rstrip is_space (String.◌∷◌ c s) =
    let rest = rstrip is_space s in if is_space c && rest == "" then "" else String.◌∷◌ c rest

unfoldable pub strip : (Char → Bool) → String → String
unfolding lstrip rstrip
strip is_space s = rstrip is_space (lstrip is_space s)

unfoldable pub cons_head : Char → List String → List String
cons_head c [] = String.◌∷◌ c "" ∷ []
cons_head c (w ∷ ws) = String.◌∷◌ c w ∷ ws

-- `s.split(sep)`
unfoldable pub split : ℕ → String → List String
unfolding cons_head
split sep String.[] = "" ∷ []
split sep (String.◌∷◌ c s) =
    let rest = split sep s in if code c == sep then "" ∷ rest else cons_head c rest

-- `s.split(sep, 1)` for a text that has the separator
unfoldable pub split_once : ℕ → String → String × String
split_once sep String.[] = ("", "")
split_once sep (String.◌∷◌ c s) =
    let rest = split_once sep s in if code c == sep then ("", s) else (String.◌∷◌ c rest.0, rest.1)

-- The pieces between white space, empty ones included
pieces : (Char → Bool) → String → List String
unfolding cons_head
pieces is_space String.[] = "" ∷ []
pieces is_space (String.◌∷◌ c s) =
    let rest = pieces is_space s in if is_space c then "" ∷ rest else cons_head c rest

-- `s.split()`
unfoldable pub words : (Char → Bool) → String → List String
unfolding pieces
words is_space s = filter (λ w. not (w == "")) (pieces is_space s)
