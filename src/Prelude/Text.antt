-- ===== src/Prelude/Text.antt =====
-- Texts as lists of code points, and the character classes of the program's regular expressions.
use Prim.Native.Nat.{ℕ}
use Prim.Native.Char.{code}
use Prim.Native.String.{String}
use mathlib.Core.Bool.{Bool, false, ◌&&◌, ◌||◌}
use mathlib.Core.List.{List, [], ◌∷◌}
use klokast_box.Prelude.Tests.{leb, ◌==◌}
use klokast_box.Prelude.Lists.{length, all}

abbrev pub codes : String → List ℕ
codes String.[] = []
codes (String.◌∷◌ c s) = code c ∷ codes s

abbrev pub between : ℕ → ℕ → ℕ → Bool
between lo hi c = leb lo c && leb c hi

-- `[0-9]`
abbrev pub is_digit : ℕ → Bool
is_digit = between b'0' b'9'

-- `[a-z]`
abbrev pub is_lower : ℕ → Bool
is_lower = between b'a' b'z'

-- `[A-Z]`
abbrev pub is_upper : ℕ → Bool
is_upper = between b'A' b'Z'

-- `[0-9a-f]`
abbrev pub is_hex : ℕ → Bool
is_hex c = is_digit c || between b'a' b'f' c

-- `[a-z0-9]`
abbrev pub is_alnum : ℕ → Bool
is_alnum c = is_lower c || is_digit c

-- `[a-z0-9-]`
abbrev pub is_label : ℕ → Bool
is_label c = is_alnum c || c == b'-'

-- `re.fullmatch('C{n}', s)` for a class `C`.
abbrev pub exactly : (ℕ → Bool) → ℕ → List ℕ → Bool
exactly p n s = (length s == n) && all p s

-- `re.fullmatch('HC{0,n}', s)` for classes `H` and `C`.
abbrev pub headed : (ℕ → Bool) → (ℕ → Bool) → ℕ → List ℕ → Bool
headed h p n [] = false
headed h p n (c ∷ s) = h c && leb (length s) n && all p s
