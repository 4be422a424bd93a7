-- ===== src/Prelude/Text.antt =====
-- Text: equality of whole strings, the strings of Go's `strings` package that the code calls.
use Prim.Native.Nat.{ℕ}
use Prim.Native.Char.{code}
use Prim.Native.String
use Prim.Native.String.{String}
use mathlib.Core.Path.{◌≡◌, refl}
use mathlib.Core.Logic.{◌↔◌}
use mathlib.Core.Bool.{Bool, true, false, ◌&&◌}
use mathlib.Core.List.{List, [], ◌∷◌, reverse}
use text.Mathlib.Text.{◌==◌ as text_eq}
use text.Mathlib.TextEquality.{eq_iff as text_eq_iff}
use ideacrawler.Prelude.Tests.{◌==◌}

abbrev pub str_eq : String → String → Bool
str_eq s t = text_eq s t

pub str_eq_iff : (s t : String) → (str_eq s t ≡ true) ↔ (s ≡ t)
str_eq_iff s t = text_eq_iff s t

pub str_eq_refl : (s : String) → str_eq s s ≡ true
str_eq_refl s = (text_eq_iff s s).1 refl

-- `s + t`
infixr 66 ◌<>◌
abbrev pub ◌<>◌ : String → String → String
s <> t = String.◌++◌ s t

-- The code points of a text.
abbrev pub codes : String → List ℕ
codes String.[] = []
codes (String.◌∷◌ c s) = code c ∷ codes s

abbrev pub codes_eq : List ℕ → List ℕ → Bool
codes_eq [] [] = true
codes_eq (c ∷ s) (d ∷ t) = c == d && codes_eq s t
codes_eq [] (d ∷ t) = false
codes_eq (c ∷ s) [] = false

abbrev pub has_prefix_codes : List ℕ → List ℕ → Bool
has_prefix_codes s [] = true
has_prefix_codes [] (d ∷ t) = false
has_prefix_codes (c ∷ s) (d ∷ t) = c == d && has_prefix_codes s t

-- `strings.HasPrefix(s, t)`
unfoldable pub has_prefix : String → String → Bool
has_prefix s t = has_prefix_codes (codes s) (codes t)

-- `strings.HasSuffix(s, t)`
unfoldable pub has_suffix : String → String → Bool
has_suffix s t = has_prefix_codes (reverse (codes s)) (reverse (codes t))
