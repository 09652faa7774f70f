-- ===== src/Prelude/Text.antt =====
-- What the program asks of a Rust `String`: equality, and equality up to the case of ASCII letters.
use Prim.Native.Nat.{ℕ, ◌+◌}
use Prim.Native.Char.{code}
use Prim.Native.String.{String}
use mathlib.Core.Bool.{Bool, true, false, ◌&&◌}
use mathlib.Core.List.{List, [], ◌∷◌, map}
use mathlib.Core.Path.{◌≡◌, refl}
use text.Mathlib.Text
use text.Mathlib.TextEquality.{eq_iff}
use kronical.Prelude.Tests.{leb, ◌==◌, if◌then◌else◌}
pub use text.Mathlib.TextEquality.{eq_iff}

abbrev pub str_eq : String → String → Bool
str_eq = Text.◌==◌

-- The code points of a text.
abbrev pub codes : String → List ℕ
codes String.[] = []
codes (String.◌∷◌ c s) = code c ∷ codes s

-- `u8::to_ascii_lowercase`; a code point above the ASCII range stands for itself.
abbrev to_ascii_lowercase : ℕ → ℕ
to_ascii_lowercase c = if leb b'A' c && leb c b'Z' then c + 32 else c

same_codes : List ℕ → List ℕ → Bool
same_codes [] [] = true
same_codes (a ∷ as') (b ∷ bs) = a == b && same_codes as' bs
same_codes _ _ = false

-- `str::eq_ignore_ascii_case`.
unfoldable pub eq_ignore_ascii_case : String → String → Bool
unfolding same_codes
eq_ignore_ascii_case s t =
    same_codes (map to_ascii_lowercase (codes s)) (map to_ascii_lowercase (codes t))

login_cases : eq_ignore_ascii_case "LoginWindow" "loginwindow" ≡ true
unfolding eq_ignore_ascii_case
login_cases = refl

finder_differs : eq_ignore_ascii_case "Finder" "loginwindow" ≡ false
unfolding eq_ignore_ascii_case
finder_differs = refl
