-- ===== src/Prelude/Text.antt =====
-- Text by its code points, for the patterns that the program tests.
use Prim.Native.Char.{code}
use Prim.Native.String.{String}
use Prim.Native.Nat.{ℕ}
use mathlib.Core.Bool.{Bool, true, false, ◌&&◌, ◌||◌}
use mathlib.Core.List.{List, [], ◌∷◌}
use businessos.Prelude.Tests.{leb, if◌then◌else◌}
use businessos.Prelude.Equality.{◌==◌, nat_eq}

abbrev pub codes : String → List ℕ
codes String.[] = []
codes (String.◌∷◌ c s) = code c ∷ codes s

abbrev pub is_lower : ℕ → Bool
is_lower c = leb b'a' c && leb c b'z'

abbrev pub is_digit : ℕ → Bool
is_digit c = leb b'0' c && leb c b'9'

-- s.startswith(prefix)
unfoldable pub starts_with : List ℕ → List ℕ → Bool
starts_with s [] = true
starts_with [] (p ∷ prefix) = false
starts_with (c ∷ s) (p ∷ prefix) = (c == p) && starts_with s prefix

-- bool(value.strip()): a character that is no ASCII white space.
unfoldable pub has_ink : List ℕ → Bool
has_ink [] = false
has_ink (c ∷ s) =
    if (c == 32) || (leb 9 c && leb c 13) || (leb 28 c && leb c 31) then has_ink s else true
