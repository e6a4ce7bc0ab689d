-- ===== src/Common/Text.antt =====
-- Concatenation of Python's `str`.
use Prim.Native.Char.{code}
use Prim.Native.String.{String}
use mathlib.Core.Bool.{Bool, true, false, ◌||◌}
use ai_devops.Common.Tests.{◌==◌, if◌then◌else◌}
use mathlib.Core.Path.{◌≡◌}

-- s + t
unfoldable pub concat : String → String → String
concat String.[] t = t
concat (String.◌∷◌ c s) t = String.◌∷◌ c (concat s t)

-- Texts with the same beginning are equal when their ends are.
pub concat_injective : (s t u : String) → concat s t ≡ concat s u → t ≡ u
unfolding concat
concat_injective String.[] t u e = e
concat_injective (String.◌∷◌ c s) t u e = concat_injective s t u (cc)

-- s.startswith(prefix)
pub starts_with : String → String → Bool
starts_with String.[] s = true
starts_with (String.◌∷◌ c prefix) String.[] = false
starts_with (String.◌∷◌ c prefix) (String.◌∷◌ d s) =
    let rest = starts_with prefix s in if code c == code d then rest else false

-- part in s
pub contains : String → String → Bool
contains part String.[] = starts_with part String.[]
contains part (String.◌∷◌ c s) = starts_with part (String.◌∷◌ c s) || contains part s
