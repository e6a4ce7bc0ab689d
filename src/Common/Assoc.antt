-- ===== src/Common/Assoc.antt =====
-- Python's `dict` with string keys, where the program iterates over it: the entries in order of
-- insertion. A new value under an old key keeps the key's place.
use mathlib.Core.List.{List, [], ◌∷◌}
use mathlib.Core.Option.{Option, none, some}
use native.Mathlib.Omega.{arith}
use mathlib.Core.Path.{◌≡◌, refl}
use Prim.Native.String.{String}
use text.Mathlib.Text.{◌==◌ as str_eq}
use text.Mathlib.TextEquality.{eq_iff}
use ai_devops.Common.Tests.{if◌then◌else◌}

abbrev pub Assoc {ℓ} : Type ℓ → Type ℓ
Assoc V = List (String × V)

module _ {ℓ} {V : Type ℓ} where
  -- d.get(key)
  unfoldable pub lookup : String → Assoc V → Option V
  lookup key [] = none
  lookup key ((old, w) ∷ rest) = if str_eq old key then some w else lookup key rest

  -- d[key] = new
  unfoldable pub insert : String → V → Assoc V → Assoc V
  insert key new [] = (key, new) ∷ []
  insert key new ((old, w) ∷ rest) =
      if str_eq old key then (old, new) ∷ rest else (old, w) ∷ insert key new rest

  -- d.pop(key, None)
  unfoldable pub remove : String → Assoc V → Assoc V
  remove key [] = []
  remove key ((old, w) ∷ entries) =
      let rest = remove key entries in if str_eq old key then rest else (old, w) ∷ rest

  pub lookup-insert :
      (key asked : String) (new : V) (d : Assoc V)
      → lookup asked (insert key new d) ≡ (if str_eq key asked then some new else lookup asked d)
  unfolding lookup insert
  lookup-insert key asked new ((old, w) ∷ rest) =
      ground (
        arith,
        lookup-insert key asked new rest,
        eq_iff old key,
        eq_iff old asked,
        eq_iff key asked,
      )
  lookup-insert key asked new [] = refl

  pub lookup-remove :
      (key asked : String) (d : Assoc V)
      → lookup asked (remove key d) ≡ (if str_eq key asked then none else lookup asked d)
  unfolding lookup remove
  lookup-remove key asked ((old, w) ∷ rest) =
      ground
        (arith, lookup-remove key asked rest, eq_iff old key, eq_iff old asked, eq_iff key asked)
  lookup-remove key asked [] = ground arith
