-- ===== src/Common/Dict.antt =====
-- Python's `dict` with string keys, where the program never iterates over it: a function to the
-- value under a key. `d[k]` on a missing key raises `KeyError`, which a caller's type supplies.
use Prim.Native.String.{String}
use mathlib.Core.Option.{Option, none, some}
use text.Mathlib.Text.{◌==◌ as str_eq}
use ai_devops.Common.Tests.{if◌then◌else◌}
use ai_devops.Common.Result.{Result, ok, err}

abbrev pub Dict {ℓ} : Type ℓ → Type ℓ
Dict V = String → Option V

module _ {ℓ} {V : Type ℓ} where
  abbrev pub empty : Dict V
  empty k = none

  -- d[k] = v
  abbrev pub put : Dict V → String → V → Dict V
  put d k v j = if str_eq k j then some v else d j

  module _ {κ} {E : Type κ} (key_error : String → E) where
    -- d[k]
    abbrev pub get_item : Dict V → String → Result E V
    get_item d k = elim (d k) [ none ↦ err (key_error k) | some v ↦ ok v ]

    -- d[k] = f(d[k])
    abbrev pub modify : (V → V) → String → Dict V → Result E (Dict V)
    modify f k d = elim (d k) [ none ↦ err (key_error k) | some v ↦ ok (put d k (f v)) ]
