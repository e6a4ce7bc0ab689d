-- ===== src/PlanSchema/Json.antt =====
-- JSON values as Python holds them: what `json.loads` gives, and `dict.get`.
use ai_devops.Common.{String, List, [], ◌∷◌, Bool, true, false, if◌then◌else◌, str_eq, ◌≡◌, refl}
use ai_devops.Common.Int.{ℤ}

mutual
  pub data Value : Type 0 where
    null : Value
    bool : Bool → Value
    int : ℤ → Value
    -- a float, by its literal: the code only asks for its type
    float : String → Value
    str : String → Value
    obj : Fields → Value
    arr : Items → Value

  pub data Fields : Type 0 where
    end : Fields
    field : String → Value → Fields → Fields

  pub data Items : Type 0 where
    nil : Items
    cons : Value → Items → Items

-- data.get(key): `None`, which is `null`, for a missing key
unfoldable pub get : Fields → String → Value
get end key = null
get (field k v fs) key = if str_eq k key then v else get fs key

-- key in data
unfoldable pub has : Fields → String → Bool
has end key = false
has (field k v fs) key = if str_eq k key then true else has fs key

unfoldable pub to_list : Items → List Value
to_list nil = []
to_list (cons v vs) = v ∷ to_list vs

unfoldable pub of_list : List Value → Items
of_list [] = nil
of_list (v ∷ vs) = cons v (of_list vs)

pub to_list-of_list : (vs : List Value) → to_list (of_list vs) ≡ vs
unfolding to_list of_list
to_list-of_list [] = refl
to_list-of_list (v ∷ vs) = cc (to_list-of_list vs)
