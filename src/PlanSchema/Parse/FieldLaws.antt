-- ===== src/PlanSchema/Parse/FieldLaws.antt =====
-- What the field readers return, and that they read back a text that is already stripped.
use ai_devops.Common.{
  String, List, [], ◌∷◌, map, Option, none, some, false, ◌≡◌, refl, subst, All, Bool-cases, inl,
  inr,
}
use ai_devops.Common.Result.{ok, >>=-eq-ok, ok_injective}
use ai_devops.PlanSchema.Json.{
  Value, null, bool, int, float, str, arr, obj, Items, Fields, get, to_list, of_list,
  to_list-of_list,
}
use ai_devops.PlanSchema.Text.{strip, is_empty}
use ai_devops.PlanSchema.Text.Chars.{strip_by_idem}
use ai_devops.PlanSchema.Text.{is_space}
use ai_devops.PlanSchema.Parse.{
  string_of, optional_of, strings_of, list_of, require_string, optional_string,
  optional_string_list, is_blank,
}

-- A text with no white space at its ends, and not empty.
pub record IsTrimmed (s : String) : Type 0 where
  pub stripped : strip s ≡ s
  pub filled : is_empty s ≡ false

abbrev pub TrimmedOption : Option String → Type 0
TrimmedOption none = Unit
TrimmedOption (some s) = IsTrimmed s

strip_idem : (s : String) → strip (strip s) ≡ strip s
unfolding strip
strip_idem s = strip_by_idem is_space s

strip-IsTrimmed : (s : String) → is_blank s ≡ false → IsTrimmed (strip s)
strip-IsTrimmed s h = record { stripped = strip_idem s; filled = h }

string_of-IsTrimmed : (key : String) (v : Value) {s : String} → string_of key v ≡ ok s → IsTrimmed s
unfolding string_of
string_of-IsTrimmed key (str t) {s} h = elim (Bool-cases (is_blank t)) [
  | inl e ↦ cc (rw e at h)
  | inr e ↦ subst IsTrimmed (ok_injective (rw e at h)) (strip-IsTrimmed t e)
]
string_of-IsTrimmed key null h = cc
string_of-IsTrimmed key (bool b) h = cc
string_of-IsTrimmed key (int n) h = cc
string_of-IsTrimmed key (float t) h = cc
string_of-IsTrimmed key (arr vs) h = cc
string_of-IsTrimmed key (obj fs) h = cc

pub require_string-IsTrimmed :
    (d : Fields) (key : String) {s : String} → require_string d key ≡ ok s → IsTrimmed s
unfolding require_string
require_string-IsTrimmed d key h = string_of-IsTrimmed key (get d key) h

optional_of-Trimmed :
    (key : String) (v : Value) {o : Option String} → optional_of key v ≡ ok o → TrimmedOption o
unfolding optional_of
optional_of-Trimmed key (str t) {o} h = elim (Bool-cases (is_blank t)) [
  | inl e ↦ cc (rw e at h)
  | inr e ↦ subst TrimmedOption (ok_injective (rw e at h)) (strip-IsTrimmed t e)
]
optional_of-Trimmed key null {o} h = subst TrimmedOption (ok_injective h) tt
optional_of-Trimmed key (bool b) h = cc
optional_of-Trimmed key (int n) h = cc
optional_of-Trimmed key (float t) h = cc
optional_of-Trimmed key (arr vs) h = cc
optional_of-Trimmed key (obj fs) h = cc

pub optional_string-Trimmed :
    (d : Fields) (key : String) {o : Option String} → optional_string d key ≡ ok o → TrimmedOption o
unfolding optional_string
optional_string-Trimmed d key h = optional_of-Trimmed key (get d key) h

strings_of-Trimmed :
    (key : String) (vs : List Value) {xs : List String}
    → strings_of key vs ≡ ok xs
    → All IsTrimmed xs
unfolding strings_of
strings_of-Trimmed key [] h = subst (All IsTrimmed) (ok_injective h) tt
strings_of-Trimmed key (str t ∷ vs) {xs} h =
    let (rest, p, q) = >>=-eq-ok (strings_of key vs) _ h in
    elim (Bool-cases (is_blank t)) [
      | inl e ↦ cc (rw e at q)
      | inr e ↦
          subst (All IsTrimmed) (ok_injective (rw e at q))
            (strip-IsTrimmed t e, strings_of-Trimmed key vs p)
    ]
strings_of-Trimmed key (null ∷ vs) h = cc
strings_of-Trimmed key (bool b ∷ vs) h = cc
strings_of-Trimmed key (int n ∷ vs) h = cc
strings_of-Trimmed key (float t ∷ vs) h = cc
strings_of-Trimmed key (arr ws ∷ vs) h = cc
strings_of-Trimmed key (obj fs ∷ vs) h = cc

list_of-Trimmed :
    (key : String) (v : Value) {xs : List String} → list_of key v ≡ ok xs → All IsTrimmed xs
unfolding list_of
list_of-Trimmed key null h = subst (All IsTrimmed) (ok_injective h) tt
list_of-Trimmed key (arr vs) h = strings_of-Trimmed key (to_list vs) h
list_of-Trimmed key (bool b) h = cc
list_of-Trimmed key (int n) h = cc
list_of-Trimmed key (float t) h = cc
list_of-Trimmed key (str s) h = cc
list_of-Trimmed key (obj fs) h = cc

pub optional_string_list-Trimmed :
    (d : Fields) (key : String) {xs : List String}
    → optional_string_list d key ≡ ok xs
    → All IsTrimmed xs
unfolding optional_string_list
optional_string_list-Trimmed d key h = list_of-Trimmed key (get d key) h

-- Reading back.

pub require_string-get :
    (d : Fields) (key s : String) → IsTrimmed s → get d key ≡ str s → require_string d key ≡ ok s
unfolding require_string
require_string-get d key s t e = rw (e, t.stripped, t.filled)

pub optional_string-get :
    (d : Fields) (key s : String)
    → IsTrimmed s
    → get d key ≡ str s
    → optional_string d key ≡ ok (some s)
unfolding optional_string
optional_string-get d key s t e = rw (e, t.stripped, t.filled)

abbrev pub str_items : List String → Items
str_items xs = of_list (map str xs)

strings_of-map :
    (key : String) (xs : List String) → All IsTrimmed xs → strings_of key (map str xs) ≡ ok xs
unfolding strings_of
strings_of-map key [] t = refl
strings_of-map key (x ∷ xs) t = rw (strings_of-map key xs t.1, t.0.stripped, t.0.filled)

pub optional_string_list-get :
    (d : Fields) (key : String) (xs : List String)
    → All IsTrimmed xs
    → get d key ≡ arr (str_items xs)
    → optional_string_list d key ≡ ok xs
unfolding optional_string_list
optional_string_list-get d key xs t e =
    rw (e, to_list-of_list (map str xs)) (strings_of-map key xs t)
