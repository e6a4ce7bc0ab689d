-- ===== src/Dispatch/Paths.antt =====
-- The path rules of a plan: constraint_path_list of orchestrator/bin/task_spec.py and the matching
-- of orchestrator/bin/dispatch.py. Python's `str` of a JSON value that is no text, its paths and
-- its fnmatch are the fields of Env.
use Prim.Native.Char.{code}
use ai_devops.Common.{
  ℕ, String, Bool, false, Option, none, some, List, [], ◌∷◌, ◌++◌, ◌||◌, ◌==◌, str_eq,
  if◌then◌else◌, concat, starts_with,
}
use ai_devops.Common.Names.{mem}
use ai_devops.PlanSchema.Json.{Value, Fields, get, to_list, str, arr}
use ai_devops.PlanSchema.Text.{strip, is_empty, lstrip_by, rstrip_by}

-- What the code uses of the language and the file system, for one worktree.
pub record Env : Type 0 where
  -- str(value)
  pub shown : Value → String
  -- json.loads(text): `none` when it raises
  pub loads : String → Option Value
  -- an absolute path, resolved: relative to the worktree if it lies in it
  pub relative : String → String
  -- (worktree / path).resolve(): `none` on an OSError
  pub resolve : String → Option String
  -- fnmatch.fnmatch(name, pattern)
  pub fnmatch : String → String → Bool

-- str(item)
unfoldable pub text_of : Env → Value → String
text_of env (str s) = s
text_of env v = env.shown v

-- isinstance(items, list)
unfoldable pub items_of : Value → List Value
items_of (arr items) = to_list items
items_of v = []

-- the texts of one key that are not blank
unfoldable pub stripped : Env → List Value → List String
unfolding text_of
stripped env [] = []
stripped env (v ∷ vs) =
    let text = strip (text_of env v) in
    let rest = stripped env vs in if is_empty text then rest else text ∷ rest

unfoldable pub values_under : Env → Fields → List String → List String
unfolding stripped items_of
values_under env raw [] = []
values_under env raw (key ∷ keys) =
    stripped env (items_of (get raw key)) ++ values_under env raw keys

-- the loop with `seen`, which holds what `deduped` holds
unfoldable pub dedup : List String → List String → List String
dedup seen [] = []
dedup seen (x ∷ xs) =
    let rest = dedup (if mem x seen then seen else x ∷ seen) xs in
    if mem x seen then rest else x ∷ rest

-- constraint_path_list
unfoldable pub constraint_path_list : Env → Fields → List String → List String
unfolding values_under dedup
constraint_path_list env raw keys = dedup [] (values_under env raw keys)

-- s.replace("\\", "/")
slashes : String → String
slashes String.[] = String.[]
slashes (String.◌∷◌ c s) =
    let rest = slashes s in if code c == 92 then String.◌∷◌ "/" rest else String.◌∷◌ c rest

-- what stands before `suffix`, if the text ends with it
drop_suffix : String → String → Option String
drop_suffix suffix String.[] = if str_eq suffix "" then some "" else none
drop_suffix suffix (String.◌∷◌ c s) =
    if str_eq (String.◌∷◌ c s) suffix
    then some ""
    else elim (drop_suffix suffix s) [ none ↦ none | some rest ↦ some (String.◌∷◌ c rest) ]

is_slash : ℕ → Bool
is_slash c = c == b'/'

is_dot_or_slash : ℕ → Bool
is_dot_or_slash c = c == b'.' || c == b'/'

-- the path without its wildcard, relative to the worktree
to_relative : Env → String → String
unfolding is_slash is_dot_or_slash slashes
to_relative env text =
    rstrip_by is_slash
      (if starts_with "/" text then slashes (env.relative text) else lstrip_by is_dot_or_slash text)

-- _normalize_constraint_path
pub normalize_constraint_path : Env → String → String
unfolding slashes drop_suffix to_relative
normalize_constraint_path env value =
    let text = slashes (strip value) in
    if is_empty text then "" else elim (drop_suffix "/**" text) [
      | some base ↦ concat (to_relative env base) "/**"
      | none ↦ to_relative env text
    ]

-- any(ch in rule for ch in "*?[")
has_wildcard : String → Bool
has_wildcard String.[] = false
has_wildcard (String.◌∷◌ c s) = code c == b'*' || code c == b'?' || code c == b'[' || has_wildcard s

-- the set `patterns`
patterns : String → List String
unfolding drop_suffix
patterns rule =
    rule ∷ elim (drop_suffix "/**" rule) [ none ↦ [] | some base ↦ base ∷ concat base "/*" ∷ [] ]

unfoldable pub any_of {ℓ} : {A : Type ℓ} → (A → Bool) → List A → Bool
any_of p [] = false
any_of p (x ∷ xs) = p x || any_of p xs

-- the set `candidate_paths`
candidates : Env → String → List String
unfolding slashes
candidates env path = path ∷ elim (env.resolve path) [ none ↦ [] | some abs ↦ slashes abs ∷ [] ]

-- _path_matches_constraint
pub path_matches_constraint : Env → String → String → Bool
unfolding has_wildcard patterns any_of candidates
path_matches_constraint env path rule =
    let normalized = normalize_constraint_path env path in
    let normalized_rule = normalize_constraint_path env rule in
    if is_empty normalized
    then false
    else if is_empty normalized_rule
    then false
    else if has_wildcard normalized_rule
    then any_of (λ c. any_of (env.fnmatch c) (patterns normalized_rule)) (candidates env normalized)
    else any_of (λ c. str_eq c normalized_rule || starts_with (concat normalized_rule "/") c)
        (candidates env normalized)
