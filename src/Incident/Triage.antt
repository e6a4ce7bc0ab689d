-- ===== src/Incident/Triage.antt =====
-- TriageEngine of packages/incident/triage/service.py. `str.lower` of the language is the argument
-- `lower`, the first twelve digits of the SHA-1 of a text the argument `digest`.
use Prim.Native.Char.{code}
use ai_devops.Common.{
  String, Bool, false, [], ◌∷◌, ◌||◌, ◌&&◌, not, str_eq, if◌then◌else◌, concat, contains,
}
use ai_devops.Common.Names.{mem}
use ai_devops.PlanSchema.Text.{is_space, strip}

-- " ".join(s.split()); `started`: a word stands before, `gap`: white space stands before
squeeze : Bool → Bool → String → String
squeeze started gap String.[] = String.[]
squeeze started gap (String.◌∷◌ c s) =
    let blank = is_space (code c) in
    let rest = squeeze (started || not blank) blank s in
    if blank
    then rest
    else if started && gap
    then String.◌∷◌ " " (String.◌∷◌ c rest)
    else String.◌∷◌ c rest

-- fingerprint
pub fingerprint : (String → String) → (String → String) → String → String
unfolding squeeze
fingerprint lower digest message = concat "inc_" (digest (squeeze false false (lower message)))

-- score
pub score : (String → String) → String → String → String
score lower level message =
    let normalized = strip (lower level) in
    if mem normalized ("critical" ∷ "error" ∷ "fatal" ∷ [])
    then (if str_eq normalized "critical" then "critical" else "high")
    else if contains "timeout" (lower message)
    then "high"
    else if str_eq normalized "warning"
    then "medium"
    else "low"
