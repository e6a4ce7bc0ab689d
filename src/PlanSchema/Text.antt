-- ===== src/PlanSchema/Text.antt =====
-- Texts of orchestrator/bin/plan_schema.py: `str.strip`, IDENTIFIER_RE and `sanitize_identifier`.
pub mod Chars
pub mod Sanitize
mod Tests
use Prim.Native.Char.{Char, code}
use Prim.Native.String.{String}
use ai_devops.Common.{ℕ, Bool, true, false, ◌&&◌, ◌||◌, not, leb, ◌==◌, if◌then◌else◌}

-- The code points that `str.strip` takes for white space.
unfoldable pub is_space : ℕ → Bool
is_space c =
    (leb 9 c && leb c 13)
    || (leb 28 c && leb c 32)
    || c == 0x85
    || c == 0xa0
    || c == 0x1680
    || (leb 0x2000 c && leb c 0x200a)
    || c == 0x2028
    || c == 0x2029
    || c == 0x202f
    || c == 0x205f
    || c == 0x3000

-- [A-Za-z0-9_-]
unfoldable pub is_word : ℕ → Bool
is_word c =
    (leb b'A' c && leb c b'Z')
    || (leb b'a' c && leb c b'z')
    || (leb b'0' c && leb c b'9')
    || c == b'_'
    || c == b'-'

abbrev pub is_empty : String → Bool
is_empty String.[] = true
is_empty (String.◌∷◌ c s) = false

pub lstrip_by : (ℕ → Bool) → String → String
lstrip_by p String.[] = String.[]
lstrip_by p (String.◌∷◌ c s) = if p (code c) then lstrip_by p s else String.◌∷◌ c s

-- `c` goes in front of what is left of the text behind it
trim : (ℕ → Bool) → Char → String → String
trim p c String.[] = if p (code c) then String.[] else String.◌∷◌ c String.[]
trim p c (String.◌∷◌ d s) = String.◌∷◌ c (String.◌∷◌ d s)

pub rstrip_by : (ℕ → Bool) → String → String
unfolding trim
rstrip_by p String.[] = String.[]
rstrip_by p (String.◌∷◌ c s) = trim p c (rstrip_by p s)

-- s.strip(chars)
unfoldable pub strip_by : (ℕ → Bool) → String → String
unfolding lstrip_by rstrip_by
strip_by p s = lstrip_by p (rstrip_by p s)

-- s.strip()
unfoldable pub strip : String → String
unfolding strip_by is_space
strip s = strip_by is_space s

-- `$` matches at the end, and before a line feed that ends the text.
word_tail : String → Bool
word_tail String.[] = true
word_tail (String.◌∷◌ c s) = if is_word (code c) then word_tail s else code c == 10 && is_empty s

-- IDENTIFIER_RE.match(s)
unfoldable pub identifier_match : String → Bool
unfolding word_tail is_word
identifier_match String.[] = false
identifier_match (String.◌∷◌ c s) = is_word (code c) && word_tail s

-- re.sub(r"[^A-Za-z0-9_-]+", "-", s); `run`: the character before was replaced
sub_runs : Bool → String → String
sub_runs run String.[] = String.[]
sub_runs run (String.◌∷◌ c s) =
    let rest = sub_runs (not (is_word (code c))) s in
    if is_word (code c) then String.◌∷◌ c rest else if run then rest else String.◌∷◌ "-" rest

-- re.sub(r"-{2,}", "-", s); `run`: the character before is a dash
collapse : Bool → String → String
collapse run String.[] = String.[]
collapse run (String.◌∷◌ c s) =
    let rest = collapse (code c == b'-') s in
    if run && code c == b'-' then rest else String.◌∷◌ c rest

-- the characters of .strip("-_")
is_edge : ℕ → Bool
is_edge c = c == b'-' || c == b'_'

-- sanitize_identifier
unfoldable pub sanitize_identifier : String → String
unfolding strip_by sub_runs collapse is_edge is_space is_word
sanitize_identifier value =
    let sanitized = strip_by is_edge (collapse false (sub_runs false (strip_by is_space value))) in
    if is_empty sanitized then "task" else sanitized
