-- ===== src/PlanSchema/Text/Sanitize.antt =====
-- `sanitize_identifier`: its result is an identifier, and it leaves its own results alone.
use Prim.Native.Char.{Char, code}
use Prim.Native.String.{String}
use ai_devops.Common.{
  ℕ, Bool, true, false, ◌&&◌, not, ◌==◌, ◌≡◌, refl, arith, if◌then◌else◌, Bool-cases, inl, inr,
}
use ai_devops.PlanSchema.Text.{
  is_empty, trim, lstrip_by, rstrip_by, strip_by, is_space, is_word, is_edge, word_tail,
  identifier_match, sub_runs, collapse, sanitize_identifier,
}
use ai_devops.PlanSchema.Text.Chars.{
  all_chars, all_chars_mono, word_no_space, strip_by-all, strip_by_idem, strip_by_fixed,
}

dash_word : is_word (code "-") ≡ true
unfolding is_word
dash_word = refl

sub_runs-words : (run : Bool) (s : String) → all_chars is_word (sub_runs run s) ≡ true
unfolding sub_runs
sub_runs-words run String.[] = refl
sub_runs-words run (String.◌∷◌ c s) =
    ground (arith, sub_runs-words (not (is_word (code c))) s, dash_word)

sub_runs_fixed : (run : Bool) (s : String) → all_chars is_word s ≡ true → sub_runs run s ≡ s
unfolding sub_runs
sub_runs_fixed run String.[] h = refl
sub_runs_fixed run (String.◌∷◌ c s) h = ground (arith, sub_runs_fixed (not (is_word (code c))) s)

collapse-words :
    (run : Bool) (s : String)
    → all_chars is_word s ≡ true
    → all_chars is_word (collapse run s) ≡ true
unfolding collapse
collapse-words run String.[] h = refl
collapse-words run (String.◌∷◌ c s) h = ground (arith, collapse-words (code c == b'-') s)

-- No two dashes in a row, nor one at the front if `run`.
abbrev single : Bool → String → Bool
single run String.[] = true
single run (String.◌∷◌ c s) = not (run && code c == b'-') && single (code c == b'-') s

single_weaken : (s : String) → single true s ≡ true → single false s ≡ true
single_weaken String.[] h = refl
single_weaken (String.◌∷◌ c s) h = ground arith

collapse-single : (run : Bool) (s : String) → single run (collapse run s) ≡ true
unfolding collapse
collapse-single run String.[] = refl
collapse-single run (String.◌∷◌ c s) = ground (arith, collapse-single (code c == b'-') s)

single_fixed : (run : Bool) (s : String) → single run s ≡ true → collapse run s ≡ s
unfolding collapse
single_fixed run String.[] h = refl
single_fixed run (String.◌∷◌ c s) h = ground (arith, single_fixed (code c == b'-') s)

module _ (p : ℕ → Bool) where
  trim-single :
      (run : Bool) (c : Char) (r : String)
      → not (run && code c == b'-') ≡ true
      → single (code c == b'-') r ≡ true
      → single run (trim p c r) ≡ true
  unfolding trim
  trim-single run c String.[] h k = elim (Bool-cases (p (code c))) [
    | inl e ↦ rw e
    | inr e ↦ rw e (ground arith)
  ]
  trim-single run c (String.◌∷◌ d r) h k = ground arith

  rstrip_by-single :
      (run : Bool) (s : String) → single run s ≡ true → single run (rstrip_by p s) ≡ true
  unfolding rstrip_by
  rstrip_by-single run String.[] h = refl
  rstrip_by-single run (String.◌∷◌ c s) h =
      trim-single run c (rstrip_by p s) (ground arith)
        (rstrip_by-single (code c == b'-') s (ground arith))

  lstrip_by-single : (s : String) → single false s ≡ true → single false (lstrip_by p s) ≡ true
  unfolding lstrip_by
  lstrip_by-single String.[] h = refl
  lstrip_by-single (String.◌∷◌ c s) h = ground (arith, lstrip_by-single s, single_weaken s)

  strip_by-single : (s : String) → single false s ≡ true → single false (strip_by p s) ≡ true
  unfolding strip_by
  strip_by-single s h = lstrip_by-single (rstrip_by p s) (rstrip_by-single false s h)

core : String → String
core value = strip_by is_edge (collapse false (sub_runs false (strip_by is_space value)))

core-words : (value : String) → all_chars is_word (core value) ≡ true
unfolding core
core-words value =
    strip_by-all is_edge is_word _
      (collapse-words false _ (sub_runs-words false (strip_by is_space value)))

core_idem : (value : String) → core (core value) ≡ core value
unfolding core
core_idem value =
    let s = strip_by is_edge (collapse false (sub_runs false (strip_by is_space value))) in
    let words : all_chars is_word s ≡ true = core-words value in
    let spaces : strip_by is_space s ≡ s =
      strip_by_fixed is_space s
        (all_chars_mono is_word (λ c. not (is_space c)) s (λ c h. rw (word_no_space c h)) words) in
    let dashes : collapse false s ≡ s = single_fixed false s (
      strip_by-single is_edge _
        (collapse-single false (sub_runs false (strip_by is_space value)))) in
    rw (spaces, sub_runs_fixed false s words, dashes) (strip_by_idem is_edge _)

sanitize-core :
    (value : String)
    → sanitize_identifier value ≡ (if is_empty (core value) then "task" else core value)
unfolding sanitize_identifier core
sanitize-core value = refl

word_tail-words : (s : String) → all_chars is_word s ≡ true → word_tail s ≡ true
unfolding word_tail
word_tail-words String.[] h = refl
word_tail-words (String.◌∷◌ c s) h = ground (arith, word_tail-words s)

pub words_match :
    (s : String) → all_chars is_word s ≡ true → is_empty s ≡ false → identifier_match s ≡ true
unfolding identifier_match
words_match String.[] h n = cc
words_match (String.◌∷◌ c s) h n = ground (arith, word_tail-words s)

-- Whatever the value, the sanitized text matches IDENTIFIER_RE.
pub sanitize-identifier_match :
    (value : String) → identifier_match (sanitize_identifier value) ≡ true
sanitize-identifier_match value = elim (Bool-cases (is_empty (core value))) [
  | inl e ↦ rw (sanitize-core value, e) task_match
  | inr e ↦ rw (sanitize-core value, e) (words_match (core value) (core-words value) e)
]
  where
    task_match : identifier_match "task" ≡ true
    task_match = unfold identifier_match in refl

-- Sanitizing twice is sanitizing once.
sanitize_idem :
    (value : String) → sanitize_identifier (sanitize_identifier value) ≡ sanitize_identifier value
sanitize_idem value = elim (Bool-cases (is_empty (core value))) [
  | inl e ↦ rw (sanitize-core value, e) task_fixed
  | inr e ↦ rw (sanitize-core value, e, sanitize-core (core value), core_idem value, e)
]
  where
    task_fixed : sanitize_identifier "task" ≡ "task"
    task_fixed = unfold sanitize_identifier in refl
