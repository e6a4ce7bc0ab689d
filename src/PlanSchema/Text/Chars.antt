-- ===== src/PlanSchema/Text/Chars.antt =====
-- What stripping leaves of the characters of a text.
use Prim.Native.Char.{Char, code}
use Prim.Native.String.{String}
use ai_devops.Common.{
  ℕ, Bool, true, false, ◌&&◌, not, ◌≡◌, refl, ◌∙◌, ap, arith, Bool-cases, inl, inr,
}
use ai_devops.PlanSchema.Text.{trim, lstrip_by, rstrip_by, strip_by, is_space, is_word}

-- Every character satisfies `q`.
abbrev pub all_chars : (ℕ → Bool) → String → Bool
all_chars q String.[] = true
all_chars q (String.◌∷◌ c s) = q (code c) && all_chars q s

pub word_no_space : (c : ℕ) → is_word c ≡ true → is_space c ≡ false
unfolding is_word is_space
word_no_space c h = ground arith

pub all_chars_mono :
    (q r : ℕ → Bool) (s : String)
    → ((c : ℕ) → q c ≡ true → r c ≡ true)
    → all_chars q s ≡ true
    → all_chars r s ≡ true
all_chars_mono q r String.[] h k = refl
all_chars_mono q r (String.◌∷◌ c s) h k = ground (arith, h (code c), all_chars_mono q r s h)

module _ (p : ℕ → Bool) where
  trim-all :
      (q : ℕ → Bool) (c : Char) (r : String)
      → q (code c) ≡ true
      → all_chars q r ≡ true
      → all_chars q (trim p c r) ≡ true
  unfolding trim
  trim-all q c String.[] h k = elim (Bool-cases (p (code c))) [
    | inl e ↦ rw e
    | inr e ↦ rw e (ground arith)
  ]
  trim-all q c (String.◌∷◌ d r) h k = ground arith

  rstrip_by-all :
      (q : ℕ → Bool) (s : String) → all_chars q s ≡ true → all_chars q (rstrip_by p s) ≡ true
  unfolding rstrip_by
  rstrip_by-all q String.[] h = refl
  rstrip_by-all q (String.◌∷◌ c s) h =
      trim-all q c (rstrip_by p s) (ground arith) (rstrip_by-all q s (ground arith))

  lstrip_by-all :
      (q : ℕ → Bool) (s : String) → all_chars q s ≡ true → all_chars q (lstrip_by p s) ≡ true
  unfolding lstrip_by
  lstrip_by-all q String.[] h = refl
  lstrip_by-all q (String.◌∷◌ c s) h = ground (arith, lstrip_by-all q s)

  pub strip_by-all :
      (q : ℕ → Bool) (s : String) → all_chars q s ≡ true → all_chars q (strip_by p s) ≡ true
  unfolding strip_by
  strip_by-all q s h = lstrip_by-all q (rstrip_by p s) (rstrip_by-all q s h)

  rstrip_by-trim :
      (c : Char) (r : String) → rstrip_by p r ≡ r → rstrip_by p (trim p c r) ≡ trim p c r
  unfolding rstrip_by
  rstrip_by-trim c String.[] h = elim (Bool-cases (p (code c))) [
    | inl e ↦ rw e
    | inr e ↦ rw e (rw e)
  ]
  rstrip_by-trim c (String.◌∷◌ d r) h = ap (trim p c) h

  rstrip_by_idem : (s : String) → rstrip_by p (rstrip_by p s) ≡ rstrip_by p s
  unfolding rstrip_by
  rstrip_by_idem String.[] = refl
  rstrip_by_idem (String.◌∷◌ c s) = rstrip_by-trim c (rstrip_by p s) (rstrip_by_idem s)

  trim-tail : (c : Char) (r s : String) → trim p c r ≡ String.◌∷◌ c s → r ≡ s
  unfolding trim
  trim-tail c String.[] s h = elim (Bool-cases (p (code c))) [
    | inl e ↦ cc (rw e at h)
    | inr e ↦ cc (rw e at h)
  ]
  trim-tail c (String.◌∷◌ d r) s h = cc

  rstrip_by-tail :
      (c : Char) (s : String) → rstrip_by p (String.◌∷◌ c s) ≡ String.◌∷◌ c s → rstrip_by p s ≡ s
  unfolding rstrip_by
  rstrip_by-tail c s h = trim-tail c (rstrip_by p s) s h

  -- The front of what `rstrip_by` keeps can be dropped before or after.
  lstrip_by-rstrip_by :
      (s : String) → rstrip_by p s ≡ s → rstrip_by p (lstrip_by p s) ≡ lstrip_by p s
  unfolding lstrip_by
  lstrip_by-rstrip_by String.[] h = h
  lstrip_by-rstrip_by (String.◌∷◌ c s) h =
      ground (arith, h, rstrip_by-tail c s h, lstrip_by-rstrip_by s)

  lstrip_by_idem : (s : String) → lstrip_by p (lstrip_by p s) ≡ lstrip_by p s
  unfolding lstrip_by
  lstrip_by_idem String.[] = refl
  lstrip_by_idem (String.◌∷◌ c s) = ground (arith, lstrip_by_idem s)

  pub strip_by_idem : (s : String) → strip_by p (strip_by p s) ≡ strip_by p s
  unfolding strip_by
  strip_by_idem s =
      ap (lstrip_by p) (lstrip_by-rstrip_by (rstrip_by p s) (rstrip_by_idem s))
      ∙ lstrip_by_idem (rstrip_by p s)

  trim_fixed : (c : Char) (r : String) → p (code c) ≡ false → trim p c r ≡ String.◌∷◌ c r
  unfolding trim
  trim_fixed c String.[] h = ground arith
  trim_fixed c (String.◌∷◌ d r) h = refl

  rstrip_by_fixed : (s : String) → all_chars (λ c. not (p c)) s ≡ true → rstrip_by p s ≡ s
  unfolding rstrip_by
  rstrip_by_fixed String.[] h = refl
  rstrip_by_fixed (String.◌∷◌ c s) h =
      trim_fixed c (rstrip_by p s) (ground arith)
      ∙ ap (String.◌∷◌ c) (rstrip_by_fixed s (ground arith))

  lstrip_by_fixed : (s : String) → all_chars (λ c. not (p c)) s ≡ true → lstrip_by p s ≡ s
  unfolding lstrip_by
  lstrip_by_fixed String.[] h = refl
  lstrip_by_fixed (String.◌∷◌ c s) h = ground arith

  -- A text with nothing to strip is left as it is.
  pub strip_by_fixed : (s : String) → all_chars (λ c. not (p c)) s ≡ true → strip_by p s ≡ s
  unfolding strip_by
  strip_by_fixed s h = ap (lstrip_by p) (rstrip_by_fixed s h) ∙ lstrip_by_fixed s h
