-- ===== src/PlanSchema/Graph/Counts.antt =====
-- Occurrences: what equal counts say of lengths, and the graph's edges counted by node.
use ai_devops.Common.{
  ℕ, suc, ◌+◌, ◌≤◌, String, List, [], ◌∷◌, ◌++◌, ◌≡◌, refl, true, false, arith, length, All,
  if◌then◌else◌, str_eq, eq_iff, eq_refl,
}
use ai_devops.Common.Names
use ai_devops.Common.Names.{mem, count, distinct}

-- The first `x` is taken out.
erase : String → List String → List String
erase x [] = []
erase x (y ∷ ys) = if str_eq x y then ys else y ∷ erase x ys

pub mem-count : (x : String) (xs : List String) → mem x xs ≡ true → 1 ≤ count x xs
mem-count x [] h = cc
mem-count x (y ∷ ys) h = ground (arith, mem-count x ys)

pub count-zero_of_not_mem : (x : String) (xs : List String) → mem x xs ≡ false → count x xs ≡ 0
count-zero_of_not_mem x [] h = refl
count-zero_of_not_mem x (y ∷ ys) h = ground (arith, count-zero_of_not_mem x ys)

-- In a list without repetitions a name occurs once if it is a member, and else not.
pub count-distinct :
    (x : String) (xs : List String) → distinct xs ≡ true → count x xs ≡ (if mem x xs then 1 else 0)
count-distinct x [] h = refl
count-distinct x (y ∷ ys) h =
    ground (arith, count-distinct x ys, count-zero_of_not_mem x ys, eq_iff x y, eq_iff y x)

count-erase :
    (c x : String) (ys : List String)
    → 1 ≤ count x ys
    → count c ys ≡ count c (erase x ys) + (if str_eq c x then 1 else 0)
unfolding erase
count-erase c x [] h = absurd (omega arith)
count-erase c x (y ∷ ys) h = ground (arith, count-erase c x ys, eq_iff x y, eq_iff c x, eq_iff c y)

length-erase :
    (x : String) (ys : List String) → 1 ≤ count x ys → length ys ≡ suc (length (erase x ys))
unfolding erase
length-erase x [] h = absurd (omega arith)
length-erase x (y ∷ ys) h = ground (arith, length-erase x ys)

below-tail :
    (x : String) (xs ys : List String)
    → ((c : String) → count c (x ∷ xs) ≤ count c ys)
    → (c : String) → count c xs ≤ count c (erase x ys)
below-tail x xs ys h c = ground (arith, h c, h x, count-erase c x ys, eq_refl x)

head_counted :
    (x : String) (xs ys : List String)
    → ((c : String) → count c (x ∷ xs) ≤ count c ys)
    → 1 ≤ count x ys
head_counted x xs ys h = ground (arith, h x, eq_refl x)

-- What is counted no more often is no longer.
pub length-le_of_count :
    (xs ys : List String) → ((c : String) → count c xs ≤ count c ys) → length xs ≤ length ys
length-le_of_count [] ys h = omega arith
length-le_of_count (x ∷ xs) ys h = omega (
  arith,
  length-le_of_count xs (erase x ys) (below-tail x xs ys h),
  length-erase x ys (head_counted x xs ys h),
)

-- Counted no more often and as long: counted as often.
pub count-eq_of_length :
    (xs ys : List String)
    → ((c : String) → count c xs ≤ count c ys)
    → length xs ≡ length ys
    → (c : String) → count c xs ≡ count c ys
count-eq_of_length [] [] h e c = refl
count-eq_of_length [] (y ∷ ys) h e c = absurd (omega arith)
count-eq_of_length (x ∷ xs) ys h e c =
    let present = head_counted x xs ys h in
    ground (
      arith,
      count-eq_of_length xs (erase x ys) (below-tail x xs ys h)
          (omega (arith, length-erase x ys present)) c,
      count-erase c x ys,
      present,
    )

-- How many entries of `deps` are not in `seen`.
abbrev pub pending : List String → List String → ℕ
pending seen [] = 0
pending seen (d ∷ deps) = (if mem d seen then 0 else 1) + pending seen deps

pub pending-nil : (deps : List String) → pending [] deps ≡ length deps
pending-nil [] = refl
pending-nil (d ∷ deps) = omega (arith, pending-nil deps)

-- One more name seen settles the entries that name it.
pub pending-snoc :
    (seen : List String) (x : String) (deps : List String)
    → mem x seen ≡ false
    → pending seen deps ≡ pending (seen ++ x ∷ []) deps + count x deps
pending-snoc seen x [] h = refl
pending-snoc seen x (d ∷ deps) h =
    ground
      (arith, pending-snoc seen x deps h, Names.mem-append d seen (x ∷ []), eq_iff d x, eq_iff x d)

pub pending-zero :
    (seen deps : List String) → pending seen deps ≡ 0 → All (λ d. mem d seen ≡ true) deps
pending-zero seen [] h = tt
pending-zero seen (d ∷ deps) h = (ground arith, pending-zero seen deps (ground arith))

pub pending-zero_of_All :
    (seen deps : List String) → All (λ d. mem d seen ≡ true) deps → pending seen deps ≡ 0
pending-zero_of_All seen [] h = refl
pending-zero_of_All seen (d ∷ deps) h = rw (h.0) (omega (arith, pending-zero_of_All seen deps h.1))
