-- ===== src/PlanSchema/Graph/Relax.antt =====
-- The loop over the children of a node, `relax`: what it leaves in the indegrees and in the queue.
use ai_devops.Common.{
  ℕ, zero, suc, ◌+◌, String, List, [], ◌∷◌, ◌++◌, ◌≡◌, refl, ap, ◌∙◌, true, arith, ◌&&◌, ◌==◌, some,
  All, if◌then◌else◌, eq_iff, eq_refl,
}
use ai_devops.Common.Names.{mem, count, count-append}
use ai_devops.Common.Int.{ℤ, pos}
use ai_devops.Common.Dict.{Dict, put}
use ai_devops.Common.Result.{ok}
use ai_devops.PlanSchema.Graph.{relax}

-- `left c` is the indegree that `c` has once `children` are relaxed; `listed` holds exactly the
-- nodes that have reached zero, each once.
pub record Front (nodes : List String) (left : String → ℕ) (children : List String)
    (indegree : Dict ℤ) (listed : List String) : Type 0 where
  pub degrees :
      (c : String) → mem c nodes ≡ true → indegree c ≡ some (pos (left c + count c children))
  pub zeros :
      (c : String)
      → count c listed ≡ (if mem c nodes && left c + count c children == 0 then 1 else 0)

module _ (nodes : List String) (left : String → ℕ) where
  abbrev next_out : String → List String → List String → List String
  next_out child children out =
      if left child + count child children == 0 then out ++ child ∷ [] else out

  step :
      (child : String) (children : List String) (indegree : Dict ℤ) (base out : List String)
      → mem child nodes ≡ true
      → Front nodes left (child ∷ children) indegree (base ++ out)
      → Front nodes left children
          (put indegree child (pos (left child + count child children)))
          (base ++ next_out child children out)
  step child children indegree base out m f = record {
    degrees = λ c h. ground (arith, f.degrees c h, eq_iff child c, eq_iff c child);
    zeros = λ c. ground (
      arith,
      f.zeros c,
      f.zeros child,
      count-append c base out,
      count-append c base (out ++ child ∷ []),
      count-append c out (child ∷ []),
      eq_iff c child,
      eq_refl child,
    );
  }

  one :
      (n : ℕ) (child : String) (children : List String) (indegree : Dict ℤ) (out : List String)
      → indegree child ≡ some (pos (suc n))
      → relax (child ∷ children) indegree out
        ≡ relax children (put indegree child (pos n)) (if n == 0 then out ++ child ∷ [] else out)
  unfolding relax
  one zero child children indegree out e = ground arith
  one (suc n) child children indegree out e = ground arith

  own_count :
      (child : String) (children : List String)
      → left child + count child (child ∷ children) ≡ suc (left child + count child children)
  own_count child children = ground (arith, eq_refl child)

  pub relax-Front :
      (children : List String) (indegree : Dict ℤ) (base out : List String)
      → All (λ c. mem c nodes ≡ true) children
      → Front nodes left children indegree (base ++ out)
      → (indegree' : Dict ℤ) × (out' : List String) × (relax children indegree out
          ≡ ok (indegree', out'))
        × Front nodes left [] indegree' (base ++ out')
  unfolding relax
  relax-Front [] indegree base out m f = (indegree, out, refl, f)
  relax-Front (child ∷ children) indegree base out m f =
      let (indegree', out', e, f') =
        relax-Front children (put indegree child (pos (left child + count child children))) base
          (next_out child children out) m.1 (step child children indegree base out m.0 f) in
      (
        indegree',
        out',
        one (left child + count child children) child children indegree out
              (f.degrees child m.0 ∙ ap (λ k. some (pos k)) (own_count child children))
            ∙ e,
        f',
      )
