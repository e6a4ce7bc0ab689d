-- ===== src/Dispatch/Queue/Keys.antt =====
-- The keys of the dispatch state: the ids of the subtasks that are queued, each once.
use ai_devops.Common.{
  ◌+◌, ◌≤◌, String, true, false, List, [], ◌∷◌, ◌++◌, map, length, length-map, str_eq, ◌||◌, ◌≡◌,
  refl, sym, ap, ◌∙◌, arith, eq_iff, eq_refl, Bool-cases, inl, inr, append_assoc, append-nil,
}
use ai_devops.Common.Names.{mem, count, distinct, mem-append, count-append}
use ai_devops.Common.Assoc.{Assoc, insert}
use ai_devops.PlanSchema.Graph.{ids}
use ai_devops.PlanSchema.Graph.Counts.{
  count-distinct, mem-count, count-eq_of_length, length-le_of_count, count-zero_of_not_mem,
}
use ai_devops.PlanSchema.Types.{Plan, Subtask}
use ai_devops.Dispatch.Paths.{Env}
use ai_devops.Dispatch.Tasks.{Entry}
use ai_devops.Dispatch.Queue.{Outside, is_queued, entry_of}
use ai_devops.Dispatch.Queue.Select.{is_due, selected}
use ai_devops.Dispatch.Queue.Outcome.{add_all, add_all-queued}

abbrev pub keys : Assoc Entry → List String
keys d = map (λ e. e.0) d

-- The state lists subtasks of the plan, each at most once, and each as queued.
pub record IsKept (subtasks : List Subtask) (d : Assoc Entry) : Type 0 where
  pub counted : (k : String) → count k (keys d) ≤ count k (ids subtasks)
  pub listed : (k : String) → is_queued k d ≡ mem k (keys d)

keys-insert :
    (id : String) (e : Entry) (d : Assoc Entry)
    → mem id (keys d) ≡ false
    → keys (insert id e d) ≡ keys d ++ id ∷ []
unfolding insert
keys-insert id e [] m = refl
keys-insert id e ((k, f) ∷ d) m =
    let g : str_eq k id ≡ false = ground (arith, eq_iff k id, eq_iff id k) in
    let rest = keys-insert id e d (ground arith) in rw (insert, g) (ap (λ ks. k ∷ ks) rest)

pub selected_open :
    (completed : List String) (d : Assoc Entry) (ts : List Subtask) (k : String)
    → mem k (ids (selected completed d ts)) ≡ true
    → is_queued k d ≡ false
unfolding selected is_due
selected_open completed d [] k m = cc
selected_open completed d (t ∷ ts) k m =
    let rest = selected_open completed d ts k in
    elim (Bool-cases (is_due completed d t)) [
      | inr e ↦ rest (rw (selected, e) at m)
      | inl e ↦
          let m' : mem k (ids (t ∷ selected completed d ts)) ≡ true = rw (selected, e) at m in
          ground (arith, rest, m', e, eq_iff k t.id, ap (λ x. is_queued x d) {x = k} {y = t.id})
    ]

pub selected-count :
    (completed : List String) (d : Assoc Entry) (ts : List Subtask) (k : String)
    → count k (ids (selected completed d ts)) ≤ count k (ids ts)
unfolding selected
selected-count completed d [] k = omega arith
selected-count completed d (t ∷ ts) k =
    let rest = selected-count completed d ts k in
    elim (Bool-cases (is_due completed d t)) [
      | inl e ↦ rw (selected, e) (omega (arith, rest))
      | inr e ↦ rw (selected, e) (omega (arith, rest))
    ]

module _ (env : Env) (plan : Plan) (outside : Outside) where
  -- New subtasks, all different, are added behind the old ones.
  pub keys-add_all :
      (ts : List Subtask) (d : Assoc Entry)
      → ((k : String) → count k (keys d) + count k (ids ts) ≤ 1)
      → keys (add_all env plan outside ts d) ≡ keys d ++ ids ts
  unfolding add_all
  keys-add_all [] d h = sym (append-nil (keys d))
  keys-add_all (t ∷ ts) d h =
      let e = entry_of env plan outside t in
      let absent : mem t.id (keys d) ≡ false =
        ground (arith, h t.id, eq_refl t.id, mem-count t.id (keys d)) in
      let one = keys-insert t.id e d absent in
      let more : (k : String) → count k (keys (insert t.id e d)) + count k (ids ts) ≤ 1 =
        λ k. ground (arith, h k, ap (count k) one, count-append k (keys d) (t.id ∷ [])) in
      keys-add_all ts (insert t.id e d) more
      ∙ ap (λ ks. ks ++ ids ts) one
      ∙ append_assoc (keys d) (t.id ∷ []) (ids ts)

  pub keys_grow :
      (completed : List String) (subtasks order : List Subtask) (d : Assoc Entry)
      → distinct (ids subtasks) ≡ true
      → ((k : String) → count k (ids order) ≡ count k (ids subtasks))
      → IsKept subtasks d
      → (keys (add_all env plan outside (selected completed d order) d)
          ≡ keys d ++ ids (selected completed d order))
        × IsKept subtasks (add_all env plan outside (selected completed d order) d)
  keys_grow completed subtasks order d u same h =
      let sel = selected completed d order in
      let once : (k : String) → count k (keys d) + count k (ids sel) ≤ count k (ids subtasks) = λ k.
        elim (Bool-cases (mem k (ids sel))) [
          | inl m ↦ ground (
            arith,
            selected_open completed d order k m,
            h.listed k,
            count-zero_of_not_mem k (keys d),
            selected-count completed d order k,
            same k,
          )
          | inr m ↦ ground (arith, count-zero_of_not_mem k (ids sel) m, h.counted k)
        ] in
      let grown =
        keys-add_all sel d (λ k. ground (arith, once k, count-distinct k (ids subtasks) u)) in
      (
        grown,
        record {
          counted =
              λ k. ground (arith, once k, ap (count k) grown, count-append k (keys d) (ids sel));
          listed = λ k.
              add_all-queued env plan outside sel d k
              ∙ ap (λ b. b || mem k (ids sel)) (h.listed k)
              ∙ sym (mem-append k (keys d) (ids sel))
              ∙ sym (ap (mem k) grown);
        },
      )

-- A state with every subtask queued has as many entries as the plan has subtasks, and conversely.
pub full_length :
    (subtasks : List Subtask) (d : Assoc Entry)
    → distinct (ids subtasks) ≡ true
    → IsKept subtasks d
    → ((k : String) → mem k (ids subtasks) ≡ true → is_queued k d ≡ true)
    → length d ≡ length subtasks
full_length subtasks d u h all =
    let below = length-le_of_count (keys d) (ids subtasks) h.counted in
    let above = length-le_of_count (ids subtasks) (keys d) (λ k.
      ground (arith, count-distinct k (ids subtasks) u, all k, h.listed k, mem-count k (keys d))) in
    omega (
      arith,
      below,
      above,
      length-map (λ (e : String × Entry). e.0) d,
      length-map (λ (t : Subtask). t.id) subtasks,
    )

pub length_full :
    (subtasks : List Subtask) (d : Assoc Entry)
    → IsKept subtasks d
    → length d ≡ length subtasks
    → (k : String) → mem k (ids subtasks) ≡ true
    → is_queued k d ≡ true
length_full subtasks d h e k m =
    let same =
      count-eq_of_length (keys d) (ids subtasks) h.counted
        (length-map (λ (x : String × Entry). x.0) d
          ∙ e
          ∙ sym (length-map (λ (t : Subtask). t.id) subtasks))
        k in
    ground (arith, same, h.listed k, mem-count k (ids subtasks) m, count-zero_of_not_mem k (keys d))
