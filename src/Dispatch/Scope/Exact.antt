-- ===== src/Dispatch/Scope/Exact.antt =====
-- What _validate_subtask_scope of orchestrator/bin/dispatch.py accepts.
use ai_devops.Common.{
  String, Bool, true, false, List, [], ◌∷◌, ◌≡◌, refl, ◌↔◌, ◌⊎◌, inl, inr, arith, not, ◌&&◌, ◌||◌,
  All, Bool-cases, take,
}
use ai_devops.Common.Result.{Result, ok, ◌>>=◌}
use ai_devops.PlanSchema.Json.{get}
use ai_devops.PlanSchema.Types.{Plan, Subtask}
use ai_devops.Dispatch.Paths.{Env, any_of}
use ai_devops.Dispatch.Scope.{
  DispatchError, dict_or_empty, no_fields, no_paths, where_true, allowed_of, forbidden_of,
  must_touch_of, matches_any, require, check_scope, validate_subtask_scope,
}

-- The plan has a task specification, the subtask names files, each of them is under an allowed path
-- if there are any, none is under a forbidden one, and one is under a path that must be touched if
-- there are any.
pub record InScope (env : Env) (plan : Plan) (t : Subtask) : Type 0 where
  pub specified : no_fields (dict_or_empty (get plan.context "taskSpec")) ≡ false
  pub hinted : no_paths t.files_hint ≡ false
  pub inside :
      All
        (λ p.
          (no_paths (allowed_of env plan) ≡ true)
          ⊎ (matches_any env (allowed_of env plan) p ≡ true))
        t.files_hint
  pub clear : All (λ p. matches_any env (forbidden_of env plan) p ≡ false) t.files_hint
  pub touches :
      (no_paths (must_touch_of env plan) ≡ true)
      ⊎ (any_of (matches_any env (must_touch_of env plan)) t.files_hint ≡ true)

-- The plan names no path at all.
pub record Unscoped (env : Env) (plan : Plan) : Type 0 where
  pub no_allowed : no_paths (allowed_of env plan) ≡ true
  pub no_forbidden : no_paths (forbidden_of env plan) ≡ true
  pub no_must_touch : no_paths (must_touch_of env plan) ≡ true

none_where :
    (test : String → Bool) (xs : List String)
    → no_paths (where_true test xs) ≡ true
    → All (λ x. test x ≡ false) xs
unfolding where_true no_paths
none_where test [] h = tt
none_where test (x ∷ xs) h = elim (Bool-cases (test x)) [
  | inl e ↦ absurd (cc (rw (where_true, e) at h))
  | inr e ↦ (e, none_where test xs (rw (where_true, e) at h))
]

where_none :
    (test : String → Bool) (xs : List String)
    → All (λ x. test x ≡ false) xs
    → no_paths (where_true test xs) ≡ true
unfolding where_true no_paths
where_none test [] h = refl
where_none test (x ∷ xs) h = rw (where_true, h.0) (where_none test xs h.1)

All-map :
    {P Q : String → Type 0} (xs : List String) → ((x : String) → P x → Q x) → All P xs → All Q xs
All-map [] f h = tt
All-map (x ∷ xs) f h = (f x h.0, All-map xs f h.1)

require-split :
    (b : Bool) (e : DispatchError) (rest : Result DispatchError (Unit {0}))
    → (require b e >>= λ _. rest) ≡ ok tt
    → (b ≡ true) × (rest ≡ ok tt)
unfolding require
require-split true e rest h = (refl, h)
require-split false e rest h = cc

require-join :
    (b : Bool) (e : DispatchError) (rest : Result DispatchError (Unit {0}))
    → b ≡ true
    → rest ≡ ok tt
    → (require b e >>= λ _. rest) ≡ ok tt
unfolding require
require-join true e rest h k = k
require-join false e rest h k = cc

require_ok : (b : Bool) (e : DispatchError) → (require b e ≡ ok tt) ↔ (b ≡ true)
unfolding require
require_ok true e = (λ h. refl, λ h. refl)
require_ok false e = (λ h. cc, λ h. cc)

module _ (env : Env) (plan : Plan) (t : Subtask) where
  abbrev has_spec : Bool
  has_spec = not (no_fields (dict_or_empty (get plan.context "taskSpec")))

  abbrev has_hints : Bool
  has_hints = not (no_paths t.files_hint)

  abbrev outside : List String
  outside =
      where_true
        (λ p. not (no_paths (allowed_of env plan)) && not (matches_any env (allowed_of env plan) p))
        t.files_hint

  abbrev hits : List String
  hits = where_true (matches_any env (forbidden_of env plan)) t.files_hint

  abbrev touched : Bool
  touched =
      no_paths (must_touch_of env plan)
      || any_of (matches_any env (must_touch_of env plan)) t.files_hint

  or_true : (a b : Bool) → (a || b) ≡ true → (a ≡ true) ⊎ (b ≡ true)
  or_true true b h = inl refl
  or_true false b h = inr h

  true_or : (a b : Bool) → (a ≡ true) ⊎ (b ≡ true) → (a || b) ≡ true
  true_or true b h = refl
  true_or false b (inl h) = cc
  true_or false b (inr h) = h

  or_matches :
      (p : String)
      → (not (no_paths (allowed_of env plan)) && not (matches_any env (allowed_of env plan) p))
        ≡ false
      → (no_paths (allowed_of env plan) ≡ true) ⊎ (matches_any env (allowed_of env plan) p ≡ true)
  or_matches p h = elim (Bool-cases (no_paths (allowed_of env plan))) [
    | inl e ↦ inl e
    | inr e ↦ inr (ground (arith, e, h))
  ]

  matches_or :
      (p : String)
      → (no_paths (allowed_of env plan) ≡ true) ⊎ (matches_any env (allowed_of env plan) p ≡ true)
      → (not (no_paths (allowed_of env plan)) && not (matches_any env (allowed_of env plan) p))
        ≡ false
  matches_or p (inl e) = ground (arith, e)
  matches_or p (inr e) = ground (arith, e)

  check_ok :
      check_scope env
          (allowed_of env plan)
          (forbidden_of env plan)
          (must_touch_of env plan)
          (dict_or_empty (get plan.context "taskSpec"))
          t
        ≡ ok tt
      → InScope env plan t
  unfolding check_scope
  check_ok h =
      let (a, h1) = require-split has_spec (DispatchError.no_task_spec t.id) _ h in
      let (b, h2) = require-split has_hints (DispatchError.no_files_hint t.id) _ h1 in
      let (c, h3) =
        require-split (no_paths outside) (DispatchError.outside_allowed t.id (take 5 outside)) _
          h2 in
      let (d, h4) =
        require-split (no_paths hits) (DispatchError.hits_forbidden t.id (take 5 hits)) _ h3 in
      let e = (require_ok touched (DispatchError.misses_must_touch t.id)).0 h4 in
      record {
        specified = ground (arith, a);
        hinted = ground (arith, b);
        inside = All-map t.files_hint (λ p f. or_matches p f) (none_where _ t.files_hint c);
        clear = none_where (matches_any env (forbidden_of env plan)) t.files_hint d;
        touches = or_true _ _ e;
      }

  ok_check :
      InScope env plan t
      → check_scope env
          (allowed_of env plan)
          (forbidden_of env plan)
          (must_touch_of env plan)
          (dict_or_empty (get plan.context "taskSpec"))
          t
        ≡ ok tt
  unfolding check_scope
  ok_check s =
      require-join has_spec (DispatchError.no_task_spec t.id) _ (ground (arith, s.specified)) (
        require-join has_hints (DispatchError.no_files_hint t.id) _ (ground (arith, s.hinted)) (
          require-join (no_paths outside) (DispatchError.outside_allowed t.id (take 5 outside)) _
            (where_none _ t.files_hint (All-map t.files_hint (λ p f. matches_or p f) s.inside))
            (require-join (no_paths hits) (DispatchError.hits_forbidden t.id (take 5 hits)) _
              (where_none _ t.files_hint s.clear)
              ((require_ok touched (DispatchError.misses_must_touch t.id)).1
                (true_or _ _ s.touches)))))

-- A subtask's scope is accepted exactly if the plan names no paths, or the subtask is in scope.
pub scope_iff :
    (env : Env) (plan : Plan) (t : Subtask)
    → (validate_subtask_scope env plan t ≡ ok tt) ↔ (Unscoped env plan ⊎ InScope env plan t)
unfolding validate_subtask_scope
scope_iff env plan t =
    let none =
      no_paths (allowed_of env plan)
      && no_paths (forbidden_of env plan)
      && no_paths (must_touch_of env plan) in
    elim (Bool-cases none) [
      | inl e ↦ (
        λ h. inl (record {
          no_allowed = ground (arith, e);
          no_forbidden = ground (arith, e);
          no_must_touch = ground (arith, e);
        }),
        λ h. rw (validate_subtask_scope, e) refl,
      )
      | inr e ↦ (
        λ h. inr (check_ok env plan t (rw (validate_subtask_scope, e) at h)),
        λ h. elim h [
          | inl u ↦ absurd (ground (arith, e, u.no_allowed, u.no_forbidden, u.no_must_touch))
          | inr s ↦ rw (validate_subtask_scope, e) (ok_check env plan t s)
        ],
      )
    ]
