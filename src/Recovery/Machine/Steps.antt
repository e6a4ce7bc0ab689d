-- ===== src/Recovery/Machine/Steps.antt =====
-- What one call does, as equations: the two ways through `get_context` and through `transition`.
use ai_devops.Common.{
  String, str_eq, eq_refl, true, false, Option, none, some, ◌≡◌, refl, arith, Option-cases,
  Bool-cases, ◌⊎◌, inl, inr,
}
use ai_devops.Common.Assoc.{lookup, insert, lookup-insert}
use ai_devops.Recovery.Seconds.{Seconds}
use ai_devops.Recovery.Data.{RecoveryState, RecoveryConfig, RecoveryContext, from_dict-to_dict}
use ai_devops.Recovery.Machine.{
  Machine, Callbacks, Readings, Refusal, enter, stored_context, get_context, or_fresh, refusal,
  can_transition, persist_context, perform, transition,
}

module _ {F : Type 0} where
  pub get_context_hit :
      (m : Machine F) (task_id : String) (c : RecoveryContext F)
      → lookup task_id m.contexts ≡ some c
      → get_context m task_id ≡ (m, c)
  unfolding get_context
  get_context_hit m task_id c e = rw (e, get_context)

  pub get_context_miss :
      (m : Machine F) (task_id : String)
      → lookup task_id m.contexts ≡ none
      → get_context m task_id ≡ (
        record m {
          contexts = insert task_id (or_fresh task_id (stored_context (m.rows task_id))) m.contexts;
        },
        or_fresh task_id (stored_context (m.rows task_id)),
      )
  unfolding get_context
  get_context_miss m task_id e = rw (e, get_context)

  -- The context that `get_context` returns is then in the cache.
  pub get_context_cached :
      (m : Machine F) (task_id : String)
      → lookup task_id (get_context m task_id).0.contexts ≡ some (get_context m task_id).1
  get_context_cached m task_id = elim (Option-cases (lookup task_id m.contexts)) [
    | inl e ↦ rw (get_context_miss m task_id e) (
        ground (
          arith,
          lookup-insert task_id task_id (or_fresh task_id (stored_context (m.rows task_id)))
              m.contexts,
          eq_refl task_id,
        ))
    | inr (c, e) ↦ rw (get_context_hit m task_id c e) e
  ]

  pub get_context_again :
      (m : Machine F) (task_id : String)
      → get_context (get_context m task_id).0 task_id ≡ get_context m task_id
  get_context_again m task_id =
      get_context_hit (get_context m task_id).0 task_id (get_context m task_id).1
        (get_context_cached m task_id)

  pub get_context-rows : (m : Machine F) (k : String) → (get_context m k).0.rows ≡ m.rows
  get_context-rows m k = elim (Option-cases (lookup k m.contexts)) [
    | inl e ↦ rw (get_context_miss m k e)
    | inr (c, e) ↦ rw (get_context_hit m k c e)
  ]

pub enter-task_id :
    (S : Seconds) (c : RecoveryContext S.F) (new : RecoveryState) (error : Option String)
    (now : Readings S.F)
    → (enter S c new error now).task_id ≡ c.task_id
unfolding enter
enter-task_id S c RecoveryState.recovering error now = refl
enter-task_id S c RecoveryState.detecting error now = refl
enter-task_id S c RecoveryState.recovered error now = refl
enter-task_id S c RecoveryState.failed error now = refl

module _ (S : Seconds) (cfg : RecoveryConfig S.F) (hooks : Callbacks) (m : Machine S.F)
    (task_id : String) (new : RecoveryState) (error : Option String) (now : Readings S.F) where
  pub transition_refused :
      {why : Refusal}
      → refusal S cfg (get_context m task_id).1 new now.at_check ≡ some why
      → transition S cfg hooks m task_id new error now ≡ ((get_context m task_id).0, false)
  unfolding transition can_transition
  transition_refused e = rw (e, transition)

  pub transition_done :
      refusal S cfg (get_context m task_id).1 new now.at_check ≡ none
      → transition S cfg hooks m task_id new error now ≡ (
        perform S hooks (get_context m task_id).0 task_id (get_context m task_id).1 new error now,
        true,
      )
  unfolding transition can_transition
  transition_done e = rw (e, transition, get_context_again m task_id)

module _ (S : Seconds) (m : Machine S.F) (c : RecoveryContext S.F) where
  -- A write is what is read back, where the task has a row; other tasks keep theirs.
  pub stored_context-persist :
      (k : String)
      → (stored_context ((persist_context S m c).rows k) ≡ stored_context (m.rows k))
        ⊎ (stored_context ((persist_context S m c).rows k) ≡ some c)
  unfolding stored_context persist_context
  stored_context-persist k = elim (Option-cases (m.rows k)) [
    | inl e ↦ inl (ground (arith, e))
    | inr (row, e) ↦ elim (Bool-cases (str_eq c.task_id k)) [
      | inl h ↦ inr (ground (arith, e, h, from_dict-to_dict c))
      | inr h ↦ inl (ground (arith, e, h))
    ]
  ]
