-- ===== src/Recovery/Machine/Moves.antt =====
-- The two ways in which `transition` of orchestrator/bin/recovery_state_machine.py ends, and the rows
-- that it leaves.
use ai_devops.Common.{
  ℕ, suc, ◌<◌, String, str_eq, eq_iff, true, false, ◌⊎◌, Option, none, some, ◌≡◌, refl, arith,
  if◌then◌else◌, Option-cases, Bool-cases, inl, inr, ◌∙◌, ap, sym,
}
use ai_devops.Common.Assoc.{lookup, insert, lookup-insert}
use ai_devops.Common.Dict.{Dict}
use ai_devops.Recovery.Seconds.{Seconds}
use ai_devops.Recovery.Data.{RecoveryState, valid_transition, RecoveryConfig, RecoveryContext}
use ai_devops.Recovery.Machine.Steps.{
  transition_done, transition_refused, get_context-rows, enter-task_id,
}
use ai_devops.Recovery.Machine.{
  TaskRow, Machine, Callbacks, Readings, get_context, enter, refusal, persist_context, perform,
  announce, transition,
}

module _ (S : Seconds) (cfg : RecoveryConfig S.F) where
  open S use {F, lt, lt_irrefl}

  allowed :
      (c : RecoveryContext F) (new : RecoveryState) (at : F)
      → refusal S cfg c new at ≡ none
      → valid_transition c.state new ≡ true
  unfolding refusal
  allowed c new at e = ground arith

  -- Into `recovering` only with attempts left.
  abbrev pub HasRoom : RecoveryState → ℕ → Type 0
  HasRoom RecoveryState.recovering n = n < cfg.max_recovery_attempts
  HasRoom new n = Unit

  room :
      (c : RecoveryContext F) (new : RecoveryState) (at : F)
      → refusal S cfg c new at ≡ none
      → HasRoom new c.attempts
  unfolding refusal
  room c RecoveryState.recovering at e = ground arith
  room c RecoveryState.detecting at e = tt
  room c RecoveryState.recovered at e = tt
  room c RecoveryState.failed at e = tt

  -- One more attempt is counted on the way into `recovering`.
  abbrev pub attempts_after : RecoveryState → ℕ → ℕ
  attempts_after RecoveryState.recovering n = suc n
  attempts_after new n = n

  enter_lem :
      (c : RecoveryContext F) (new : RecoveryState) (error : Option String) (now : Readings F)
      → ((enter S c new error now).state ≡ new)
        × ((enter S c new error now).attempts ≡ attempts_after new c.attempts)
        × ((enter S c new error now).last_error ≡ error)
  unfolding enter
  enter_lem c RecoveryState.recovering error now = (refl, refl, refl)
  enter_lem c RecoveryState.detecting error now = (refl, refl, refl)
  enter_lem c RecoveryState.recovered error now = (refl, refl, refl)
  enter_lem c RecoveryState.failed error now = (refl, refl, refl)

  pub transition_cases :
      (hooks : Callbacks) (m : Machine F) (task_id : String) (new : RecoveryState)
      (error : Option String) (now : Readings F)
      → ((c' : RecoveryContext F) × ((transition S cfg hooks m task_id new error now).1 ≡ true)
          × (valid_transition (get_context m task_id).1.state new ≡ true)
          × HasRoom new (get_context m task_id).1.attempts
          × (c'.state ≡ new)
          × (c'.last_error ≡ error)
          × (c'.attempts ≡ attempts_after new (get_context m task_id).1.attempts)
          × ((k : String)
              → lookup k (transition S cfg hooks m task_id new error now).0.contexts ≡ (
                  if str_eq task_id k
                  then some c'
                  else lookup k (get_context m task_id).0.contexts)))
        ⊎ (((transition S cfg hooks m task_id new error now).1 ≡ false)
            × ((transition S cfg hooks m task_id new error now).0 ≡ (get_context m task_id).0))
  unfolding perform persist_context
  transition_cases hooks m task_id new error now =
      let c = (get_context m task_id).1 in
      elim (Option-cases (refusal S cfg c new now.at_check)) [
        | inl e ↦
            let c' = enter S c new error now in
            let lem = enter_lem c new error now in
            inl (
              c',
              rw (transition_done S cfg hooks m task_id new error now e),
              allowed c new now.at_check e,
              room c new now.at_check e,
              lem.0,
              lem.2,
              lem.1,
              λ k.
                  rw (transition_done S cfg hooks m task_id new error now e)
                    (lookup-insert task_id k c' (get_context m task_id).0.contexts),
            )
        | inr (why, e) ↦ inr (
          rw (transition_refused S cfg hooks m task_id new error now e),
          rw (transition_refused S cfg hooks m task_id new error now e),
        )
      ]

  persist_context-rows :
      (m : Machine F) (c : RecoveryContext F) (task_id k : String)
      → c.task_id ≡ task_id
      → (persist_context S m c).rows k
        ≡ (if str_eq task_id k then (persist_context S m c).rows task_id else m.rows k)
  unfolding persist_context
  persist_context-rows m c task_id k e = elim (Bool-cases (str_eq task_id k)) [
    | inl f ↦ rw f (ap (persist_context S m c).rows (sym ((eq_iff task_id k).0 f)))
    | inr f ↦ elim (Option-cases (m.rows k)) [
      | inl n ↦ ground (arith, f, n)
      | inr (row, g) ↦ ground (arith, f, g, e, eq_iff c.task_id k, eq_iff task_id k)
    ]
  ]

  perform-rows :
      (hooks : Callbacks) (m : Machine F) (task_id : String) (c : RecoveryContext F)
      (new : RecoveryState) (error : Option String) (now : Readings F) (k : String)
      → c.task_id ≡ task_id
      → (perform S hooks m task_id c new error now).rows k ≡ (
          if str_eq task_id k
          then (perform S hooks m task_id c new error now).rows task_id
          else m.rows k)
  unfolding perform
  perform-rows hooks m task_id c new error now k e =
      persist_context-rows
        (record m {
          contexts = insert task_id (enter S c new error now) m.contexts;
          trace = announce S hooks task_id (enter S c new error now) error new m.trace;
        })
        (enter S c new error now) task_id k (enter-task_id S c new error now ∙ e)

  pub transition-rows :
      (hooks : Callbacks) (m : Machine F) (task_id : String) (new : RecoveryState)
      (error : Option String) (now : Readings F) (k : String)
      → (get_context m task_id).1.task_id ≡ task_id
      → (transition S cfg hooks m task_id new error now).0.rows k ≡ (
          if str_eq task_id k
          then (transition S cfg hooks m task_id new error now).0.rows task_id
          else m.rows k)
  transition-rows hooks m task_id new error now k own =
      let same = get_context-rows m task_id in
      elim (Option-cases (refusal S cfg (get_context m task_id).1 new now.at_check)) [
        | inl e ↦
            let m' = (get_context m task_id).0 in
            let c = (get_context m task_id).1 in
            rw (transition_done S cfg hooks m task_id new error now e) (
              perform-rows hooks m' task_id c new error now k own
              ∙ ap
                  (λ (rows : Dict (TaskRow F)).
                    if str_eq task_id k
                    then (perform S hooks m' task_id c new error now).rows task_id
                    else rows k)
                  same)
        | inr (why, e) ↦
            rw (transition_refused S cfg hooks m task_id new error now e, same)
              (elim (Bool-cases (str_eq task_id k)) [
                | inl f ↦ rw (f, (eq_iff task_id k).0 f) refl
                | inr f ↦ rw f refl
              ])
      ]
