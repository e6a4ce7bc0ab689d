-- ===== src/Release/Worker/Restores.antt =====
-- What the worker of apps/release_worker/service.py leaves when the audit of a change raises.
use ai_devops.Common.{
  String, str_eq, eq_iff, subst, arith, Bool-cases, Bool, false, Option, none, some, ◌≡◌, refl, sym,
  ◌∙◌, inl, inr, if◌then◌else◌,
}
use ai_devops.Common.Assoc.{Assoc, insert}
use ai_devops.Common.Result.{err}
use ai_devops.Release.Mutation.{Action, apply, undo}
use ai_devops.Release.Store.{Release}
use ai_devops.Release.Worker.{
  Worker, Audit, Faults, Env, read_release, read_from, save_in, persist_release, rollback_release,
  record_audit, publish_stage, change, advance, advanced, is_final,
}
use ai_devops.Release.Worker.Reads.{Belongs, IsValid, read-Belongs}
use ai_devops.Release.Worker.Changes.{read-save, read-save_ok, save_in-Stored}

-- Nothing is sent and nothing reads differently.
pub record Untouched (later : String → String → Bool) (w w' : Worker) : Type 0 where
  pub reads : (k : String) → read_release later k w' ≡ read_release later k w
  pub audits : w'.audits ≡ w.audits
  pub applied : w'.applied ≡ w.applied
  pub alerts : w'.alerts ≡ w.alerts

save_in-clear :
    (E : Type 0) (r : Release) (store : Option (Assoc Release))
    → (save_in {E = E} none r store).1 ≡ none
unfolding save_in
save_in-clear E r none = refl
save_in-clear E r (some rows) = refl

pub persist-clear :
    (E : Type 0) (wid : String) (r : Release) (w : Worker)
    → (persist_release {E = E} none wid r w).1 ≡ none
unfolding persist_release
persist-clear E wid r w = save_in-clear E r w.store

pub rollback-clear :
    (E : Type 0) (wid : String) (r : Release) (w : Worker)
    → (rollback_release {E = E} none wid (some r) w).1 ≡ none
unfolding rollback_release
rollback-clear E wid r w = save_in-clear E r w.store

module _ (E : Type 0) (later : String → String → Bool) where
  -- The write and the rollback after it, both without a fault.
  there_and_back :
      (wid : String) (q updated : Release) (w : Worker)
      → IsValid w
      → read_release later wid w ≡ some q
      → Belongs wid updated
      → Untouched later w
          (rollback_release {E = E} none wid
            (some q)
            (persist_release {E = E} none wid updated w).0).0
  unfolding persist_release rollback_release read_release
  there_and_back wid q updated w v p b =
      let own = read-Belongs later wid w q v p in
      let s1 = (save_in {E = E} none updated w.store).0 in
      let c1 = insert wid updated w.releases in
      let v1 = save_in-Stored {E = E} none wid updated w.store b v.stored in
      record {
        reads = λ k. elim (Bool-cases (str_eq wid k)) [
          | inl f ↦
              subst
                (λ x.
                  read_from later (save_in {E = E} none q s1).0 (insert wid q c1) x
                  ≡ read_from later w.store w.releases x)
                ((eq_iff wid k).0 f) (read-save_ok later E wid q s1 c1 own v1 ∙ sym p)
          | inr f ↦ elim (read-save later E none wid q s1 c1 k own v1) [
            | inr (g, e) ↦ absurd (ground (arith, f, g, eq_iff wid k))
            | inl e ↦ elim (read-save later E none wid updated w.store w.releases k b v.stored) [
              | inr (g, d) ↦ absurd (ground (arith, f, g, eq_iff wid k))
              | inl d ↦ e ∙ d
            ]
          ]
        ];
        audits = refl;
        applied = refl;
        alerts = refl;
      }

  -- The exceptions of a call in which only the audit raises.
  abbrev audit_only : E → Option E → Faults E
  audit_only e published = record {
    on_save = none;
    on_restore = none;
    on_audit = some e;
    on_publish = published;
  }

  audit_only-eq :
      (faults : Faults E) (e : E)
      → faults.on_save ≡ none
      → faults.on_audit ≡ some e
      → faults.on_restore ≡ none
      → faults ≡ audit_only e faults.on_publish
  audit_only-eq faults e hs ha hr = ground arith

  audit_only_restores :
      (e : E) (published : Option E) (wid : String) (q updated : Release) (audit : Audit)
      (publish : Action Worker E) (w : Worker)
      → IsValid w
      → read_release later wid w ≡ some q
      → Belongs wid updated
      → ((change (audit_only e published) wid (some q) updated audit publish w).1 ≡ some e)
        × Untouched later w (change (audit_only e published) wid (some q) updated audit publish w).0
  unfolding change apply undo record_audit
  audit_only_restores e published wid q updated audit publish w v p b =
      let w1 = (persist_release {E = E} none wid updated w).0 in
      let one : (persist_release {E = E} none wid updated w).1 ≡ none =
        persist-clear E wid updated w in
      let two : (rollback_release {E = E} none wid (some q) w1).1 ≡ none =
        rollback-clear E wid q w1 in
      rw (apply, one, undo, two) (refl, there_and_back wid q updated w v p b)

  pub change_restores :
      (faults : Faults E) (wid : String) (q updated : Release) (audit : Audit)
      (publish : Action Worker E) (w : Worker) (e : E)
      → IsValid w
      → read_release later wid w ≡ some q
      → Belongs wid updated
      → faults.on_save ≡ none
      → faults.on_audit ≡ some e
      → faults.on_restore ≡ none
      → ((change faults wid (some q) updated audit publish w).1 ≡ some e)
        × Untouched later w (change faults wid (some q) updated audit publish w).0
  change_restores faults wid q updated audit publish w e v p b hs ha hr =
      subst
        (λ f.
          ((change f wid (some q) updated audit publish w).1 ≡ some e)
          × Untouched later w (change f wid (some q) updated audit publish w).0)
        (sym (audit_only-eq faults e hs ha hr))
        (audit_only_restores e faults.on_publish wid q updated audit publish w v p b)

-- For a worker whose releases stand under their own work items: if the audit of an advance of a
-- release that is not final raises, and the store does not, then advance raises the same exception,
-- every release is read as before it, and no audit, no flag and no alert is left behind.
pub advance_restores :
    {E N : Type 0} (env : Env N) (wid : String) (faults : Faults E) (w : Worker) (r : Release)
    (e : E)
    → IsValid w
    → read_release env.later wid w ≡ some r
    → is_final r ≡ false
    → faults.on_save ≡ none
    → faults.on_audit ≡ some e
    → faults.on_restore ≡ none
    → ((advance env wid faults w).1 ≡ err e) × Untouched env.later w (advance env wid faults w).0
unfolding advance advanced
advance_restores {E} env wid faults w r e v p f hs ha hr =
    let b = read-Belongs env.later wid w r v p in
    let updated = advanced env.lower r in
    let audit : Audit = record {
      entity_id = updated.release_id;
      action =
          if str_eq updated.status "succeeded"
          then "release_succeeded"
          else "release_stage_advanced";
      work_item_id = wid;
      detail = updated.stage;
    } in
    let publish = publish_stage faults.on_publish updated.release_id updated.stage in
    let done = change_restores E env.later faults wid r updated audit publish w e v p b hs ha hr in
    rw (p, f, advance, done.0) (refl, done.1)
