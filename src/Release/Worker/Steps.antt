-- ===== src/Release/Worker/Steps.antt =====
-- One call of MutationService.apply by the worker of apps/release_worker/service.py: whatever raises,
-- each release is read as it was or as it is meant to become.
use ai_devops.Common.{
  String, Bool, Option, none, some, [], ◌∷◌, ◌≡◌, refl, sym, ap, subst, ◌∙◌, ◌⊎◌, inl, inr,
  Option-cases,
}
use ai_devops.Common.Assoc.{lookup}
use ai_devops.Release.Mutation.{Action, apply, undo, publish_all}
use ai_devops.Release.Store.{Release}
use ai_devops.Release.Worker.{
  Worker, Audit, Faults, read_release, persist_release, rollback_release, record_audit,
  publish_stage, publish_alert, change,
}
use ai_devops.Release.Worker.Reads.{Belongs, IsValid, read-Belongs}
use ai_devops.Release.Worker.Changes.{
  insert-cached, remove-cached, save_in-Stored, delete_in-Stored, read-save, read-delete,
}

-- The action changes neither the cache nor the table.
abbrev pub Quiet : {E : Type 0} → Action Worker E → Type 0
Quiet action = (w : Worker) → ((action w).0.releases ≡ w.releases) × ((action w).0.store ≡ w.store)

pub record_audit-Quiet : {E : Type 0} (fault : Option E) (a : Audit) → Quiet (record_audit fault a)
unfolding record_audit
record_audit-Quiet (some e) a w = (refl, refl)
record_audit-Quiet none a w = (refl, refl)

pub publish_stage-Quiet :
    {E : Type 0} (fault : Option E) (id stage : String) → Quiet (publish_stage fault id stage)
unfolding publish_stage
publish_stage-Quiet (some e) id stage w = (refl, refl)
publish_stage-Quiet none id stage w = (refl, refl)

pub publish_alert-Quiet :
    {E : Type 0} (fault : Option E) (id reason : String) → Quiet (publish_alert fault id reason)
unfolding publish_alert
publish_alert-Quiet (some e) id reason w = (refl, refl)
publish_alert-Quiet none id reason w = (refl, refl)

module _ (later : String → String → Bool) where
  -- What is read in `w'`: what was read in `w`, or `updated` for its work item.
  pub record Outcome (wid : String) (updated : Release) (w w' : Worker) : Type 0 where
    pub valid : IsValid w'
    pub reads :
        (k : String)
        → (read_release later k w' ≡ read_release later k w)
          ⊎ ((wid ≡ k) × (read_release later k w' ≡ some updated))

  Outcome-quiet :
      (wid : String) (r : Release) (w w1 w2 : Worker)
      → w2.releases ≡ w1.releases
      → w2.store ≡ w1.store
      → Outcome wid r w w1
      → Outcome wid r w w2
  unfolding read_release
  Outcome-quiet wid r w w1 w2 e f o = record {
    valid = record {
      cached = λ k q h. o.valid.cached k q (sym (ap (lookup k) e) ∙ h);
      stored = rw f o.valid.stored;
    };
    reads = λ k. rw (e, f) (o.reads k);
  }

  module _ {E : Type 0} where
    persist-Outcome :
        (fault : Option E) (wid : String) (r : Release) (w : Worker)
        → IsValid w
        → Belongs wid r
        → Outcome wid r w (persist_release fault wid r w).0
    unfolding persist_release read_release
    persist-Outcome fault wid r w v b = record {
      valid = record {
        cached = insert-cached wid r w.releases b v.cached;
        stored = save_in-Stored fault wid r w.store b v.stored;
      };
      reads = λ k. read-save later E fault wid r w.store w.releases k b v.stored;
    }

    -- The rollback, with the release that was read before the change.
    rollback-Outcome :
        (fault : Option E) (wid : String) (previous : Option Release) (r : Release) (w w1 : Worker)
        → IsValid w
        → read_release later wid w ≡ previous
        → Outcome wid r w w1
        → Outcome wid r w (rollback_release fault wid previous w1).0
    unfolding rollback_release read_release
    rollback-Outcome fault wid none r w w1 v p o = record {
      valid = record {
        cached = remove-cached wid w1.releases o.valid.cached;
        stored = delete_in-Stored fault wid w1.store o.valid.stored;
      };
      reads = λ k. elim (read-delete later E fault wid w1.store w1.releases k o.valid.stored) [
        | inl e ↦ rw e (o.reads k)
        | inr (f, e) ↦ inl (e ∙ sym p ∙ ap (λ x. read_release later x w) f)
      ];
    }
    rollback-Outcome fault wid (some q) r w w1 v p o =
        let b = read-Belongs later wid w q v p in
        record {
          valid = record {
            cached = insert-cached wid q w1.releases b o.valid.cached;
            stored = save_in-Stored fault wid q w1.store b o.valid.stored;
          };
          reads = λ k.
              elim (read-save later E fault wid q w1.store w1.releases k b o.valid.stored) [
                | inl e ↦ rw e (o.reads k)
                | inr (f, e) ↦ inl (e ∙ sym p ∙ ap (λ x. read_release later x w) f)
              ];
        }

    undo-state :
        (rollback : Action Worker E) (e : E) (w : Worker)
        → (undo (some rollback) e w).0 ≡ (rollback w).0
    unfolding undo
    undo-state rollback e w = elim (Option-cases (rollback w).1) [
      | inl h ↦ rw (h, undo) refl
      | inr (f, h) ↦ rw (h, undo) refl
    ]

    pub publish-state :
        (publish : Action Worker E) (w : Worker) → (publish_all (publish ∷ []) w).0 ≡ (publish w).0
    unfolding publish_all
    publish-state publish w = elim (Option-cases (publish w).1) [
      | inl h ↦ rw (h, publish_all) refl
      | inr (f, h) ↦ rw (h, publish_all) refl
    ]

    pub change-Outcome :
        (faults : Faults E) (wid : String) (previous : Option Release) (updated : Release)
        (audit : Audit) (publish : Action Worker E) (w : Worker)
        → IsValid w
        → read_release later wid w ≡ previous
        → Belongs wid updated
        → Quiet publish
        → Outcome wid updated w (change faults wid previous updated audit publish w).0
    unfolding change apply
    change-Outcome faults wid previous updated audit publish w v p b q =
        let persist = persist_release faults.on_save wid updated in
        let w1 = (persist w).0 in
        let audited = record_audit faults.on_audit audit in
        let w2 = (audited w1).0 in
        let one = persist-Outcome faults.on_save wid updated w v b in
        let quiet = record_audit-Quiet faults.on_audit audit w1 in
        let two = Outcome-quiet wid updated w w1 w2 quiet.0 quiet.1 one in
        elim (Option-cases (persist w).1) [
          | inr (e, h) ↦ rw (h, apply) one
          | inl h ↦ elim (Option-cases (audited w1).1) [
            | inl a ↦
                rw (h, a, apply)
                  (subst (Outcome wid updated w) (sym (publish-state publish w2))
                    (Outcome-quiet wid updated w w2 (publish w2).0 (q w2).0 (q w2).1 two))
            | inr (e, a) ↦
                rw (h, a, apply)
                  (subst (Outcome wid updated w)
                    (sym (undo-state (rollback_release faults.on_restore wid previous) e w2))
                    (rollback-Outcome faults.on_restore wid previous updated w w2 v p two))
          ]
        ]
