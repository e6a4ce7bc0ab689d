-- ===== src/Incident/Worker/Changes.antt =====
-- What a change of an incident does to what the worker of apps/incident_worker/service.py reads,
-- whatever raises in it.
use ai_devops.Common.{
  String, Option, none, some, ◌≡◌, refl, sym, ap, ◌∙◌, ◌⊎◌, inl, inr, arith, eq_iff, str_eq,
  Bool-cases, Option-cases, subst, if◌then◌else◌,
}
use ai_devops.Common.Assoc.{Assoc, lookup, insert, remove, lookup-insert, lookup-remove}
use ai_devops.Release.Mutation.{Action, apply, undo, publish_all}
use ai_devops.Incident.Worker.{
  Incident, IncidentWorker, IncidentFaults, read_in, read_incident, save_incident, delete_incident,
  persist_incident, rollback_incident, change_incident,
}

-- Every incident stands under its own id.
pub record IsKeyed (d : Assoc Incident) : Type 0 where
  pub keyed : (k : String) (i : Incident) → lookup k d ≡ some i → i.incident_id ≡ k

abbrev pub StoreIsKeyed : Option (Assoc Incident) → Type 0
StoreIsKeyed none = Unit
StoreIsKeyed (some rows) = IsKeyed rows

pub record IsValid (w : IncidentWorker) : Type 0 where
  pub cached : IsKeyed w.incidents
  pub stored : StoreIsKeyed w.store

insert-IsKeyed :
    (id : String) (i : Incident) (d : Assoc Incident)
    → i.incident_id ≡ id
    → IsKeyed d
    → IsKeyed (insert id i d)
insert-IsKeyed id i d e h = record {
  keyed = λ k j f. elim (Bool-cases (str_eq id k)) [
    | inl g ↦
        let same : some i ≡ some j = sym (lookup-insert id k i d ∙ (rw g refl)) ∙ f in
        ground (arith, same, e, (eq_iff id k).0 g)
    | inr g ↦ h.keyed k j (sym (lookup-insert id k i d ∙ (rw g refl)) ∙ f)
  ];
}

remove-IsKeyed : (id : String) (d : Assoc Incident) → IsKeyed d → IsKeyed (remove id d)
remove-IsKeyed id d h = record {
  keyed = λ k j f. elim (Bool-cases (str_eq id k)) [
    | inl g ↦
        let gone : ◌≡◌ {A = Option Incident} none (some j) =
          sym (lookup-remove id k d ∙ (rw g refl)) ∙ f in
        absurd (cc)
    | inr g ↦ h.keyed k j (sym (lookup-remove id k d ∙ (rw g refl)) ∙ f)
  ];
}

read_in-cong :
    (rows rows' cache cache' : Assoc Incident) (k : String)
    → lookup k rows' ≡ lookup k rows
    → lookup k cache' ≡ lookup k cache
    → read_in (some rows') cache' k ≡ read_in (some rows) cache k
unfolding read_in
read_in-cong rows rows' cache cache' k e f = elim (Option-cases (lookup k rows)) [
  | inl g ↦ rw (read_in, e, g) f
  | inr (i, g) ↦ rw (read_in, e, g) refl
]

module _ (E : Type 0) where
  save-IsKeyed :
      (fault : Option E) (i : Incident) (store : Option (Assoc Incident))
      → StoreIsKeyed store
      → StoreIsKeyed (save_incident fault i store).0
  unfolding save_incident
  save-IsKeyed fault i none h = tt
  save-IsKeyed (some e) i (some rows) h = h
  save-IsKeyed none i (some rows) h = insert-IsKeyed i.incident_id i rows refl h

  delete-IsKeyed :
      (fault : Option E) (id : String) (store : Option (Assoc Incident))
      → StoreIsKeyed store
      → StoreIsKeyed (delete_incident fault id store).0
  unfolding delete_incident
  delete-IsKeyed fault id none h = tt
  delete-IsKeyed (some e) id (some rows) h = h
  delete-IsKeyed none id (some rows) h = remove-IsKeyed id rows h

  read-save :
      (fault : Option E) (id : String) (i : Incident) (store : Option (Assoc Incident))
      (cache : Assoc Incident) (k : String)
      → i.incident_id ≡ id
      → (read_in (save_incident fault i store).0 (insert id i cache) k ≡ read_in store cache k)
        ⊎ ((id ≡ k) × (read_in (save_incident fault i store).0 (insert id i cache) k ≡ some i))
  unfolding save_incident read_in
  read-save fault id i none cache k e = elim (Bool-cases (str_eq id k)) [
    | inl g ↦ inr ((eq_iff id k).0 g, lookup-insert id k i cache ∙ (rw g refl))
    | inr g ↦ inl (lookup-insert id k i cache ∙ (rw g refl))
  ]
  read-save (some x) id i (some rows) cache k e = elim (Option-cases (lookup k rows)) [
    | inr (j, f) ↦ inl (rw (read_in, f) refl)
    | inl f ↦ elim (Bool-cases (str_eq id k)) [
      | inl g ↦ inr ((eq_iff id k).0 g, rw (read_in, f) (lookup-insert id k i cache ∙ (rw g refl)))
      | inr g ↦ inl (rw (read_in, f) (lookup-insert id k i cache ∙ (rw g refl)))
    ]
  ]
  read-save none id i (some rows) cache k e =
      let at : lookup k (insert i.incident_id i rows)
          ≡ (if str_eq id k then some i else lookup k rows) =
        lookup-insert i.incident_id k i rows
        ∙ ap (λ x. if str_eq x k then some i else lookup k rows) e in
      elim (Bool-cases (str_eq id k)) [
        | inl g ↦
            let found : lookup k (insert i.incident_id i rows) ≡ some i = at ∙ (rw g refl) in
            inr ((eq_iff id k).0 g, rw (read_in, found) refl)
        | inr g ↦
            let same : lookup k (insert i.incident_id i rows) ≡ lookup k rows = at ∙ (rw g refl) in
            let kept : lookup k (insert id i cache) ≡ lookup k cache =
              lookup-insert id k i cache ∙ (rw g refl) in
            inl (read_in-cong rows _ cache _ k same kept)
      ]

  read-delete :
      (fault : Option E) (id : String) (store : Option (Assoc Incident)) (cache : Assoc Incident)
      (k : String)
      → (read_in (delete_incident fault id store).0 (remove id cache) k ≡ read_in store cache k)
        ⊎ ((id ≡ k) × (read_in (delete_incident fault id store).0 (remove id cache) k ≡ none))
  unfolding delete_incident read_in
  read-delete fault id none cache k = elim (Bool-cases (str_eq id k)) [
    | inl g ↦ inr ((eq_iff id k).0 g, lookup-remove id k cache ∙ (rw g refl))
    | inr g ↦ inl (lookup-remove id k cache ∙ (rw g refl))
  ]
  read-delete (some x) id (some rows) cache k = elim (Option-cases (lookup k rows)) [
    | inr (j, f) ↦ inl (rw (read_in, f) refl)
    | inl f ↦ elim (Bool-cases (str_eq id k)) [
      | inl g ↦ inr ((eq_iff id k).0 g, rw (read_in, f) (lookup-remove id k cache ∙ (rw g refl)))
      | inr g ↦ inl (rw (read_in, f) (lookup-remove id k cache ∙ (rw g refl)))
    ]
  ]
  read-delete none id (some rows) cache k = elim (Bool-cases (str_eq id k)) [
    | inl g ↦
        let gone : lookup k (remove id rows) ≡ none = lookup-remove id k rows ∙ (rw g refl) in
        inr ((eq_iff id k).0 g, rw (read_in, gone) (lookup-remove id k cache ∙ (rw g refl)))
    | inr g ↦
        let same : lookup k (remove id rows) ≡ lookup k rows =
          lookup-remove id k rows ∙ (rw g refl) in
        let kept : lookup k (remove id cache) ≡ lookup k cache =
          lookup-remove id k cache ∙ (rw g refl) in
        inl (read_in-cong rows _ cache _ k same kept)
  ]

-- The worker stays valid, and each id reads as before or is `id` and reads as the new incident.
pub record Outcome (id : String) (i : Incident) (w w' : IncidentWorker) : Type 0 where
  pub valid : IsValid w'
  pub reads :
      (k : String)
      → (read_incident k w' ≡ read_incident k w) ⊎ ((id ≡ k) × (read_incident k w' ≡ some i))

read_in-id :
    (store : Option (Assoc Incident)) (cache : Assoc Incident) (k : String) (i : Incident)
    → StoreIsKeyed store
    → IsKeyed cache
    → read_in store cache k ≡ some i
    → i.incident_id ≡ k
unfolding read_in
read_in-id none cache k i h c e = c.keyed k i e
read_in-id (some rows) cache k i h c e = elim (Option-cases (lookup k rows)) [
  | inl f ↦ c.keyed k i (rw (read_in, f) at e)
  | inr (j, f) ↦ h.keyed k i (f ∙ (rw (read_in, f) at e))
]

pub read-id :
    (k : String) (w : IncidentWorker) (i : Incident)
    → IsValid w
    → read_incident k w ≡ some i
    → i.incident_id ≡ k
unfolding read_incident
read-id k w i v e = read_in-id w.store w.incidents k i v.stored v.cached e

Outcome-quiet :
    (id : String) (i : Incident) (w w1 w2 : IncidentWorker)
    → w2.incidents ≡ w1.incidents
    → w2.store ≡ w1.store
    → Outcome id i w w1
    → Outcome id i w w2
unfolding read_incident
Outcome-quiet id i w w1 w2 e f o = record {
  valid = record {
    cached = subst IsKeyed (sym e) o.valid.cached;
    stored = subst StoreIsKeyed (sym f) o.valid.stored;
  };
  reads = λ k. rw (e, f) (o.reads k);
}

module _ {E : Type 0} where
  persist-Outcome :
      (fault : Option E) (id : String) (i : Incident) (w : IncidentWorker)
      → IsValid w
      → i.incident_id ≡ id
      → Outcome id i w (persist_incident fault id i w).0
  unfolding persist_incident read_incident
  persist-Outcome fault id i w v e = record {
    valid = record {
      cached = insert-IsKeyed id i w.incidents e v.cached;
      stored = save-IsKeyed E fault i w.store v.stored;
    };
    reads = λ k. read-save E fault id i w.store w.incidents k e;
  }

  rollback-Outcome :
      (fault : Option E) (id : String) (previous : Option Incident) (i : Incident)
      (w w1 : IncidentWorker)
      → IsValid w
      → read_incident id w ≡ previous
      → Outcome id i w w1
      → Outcome id i w (rollback_incident fault id previous w1).0
  unfolding rollback_incident read_incident
  rollback-Outcome fault id none i w w1 v p o = record {
    valid = record {
      cached = remove-IsKeyed id w1.incidents o.valid.cached;
      stored = delete-IsKeyed E fault id w1.store o.valid.stored;
    };
    reads = λ k. elim (read-delete E fault id w1.store w1.incidents k) [
      | inl e ↦ rw e (o.reads k)
      | inr (f, e) ↦ inl (e ∙ sym p ∙ ap (λ x. read_incident x w) f)
    ];
  }
  rollback-Outcome fault id (some q) i w w1 v p o =
      let again = persist-Outcome fault id q w1 o.valid (read-id id w q v p) in
      record {
        valid = again.valid;
        reads = λ k. elim (again.reads k) [
          | inl e ↦ rw e (o.reads k)
          | inr (f, e) ↦ inl (e ∙ sym p ∙ ap (λ x. read_incident x w) f)
        ];
      }

  -- An action that leaves the incidents alone.
  abbrev pub Quiet : Action IncidentWorker E → Type 0
  Quiet audit =
      (w : IncidentWorker) → ((audit w).0.incidents ≡ w.incidents) × ((audit w).0.store ≡ w.store)

  undo-state :
      (rollback : Action IncidentWorker E) (e : E) (w : IncidentWorker)
      → (undo (some rollback) e w).0 ≡ (rollback w).0
  unfolding undo
  undo-state rollback e w = elim (Option-cases (rollback w).1) [
    | inl h ↦ rw (h, undo) refl
    | inr (f, h) ↦ rw (h, undo) refl
  ]

  pub change-Outcome :
      (faults : IncidentFaults E) (id : String) (previous : Option Incident) (updated : Incident)
      (audit : Action IncidentWorker E) (w : IncidentWorker)
      → IsValid w
      → read_incident id w ≡ previous
      → updated.incident_id ≡ id
      → Quiet audit
      → Outcome id updated w (change_incident faults id previous updated audit w).0
  unfolding change_incident apply publish_all
  change-Outcome faults id previous updated audit w v p b q =
      let persist = persist_incident faults.on_save id updated in
      let w1 = (persist w).0 in
      let w2 = (audit w1).0 in
      let one = persist-Outcome faults.on_save id updated w v b in
      let two = Outcome-quiet id updated w w1 w2 (q w1).0 (q w1).1 one in
      elim (Option-cases (persist w).1) [
        | inr (e, h) ↦ rw (h, apply) one
        | inl h ↦ elim (Option-cases (audit w1).1) [
          | inl a ↦ rw (h, a, apply) two
          | inr (e, a) ↦
              rw (h, a, apply)
                (subst (Outcome id updated w)
                  (sym (undo-state (rollback_incident faults.on_restore id previous) e w2))
                  (rollback-Outcome faults.on_restore id previous updated w w2 v p two))
        ]
      ]
