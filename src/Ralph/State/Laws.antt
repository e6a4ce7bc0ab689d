-- ===== src/Ralph/State/Laws.antt =====
-- What get reads after each operation of orchestrator/bin/ralph_state.py.
use ai_devops.Common.{
  ℕ, String, Bool, true, false, Option, none, some, List, [], ◌∷◌, ◌≡◌, ◌⊎◌, ◌∙◌, refl, str_eq,
  eq_iff, arith, if◌then◌else◌, Bool-cases, Option-cases, inl, inr,
}
use ai_devops.Ralph.State.{
  Row, Table, Changes, get, exists, update_where, delete_where, or_old, apply, any_change, update,
  delete,
}

pub exists-get :
    (k : String) (rows : List Row)
    → exists k rows ≡ elim (get k rows) [ none ↦ false | some r ↦ true ]
unfolding exists get
exists-get k [] = refl
exists-get k (r ∷ rs) = elim (Bool-cases (str_eq r.task_id k)) [
  | inl e ↦ rw e refl
  | inr e ↦ rw e (exists-get k rs)
]

pub get-update_where :
    (id : String) (f : Row → Row) (k : String) (rows : List Row)
    → ((r : Row) → (f r).task_id ≡ r.task_id)
    → get k (update_where id f rows)
      ≡ elim (get k rows) [ none ↦ none | some r ↦ some (if str_eq k id then f r else r) ]
unfolding get update_where
get-update_where id f k [] h = refl
get-update_where id f k (r ∷ rs) h = elim (Bool-cases (str_eq r.task_id id)) [
  | inl a ↦ elim (Bool-cases (str_eq r.task_id k)) [
    | inl b ↦ ground (arith, a, b, h r, eq_iff r.task_id id, eq_iff r.task_id k, eq_iff k id)
    | inr b ↦ ground (arith, a, b, h r, get-update_where id f k rs h)
  ]
  | inr a ↦ elim (Bool-cases (str_eq r.task_id k)) [
    | inl b ↦ ground (arith, a, b, eq_iff r.task_id id, eq_iff r.task_id k, eq_iff k id)
    | inr b ↦ ground (arith, a, b, get-update_where id f k rs h)
  ]
]

get-delete_where :
    (id k : String) (rows : List Row)
    → get k (delete_where id rows) ≡ (if str_eq id k then none else get k rows)
unfolding get delete_where
get-delete_where id k [] = ground arith
get-delete_where id k (r ∷ rs) =
    ground (arith, get-delete_where id k rs, eq_iff r.task_id id, eq_iff r.task_id k, eq_iff id k)

-- No field is given.
abbrev pub NoneGiven : Changes → Type 0
NoneGiven c = (c.status ≡ none) × (c.progress ≡ none) × (c.logs ≡ none) × (c.metadata ≡ none)

-- The value given, or the old one.
abbrev pub or_kept {ℓ} : {A : Type ℓ} → Option A → A → A
or_kept none old = old
or_kept (some new) old = new

or_old-kept {ℓ} : {A : Type ℓ} (old : A) (o : Option A) → or_old old o ≡ or_kept o old
or_old-kept old none = refl
or_old-kept old (some new) = refl

given_cases :
    (c : Changes)
    → (NoneGiven c × (any_change c ≡ false)) ⊎ ((¬ NoneGiven c) × (any_change c ≡ true))
unfolding any_change
given_cases c = elim (Option-cases c.status) [
  | inr (v, e) ↦ inr (λ h. absurd (cc (h.0, e)), rw (any_change, e) refl)
  | inl e ↦ elim (Option-cases c.progress) [
    | inr (v, f) ↦ inr (λ h. absurd (cc (h.1, f)), rw (any_change, e, f) refl)
    | inl f ↦ elim (Option-cases c.logs) [
      | inr (v, g) ↦ inr (λ h. absurd (cc (h.2, g)), rw (any_change, e, f, g) refl)
      | inl g ↦ elim (Option-cases c.metadata) [
        | inr (v, h) ↦ inr (λ n. absurd (cc (n.3, h)), rw (any_change, e, f, g, h) refl)
        | inl h ↦ inl ((e, f, g, h), rw (any_change, e, f, g, h) refl)
      ]
    ]
  ]
]

get-apply :
    (id : String) (c : Changes) (now : ℕ) (t : Table) (k : String)
    → any_change c ≡ true
    → (get k (update id c now t).0.rows ≡ elim (get k t.rows) [
      | none ↦ none
      | some r ↦ some (if str_eq k id then apply c now r else r)
    ])
      × ((update id c now t).1 ≡ elim (get id t.rows) [ none ↦ false | some r ↦ true ])
unfolding update apply
get-apply id c now t k h =
    rw h (get-update_where id (apply c now) k t.rows (λ r. refl), exists-get id t.rows)

-- The row as the update leaves it: the fields given, the others as before, and the time.
abbrev pub changed : Changes → ℕ → Row → Row
changed c now r = record {
  id = r.id;
  task_id = r.task_id;
  status = or_kept c.status r.status;
  progress = or_kept c.progress r.progress;
  logs = or_kept c.logs r.logs;
  metadata = or_kept c.metadata r.metadata;
  updated_at = now;
  created_at = r.created_at;
}

apply-changed : (c : Changes) (now : ℕ) (r : Row) → apply c now r ≡ changed c now r
unfolding apply
apply-changed c now r =
    rw
      (
        or_old-kept r.status c.status,
        or_old-kept r.progress c.progress,
        or_old-kept r.logs c.logs,
        or_old-kept r.metadata c.metadata,
      )
      refl

applied-changed :
    (c : Changes) (now : ℕ) (own : Bool) (found : Option Row)
    → elim found as (λ o. Option Row) [
      | none ↦ none
      | some r ↦ some (if own then apply c now r else r)
    ]
      ≡ elim found [ none ↦ none | some r ↦ some (if own then changed c now r else r) ]
applied-changed c now own none = refl
applied-changed c now own (some r) = rw (apply-changed c now r) refl

-- An update with no field given changes nothing and returns False. With one given it returns
-- whether the task has a row, writes exactly the fields given and the time into that row, and
-- leaves what is read of every other task.
pub get-update :
    (id : String) (c : Changes) (now : ℕ) (t : Table) (k : String)
    → (NoneGiven c × (update id c now t ≡ (t, false)))
      ⊎ ((¬ NoneGiven c)
          × (get k (update id c now t).0.rows ≡ elim (get k t.rows) [
            | none ↦ none
            | some r ↦ some (if str_eq k id then changed c now r else r)
          ])
          × ((update id c now t).1 ≡ elim (get id t.rows) [ none ↦ false | some r ↦ true ]))
unfolding update
get-update id c now t k = elim (given_cases c) [
  | inl (n, e) ↦ inl (n, rw (update, e) refl)
  | inr (n, e) ↦
      let (read, found) = get-apply id c now t k e in
      inr (n, read ∙ applied-changed c now (str_eq k id) (get k t.rows), found)
]

-- After delete a task has no row, every other task is read as before, and the result tells whether
-- there was one.
get-delete :
    (id : String) (t : Table) (k : String)
    → (get k (delete id t).0.rows ≡ (if str_eq id k then none else get k t.rows))
      × ((delete id t).1 ≡ elim (get id t.rows) [ none ↦ false | some r ↦ true ])
unfolding delete
get-delete id t k = (get-delete_where id k t.rows, exists-get id t.rows)
