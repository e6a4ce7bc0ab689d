-- ===== src/Ralph/State/Ids.antt =====
-- The keys of the table of orchestrator/bin/ralph_state.py.
use ai_devops.Common.{
  ℕ, ◌+◌, ◌<◌, String, true, false, none, some, List, [], ◌∷◌, ◌++◌, map, ◌≡◌, refl, ap, ◌∙◌, sym,
  subst, str_eq, eq_iff, arith, All, All-append, Bool-cases, Option-cases, inl, inr,
}
use ai_devops.Common.Int.{ℤ}
use ai_devops.Common.Names.{mem, distinct, distinct-snoc}
use ai_devops.Common.Result.{Result, ok, err}
use ai_devops.PlanSchema.Json.{Fields}
use ai_devops.Ralph.State.{
  Row, Table, Changes, RalphStateError, get, update_where, delete_where, apply, any_change, create,
  update, append_log, appended, delete,
}

abbrev pub names : List Row → List String
names rows = map (λ r. r.task_id) rows

-- No task has two rows, and every id is one that was given already.
pub record IsValid (t : Table) : Type 0 where
  pub unique : distinct (names t.rows) ≡ true
  pub given : All (λ r. r.id < t.next_id) t.rows

get-none : (k : String) (rows : List Row) → get k rows ≡ none → mem k (names rows) ≡ false
unfolding get
get-none k [] h = refl
get-none k (r ∷ rs) h = ground (arith, h, get-none k rs, eq_iff r.task_id k, eq_iff k r.task_id)

names-append : (xs ys : List Row) → names (xs ++ ys) ≡ (names xs ++ names ys)
names-append [] ys = refl
names-append (x ∷ xs) ys = cc (names-append xs ys)

names-update_where :
    (id : String) (f : Row → Row) (rows : List Row)
    → ((r : Row) → (f r).task_id ≡ r.task_id)
    → names (update_where id f rows) ≡ names rows
unfolding update_where
names-update_where id f [] h = refl
names-update_where id f (r ∷ rs) h = elim (Bool-cases (str_eq r.task_id id)) [
  | inl e ↦ rw e (cc (h r, names-update_where id f rs h))
  | inr e ↦ rw e (cc (names-update_where id f rs h))
]

given-update_where :
    (n : ℕ) (id : String) (f : Row → Row) (rows : List Row)
    → ((r : Row) → (f r).id ≡ r.id)
    → All (λ r. r.id < n) rows
    → All (λ r. r.id < n) (update_where id f rows)
unfolding update_where
given-update_where n id f [] h g = tt
given-update_where n id f (r ∷ rs) h g = elim (Bool-cases (str_eq r.task_id id)) [
  | inl e ↦ rw e (subst (λ i. i < n) (sym (h r)) g.0, given-update_where n id f rs h g.1)
  | inr e ↦ rw e (g.0, given-update_where n id f rs h g.1)
]

mem-delete_where :
    (k id : String) (rows : List Row)
    → mem k (names rows) ≡ false
    → mem k (names (delete_where id rows)) ≡ false
unfolding delete_where
mem-delete_where k id [] h = refl
mem-delete_where k id (r ∷ rs) h = ground (arith, h, mem-delete_where k id rs)

delete_where-IsValid :
    (n : ℕ) (id : String) (rows : List Row)
    → distinct (names rows) ≡ true
    → All (λ r. r.id < n) rows
    → (distinct (names (delete_where id rows)) ≡ true) × All (λ r. r.id < n) (delete_where id rows)
unfolding delete_where
delete_where-IsValid n id [] u g = (refl, tt)
delete_where-IsValid n id (r ∷ rs) u g =
    let tail : distinct (names rs) ≡ true = ground (arith, u) in
    let rest = delete_where-IsValid n id rs tail g.1 in
    elim (Bool-cases (str_eq r.task_id id)) [
      | inl e ↦ rw e rest
      | inr e ↦ rw e (ground (arith, u, rest.0, mem-delete_where r.task_id id rs), (g.0, rest.1))
    ]

weaken : (n : ℕ) (rows : List Row) → All (λ r. r.id < n) rows → All (λ r. r.id < n + 1) rows
weaken n [] g = tt
weaken n (r ∷ rs) g = (omega (arith, g.0), weaken n rs g.1)

-- A call of an operation that writes.
pub data Op : Type 0 where
  create_op : String → String → ℤ → String → Fields → ℕ → Op
  update_op : String → Changes → ℕ → Op
  append_op : String → String → ℕ → Op
  delete_op : String → Op

-- A create that raises leaves the table.
abbrev kept : Result RalphStateError (Table × ℕ) → Table → Table
kept (ok r) t = r.0
kept (err e) t = t

-- The table after the call.
abbrev pub after : Op → Table → Table
after (create_op k s p l m now) t = kept (create k s p l m now t) t
after (update_op k c now) t = (update k c now t).0
after (append_op k entry now) t = (append_log k entry now t).0
after (delete_op k) t = (delete k t).0

abbrev pub run : List Op → Table → Table
run [] t = t
run (o ∷ os) t = run os (after o t)

abbrev fresh_row : String → String → ℤ → String → Fields → ℕ → ℕ → Row
fresh_row k s p l m now n = record {
  id = n;
  task_id = k;
  status = s;
  progress = p;
  logs = l;
  metadata = m;
  updated_at = now;
  created_at = now;
}

create_taken :
    (k s : String) (p : ℤ) (l : String) (m : Fields) (now : ℕ) (t : Table) (r : Row)
    → get k t.rows ≡ some r
    → create k s p l m now t ≡ err (RalphStateError.task_exists k)
unfolding create
create_taken k s p l m now t r e = rw (e, create) refl

create_free :
    (k s : String) (p : ℤ) (l : String) (m : Fields) (now : ℕ) (t : Table)
    → get k t.rows ≡ none
    → create k s p l m now t
      ≡ ok (
        record { rows = t.rows ++ fresh_row k s p l m now t.next_id ∷ []; next_id = t.next_id + 1 },
        t.next_id,
      )
unfolding create
create_free k s p l m now t e = rw (e, create) refl

create-IsValid :
    (k s : String) (p : ℤ) (l : String) (m : Fields) (now : ℕ) (t : Table)
    → IsValid t
    → IsValid (kept (create k s p l m now t) t)
create-IsValid k s p l m now t v = elim (Option-cases (get k t.rows)) [
  | inr (r, e) ↦ rw (create_taken k s p l m now t r e) v
  | inl e ↦
      let r = fresh_row k s p l m now t.next_id in
      rw (create_free k s p l m now t e) (record {
        unique =
            ap distinct (names-append t.rows (r ∷ []))
            ∙ distinct-snoc k (names t.rows) v.unique (get-none k t.rows e);
        given =
            All-append (λ q. q.id < t.next_id + 1) t.rows (r ∷ []) (weaken t.next_id t.rows v.given)
              (omega arith, tt);
      })
]

update-IsValid :
    (k : String) (c : Changes) (now : ℕ) (t : Table) → IsValid t → IsValid (update k c now t).0
unfolding update apply
update-IsValid k c now t v = elim (Bool-cases (any_change c)) [
  | inr e ↦ rw (e, update) v
  | inl e ↦
      rw (e, update)
        (record {
          unique = ap distinct (names-update_where k (apply c now) t.rows (λ r. refl)) ∙ v.unique;
          given = given-update_where t.next_id k (apply c now) t.rows (λ r. refl) v.given;
        })
]

append_log-IsValid :
    (k entry : String) (now : ℕ) (t : Table) → IsValid t → IsValid (append_log k entry now t).0
unfolding append_log
append_log-IsValid k entry now t v = elim (Option-cases (get k t.rows)) [
  | inl e ↦ rw (e, append_log) v
  | inr (found, e) ↦
      let f : Row → Row = λ r. record r { logs = appended found.logs entry; updated_at = now } in
      rw (e, append_log)
        (record {
          unique = ap distinct (names-update_where k f t.rows (λ r. refl)) ∙ v.unique;
          given = given-update_where t.next_id k f t.rows (λ r. refl) v.given;
        })
]

after-IsValid : (o : Op) (t : Table) → IsValid t → IsValid (after o t)
unfolding delete
after-IsValid (create_op k s p l m now) t v = create-IsValid k s p l m now t v
after-IsValid (update_op k c now) t v = update-IsValid k c now t v
after-IsValid (append_op k entry now) t v = append_log-IsValid k entry now t v
after-IsValid (delete_op k) t v =
    let both = delete_where-IsValid t.next_id k t.rows v.unique v.given in
    record { unique = both.0; given = both.1 }

-- Whatever operations are called in whatever order, no task ever has two rows and every row's id is
-- below the next one to be given.
pub run-IsValid : (os : List Op) (t : Table) → IsValid t → IsValid (run os t)
run-IsValid [] t v = v
run-IsValid (o ∷ os) t v = run-IsValid os (after o t) (after-IsValid o t v)
