-- ===== src/Release/Store/Laws.antt =====
-- A table in which every release_id is made from its work item: one row for each work item.
use ai_devops.Common.{
  String, Bool, false, none, some, [], ◌∷◌, ◌≡◌, refl, subst, ◌∙◌, str_eq, eq_iff, arith,
  if◌then◌else◌, concat, Bool-cases, inl, inr,
}
use ai_devops.Common.Text.{concat_injective}
use ai_devops.Common.Assoc.{Assoc, lookup, insert, lookup-insert}
use ai_devops.Release.Store.{Release, save_release, delete_release, newest, get_release}

-- f"rel_{work_item_id}"
abbrev pub release_key : String → String
release_key wid = concat "rel_" wid

-- The rows' ids are those of their work items.
abbrev pub Keyed : Assoc Release → Type 0
Keyed [] = Unit
Keyed ((id, r) ∷ rows) = (id ≡ release_key r.work_item_id) × (lookup id rows ≡ none) × Keyed rows

key_injective : (a b : String) → release_key a ≡ release_key b → a ≡ b
key_injective a b e = concat_injective "rel_" a b e

newest-none :
    (later : String → String → Bool) (wid : String) (rows : Assoc Release)
    → Keyed rows
    → lookup (release_key wid) rows ≡ none
    → newest later wid rows ≡ none
unfolding newest lookup
newest-none later wid [] v h = refl
newest-none later wid ((id, r) ∷ rows) (k, u, v) h = elim (Bool-cases (str_eq r.work_item_id wid)) [
  | inl e ↦
      let same : id ≡ release_key wid =
        subst (λ w. id ≡ release_key w) ((eq_iff r.work_item_id wid).0 e) k in
      absurd (ground (arith, h, same, eq_iff id (release_key wid)))
  | inr e ↦
      let other : str_eq id (release_key wid) ≡ false = ground (
        arith,
        k,
        e,
        eq_iff r.work_item_id wid,
        eq_iff id (release_key wid),
        key_injective r.work_item_id wid,
      ) in
      rw (e, newest) (newest-none later wid rows v (ground (arith, h, other)))
]

-- What is read for a work item stands under its key.
pub get_release-lookup :
    (later : String → String → Bool) (wid : String) (rows : Assoc Release)
    → Keyed rows
    → get_release later wid rows ≡ lookup (release_key wid) rows
unfolding get_release newest lookup
get_release-lookup later wid [] v = refl
get_release-lookup later wid ((id, r) ∷ rows) (k, u, v) =
    elim (Bool-cases (str_eq r.work_item_id wid)) [
      | inl e ↦
          let same : id ≡ release_key wid =
            subst (λ w. id ≡ release_key w) ((eq_iff r.work_item_id wid).0 e) k in
          let alone = newest-none later wid rows v (subst (λ i. lookup i rows ≡ none) same u) in
          ground (arith, e, same, alone, eq_iff id (release_key wid))
      | inr e ↦
          let other : str_eq id (release_key wid) ≡ false = ground (
            arith,
            k,
            e,
            eq_iff r.work_item_id wid,
            eq_iff id (release_key wid),
            key_injective r.work_item_id wid,
          ) in
          ground (arith, e, other, get_release-lookup later wid rows v)
    ]

pub lookup-delete_release :
    (wid k : String) (rows : Assoc Release)
    → Keyed rows
    → lookup k (delete_release wid rows)
      ≡ (if str_eq (release_key wid) k then none else lookup k rows)
unfolding delete_release lookup
lookup-delete_release wid k [] v = ground arith
lookup-delete_release wid k ((id, r) ∷ rows) (i, u, v) =
    elim (Bool-cases (str_eq r.work_item_id wid)) [
      | inl e ↦
          let same : id ≡ release_key wid =
            subst (λ w. id ≡ release_key w) ((eq_iff r.work_item_id wid).0 e) i in
          ground (
            arith,
            e,
            same,
            u,
            lookup-delete_release wid k rows v,
            eq_iff id k,
            eq_iff (release_key wid) k,
          )
      | inr e ↦
          let other : str_eq id (release_key wid) ≡ false = ground (
            arith,
            i,
            e,
            eq_iff r.work_item_id wid,
            eq_iff id (release_key wid),
            key_injective r.work_item_id wid,
          ) in
          ground (
            arith,
            e,
            other,
            lookup-delete_release wid k rows v,
            eq_iff id k,
            eq_iff id (release_key wid),
            eq_iff (release_key wid) k,
          )
    ]

insert-Keyed :
    (key : String) (r : Release) (rows : Assoc Release)
    → key ≡ release_key r.work_item_id
    → Keyed rows
    → Keyed (insert key r rows)
unfolding insert lookup
insert-Keyed key r [] h v = (h, refl, tt)
insert-Keyed key r ((id, s) ∷ rows) h (i, u, v) = elim (Bool-cases (str_eq id key)) [
  | inl e ↦ rw (e, insert) (((eq_iff id key).0 e) ∙ h, u, v)
  | inr e ↦
      rw (e, insert)
        (
          i,
          ground (arith, u, lookup-insert key id r rows, eq_iff id key, eq_iff key id, e),
          insert-Keyed key r rows h v,
        )
]

pub save-Keyed :
    (r : Release) (rows : Assoc Release)
    → r.release_id ≡ release_key r.work_item_id
    → Keyed rows
    → Keyed (save_release r rows)
unfolding save_release
save-Keyed r rows h v = insert-Keyed r.release_id r rows h v

pub delete-Keyed :
    (wid : String) (rows : Assoc Release) → Keyed rows → Keyed (delete_release wid rows)
unfolding delete_release
delete-Keyed wid [] v = tt
delete-Keyed wid ((id, r) ∷ rows) (i, u, v) = elim (Bool-cases (str_eq r.work_item_id wid)) [
  | inl e ↦ rw (e, delete_release) (delete-Keyed wid rows v)
  | inr e ↦
      rw (e, delete_release)
        (i, ground (arith, u, lookup-delete_release wid id rows v), delete-Keyed wid rows v)
]

-- After a save the release is read for its work item, and every other work item as before.
pub get-save :
    (later : String → String → Bool) (r : Release) (k : String) (rows : Assoc Release)
    → r.release_id ≡ release_key r.work_item_id
    → Keyed rows
    → get_release later k (save_release r rows)
      ≡ (if str_eq r.work_item_id k then some r else get_release later k rows)
unfolding save_release
get-save later r k rows h v =
    let after = get_release-lookup later k (save_release r rows) (save-Keyed r rows h v) in
    ground (
      arith,
      after,
      get_release-lookup later k rows v,
      lookup-insert r.release_id (release_key k) r rows,
      eq_iff r.work_item_id k,
      eq_iff r.release_id (release_key k),
      key_injective r.work_item_id k,
      h,
    )

-- After a delete nothing is read for the work item, and every other one as before.
pub get-delete :
    (later : String → String → Bool) (wid k : String) (rows : Assoc Release)
    → Keyed rows
    → get_release later k (delete_release wid rows)
      ≡ (if str_eq wid k then none else get_release later k rows)
get-delete later wid k rows v = ground (
  arith,
  get_release-lookup later k (delete_release wid rows) (delete-Keyed wid rows v),
  get_release-lookup later k rows v,
  lookup-delete_release wid (release_key k) rows v,
  eq_iff wid k,
  eq_iff (release_key wid) (release_key k),
  key_injective wid k,
)

pub lookup-own :
    (k : String) (rows : Assoc Release) (r : Release)
    → Keyed rows
    → lookup (release_key k) rows ≡ some r
    → r.work_item_id ≡ k
unfolding lookup
lookup-own k [] r v h = cc
lookup-own k ((id, s) ∷ rows) r (i, u, v) h =
    ground (
      arith,
      h,
      i,
      lookup-own k rows r v,
      eq_iff id (release_key k),
      key_injective s.work_item_id k,
    )
