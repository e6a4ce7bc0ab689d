-- ===== src/Release/Store.antt =====
-- The releases table of ControlPlanePostgresStore, packages/kernel/storage/postgres.py. A row is its
-- payload, under its release_id; `later` is the order of the database on release ids.
pub mod Laws
use ai_devops.Common.{
  String, Bool, true, false, Option, none, some, List, [], ◌∷◌, str_eq, if◌then◌else◌, concat,
}
use ai_devops.Common.Assoc.{Assoc, insert}

-- The dictionary of a release.
pub record Release : Type 0 where
  pub release_id : String
  pub work_item_id : String
  pub stage : String
  pub status : String
  pub rollback_reason : Option String

-- save_release
unfoldable pub save_release : Release → Assoc Release → Assoc Release
save_release r rows = insert r.release_id r rows

-- delete_release
unfoldable pub delete_release : String → Assoc Release → Assoc Release
delete_release wid [] = []
delete_release wid ((id, r) ∷ rows) =
    let rest = delete_release wid rows in if str_eq r.work_item_id wid then rest else (id, r) ∷ rest

-- ORDER BY release_id DESC LIMIT 1, over the rows of a work item
unfoldable pub newest :
    (String → String → Bool) → String → Assoc Release → Option (String × Release)
newest later wid [] = none
newest later wid ((id, r) ∷ rows) =
    let rest = newest later wid rows in
    if str_eq r.work_item_id wid
    then elim rest [
      | none ↦ some (id, r)
      | some best ↦ if later best.0 id then some best else some (id, r)
    ]
    else rest

-- get_release
unfoldable pub get_release : (String → String → Bool) → String → Assoc Release → Option Release
unfolding newest
get_release later wid rows = elim (newest later wid rows) [ none ↦ none | some best ↦ some best.1 ]
