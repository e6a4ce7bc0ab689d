-- ===== src/Ralph/State/Tests.antt =====
-- A table with one queued task.
use ai_devops.Common.{
  true, false, none, some, List, [], ◌∷◌, ◌≡◌, ◌⊎◌, refl, arith, str_eq, if◌then◌else◌,
}
use ai_devops.Common.Int.{ℤ}
use ai_devops.PlanSchema.Json.{end}
use ai_devops.Ralph.State.{Row, Table, Changes, get, update}
use ai_devops.Ralph.State.Laws.{NoneGiven, changed, get-update}
use ai_devops.Ralph.State.Ids.{IsValid, Op, run, run-IsValid}

abbrev queued : Row
queued = record {
  id = 1;
  task_id = "t1";
  status = "queued";
  progress = ℤ.pos 0;
  logs = "";
  metadata = end;
  updated_at = 3;
  created_at = 3;
}

abbrev table : Table
table = record { rows = queued ∷ []; next_id = 2 }

abbrev running : Changes
running = record { status = some "running"; progress = none; logs = none; metadata = none }

get-update_example :
    (NoneGiven running × (update "t1" running 4 table ≡ (table, false)))
    ⊎ ((¬ NoneGiven running)
        × (get "t1" (update "t1" running 4 table).0.rows ≡ elim (get "t1" table.rows) [
          | none ↦ none
          | some r ↦ some (if str_eq "t1" "t1" then changed running 4 r else r)
        ])
        × ((update "t1" running 4 table).1
            ≡ elim (get "t1" table.rows) [ none ↦ false | some r ↦ true ]))
get-update_example = get-update "t1" running 4 table "t1"

table-IsValid : IsValid table
table-IsValid = record { unique = refl; given = (omega arith, tt) }

abbrev day : List Op
day =
    Op.create_op "t2" "queued" (ℤ.pos 0) "" end 5
    ∷ Op.append_op "t1" "hi" 6
    ∷ Op.delete_op "t1"
    ∷ []

run-IsValid_example : IsValid (run day table)
run-IsValid_example = run-IsValid day table table-IsValid
