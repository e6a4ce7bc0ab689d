-- ===== src/Ralph/State.antt =====
-- RalphState of orchestrator/bin/ralph_state.py: the table ralph_state, with the value that AUTOINCREMENT
-- gives next. A row holds the object that its metadata decodes to; datetime('now') is the argument
-- `now`.
pub mod Laws
pub mod Ids
mod Tests
use Prim.Native.String.{String}
use ai_devops.Common.{
  ℕ, ◌+◌, Bool, true, false, Option, none, some, List, [], ◌∷◌, ◌++◌, take, str_eq, leb,
  if◌then◌else◌,
}
use ai_devops.Common.Int.{ℤ}
use ai_devops.Common.Result.{Result, ok, err}
use ai_devops.PlanSchema.Json.{Fields}
use ai_devops.PlanSchema.Text.{is_space, is_empty, lstrip_by}

pub record Row : Type 0 where
  pub id : ℕ
  pub task_id : String
  pub status : String
  pub progress : ℤ
  pub logs : String
  pub metadata : Fields
  pub updated_at : ℕ
  pub created_at : ℕ

pub record Table : Type 0 where
  pub rows : List Row
  pub next_id : ℕ

-- RalphStateError
pub data RalphStateError : Type 0 where
  task_exists : String → RalphStateError

-- get
unfoldable pub get : String → List Row → Option Row
get task_id [] = none
get task_id (r ∷ rs) = if str_eq r.task_id task_id then some r else get task_id rs

-- create: the UNIQUE column makes a second row of a task an IntegrityError
unfoldable pub create :
    String → String → ℤ → String → Fields → ℕ → Table → Result RalphStateError (Table × ℕ)
create task_id status progress logs metadata now t = elim (get task_id t.rows) [
  | some r ↦ err (task_exists task_id)
  | none ↦
      let r : Row = record {
        id = t.next_id;
        task_id = task_id;
        status = status;
        progress = progress;
        logs = logs;
        metadata = metadata;
        updated_at = now;
        created_at = now;
      } in
      ok (record { rows = t.rows ++ r ∷ []; next_id = t.next_id + 1 }, t.next_id)
]

-- The arguments of update that may be None.
pub record Changes : Type 0 where
  pub status : Option String
  pub progress : Option ℤ
  pub logs : Option String
  pub metadata : Option Fields

abbrev pub or_old {ℓ} : {A : Type ℓ} → A → Option A → A
or_old old none = old
or_old old (some new) = new

unfoldable pub apply : Changes → ℕ → Row → Row
apply c now r = record r {
  status = or_old r.status c.status;
  progress = or_old r.progress c.progress;
  logs = or_old r.logs c.logs;
  metadata = or_old r.metadata c.metadata;
  updated_at = now;
}

abbrev given {ℓ} : {A : Type ℓ} → Option A → Bool → Bool
given none other = other
given (some a) other = true

-- not `if not updates`
unfoldable pub any_change : Changes → Bool
any_change c = given c.status (given c.progress (given c.logs (given c.metadata false)))

-- UPDATE ralph_state SET ... WHERE task_id = ?
unfoldable pub update_where : String → (Row → Row) → List Row → List Row
update_where task_id f [] = []
update_where task_id f (r ∷ rs) =
    (if str_eq r.task_id task_id then f r else r) ∷ update_where task_id f rs

-- cursor.rowcount > 0
unfoldable pub exists : String → List Row → Bool
exists task_id [] = false
exists task_id (r ∷ rs) = if str_eq r.task_id task_id then true else exists task_id rs

-- update
unfoldable pub update : String → Changes → ℕ → Table → Table × Bool
update task_id c now t =
    if any_change c
    then (record t { rows = update_where task_id (apply c now) t.rows }, exists task_id t.rows)
    else (t, false)

str_append : String → String → String
str_append String.[] t = t
str_append (String.◌∷◌ c s) t = String.◌∷◌ c (str_append s t)

-- f"{existing_logs}\n[{timestamp}] {log_entry}".lstrip(), where the timestamp is the text of the
-- SQL expression and not its value
unfoldable pub appended : String → String → String
unfolding str_append
appended existing entry =
    lstrip_by is_space (str_append existing (str_append "\n[datetime('now')] " entry))

-- append_log
unfoldable pub append_log : String → String → ℕ → Table → Table × Bool
append_log task_id entry now t = elim (get task_id t.rows) [
  | none ↦ (t, false)
  | some found ↦ (
    record t {
      rows =
          update_where task_id
            (λ r. record r { logs = appended found.logs entry; updated_at = now }) t.rows;
    },
    true,
  )
]

-- WHERE status = ?, when the status is given and not empty
pub of_status : Option String → List Row → List Row
of_status none rows = rows
of_status (some s) [] = []
of_status (some s) (r ∷ rs) =
    let rest = of_status (some s) rs in
    if is_empty s then r ∷ rest else if str_eq r.status s then r ∷ rest else rest

-- ORDER BY updated_at DESC
pub insert_recent : Row → List Row → List Row
insert_recent r [] = r ∷ []
insert_recent r (s ∷ rs) =
    if leb s.updated_at r.updated_at then r ∷ s ∷ rs else s ∷ insert_recent r rs

pub by_update : List Row → List Row
by_update [] = []
by_update (r ∷ rs) = insert_recent r (by_update rs)

-- list; a limit of 0 is no limit
pub list : Option String → Option ℕ → Table → List Row
list status none t = by_update (of_status status t.rows)
list status (some ℕ.zero) t = by_update (of_status status t.rows)
list status (some (ℕ.suc n)) t = take (ℕ.suc n) (by_update (of_status status t.rows))

unfoldable pub delete_where : String → List Row → List Row
delete_where task_id [] = []
delete_where task_id (r ∷ rs) =
    let rest = delete_where task_id rs in if str_eq r.task_id task_id then rest else r ∷ rest

-- delete
unfoldable pub delete : String → Table → Table × Bool
unfolding delete_where
delete task_id t = (record t { rows = delete_where task_id t.rows }, exists task_id t.rows)
