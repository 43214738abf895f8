-- ===== src/Store/Lookup.antt =====
-- Selections of src/store.ts after a guarded update of one task.
use mathlib.Core.Path.{subst}
use mazzy_command_center.Prelude.{
  ℕ, sym, Option, none, some, ◌≡◌, List, ◌==◌, if◌then◌else◌, ok, arith, ==_iff, find, update_where,
  find_holds, find-update_where, find-update_where_ne, inl, inr, Bool-cases,
}
use mazzy_command_center.Types.Laws.{state_eq_refl}
use mazzy_command_center.Store.Rows.{Task, Db}
use mazzy_command_center.Store.Queries.{get_task, require_revision, is_current}

-- A revision that is accepted is the current one.
pub require_revision-eq-ok :
    (db : Db) (id : ℕ) (expected : Option ℕ) (t : Task)
    → require_revision db id expected ≡ ok t
    → (get_task db id ≡ some t) × (expected ≡ some t.revision)
unfolding require_revision
require_revision-eq-ok db id none t h = cc
require_revision-eq-ok db id (some e) t h = ground (arith, ==_iff t.revision e)

pub get_task-id : (db : Db) (id : ℕ) (t : Task) → get_task db id ≡ some t → t.id ≡ id
unfolding get_task
get_task-id db id t h = (==_iff t.id id).0 (find_holds (λ r. r.id == id) db.tasks t h)

module _ (tasks : List Task) (old : Task) (f : Task → Task) (keeps : (y : Task) → (f y).id ≡ y.id)
    (found : find (λ r. r.id == old.id) tasks ≡ some old) where
  find-update_current_self :
      find (λ r. r.id == old.id) (update_where (is_current old) f tasks) ≡ some (f old)
  find-update_current_self =
      find-update_where (λ r. r.id == old.id) (λ r. r.id == old.id) (is_current old) f tasks old
        (λ y miss. ground (arith, keeps y)) found (ground (arith, state_eq_refl old.state))
        (ground (arith, keeps old))

  -- The row that was read is replaced and no other is touched.
  pub find-update_current :
      (j : ℕ)
      → find (λ r. r.id == j) (update_where (is_current old) f tasks)
        ≡ (if j == old.id then some (f old) else find (λ r. r.id == j) tasks)
  find-update_current j = elim (Bool-cases (j == old.id)) [
    | inl same ↦ rw same (
        subst (λ k. find (λ r. r.id == k) (update_where (is_current old) f tasks) ≡ some (f old))
          (sym ((==_iff j old.id).0 same)) find-update_current_self)
    | inr other ↦ rw other (
        find-update_where_ne (λ r. r.id == j) (is_current old) f tasks (λ y h. ground arith)
          (λ y h. ground (arith, keeps y)))
  ]

-- How a table of tasks is read after a guarded update of the task `id`.
pub get_task_replaced :
    (db db' : Db) (old t : Task) (f : Task → Task) (id : ℕ)
    → ((y : Task) → (f y).id ≡ y.id)
    → get_task db id ≡ some old
    → db'.tasks ≡ update_where (is_current old) f db.tasks
    → t ≡ f old
    → (j : ℕ) → get_task db' j ≡ (if j == id then some t else get_task db j)
unfolding get_task
get_task_replaced db db' old t f id keeps found tables row j =
    let here = get_task-id db id old found in
    let self = subst (λ i. find (λ r. r.id == i) db.tasks ≡ some old) (sym here) found in
    let read = find-update_current db.tasks old f keeps self j in
    let moved =
      subst
        (λ i.
          find (λ r. r.id == j) (update_where (is_current old) f db.tasks)
          ≡ (if j == i then some (f old) else find (λ r. r.id == j) db.tasks))
        here read in
    let named =
      subst
        (λ x.
          find (λ r. r.id == j) (update_where (is_current old) f db.tasks)
          ≡ (if j == id then some x else find (λ r. r.id == j) db.tasks))
        (sym row) moved in
    subst
      (λ ts.
        find (λ r. r.id == j) ts ≡ (if j == id then some t else find (λ r. r.id == j) db.tasks))
      (sym tables) named
