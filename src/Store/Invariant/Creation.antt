-- ===== src/Store/Invariant/Creation.antt =====
-- `createTask` of src/store.ts: what it has written, and that it keeps the invariant.
use mazzy_command_center.Store.Invariant.Others.{same_result}
use mazzy_command_center.Prelude.{◌>>=◌, Result, same_text?}
use mazzy_command_center.Types.{medium}
use mazzy_command_center.Prelude.{
  codes, find-append_of_none, some-eq, find-append_of_some, Option-cases, ltb, ◌||◌, not, ◌++◌,
}
use mazzy_command_center.Prelude.Int.{ℤ}
use mazzy_command_center.Store.Rows.{
  Error, EventBody, task_created, missing_row, key_conflict, key_too_long, title_required, Task,
  initial_state,
}
use mazzy_command_center.Types.{TaskState, task}
use mazzy_command_center.Prelude.{[], ◌∷◌, ◌++◌, length}
use mazzy_command_center.Store.Tasks.{
  when_key, create_fingerprint, CreateTaskInput, create_task, insert_task, new_task, default,
  max_key_length, trim?, prior_task,
}
use mazzy_command_center.Store.Rows.{Env, Db}
use mazzy_command_center.Store.Queries.{
  Priority, clamp_priority, clean_type, event, clean, get_task,
}
use mathlib.Core.Path.{subst}
use mazzy_command_center.Prelude.{
  not, some_or, on_ok, ℕ, true, some, ◌≡◌, ◌≤◌, ◌⊎◌, inl, inr, sym, ap, ◌∙◌, ok, arith, ◌==◌, Text,
  find, count_where, on_guard,
}
use mazzy_command_center.Store.Invariant.{
  event-SameRows, EventBody, Task, get_task, Db, Inv, Inv-of_shrink, selects, key_count, is_settled,
}
use mazzy_command_center.Types.{draft, backlog, state_eq}

-- A new task starts in DRAFT or BACKLOG, which are not settled.
initial_not_settled :
    (s : TaskState) → (state_eq s draft || state_eq s backlog) ≡ true → ¬ (is_settled s ≡ true)
unfolding state_eq
initial_not_settled s h k = ground arith

IsCreated-settles :
    (db db' : Db) (t : Task)
    → db'.tasks ≡ db.tasks ++ t ∷ []
    → (state_eq t.state draft || state_eq t.state backlog) ≡ true
    → (j : ℕ) (r : Task) → get_task db' j ≡ some r
    → is_settled r.state ≡ true
    → (old : Task) × (get_task db j ≡ some old) × (is_settled old.state ≡ true)
unfolding get_task find
IsCreated-settles db db' t table initial j r found s =
    let there = sym (ap (find (λ x. x.id == j)) table) ∙ found in
    elim (Option-cases (find (λ x. x.id == j) db.tasks)) [
      | inr (x, here) ↦
          let e = find-append_of_some (λ y. y.id == j) db.tasks (t ∷ []) x here in
          let same : x ≡ r = some-eq (sym e ∙ there) in
          (x, here, subst (λ y. is_settled y.state ≡ true) (sym same) s)
      | inl missing ↦
          let e = sym (find-append_of_none (λ y. y.id == j) db.tasks (t ∷ []) missing) ∙ there in
          let same : t ≡ r = ground (arith, e) in
          absurd (
            initial_not_settled t.state initial
              (subst (λ y. is_settled y.state ≡ true) (sym same) s))
    ]

insert_task-eq-ok :
    (db : Db) (t : Task) (db' : Db)
    → insert_task db t ≡ ok db'
    → (db'.tasks ≡ db.tasks ++ t ∷ []) × (db'.bindings ≡ db.bindings) × (db'.requests ≡ db.requests)
unfolding insert_task
insert_task-eq-ok db t db' h = ground arith

-- What a successful `createTask` has done.
pub record IsCreated (db : Db) (db' : Db) : Type 0 where
  pub task : Task
  pub initial : (state_eq task.state draft || state_eq task.state backlog) ≡ true
  pub tasks : db'.tasks ≡ db.tasks ++ task ∷ []
  pub bindings : db'.bindings ≡ db.bindings
  pub requests : db'.requests ≡ db.requests

abbrev back_with : Db → ℕ → Result Error (Task × Db)
back_with d id = some_or (get_task d id) missing_row >>= λ r. ok (r, d)

-- The first creation under a key.
IsCreated-fresh :
    (db : Db) (env : Env) (t : Task) (body : EventBody) (actor : Text) (row : Task) (db' : Db)
    → (state_eq t.state draft || state_eq t.state backlog) ≡ true
    → (insert_task db t >>= λ inserted.
        back_with (event inserted t.id body actor (env.clock 1)) t.id)
      ≡ ok (row, db')
    → IsCreated db db'
IsCreated-fresh db env t body actor row db' initial h =
    on_ok (insert_task db t) h λ inserted done h1.
      let logged : Db = event inserted t.id body actor (env.clock 1) in
      on_ok (some_or (get_task logged t.id) missing_row) h1 λ r _ h2.
        let (ts, bs, qs) = insert_task-eq-ok db t inserted done in
        let same = event-SameRows inserted db' t.id body actor (env.clock 1) (same_result h2) in
        record {
          task = t;
          initial = initial;
          tasks = same.tasks ∙ ts;
          bindings = same.bindings ∙ bs;
          requests = same.requests ∙ qs;
        }

pub create_task-cases :
    (db : Db) (env : Env) (input : CreateTaskInput) (t : Task) (db' : Db)
    → create_task db env input ≡ ok (t, db')
    → (db ≡ db') ⊎ IsCreated db db'
unfolding create_task new_task
create_task-cases db env input t db' h = on_ok (clean input.title title_required) h λ title _ h1.
    on_ok (clean_type input.type task) h1 λ type _ h2.
      on_ok (clamp_priority (default input.priority (Priority.int (ℤ.pos 0)))) h2 λ priority _ h3.
        on_guard
          (state_eq (default input.state backlog) draft
            || state_eq (default input.state backlog) backlog)
          initial_state h3
          λ initial h4.
            on_guard (not (ltb max_key_length (length (default (trim? input.idempotency_key) []))))
              key_too_long h4
              λ _ h5.
                let key = trim? input.idempotency_key in
                let fp =
                  create_fingerprint env title (default (trim? input.description) []) type
                    (default input.state backlog) priority (default input.risk medium) in
                elim (Option-cases (prior_task db key)) [
                  | inr (prior, here) ↦ inl (
                      on_guard (same_text? prior.create_operation_fingerprint (some fp))
                        key_conflict (rw here at h5) λ _ e1. same_result e1)
                  | inl missing ↦ inr (
                      IsCreated-fresh db env
                        (new_task env title (default (trim? input.description) []) type
                          (default input.state backlog) priority (default input.risk medium) key
                          (when_key key fp))
                        (task_created title (default input.state backlog) type)
                        (default input.actor (codes "user")) t db' initial (rw missing at h5))
                ]

pub IsCreated-Inv : (db db' : Db) → IsCreated db db' → Inv db → Inv db'
unfolding key_count
IsCreated-Inv db db' c =
    Inv-of_shrink db db'
      (λ k.
        subst (λ l. count_where (selects k) l ≤ count_where (selects k) db.bindings)
          (sym c.bindings) (omega arith))
      (λ j r found s. inr (IsCreated-settles db db' c.task c.tasks c.initial j r found s))
