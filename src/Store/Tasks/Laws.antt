-- ===== src/Store/Tasks/Laws.antt =====
-- `updateTask` of src/store.ts: the lifecycle of a task, its acceptance, and its bindings.
use mathlib.Core.Path.{subst}
use mazzy_command_center.Store.Gate.{IsReviewed, require_current_reviewer_pass-IsReviewed}
use mazzy_command_center.Prelude.{inl, inr}
use mazzy_command_center.Store.Tasks.Bindings.{settle_bindings-none}
use mazzy_command_center.Store.Lookup.{get_task_replaced, get_task-id}
use mazzy_command_center.Types.Laws.{state_eq_refl}
use mazzy_command_center.Prelude.{
  if◌then◌else◌, ◌==◌, ◌∙◌, ℕ, suc, true, false, Option, some, ◌≡◌, ◌≢◌, ◌⊎◌, refl, sym, ap, ok,
  arith,
}
use mazzy_command_center.Types.{TaskState, done}
use mazzy_command_center.Store.Rows.{Env, Task, Db}
use mazzy_command_center.Store.Queries.{get_task, active_bindings, content_digest}
use mazzy_command_center.Store.Tasks.{
  restarts, default, is_terminal, updated_task, TaskRisk, ℤ, TaskType, UpdatePlan, next_state,
  UpdateTaskInput, update_task,
}
use mazzy_command_center.Store.Tasks.Update.{
  settle_bindings-tasks, update_task-Updated, content_differs, CanMove, next_state-CanMove,
  plan_update-eq-ok,
}

-- What an update does to the row of its task.
pub record IsNextRow (env : Env) (old t : Task) : Type 0 where
  pub same_id : t.id ≡ old.id
  pub next_revision : t.revision ≡ suc old.revision
  pub moved : CanMove old.state (content_differs t.title t.description old) t.state
  pub same_acceptance :
      content_differs t.title t.description old ≡ false
      → (t.acceptance_revision ≡ old.acceptance_revision)
        × (t.acceptance_digest ≡ old.acceptance_digest)
  pub new_acceptance :
      content_differs t.title t.description old ≡ true
      → (t.acceptance_revision ≡ suc old.acceptance_revision)
        × (t.acceptance_digest ≡ content_digest env t.title t.description)
        × (old.state ≢ done)

not_done :
    (old to : TaskState) (wanted : Option TaskState)
    → next_state old true wanted ≡ ok to
    → old ≢ done
unfolding next_state
not_done old to wanted h e = ground (arith, state_eq_refl done)

updated_task-IsNextRow :
    (env : Env) (old : Task) (p : UpdatePlan) (type : TaskType) (priority : ℤ) (risk : TaskRisk)
    (wanted : Option TaskState)
    → p.content_changed ≡ content_differs p.title p.description old
    → next_state old.state p.content_changed wanted ≡ ok p.state
    → IsNextRow env old (updated_task env old p type priority risk old)
updated_task-IsNextRow env old p type priority risk wanted changed next = record {
  same_id = refl;
  next_revision = omega arith;
  moved = rw (← changed) (next_state-CanMove old.state p.content_changed wanted p.state next);
  same_acceptance = λ no. ground arith;
  new_acceptance = λ yes.
      let now : p.content_changed ≡ true = changed ∙ yes in
      (
        ground arith,
        ground arith,
        not_done old.state p.state wanted
            (subst (λ c. next_state old.state c wanted ≡ ok p.state) now next),
      );
}

same_row : {a b : Task} → some a ≡ some b → a ≡ b
same_row h = cc

none_active :
    {d d' : Db} {i j : ℕ} → d' ≡ d → i ≡ j → active_bindings d i ≡ 0 → active_bindings d' j ≡ 0
none_active e k h = cc

release_cause :
    (env : Env) (read old t : Task) (p : UpdatePlan) (type : TaskType) (priority : ℤ)
    (risk : TaskRisk)
    → read ≡ old
    → t ≡ updated_task env read p type priority risk read
    → p.content_changed ≡ content_differs p.title p.description read
    → p.acceptance_restart ≡ restarts read.state p.content_changed
    → (is_terminal t.state ≡ true)
      ⊎ (restarts old.state (content_differs t.title t.description old) ≡ true)
    → (p.acceptance_restart ≡ true) ⊎ (is_terminal p.state ≡ true)
release_cause env read old t p type priority risk one row changed restart (inl ends) =
    inr (subst (λ r. is_terminal r.state ≡ true) row ends)
release_cause env read old t p type priority risk one row changed restart (inr edit) = inl (
    restart
    ∙ ap (restarts read.state) changed
    ∙ subst (λ r. restarts r.state (content_differs p.title p.description r) ≡ true) (sym one)
        (subst (λ r. restarts old.state (content_differs r.title r.description old) ≡ true) row
          edit))

module _ (db : Db) (env : Env) (id : ℕ) (input : UpdateTaskInput) (t : Task) (db' : Db)
    (updated : update_task db env id input ≡ ok (t, db')) where
  -- A successful update was given the current revision. The new row has the same id and the
  -- next revision, its state moved as an update may move it, and its acceptance revision and
  -- digest are new exactly when the title or the description differ, which a DONE task does not
  -- allow.
  pub update_task-IsNextRow :
      (old : Task) × (get_task db id ≡ some old)
      × (input.expected_revision ≡ some old.revision)
      × IsNextRow env old t
  update_task-IsNextRow =
      let u = update_task-Updated db env input t db' id updated in
      let (changed, restart, next) = plan_update-eq-ok u.old input u.plan u.planned in
      (
        u.old,
        u.found,
        u.expected,
        subst (IsNextRow env u.old) (sym u.row)
            (updated_task-IsNextRow env u.old u.plan u.type u.priority _ input.state changed next),
      )

  -- After a successful update the returned row is read back from the database, and every other
  -- task is read as it was.
  pub update_task-get_task : (j : ℕ) → get_task db' j ≡ (if j == id then some t else get_task db j)
  unfolding get_task
  update_task-get_task j =
      let u = update_task-Updated db env input t db' id updated in
      get_task_replaced db db' u.old t
        (updated_task env u.old u.plan u.type u.priority (default input.risk u.old.risk)) id
        (λ y. refl) u.found
        (ap (λ d. d.tasks) u.tables ∙ settle_bindings-tasks _ env u.old u.plan _) u.row j

  -- After a successful update that leaves the task in DONE, FAILED or CANCELLED, or that edits
  -- its content in RUNNING or REVIEW, the task holds no active binding.
  pub update_task-releases :
      (old : Task)
      → get_task db id ≡ some old
      → (is_terminal t.state ≡ true)
        ⊎ (restarts old.state (content_differs t.title t.description old) ≡ true)
      → active_bindings db' id ≡ 0
  update_task-releases old found ends =
      let u = update_task-Updated db env input t db' id updated in
      let (changed, restart, next) = plan_update-eq-ok u.old input u.plan u.planned in
      let one : u.old ≡ old = same_row (sym u.found ∙ found) in
      let here = get_task-id db id u.old u.found in
      let ended : (u.plan.acceptance_restart ≡ true) ⊎ (is_terminal u.plan.state ≡ true) =
        release_cause env u.old old t u.plan u.type u.priority _ one u.row changed restart ends in
      none_active u.tables here (settle_bindings-none _ env u.old u.plan _ ended)

  -- When an update leaves a task in DONE, the database had a completed worker for its current
  -- acceptance and a passing verdict of a reviewer with another run and another agent, who was
  -- assigned no earlier than that worker.
  pub update_task-IsReviewed :
      (old : Task) → get_task db id ≡ some old → t.state ≡ done → IsReviewed db old
  update_task-IsReviewed old found e =
      let u = update_task-Updated db env input t db' id updated in
      let one : u.old ≡ old = same_row (sym u.found ∙ found) in
      subst (IsReviewed db) one (
        require_current_reviewer_pass-IsReviewed db u.old
          (u.gated (sym (ap (λ r. r.state) u.row) ∙ e)))
