-- ===== src/Store/Invariant/Updates.antt =====
-- `updateTask` and `createTask` of src/store.ts keep the invariant.
use mathlib.Core.Path.{subst}
use mazzy_command_center.Prelude.{
  some-eq, ==_iff, ℕ, Bool, true, some, ◌≡◌, ◌≤◌, ◌⊎◌, inl, inr, sym, ◌∙◌, ok, arith, if◌then◌else◌,
  ◌==◌, Bool-cases, Text,
}
use mazzy_command_center.Types.{ready, TaskState, review, state_eq, worker, superseded}
use mazzy_command_center.Types.Laws.{state_eq-eq}
use mazzy_command_center.Store.Rows.{Env, Task, Db}
use mazzy_command_center.Store.Queries.{get_task}
use mazzy_command_center.Store.Tasks.{
  UpdateTaskInput, UpdatePlan, update_task, settle_bindings, release_restarted, release_terminal,
  is_terminal, terminal_release,
}
use mazzy_command_center.Store.Tasks.Update.{update_task-Updated, CanMove}
use mazzy_command_center.Store.Tasks.Bindings.{settle_bindings-bindings}
use mazzy_command_center.Store.Tasks.Laws.{
  update_task-get_task, update_task-releases, update_task-IsNextRow,
}
use mazzy_command_center.Store.Invariant.{
  Key, key_count, Inv, Inv-of_shrink, active_count, is_settled,
}
use mazzy_command_center.Store.Invariant.Counts.{active_count_of_none, release_active_bindings-le}

release_restarted-le :
    (db : Db) (env : Env) (current : Task) (p : UpdatePlan) (k : Key)
    → key_count (release_restarted db env current p) k ≤ key_count db k
unfolding release_restarted
release_restarted-le db env current p k =
    ground (arith, release_active_bindings-le db current.id superseded (env.clock 0) k)

release_terminal-le :
    (db : Db) (env : Env) (current : Task) (p : UpdatePlan) (k : Key)
    → key_count (release_terminal db env current p) k ≤ key_count db k
unfolding release_terminal
release_terminal-le db env current p k =
    ground
      (arith, release_active_bindings-le db current.id (terminal_release p.state) (env.clock 0) k)

settle_bindings-le :
    (db : Db) (env : Env) (current : Task) (p : UpdatePlan) (actor : Text) (k : Key)
    → key_count (settle_bindings db env current p actor) k ≤ key_count db k
unfolding key_count
settle_bindings-le db env current p actor k = rw (settle_bindings-bindings db env current p actor) (
    omega (
      arith,
      release_terminal-le (release_restarted db env current p) env current p k,
      release_restarted-le db env current p k,
    ))

ready_not_settled : ¬ (is_settled ready ≡ true)
unfolding state_eq
ready_not_settled h = cc

-- A settled state is terminal, or it is REVIEW, which an update does not enter.
settled_or_terminal :
    (from to : TaskState) (changed : Bool)
    → CanMove from changed to
    → is_settled to ≡ true
    → (is_terminal to ≡ true) ⊎ (is_settled from ≡ true)
settled_or_terminal from to changed (inl stays) s = inr (subst (λ x. is_settled x ≡ true) stays s)
settled_or_terminal from to changed (inr (inl (allowed, not_running, not_review))) s =
    inl (ground (arith, state_eq-eq to review))
settled_or_terminal from to changed (inr (inr (edit, from_run, is_ready))) s =
    absurd (ready_not_settled (subst (λ x. is_settled x ≡ true) is_ready s))

module _ (db : Db) (env : Env) (id : ℕ) (input : UpdateTaskInput) (t : Task) (db' : Db)
    (updated : update_task db env id input ≡ ok (t, db')) where
  update_task-le : (k : Key) → key_count db' k ≤ key_count db k
  unfolding key_count
  update_task-le k =
      let u = update_task-Updated db env input t db' id updated in
      subst (λ d. key_count d k ≤ key_count db k) (sym u.tables)
        (settle_bindings-le _ env u.old u.plan _ k)

  updated_settles :
      is_settled t.state ≡ true
      → (active_count db' worker id ≡ 0)
        ⊎ ((old : Task) × (get_task db id ≡ some old) × (is_settled old.state ≡ true))
  updated_settles s =
      let (old, found, expected, next) = update_task-IsNextRow db env id input t db' updated in
      elim (settled_or_terminal old.state t.state _ next.moved s) [
        | inl ends ↦ inl (
            active_count_of_none db' worker id
              (update_task-releases db env id input t db' updated old found (inl ends)))
        | inr was ↦ inr (old, found, was)
      ]

  update_task-settles :
      (j : ℕ) (r : Task)
      → get_task db' j ≡ some r
      → is_settled r.state ≡ true
      → (active_count db' worker j ≡ 0)
        ⊎ ((old : Task) × (get_task db j ≡ some old) × (is_settled old.state ≡ true))
  update_task-settles j r found s = elim (Bool-cases (j == id)) [
    | inl same ↦
        let e = (==_iff j id).0 same in
        let there : (if j == id then some t else get_task db j) ≡ some r =
          sym (update_task-get_task db env id input t db' updated j) ∙ found in
        let mine : t ≡ r = some-eq (rw same at there) in
        subst
          (λ k.
            (active_count db' worker k ≡ 0)
            ⊎ ((old : Task) × (get_task db k ≡ some old) × (is_settled old.state ≡ true)))
          (sym e) (updated_settles (subst (λ x. is_settled x.state ≡ true) (sym mine) s))
    | inr other ↦
        let there : (if j == id then some t else get_task db j) ≡ some r =
          sym (update_task-get_task db env id input t db' updated j) ∙ found in
        inr (r, rw other at there, s)
  ]

  -- A successful update keeps the invariant.
  pub update_task-Inv : Inv db → Inv db'
  update_task-Inv = Inv-of_shrink db db' update_task-le update_task-settles
