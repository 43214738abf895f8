-- ===== src/Store/Invariant/Runs.antt =====
-- `assignRun` and `transferRun` of src/store.ts keep the invariant.
use mathlib.Core.Path.{subst}
use mazzy_command_center.Store.Runs.Outcome.{release_active_reviewers-tasks}
use mazzy_command_center.Prelude.{find}
use mazzy_command_center.Prelude.{
  ℕ, ◌+◌, true, false, Option, none, some, ◌≡◌, ◌≤◌, inl, inr, refl, sym, ap, ◌∙◌, ok, arith,
  if◌then◌else◌, ◌==◌, Bool-cases, any_where, [], ◌∷◌, ◌++◌, some-eq,
}
use mazzy_command_center.Types.{running, state_eq, worker, reviewer}
use mazzy_command_center.Store.Rows.{Env, Task, RunBinding, Db}
use mazzy_command_center.Store.Queries.{
  get_task, clashes, assigned_task, release_active_reviewers, active_worker,
}
use mazzy_command_center.Store.Lookup.{get_task_replaced, get_task-id}
use mazzy_command_center.Store.Runs.{AssignRunInput, assign_run, transfer_run, release_worker}
use mazzy_command_center.Store.Runs.Outcome.{
  Started, Reviewing, Assigned, Transferred, assign_run-Assigned, transfer_run-Transferred,
  transfer_freed, replayed, worker_started, reviewer_started,
}
use mazzy_command_center.Store.Invariant.{
  Inv, Key, active_of, selects, key_count, active_count, is_settled,
}
use mazzy_command_center.Store.Invariant.Counts.{
  key_count_inserted, key_count_of_fresh, counts, release_active_reviewers-le, release-le,
}

-- An inserted binding that clashes with no row leaves at most one active in each role.
pub inserted_one :
    (freed db' : Db) (b : RunBinding) (k : Key)
    → any_where (clashes b) freed.bindings ≡ false
    → db'.bindings ≡ freed.bindings ++ b ∷ []
    → key_count freed k ≤ 1
    → key_count db' k ≤ 1
inserted_one freed db' b k fresh e small = elim (Bool-cases (selects k b)) [
  | inl here ↦
      let none_before = key_count_of_fresh freed b k fresh here in
      let one : counts k b ≡ 1 = rw here in omega (arith, key_count_inserted freed db' b k e)
  | inr other ↦
      let zero : counts k b ≡ 0 = rw other in omega (arith, key_count_inserted freed db' b k e)
]

-- It does not count for another task, nor for the other role.
counts_ne :
    (id : ℕ) (b : RunBinding) → (b.task_id == id) ≡ false → counts (active_of worker id) b ≡ 0
counts_ne id b h = ground arith

counts_reviewer : (id : ℕ) (b : RunBinding) → b.role ≡ reviewer → counts (active_of worker id) b ≡ 0
counts_reviewer id b h = ground arith

running_not_settled : ¬ (is_settled running ≡ true)
unfolding state_eq
running_not_settled h = cc

release_worker-le :
    (db : Db) (env : Env) (old : Option RunBinding) (k : Key)
    → key_count (release_worker db env old) k ≤ key_count db k
unfolding release_worker
release_worker-le db env none k = omega arith
release_worker-le db env (some old) k = release-le db old.id (env.clock 0) k

module _ (db freed db' : Db) (id : ℕ) (b : RunBinding)
    (le : (k : Key) → key_count freed k ≤ key_count db k) where
  Started-settled :
      Started db freed id b db'
      → Inv db
      → (j : ℕ) (t : Task) → get_task db' j ≡ some t
      → is_settled t.state ≡ true
      → active_count db' worker j ≡ 0
  Started-settled st inv j t found s =
      let set : Task → Task = assigned_task running st.agent (st.old.revision + 1) st.at in
      let read : (if j == id then some (set st.old) else get_task db j) ≡ some t =
        sym
          (get_task_replaced db db' st.old (set st.old) set id (λ y. refl) st.found st.tasks refl j)
        ∙ found in
      let here = get_task-id db id st.old st.found in
      elim (Bool-cases (j == id)) [
        | inl same ↦ absurd (
            running_not_settled
              (subst (λ r. is_settled r.state ≡ true) (sym (some-eq (rw same at read))) s))
        | inr other ↦
            let zero = inv.settled j t (rw other at read) s in
            let apart : counts (active_of worker j) b ≡ 0 =
              counts_ne j b (ground (arith, st.for_task)) in
            omega (
              arith,
              key_count_inserted freed db' b (active_of worker j) st.bindings,
              le (active_of worker j),
            )
      ]

  pub Started-Inv : Started db freed id b db' → Inv db → Inv db'
  Started-Inv st inv = record {
    one_of_each = λ k.
        inserted_one freed db' b k st.fresh st.bindings (omega (arith, le k, inv.one_of_each k));
    settled = Started-settled st inv;
  }

Reviewing-settled :
    (db db' : Db) (id : ℕ) (b : RunBinding) (r : Reviewing db id b db')
    → Inv db
    → (j : ℕ) (t : Task) → get_task db' j ≡ some t
    → is_settled t.state ≡ true
    → active_count db' worker j ≡ 0
unfolding get_task
Reviewing-settled db db' id b r inv j t found s =
    let same : get_task db' j ≡ get_task db j =
      ap (find (λ x. x.id == j))
        (r.inserted.tasks ∙ (release_active_reviewers-tasks db r.old.id r.at).0) in
    let zero = inv.settled j t (sym same ∙ found) s in
    omega (
      arith,
      key_count_inserted (release_active_reviewers db r.old.id r.at) db' b (active_of worker j)
          r.inserted.bindings,
      release_active_reviewers-le db r.old.id r.at (active_of worker j),
      counts_reviewer j b r.as_reviewer,
    )

pub Reviewing-Inv :
    (db db' : Db) (id : ℕ) (b : RunBinding) → Reviewing db id b db' → Inv db → Inv db'
Reviewing-Inv db db' id b r inv = record {
  one_of_each = λ k.
      inserted_one (release_active_reviewers db r.old.id r.at) db' b k r.inserted.fresh
        r.inserted.bindings
        (omega (arith, release_active_reviewers-le db r.old.id r.at k, inv.one_of_each k));
  settled = Reviewing-settled db db' id b r inv;
}

module _ (db : Db) (env : Env) (input : AssignRunInput) (row : RunBinding) (db' : Db) where
  -- A successful assignment keeps the invariant.
  pub assign_run-Inv : assign_run db env input ≡ ok (row, db') → Inv db → Inv db'
  assign_run-Inv h inv = assigned (assign_run-Assigned db env row db' input h)
    where
      assigned : Assigned db input.task_id db' → Inv db'
      assigned (replayed same) = subst Inv same inv
      assigned (worker_started old at b found allowed free st) =
          Started-Inv db (release_active_reviewers db old.id at) db' input.task_id b
            (λ k. release_active_reviewers-le db old.id at k) st inv
      assigned (reviewer_started b r) = Reviewing-Inv db db' input.task_id b r inv

  transfer_freed-le : (id : ℕ) (k : Key) → key_count (transfer_freed db env id) k ≤ key_count db k
  unfolding release_worker
  transfer_freed-le id k = omega (
    arith,
    release_active_reviewers-le (release_worker db env (active_worker db id)) id (env.clock 1) k,
    release_worker-le db env (active_worker db id) k,
  )

  -- So does a successful transfer.
  pub transfer_run-Inv : transfer_run db env input ≡ ok (row, db') → Inv db → Inv db'
  transfer_run-Inv h inv = transferred (transfer_run-Transferred db env row db' input h)
    where
      transferred : Transferred db env input.task_id db' → Inv db'
      transferred (Transferred.replayed same) = subst Inv same inv
      transferred (Transferred.started old b found runs st) =
          Started-Inv db (transfer_freed db env old.id) db' input.task_id b
            (transfer_freed-le old.id) st inv
