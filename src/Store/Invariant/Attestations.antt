-- ===== src/Store/Invariant/Attestations.antt =====
-- `attestCompletion` of src/store.ts: its writes, and that they keep the invariant.
use mazzy_command_center.Types.Laws.{state_eq-eq}
use mazzy_command_center.Store.Lookup.{get_task-id}
use mazzy_command_center.Store.Invariant.Completions.{
  attest_completion-cases, Completing, unchanged, completing,
}
use mazzy_command_center.Store.Invariant.{
  SameRows-trans, SameRows, event-SameRows, Inv, Inv-of_shrink, Key, selects, active_of, id_of,
  key_count, active_count, is_settled,
}
use mazzy_command_center.Store.Invariant.{active_of, id_of, is_active, key_count}
use mazzy_command_center.Store.Invariant.Counts.{update_where-le, Calms}
use mazzy_command_center.Types.{running, review, state_eq, worker, active}
use mazzy_command_center.Store.Invariant.Completions.{same_db}
use mazzy_command_center.Store.Queries.{is_active, by_run, get_task, event}
use mazzy_command_center.Store.Reports.{
  attest_completion, CompletionAttestation, CompletionAttestationInput, complete_bindings,
  is_running_row, record_completion, complete_run, complete_row, is_active_row, enter_review,
  ReviewReportInput, write_report, upsert_report,
}
use mazzy_command_center.Store.Rows.{
  Json, missing_row, concurrent_update, Env, ReviewReport, RunBinding, Task, Db,
}
use mathlib.Core.Path.{subst}
use mazzy_command_center.Prelude.{
  count_where_mono, text_eq, count_where-update_where-lt, ==_refl, some_or, on_ok,
  find-update_where_ne, ℕ, ◌+◌, Bool, true, false, some, ◌≡◌, ◌≤◌, ◌⊎◌, inl, inr, refl, sym, ap,
  ◌∙◌, ok, arith, ◌==◌, ==_iff, Bool-cases, Text, find, update_where, count_where, on_guard,
}

-- What the writes of a completion leave behind.
pub record Completed (db : Db) (t : Task) (b : RunBinding) (db' : Db) : Type 0 where
  pub moved : Db
  pub at : ℕ
  pub entered : enter_review db t at ≡ ok moved
  pub outcome :
      ((count_where (is_active_row b) moved.bindings == 1) ≡ false × (moved ≡ db'))
      ⊎ ((db'.tasks ≡ moved.tasks)
          × (db'.bindings ≡ update_where (is_active_row b) (complete_row at) moved.bindings)
          × (db'.requests ≡ moved.requests))

pub upsert_report-SameRows :
    (db : Db) (id : ℕ) (t : Task) (b : RunBinding) (r : ReviewReportInput) (at : ℕ)
    (row : ReviewReport) (db' : Db)
    → upsert_report db id t b r at ≡ ok (row, db')
    → SameRows db db'
unfolding upsert_report write_report
upsert_report-SameRows db id t b r at row db' h = record {
  tasks = ground arith;
  bindings = ground arith;
  requests = ground arith;
}

record_completion-SameRows :
    (db : Db) (env : Env) (t : Task) (b : RunBinding) (report : ReviewReportInput)
    (input : CompletionAttestationInput) (reply : CompletionAttestation) (db' : Db)
    → record_completion db env t b report input ≡ ok (reply, db')
    → SameRows db db'
unfolding record_completion
record_completion-SameRows db env t b report input reply db' h =
    on_ok (upsert_report db (env.random_uuid 0) t b report (env.clock 0)) h λ reported done h1.
      let logged : Db = event reported.1 t.id _ input.actor (env.clock 1) in
      on_ok (some_or (get_task logged input.task_id) missing_row) h1 λ row there h2.
        on_ok (some_or (by_run logged input.run_id) missing_row) h2 λ binding here h3.
          SameRows-trans
            (upsert_report-SameRows db (env.random_uuid 0) t b report (env.clock 0) reported.0
              reported.1 done)
            (event-SameRows reported.1 db' t.id _ input.actor (env.clock 1) (same_db h3))

pub complete_run-Completed :
    (db : Db) (env : Env) (t : Task) (b : RunBinding) (report : ReviewReportInput)
    (input : CompletionAttestationInput) (reply : CompletionAttestation) (db' : Db)
    → complete_run db env t b report input ≡ ok (reply, db')
    → Completed db t b db'
unfolding complete_run complete_bindings
complete_run-Completed db env t b report input reply db' h =
    on_ok (enter_review db t (env.clock 0)) h λ moved entered h1.
      elim (Bool-cases (count_where (is_active_row b) moved.bindings == 1)) [
        | inr lost ↦ record {
          moved = moved;
          at = env.clock 0;
          entered = entered;
          outcome = inl (lost, same_db (rw lost at h1));
        }
        | inl one ↦ record {
          moved = moved;
          at = env.clock 0;
          entered = entered;
          outcome =
              let same =
                record_completion-SameRows (complete_bindings moved b (env.clock 0)) env t b report
                  input reply db' (rw one at h1) in
              inr (same.tasks, same.bindings, same.requests);
        }
      ]

-- A task in RUNNING moves to REVIEW; the bindings are as they were.
pub enter_review-tables :
    (db : Db) (t : Task) (at : ℕ) (moved : Db)
    → enter_review db t at ≡ ok moved
    → (moved.bindings ≡ db.bindings)
      × (moved.requests ≡ db.requests)
      × ((moved.tasks ≡ db.tasks)
          ⊎ ((t.state ≡ running)
              × (moved.tasks
                  ≡ update_where
                      (is_running_row t)
                      (λ r. record r { state = review; revision = r.revision + 1; updated_at = at })
                      db.tasks)))
unfolding enter_review
enter_review-tables db t at moved h = elim (Bool-cases (state_eq t.state running)) [
  | inl runs ↦
      on_guard (count_where (is_running_row t) db.tasks == 1) concurrent_update (rw runs at h)
        λ one e. (ground arith, ground arith, inr (state_eq-eq t.state running runs, ground arith))
  | inr other ↦
      let same : db ≡ moved = ground arith in
      (
        sym (ap (λ d. d.bindings) same),
        sym (ap (λ d. d.requests) same),
        inl (sym (ap (λ d. d.tasks) same)),
      )
]

-- Every other task is read as it was.
enter_review-get_task :
    (db : Db) (t : Task) (at : ℕ) (moved : Db) (j : ℕ)
    → enter_review db t at ≡ ok moved
    → (j == t.id) ≡ false
    → get_task moved j ≡ get_task db j
unfolding get_task
enter_review-get_task db t at moved j h ne = elim ((enter_review-tables db t at moved h).2) [
  | inl same ↦ ap (find (λ r. r.id == j)) same
  | inr (_, set) ↦
      ap (find (λ r. r.id == j)) set
      ∙ find-update_where_ne (λ r. r.id == j) (is_running_row t) _ db.tasks (λ y k. ground arith)
          (λ y k. ground arith)
]

complete_row-Calms : (at : ℕ) → Calms (complete_row at)
complete_row-Calms at b = (refl, refl, refl, λ p. absurd (cc))

-- An active binding that is found is the only one with its id, so the guard of the completion
-- lets it through.
completes_one :
    (db : Db) (run_id : Text) (b : RunBinding)
    → by_run db run_id ≡ some b
    → b.state ≡ active
    → key_count db (id_of b.id) ≤ 1
    → (count_where (is_active_row b) db.bindings == 1) ≡ true
unfolding by_run key_count
completes_one db run_id b found live small =
    let here : is_active_row b b ≡ true = ground (arith, ==_refl b.id) in
    let fewer =
      count_where-update_where-lt (is_active_row b) (λ x. text_eq x.run_id run_id) (λ x. true)
        (complete_row 0) db.bindings b (λ y k. ground arith) found here refl (ground arith) in
    let some_of =
      count_where_mono (is_active_row b) (selects (id_of b.id)) db.bindings (λ y k. ground arith) in
    ground arith

-- The completion of the only active worker leaves none.
completes_last :
    (db : Db) (run_id : Text) (id at : ℕ) (b : RunBinding)
    → by_run db run_id ≡ some b
    → is_active worker id b ≡ true
    → is_active_row b b ≡ true
    → key_count db (active_of worker id) ≤ 1
    → count_where
        (is_active worker id)
        (update_where (is_active_row b) (complete_row at) db.bindings)
      ≡ 0
unfolding by_run key_count
completes_last db run_id id at b found live here small =
    let fewer =
      count_where-update_where-lt (is_active worker id) (λ x. text_eq x.run_id run_id)
        (is_active_row b) (complete_row at) db.bindings b (λ y k. ground arith) found live here
        (ground arith) in
    omega (arith, small)

module _ (json_eq : Json → Json → Bool) (db : Db) (env : Env) (input : CompletionAttestationInput)
    (reply : CompletionAttestation) (db' : Db) where
  completed-le :
      (b : RunBinding) (at : ℕ)
      → db'.bindings ≡ update_where (is_active_row b) (complete_row at) db.bindings
      → (k : Key) → key_count db' k ≤ key_count db k
  unfolding key_count
  completed-le b at table k =
      subst (λ l. count_where (selects k) l ≤ count_where (selects k) db.bindings) (sym table)
        (update_where-le db (is_active_row b) (complete_row at) k (complete_row-Calms at))

  Completed-settles :
      (c : Completing json_eq db env input reply db') (w : Completed db c.task c.binding db')
      → db'.tasks ≡ w.moved.tasks
      → db'.bindings ≡ update_where (is_active_row c.binding) (complete_row w.at) db.bindings
      → Inv db
      → (j : ℕ) (t : Task) → get_task db' j ≡ some t
      → is_settled t.state ≡ true
      → (active_count db' worker j ≡ 0)
        ⊎ ((old : Task) × (get_task db j ≡ some old) × (is_settled old.state ≡ true))
  unfolding key_count get_task
  Completed-settles c w tasks table inv j t found s = elim (Bool-cases (j == c.task.id)) [
    | inl same ↦
        let mine : j ≡ c.binding.task_id =
          (==_iff j c.task.id).0 same
          ∙ get_task-id db input.task_id c.task c.task_found
          ∙ sym c.for_task in
        let role = c.as_worker in
        let live = c.is_active in
        inl (
          ap (count_where (is_active worker j)) table
          ∙ completes_last db input.run_id j w.at c.binding c.found (ground (arith, ==_refl j))
              (ground (arith, ==_refl c.binding.id)) (inv.one_of_each (active_of worker j)))
    | inr other ↦ inr (
      t,
      sym (enter_review-get_task db c.task w.at w.moved j w.entered other)
          ∙ sym (ap (find (λ r. r.id == j)) tasks)
          ∙ found,
      s,
    )
  ]

  Completing-Inv : Completing json_eq db env input reply db' → Inv db → Inv db'
  Completing-Inv c inv =
      let w = complete_run-Completed db env c.task c.binding c.report input reply db' c.written in
      let (same_bindings, _, _) = enter_review-tables db c.task w.at w.moved w.entered in
      elim w.outcome [
        | inl (lost, _) ↦ absurd (
            cc (
              lost,
              completes_one db input.run_id c.binding c.found c.is_active
                  (inv.one_of_each (id_of c.binding.id)),
              same_bindings,
            ))
        | inr (tasks, bindings, _) ↦
            let table =
              bindings
              ∙ ap (update_where (is_active_row c.binding) (complete_row w.at)) same_bindings in
            Inv-of_shrink db db' (completed-le c.binding w.at table)
              (Completed-settles c w tasks table inv) inv
      ]

  -- An attestation keeps the invariant, whatever its reply.
  pub attest_completion-Inv :
      attest_completion json_eq db env input ≡ ok (reply, db') → Inv db → Inv db'
  attest_completion-Inv h inv = elim (attest_completion-cases json_eq db env input reply db' h) [
    | unchanged same ↦ subst Inv same inv
    | completing c ↦ Completing-Inv c inv
  ]
