-- ===== src/Store/Invariant/Completions.antt =====
-- `attestCompletion` of src/store.ts keeps the invariant.
use mazzy_command_center.Store.Queries.{get_task, by_run}
use mazzy_command_center.Store.Reports.{
  CompletionAttestationInput, CompletionAttestation, accepted, refused, ReviewReportInput,
  worker_run, current_task, can_complete, complete_run, attest_completion, is_replay,
  get_review_report, same_report, report_conflict, stale_or_superseded, invalid_task_state,
}
use mazzy_command_center.Prelude.{
  text_eq-eq, Option-cases, not, Result, ℕ, Bool, true, none, some, ◌≡◌, inl, inr, ok, arith,
  if◌then◌else◌, Bool-cases, Text,
}
use mazzy_command_center.Types.{binding_state_eq, RunBindingState, worker, active}
use mazzy_command_center.Store.Rows.{Error, Json, Env, Task, RunBinding, Db}

-- What a completion that went past the tests of `attestCompletion` has found.
pub record Completing (json_eq : Json → Json → Bool) (db : Db) (env : Env)
    (input : CompletionAttestationInput) (reply : CompletionAttestation) (db' : Db) : Type 0 where
  pub binding : RunBinding
  pub task : Task
  pub report : ReviewReportInput
  pub found : by_run db input.run_id ≡ some binding
  pub for_task : binding.task_id ≡ input.task_id
  pub as_worker : binding.role ≡ worker
  pub is_active : binding.state ≡ active
  pub task_found : get_task db input.task_id ≡ some task
  pub same_acceptance : binding.acceptance_revision ≡ task.acceptance_revision
  pub same_digest : binding.acceptance_digest ≡ task.acceptance_digest
  pub can : can_complete task binding ≡ true
  pub written : complete_run db env task binding report input ≡ ok (reply, db')

worker_run-eq-some :
    (db : Db) (id : ℕ) (run_id : Text) (b : RunBinding)
    → worker_run db id run_id ≡ some b
    → (by_run db run_id ≡ some b) × (b.task_id ≡ id) × (b.role ≡ worker)
unfolding worker_run
worker_run-eq-some db id run_id b h = elim (Option-cases (by_run db run_id)) [
  | inl missing ↦ absurd (ground arith)
  | inr (x, here) ↦ ground arith
]

current_task-eq-some :
    (db : Db) (id : ℕ) (b : RunBinding) (t : Task)
    → current_task db id b ≡ some t
    → (get_task db id ≡ some t)
      × (b.acceptance_revision ≡ t.acceptance_revision)
      × (b.acceptance_digest ≡ t.acceptance_digest)
unfolding current_task
current_task-eq-some db id b t h = elim (Option-cases (get_task db id)) [
  | inl missing ↦ absurd (ground arith)
  | inr (x, here) ↦ ground (arith, text_eq-eq b.acceptance_digest x.acceptance_digest)
]

pub data Attested (json_eq : Json → Json → Bool) (db : Db) (env : Env)
    (input : CompletionAttestationInput) (reply : CompletionAttestation) (db' : Db) : Type 0 where
  unchanged : db ≡ db' → Attested json_eq db env input reply db'
  completing : Completing json_eq db env input reply db' → Attested json_eq db env input reply db'

binding_state_eq-eq : (a b : RunBindingState) → binding_state_eq a b ≡ true → a ≡ b
binding_state_eq-eq a b h = ground arith

pub same_db :
    {x y : CompletionAttestation} {d e : Db}
    → ◌≡◌ {A = Result Error (CompletionAttestation × Db)} (ok (x, d)) (ok (y, e))
    → d ≡ e
same_db h = cc

pub attest_completion-cases :
    (json_eq : Json → Json → Bool) (db : Db) (env : Env) (input : CompletionAttestationInput)
    (reply : CompletionAttestation) (db' : Db)
    → attest_completion json_eq db env input ≡ ok (reply, db')
    → Attested json_eq db env input reply db'
unfolding attest_completion
attest_completion-cases json_eq db env input reply db' h =
    elim (Option-cases (worker_run db input.task_id input.run_id)) [
      | inl missing ↦ unchanged (same_db (rw (attest_completion, missing) at h))
      | inr (b, here) ↦ elim (Option-cases (current_task db input.task_id b)) [
        | inl missing ↦ unchanged (same_db (rw (attest_completion, here, missing) at h))
        | inr (t, at) ↦ elim (Option-cases input.report) [
          | inl missing ↦ unchanged (same_db (rw (attest_completion, here, at, missing) at h))
          | inr (report, given) ↦
              attested b t report here at (rw (attest_completion, here, at, given) at h)
        ]
      ]
    ]
  where
    attested :
        (b : RunBinding) (t : Task) (report : ReviewReportInput)
        → worker_run db input.task_id input.run_id ≡ some b
        → current_task db input.task_id b ≡ some t
        → (if is_replay db t b
            then ok (
              (elim (get_review_report db t.id t.acceptance_revision) [
                | none ↦ refused report_conflict (some b)
                | some old ↦
                    if same_report json_eq old b report
                    then accepted t b
                    else refused report_conflict (some b)
              ]),
              db,
            )
            else if not (binding_state_eq b.state active)
            then ok (refused stale_or_superseded (some b), db)
            else if not (can_complete t b)
            then ok (refused invalid_task_state (some b), db)
            else complete_run db env t b report input)
          ≡ ok (reply, db')
        → Attested json_eq db env input reply db'
    attested b t report here at e = elim (Bool-cases (is_replay db t b)) [
      | inl replay ↦ unchanged (same_db (rw replay at e))
      | inr new ↦ elim (Bool-cases (binding_state_eq b.state active)) [
        | inr stale ↦ unchanged (same_db (rw (new, stale) at e))
        | inl live ↦ elim (Bool-cases (can_complete t b)) [
          | inr cannot ↦ unchanged (same_db (rw (new, live, cannot) at e))
          | inl can ↦
              let (found, mine, role) = worker_run-eq-some db input.task_id input.run_id b here in
              let (task_found, revision, digest) = current_task-eq-some db input.task_id b t at in
              completing (record {
                binding = b;
                task = t;
                report = report;
                found = found;
                for_task = mine;
                as_worker = role;
                is_active = binding_state_eq-eq b.state active live;
                task_found = task_found;
                same_acceptance = revision;
                same_digest = digest;
                can = can;
                written = rw (new, live, can) at e;
              })
        ]
      ]
    ]
