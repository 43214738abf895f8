-- ===== src/Store/System.antt =====
-- src/store.ts as a transition system: one step for each operation that succeeds, and the
-- databases that the operations reach from an empty one. An operation that throws leaves the
-- database as it was, since `tx` rolls it back.
pub mod Tasks
pub mod Requests
pub mod Reachable
use mazzy_command_center.Store.Control.{
  reconcile_one_claimed_request, fail_control_request, complete_control_request,
  CompleteControlRequestInput, claim_control_request, mark_delivered, create_control_request,
  RequestReply, CreateControlRequestInput,
}
use mazzy_command_center.Store.Evidence.{
  record_evidence, RecordEvidenceInput, record_reviewer_evidence, ReviewerEvidenceInput,
}
use mazzy_command_center.Store.Reports.{
  import_review_report, ReviewReportInput, attest_completion, CompletionAttestation,
  CompletionAttestationInput,
}
use mazzy_command_center.Store.Runs.{transfer_run, assign_run, AssignRunInput}
use mazzy_command_center.Store.Tasks.{update_task, UpdateTaskInput, create_task, CreateTaskInput}
use mazzy_command_center.Prelude.{ℕ, Bool, [], ok, ◌≡◌, Text}
use mazzy_command_center.Store.Rows.{
  Json, Env, Task, RunBinding, Evidence, ReviewReport, ControlRequest, Db,
}

pub data Step (db db' : Db) : Type 0 where
  creates :
      (env : Env) (input : CreateTaskInput) (t : Task)
      → create_task db env input ≡ ok (t, db')
      → Step db db'
  updates :
      (env : Env) (id : ℕ) (input : UpdateTaskInput) (t : Task)
      → update_task db env id input ≡ ok (t, db')
      → Step db db'
  assigns :
      (env : Env) (input : AssignRunInput) (row : RunBinding)
      → assign_run db env input ≡ ok (row, db')
      → Step db db'
  transfers :
      (env : Env) (input : AssignRunInput) (row : RunBinding)
      → transfer_run db env input ≡ ok (row, db')
      → Step db db'
  attests :
      (json_eq : Json → Json → Bool) (env : Env) (input : CompletionAttestationInput)
      (reply : CompletionAttestation)
      → attest_completion json_eq db env input ≡ ok (reply, db')
      → Step db db'
  imports :
      (env : Env) (task_id : ℕ) (run_id : Text) (expected : ℕ) (report : ReviewReportInput)
      (actor : Text) (row : ReviewReport)
      → import_review_report db env task_id run_id expected report actor ≡ ok (row, db')
      → Step db db'
  reviews :
      (env : Env) (task_id : ℕ) (input : ReviewerEvidenceInput) (e : Evidence)
      → record_reviewer_evidence db env task_id input ≡ ok (e, db')
      → Step db db'
  records :
      (env : Env) (task_id : ℕ) (input : RecordEvidenceInput) (e : Evidence)
      → record_evidence db env task_id input ≡ ok (e, db')
      → Step db db'
  requests :
      (env : Env) (input : CreateControlRequestInput) (reply : RequestReply)
      → create_control_request db env input ≡ ok (reply, db')
      → Step db db'
  delivers :
      (env : Env) (id : ℕ) (row : ControlRequest)
      → mark_delivered db env id ≡ ok (row, db')
      → Step db db'
  claims :
      (env : Env) (id : ℕ) (session : Text) (row : ControlRequest)
      → claim_control_request db env id session ≡ ok (row, db')
      → Step db db'
  completes :
      (env : Env) (input : CompleteControlRequestInput) (row : ControlRequest)
      → complete_control_request db env input ≡ ok (row, db')
      → Step db db'
  fails :
      (env : Env) (id : ℕ) (error : Text) (row : ControlRequest)
      → fail_control_request db env id error ≡ ok (row, db')
      → Step db db'
  recovers :
      (env : Env) (available : Text → Bool)
      → (reconcile_one_claimed_request available db env).1 ≡ db'
      → Step db db'

-- The tables as `migrate` makes them.
abbrev pub empty_db : Db
empty_db = record {
  tasks = [];
  bindings = [];
  evidence = [];
  reports = [];
  requests = [];
  events = [];
  last_event = 0;
}

pub data Reach : Db → Type 0 where
  start : Reach empty_db
  step : {db db' : Db} → Reach db → Step db db' → Reach db'
