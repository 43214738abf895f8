-- ===== src/Store/Reports.antt =====
-- src/store.ts, `attestCompletion`, `importReviewReport` and the reports that they write.
use mazzy_command_center.Prelude.{
  ℕ, ◌+◌, Bool, true, false, [], ◌∷◌, ◌++◌, Option, none, some, ◌&&◌, ◌||◌, not, ltb, ◌==◌,
  if◌then◌else◌, Text, text_eq, trim, is_empty, length, Result, ok, ◌>>=◌, ◌>>◌, guard, some_or,
  trim_or_none, find, filter_where, update_where, count_where, last_of, same_text?,
}
use mazzy_command_center.Types.{
  running, review, state_eq, worker, role_eq, RunBindingState, active, binding_state_eq,
  RunLifecycle,
}
use mazzy_command_center.Store.Rows.{
  Json, obj, end, Env, Task, RunBinding, ReviewReport, run_completion_attested, report_imported, Db,
  Error, bad_report, concurrent_update, needs_completed_worker, missing_row,
}
use mazzy_command_center.Store.Queries.{
  require_revision, get_task, event, by_run, latest_completed_worker,
}

pub record ReviewReportInput : Type 0 where
  pub summary : Text
  pub what_changed : Text
  pub checks : Text
  pub how_to_use : Text
  pub acceptance_criteria : Json
  pub results : Json
  pub limitations : Text
  pub model : Option Text
  pub agent : Option Text
  pub session_id : Option Text
  pub run_id : Option Text
  pub cycle : Option ℕ

pub record CompletionAttestationInput : Type 0 where
  pub task_id : ℕ
  pub expected_task_revision : ℕ
  pub run_id : Text
  pub actor : Text
  pub payload : Option Json
  pub report : Option ReviewReportInput

pub data Reason : Type 0 where
  unknown_run stale_or_superseded revision_mismatch : Reason
  invalid_task_state report_required report_conflict : Reason

-- `CompletionAttestation`: accepted with the task and the binding, or refused with a reason.
pub data CompletionAttestation : Type 0 where
  accepted : Task → RunBinding → CompletionAttestation
  refused : Reason → Option RunBinding → CompletionAttestation

abbrev pub max_report_field_length : ℕ
max_report_field_length = 12000

abbrev pub is_report_field : Text → Bool
is_report_field s = not (is_empty (trim s)) && not (ltb max_report_field_length (length s))

abbrev pub is_bounded : Option Text → ℕ → Bool
is_bounded none n = true
is_bounded (some s) n = not (ltb n (length s))

unfoldable pub is_valid_report : ReviewReportInput → Bool
is_valid_report r =
    is_report_field r.summary
    && is_report_field r.what_changed
    && is_report_field r.checks
    && is_report_field r.how_to_use
    && is_report_field r.limitations
    && is_bounded r.model 500

-- `report.agent?.trim() || b.agent`
abbrev pub report_agent : ReviewReportInput → RunBinding → Text
report_agent r b = elim (trim_or_none r.agent) [ none ↦ b.agent | some a ↦ a ]

abbrev pub same_num? : Option ℕ → Option ℕ → Bool
same_num? none none = true
same_num? none (some b) = false
same_num? (some a) none = false
same_num? (some a) (some b) = a == b

-- `sameReport`; `json_eq` compares two values by their JSON texts.
unfoldable pub same_report :
    (Json → Json → Bool) → ReviewReport → RunBinding → ReviewReportInput → Bool
same_report json_eq e b r =
    text_eq e.worker_run_id b.run_id
    && text_eq e.agent (report_agent r b)
    && text_eq e.summary (trim r.summary)
    && text_eq e.what_changed (trim r.what_changed)
    && text_eq e.checks (trim r.checks)
    && text_eq e.how_to_use (trim r.how_to_use)
    && json_eq e.acceptance_criteria r.acceptance_criteria
    && json_eq e.results r.results
    && text_eq e.limitations (trim r.limitations)
    && same_text? e.model (trim_or_none r.model)
    && same_text? e.session_id (trim_or_none r.session_id)
    && same_text? e.run_id (trim_or_none r.run_id)
    && same_num? e.cycle r.cycle

unfoldable pub get_review_report : Db → ℕ → ℕ → Option ReviewReport
get_review_report db task_id acceptance =
    last_of (
      filter_where (λ r. (r.task_id == task_id) && (r.acceptance_revision == acceptance))
        db.reports)

abbrev pub is_report_of : Task → RunBinding → ReviewReport → Bool
is_report_of t b r =
    (r.task_id == t.id)
    && (r.acceptance_revision == t.acceptance_revision)
    && text_eq r.worker_run_id b.run_id

abbrev pub rewrite_report : ReviewReportInput → ℕ → ReviewReport → ReviewReport
rewrite_report r at old = record old {
  summary = trim r.summary;
  what_changed = trim r.what_changed;
  checks = trim r.checks;
  how_to_use = trim r.how_to_use;
  acceptance_criteria = r.acceptance_criteria;
  results = r.results;
  limitations = trim r.limitations;
  model = trim_or_none r.model;
  session_id = trim_or_none r.session_id;
  run_id = trim_or_none r.run_id;
  cycle = r.cycle;
  updated_at = at;
}

abbrev pub new_report : ℕ → Task → RunBinding → ReviewReportInput → ℕ → ReviewReport
new_report id t b r at = record {
  id = id;
  task_id = t.id;
  acceptance_revision = t.acceptance_revision;
  worker_run_id = b.run_id;
  agent = report_agent r b;
  parent_session_id = b.parent_session_id;
  child_session_id = b.child_session_id;
  summary = trim r.summary;
  what_changed = trim r.what_changed;
  checks = trim r.checks;
  how_to_use = trim r.how_to_use;
  acceptance_criteria = r.acceptance_criteria;
  results = r.results;
  limitations = trim r.limitations;
  model = trim_or_none r.model;
  session_id = trim_or_none r.session_id;
  run_id = trim_or_none r.run_id;
  cycle = r.cycle;
  created_at = at;
  updated_at = at;
}

-- The tables after the report is written: over the one of this run, or as a new row.
unfoldable pub write_report : Db → ℕ → Task → RunBinding → ReviewReportInput → ℕ → Db
write_report db id t b r at = elim (find (is_report_of t b) db.reports) [
  | none ↦ record db { reports = db.reports ++ new_report id t b r at ∷ [] }
  | some old ↦ record db {
    reports = update_where (λ x. x.id == old.id) (rewrite_report r at) db.reports;
  }
]

unfoldable pub upsert_report :
    Db → ℕ → Task → RunBinding → ReviewReportInput → ℕ → Result Error (ReviewReport × Db)
upsert_report db id t b r at = do
  guard (is_valid_report r) bad_report
  let written = write_report db id t b r at
  row ← some_or (get_review_report written t.id t.acceptance_revision) missing_row
  ok (row, written)

-- The tests of `attestCompletion`, in their order; `none` lets the completion through.
abbrev pub is_replay : Db → Task → RunBinding → Bool
is_replay db t b =
    binding_state_eq b.state RunBindingState.completed
    && state_eq t.state review
    && (elim (latest_completed_worker db t) [ none ↦ false | some w ↦ text_eq w.run_id b.run_id ])
    && (elim (get_review_report db t.id t.acceptance_revision) [
      | none ↦ false
      | some r ↦ text_eq r.worker_run_id b.run_id
    ])

-- The binding of the attested run, if it is a worker's of this task.
unfoldable pub worker_run : Db → ℕ → Text → Option RunBinding
worker_run db task_id run_id = elim (by_run db run_id) [
  | none ↦ none
  | some b ↦ if (b.task_id == task_id) && role_eq b.role worker then some b else none
]

-- The task, if the binding was assigned for its current acceptance.
unfoldable pub current_task : Db → ℕ → RunBinding → Option Task
current_task db task_id b = elim (get_task db task_id) [
  | none ↦ none
  | some t ↦
      if (b.acceptance_revision == t.acceptance_revision)
        && text_eq b.acceptance_digest t.acceptance_digest
      then some t
      else none
]

-- Whether the task is one that an active worker can complete.
abbrev pub can_complete : Task → RunBinding → Bool
can_complete t b =
    (state_eq t.state running || state_eq t.state review)
    && not (state_eq t.state running && not (same_text? t.executor_actor (some b.agent)))

abbrev pub is_running_row : Task → Task → Bool
is_running_row t r = (r.id == t.id) && (r.revision == t.revision) && state_eq r.state running

-- The move of a running task to REVIEW.
unfoldable pub enter_review : Db → Task → ℕ → Result Error Db
enter_review db t at =
    if state_eq t.state running
    then guard (count_where (is_running_row t) db.tasks == 1) concurrent_update
      >> ok (record db {
        tasks =
            update_where (is_running_row t)
              (λ r. record r { state = review; revision = r.revision + 1; updated_at = at })
              db.tasks;
      })
    else ok db

abbrev pub is_active_row : RunBinding → RunBinding → Bool
is_active_row b r = (r.id == b.id) && binding_state_eq r.state active

abbrev pub complete_row : ℕ → RunBinding → RunBinding
complete_row at r = record r {
  state = RunBindingState.completed;
  lifecycle = RunLifecycle.completed;
  last_activity_at = at;
  updated_at = at;
}

-- The binding completed, by a guarded update.
unfoldable pub complete_bindings : Db → RunBinding → ℕ → Db
complete_bindings db b at = record db {
  bindings = update_where (is_active_row b) (complete_row at) db.bindings;
}

-- The report and the event of a completion.
unfoldable pub record_completion :
    Db
    → Env
    → Task
    → RunBinding
    → ReviewReportInput
    → CompletionAttestationInput
    → Result Error (CompletionAttestation × Db)
record_completion db env t b report input = do
  reported ← upsert_report db (env.random_uuid 0) t b report (env.clock 0)
  let logged =
      event reported.1 t.id
        (run_completion_attested b.run_id t.acceptance_revision
          (not (t.revision == input.expected_task_revision) || not (b.task_revision == t.revision))
          (elim input.payload [ none ↦ obj end | some p ↦ p ]))
        input.actor (env.clock 1)
  row ← some_or (get_task logged input.task_id) missing_row
  binding ← some_or (by_run logged input.run_id) missing_row
  ok (accepted row binding, logged)

-- The writes of `attestCompletion`. A lost race of the second guarded update returns a refusal,
-- and what the first one wrote is kept.
unfoldable pub complete_run :
    Db
    → Env
    → Task
    → RunBinding
    → ReviewReportInput
    → CompletionAttestationInput
    → Result Error (CompletionAttestation × Db)
complete_run db env t b report input = do
  moved ← enter_review db t (env.clock 0)
  if count_where (is_active_row b) moved.bindings == 1
      then record_completion (complete_bindings moved b (env.clock 0)) env t b report input
      else ok (refused stale_or_superseded (some b), moved)

unfoldable pub attest_completion :
    (Json → Json → Bool)
    → Db
    → Env
    → CompletionAttestationInput
    → Result Error (CompletionAttestation × Db)
attest_completion json_eq db env input = elim (worker_run db input.task_id input.run_id) [
  | none ↦ ok (refused unknown_run none, db)
  | some b ↦ elim (current_task db input.task_id b) [
    | none ↦ ok (refused revision_mismatch (some b), db)
    | some t ↦ elim input.report [
      | none ↦ ok (refused report_required (some b), db)
      | some report ↦
          if is_replay db t b
          then ok (
            (elim (get_review_report db t.id t.acceptance_revision) [
              | none ↦ refused report_conflict (some b)
              | some old ↦
                  if same_report json_eq old b report
                  then accepted t b
                  else refused report_conflict (some b)
            ]),
            db,
          )
          else if not (binding_state_eq b.state active)
          then ok (refused stale_or_superseded (some b), db)
          else if not (can_complete t b)
          then ok (refused invalid_task_state (some b), db)
          else complete_run db env t b report input
    ]
  ]
]

unfoldable pub import_review_report :
    Db → Env → ℕ → Text → ℕ → ReviewReportInput → Text → Result Error (ReviewReport × Db)
import_review_report db env task_id run_id expected report actor = do
  t ← require_revision db task_id (some expected)
  b ← some_or (latest_completed_worker db t) needs_completed_worker
  guard (text_eq b.run_id run_id) needs_completed_worker
  result ← upsert_report db (env.random_uuid 0) t b report (env.clock 0)
  ok (
    result.0,
    event result.1 task_id (report_imported run_id t.acceptance_revision) actor (env.clock 1),
  )
