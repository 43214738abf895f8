-- ===== src/Store/Runs.antt =====
-- src/store.ts, `assignRun` and `transferRun`.
pub mod Outcome
use mazzy_command_center.Prelude.{
  codes, ℕ, suc, ◌+◌, Bool, true, false, List, Option, none, some, ◌&&◌, ◌||◌, not, if◌then◌else◌,
  Text, Result, ok, err, ◌>>=◌, ◌>>◌, guard, some_or, is_some, trim_or_none,
}
use mazzy_command_center.Types.{
  TaskState, running, review, is_allowed_transition, state_eq, RunRole, worker, reviewer,
  RunLifecycle, active, superseded,
}
use mazzy_command_center.Store.Rows.{
  Json, null, obj, end, field, field?, str, str?, num, num?, or_null, Env, Task, RunBinding,
  EventBody, run_assigned, run_transferred, run_recovered, Db, Error, key_required, run_id_required,
  agent_required, run_already_bound, cannot_assign, reviewer_needs_review, cannot_transfer,
  missing_row,
}
use mazzy_command_center.Store.Queries.{
  clean, require_revision, event, by_run, by_binding_key, replay_binding, active_worker,
  latest_completed_worker, insert_binding, assignment_task, release, release_active_reviewers,
}

pub record AssignRunInput : Type 0 where
  pub task_id : ℕ
  pub expected_task_revision : ℕ
  pub run_id : Text
  pub agent : Text
  pub role : RunRole
  pub idempotency_key : Text
  pub actor : Text
  pub parent_session_id : Option Text
  pub child_session_id : Option Text
  pub payload : Option Json
  pub model : Option Text
  pub cycle : Option ℕ

-- `fingerprint` of src/store.ts.
unfoldable pub fingerprint :
    Env → Text → ℕ → ℕ → Json → Option Text → Option Text → Option Json → Text
fingerprint env action task_id revision by run_id agent payload = env.sha256 (
    obj (
      field "action" (str action) (
        field "taskId" (Json.uuid task_id) (
          field "revision" (num revision) (
            field "role" by (
              field "runId" (or_null (str? run_id))
                (field "agent" (or_null (str? agent)) (field "payload" (or_null payload) end))))))))

-- The payload under an assignment's fingerprint.
abbrev pub run_payload : AssignRunInput → Json
run_payload input = obj (
    field? "payload" input.payload (
      field? "parentSessionId" (str? input.parent_session_id) (
        field? "childSessionId" (str? input.child_session_id)
          (field? "model" (str? input.model) (field? "cycle" (num? input.cycle) end)))))

-- The row that `insertBinding` inserts; `n` readings of the clock came before.
unfoldable pub new_binding :
    Env → ℕ → Task → ℕ → Text → Text → RunRole → Text → Text → AssignRunInput → RunBinding
new_binding env n t revision run_id agent role key fp input = record {
  id = env.random_uuid 0;
  task_id = t.id;
  task_revision = revision;
  acceptance_revision = t.acceptance_revision;
  acceptance_digest = t.acceptance_digest;
  run_id = run_id;
  agent = agent;
  role = role;
  state = active;
  idempotency_key = key;
  operation_fingerprint = fp;
  parent_session_id = input.parent_session_id;
  child_session_id = input.child_session_id;
  lifecycle = RunLifecycle.queued;
  model = trim_or_none input.model;
  cycle = input.cycle;
  last_activity_at = env.clock n;
  current_activity = none;
  current_tool = none;
  created_at = env.clock n;
  updated_at = env.clock n;
}

-- `byRun` after the insertion, and the event of the assignment.
unfoldable pub finish_binding :
    Db → Env → ℕ → Task → RunBinding → EventBody → Text → Result Error (RunBinding × Db)
finish_binding db env n t b body actor = do
  inserted ← insert_binding db b
  row ← some_or (by_run inserted b.run_id) missing_row
  ok (row, event inserted t.id body actor (env.clock (suc n)))

-- The worker's branch of `assignRun`.
unfoldable pub assign_worker :
    Db → Env → Task → Text → Text → Text → Text → AssignRunInput → Result Error (RunBinding × Db)
assign_worker db env t run_id agent key fp input = do
  guard (is_allowed_transition t.state running && not (is_some (active_worker db t.id)))
      cannot_assign
  let freed = release_active_reviewers db t.id (env.clock 0)
  started ← assignment_task freed t running agent (t.revision + 1) (env.clock 1)
  finish_binding started env 2 t
      (new_binding env 2 t (t.revision + 1) run_id agent worker key fp input)
      (run_assigned run_id worker (t.revision + 1) t.acceptance_revision) input.actor

-- The reviewer's branch of `assignRun`.
unfoldable pub assign_reviewer :
    Db → Env → Task → Text → Text → Text → Text → AssignRunInput → Result Error (RunBinding × Db)
assign_reviewer db env t run_id agent key fp input = do
  guard (state_eq t.state review && is_some (latest_completed_worker db t)) reviewer_needs_review
  finish_binding (release_active_reviewers db t.id (env.clock 0)) env 1 t
      (new_binding env 1 t t.revision run_id agent reviewer key fp input)
      (run_assigned run_id reviewer t.revision t.acceptance_revision) input.actor

-- The branch on the role.
abbrev pub assign_as :
    RunRole
    → Db
    → Env
    → Task
    → Text
    → Text
    → Text
    → Text
    → AssignRunInput
    → Result Error (RunBinding × Db)
assign_as worker db env t run_id agent key fp input =
    assign_worker db env t run_id agent key fp input
assign_as reviewer db env t run_id agent key fp input =
    assign_reviewer db env t run_id agent key fp input

-- The operation on a key that is new.
unfoldable pub assign_fresh :
    Db → Env → Text → Text → Text → Text → AssignRunInput → Result Error (RunBinding × Db)
assign_fresh db env run_id agent key fp input = do
  t ← require_revision db input.task_id (some input.expected_task_revision)
  guard (not (is_some (by_run db run_id))) run_already_bound
  assign_as input.role db env t run_id agent key fp input

-- A key that is known is a replay: the row of the first call, and nothing is written.
abbrev pub replay_or :
    Db → Option RunBinding → Text → Result Error (RunBinding × Db) → Result Error (RunBinding × Db)
replay_or db none fp fresh = fresh
replay_or db (some old) fp fresh = do b ← replay_binding old fp; ok (b, db)

unfoldable pub assign_run : Db → Env → AssignRunInput → Result Error (RunBinding × Db)
assign_run db env input = do
  key ← clean input.idempotency_key key_required
  run_id ← clean input.run_id run_id_required
  agent ← clean input.agent agent_required
  let fp =
      fingerprint env (codes "assign") input.task_id input.expected_task_revision
        (Json.role input.role) (some run_id) (some agent) (some (run_payload input))
  replay_or db (by_binding_key db key) fp (assign_fresh db env run_id agent key fp input)

abbrev pub transfer_event : Option RunBinding → Text → ℕ → EventBody
transfer_event none run_id revision = run_recovered run_id revision
transfer_event (some old) run_id revision = run_transferred old.run_id run_id revision

-- `if (active) this.release(active.id, "superseded", now())`
unfoldable pub release_worker : Db → Env → Option RunBinding → Db
release_worker db env none = db
release_worker db env (some old) = release db old.id superseded (env.clock 0)

unfoldable pub transfer_fresh :
    Db → Env → Text → Text → Text → Text → AssignRunInput → Result Error (RunBinding × Db)
transfer_fresh db env run_id agent key fp input = do
  t ← require_revision db input.task_id (some input.expected_task_revision)
  guard (state_eq t.state running) cannot_transfer
  guard (not (is_some (by_run db run_id))) run_already_bound
  let current = active_worker db t.id
  let freed = release_active_reviewers (release_worker db env current) t.id (env.clock 1)
  started ← assignment_task freed t running agent (t.revision + 1) (env.clock 2)
  finish_binding started env 3 t
      (new_binding env 3 t (t.revision + 1) run_id agent worker key fp input)
      (transfer_event current run_id (t.revision + 1)) input.actor

-- The input's role is not read: a transfer is always to a worker.
unfoldable pub transfer_run : Db → Env → AssignRunInput → Result Error (RunBinding × Db)
transfer_run db env input = do
  key ← clean input.idempotency_key key_required
  run_id ← clean input.run_id run_id_required
  agent ← clean input.agent agent_required
  let fp =
      fingerprint env (codes "transfer") input.task_id input.expected_task_revision
        (Json.role worker) (some run_id) (some agent) (some (run_payload input))
  replay_or db (by_binding_key db key) fp (transfer_fresh db env run_id agent key fp input)
