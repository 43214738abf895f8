-- ===== src/Store/Tests.antt =====
-- Runs of src/store.ts on small databases, and the theorems applied to them.
use mazzy_command_center.Store.Tasks.Offers.{next_state-offered}
use mazzy_command_center.Prelude.{◌↔◌, ◌≢◌}
use mazzy_command_center.Store.Tasks.{trim?}
use mazzy_command_center.Store.Tasks.Keys.{create_task-blank_key, has_blank_key}
use mazzy_command_center.Store.Tasks.Update.{content_differs}
use mazzy_command_center.Store.Control.{
  update_request, mark_delivered, get_control_request, CreateControlRequestInput,
}
use mazzy_command_center.Store.Runs.{
  fingerprint, new_binding, finish_binding, assign_worker, assign_fresh, assign_run, AssignRunInput,
}
use mazzy_command_center.Store.Control.Invariant.{IsFollowedBy, request_count, OneEach}
use mazzy_command_center.Store.Gate.{IsReviewed}
use mazzy_command_center.Store.Invariant.{Inv}
use mazzy_command_center.Store.System.{empty_db, Reach, start, step, creates, assigns, delivers}
use mazzy_command_center.Types.{
  ui_transitions, includes_state, allowed_transitions, go, requested, delivered, ready, running,
  backlog,
}
use mazzy_command_center.Prelude.{inl, ◌⊎◌}
use mazzy_command_center.Store.System.Requests.{step-request}
use mazzy_command_center.Store.System.Reachable.{Reach-Inv, Reach-OneEach}
use mazzy_command_center.Store.System.Tasks.{TaskFollows, step-task}
use mazzy_command_center.Store.Tasks.Laws.{
  update_task-releases, update_task-IsNextRow, update_task-IsReviewed, update_task-get_task,
  IsNextRow,
}
use mazzy_command_center.Types.{task, is_allowed_transition}
use mazzy_command_center.Store.Queries.{
  release_active_reviewers, active_worker, by_binding_key, by_run, insert_binding, clean,
  content_digest, assignment_task, release_active_bindings, active_bindings, event, clean_type,
  clamp_priority, get_task, require_revision, latest_review, latest_completed_worker,
  require_current_reviewer_pass,
}
use mazzy_command_center.Store.Tasks.{
  prior_task, new_task, restarts, insert_task, CreateTaskInput, is_terminal, create_task,
  next_state, plan_update, release_terminal, release_restarted, settle_bindings, write_update,
  UpdateTaskInput, update_task,
}
use mazzy_command_center.Types.{
  state_eq, pass, RunLifecycle, reviewer, worker, medium, review, RunBindingState, task, done,
  RunRole, TaskState,
}
use mazzy_command_center.Store.Rows.{
  ControlRequest, task_created, orchestration_delivered, run_assigned, null, RunBinding,
  task_updated, Task, Env, Db,
}
use mazzy_command_center.Prelude.{
  ◌*◌, ℕ, ◌+◌, true, false, [], ◌∷◌, none, some, ◌≡◌, refl, ok, arith, Text, codes, find,
  update_where, count_where, any_where, filter_where, first_by, last_of, text_eq, trim,
}
use mazzy_command_center.Prelude.Int.{pos}

-- The environment of the call number `n`.
abbrev env : ℕ → Env
env n = record {
  clock = λ i. 1000 * n + i;
  random_uuid = λ i. 10 * n + i;
  sha256 = λ json. codes "digest";
}

abbrev task_in : TaskState → Task
task_in s = record {
  id = 1;
  title = codes "Title";
  description = [];
  type = task;
  state = s;
  priority = pos 0;
  risk = medium;
  executor_actor = some (codes "builder");
  revision = 4;
  acceptance_revision = 1;
  acceptance_digest = codes "digest";
  create_idempotency_key = none;
  create_operation_fingerprint = none;
  created_at = 0;
  updated_at = 0;
}

abbrev binding : ℕ → Text → Text → RunRole → RunBindingState → RunBinding
binding id run agent role state = record {
  id = id;
  task_id = 1;
  task_revision = 4;
  acceptance_revision = 1;
  acceptance_digest = codes "digest";
  run_id = run;
  agent = agent;
  role = role;
  state = state;
  idempotency_key = run;
  operation_fingerprint = codes "digest";
  parent_session_id = none;
  child_session_id = none;
  lifecycle = RunLifecycle.queued;
  model = none;
  cycle = none;
  last_activity_at = 0;
  current_activity = none;
  current_tool = none;
  created_at = 0;
  updated_at = 0;
}

-- A task in REVIEW, whose worker and reviewer are done, with a passing verdict.
abbrev reviewed_db : Db
reviewed_db = record {
  tasks = task_in review ∷ [];
  bindings =
      binding 11 (codes "run-1") (codes "builder") worker RunBindingState.completed
      ∷ binding 12 (codes "run-2") (codes "critic") reviewer RunBindingState.completed
      ∷ [];
  evidence =
      record {
        id = 21;
        task_id = 1;
        task_revision = 4;
        acceptance_revision = 1;
        kind = codes "review";
        verdict = pass;
        actor = codes "critic";
        payload = null;
        created_at = 0;
        run_id = some (codes "run-2");
        binding_id = some 12;
      }
      ∷ [];
  reports = [];
  requests = [];
  events = [];
  last_event = 0;
}

abbrev to_done : UpdateTaskInput
to_done = record {
  title = none;
  description = none;
  type = none;
  state = some done;
  priority = none;
  risk = none;
  expected_revision = some 4;
  actor = none;
}

abbrev done_task : Task
done_task = record (task_in done) { revision = 5; updated_at = 2000 }

abbrev done_db : Db
done_db = record reviewed_db {
  tasks = done_task ∷ [];
  events =
      record {
        id = 1;
        task_id = 1;
        body = task_updated review done 4 false;
        actor = codes "user";
        created_at = 2003;
      }
      ∷ [];
  last_event = 1;
}

finished : update_task reviewed_db (env 2) 1 to_done ≡ ok (done_task, done_db)
unfolding update_task write_update settle_bindings release_restarted release_terminal plan_update
    next_state require_current_reviewer_pass latest_completed_worker latest_review require_revision
    get_task clamp_priority clean_type event active_bindings release_active_bindings state_eq
    text_eq is_allowed_transition find filter_where first_by last_of any_where update_where
    count_where
finished = refl

-- A worker is assigned to a task in READY.
abbrev ready_db : Db
ready_db = record reviewed_db { tasks = task_in ready ∷ []; bindings = []; evidence = [] }

abbrev assignment : AssignRunInput
assignment = record {
  task_id = 1;
  expected_task_revision = 4;
  run_id = codes "run-1";
  agent = codes "builder";
  role = worker;
  idempotency_key = codes " key-1 ";
  actor = codes "pi-parent";
  parent_session_id = none;
  child_session_id = none;
  payload = none;
  model = none;
  cycle = none;
}

abbrev new_worker : RunBinding
new_worker = record (binding 20 (codes "run-1") (codes "builder") worker RunBindingState.active) {
  task_revision = 5;
  idempotency_key = codes "key-1";
  last_activity_at = 2002;
  created_at = 2002;
  updated_at = 2002;
}

abbrev running_db : Db
running_db = record ready_db {
  tasks = record (task_in running) { revision = 5; updated_at = 2001 } ∷ [];
  bindings = new_worker ∷ [];
  events =
      record {
        id = 1;
        task_id = 1;
        body = run_assigned (codes "run-1") worker 5 1;
        actor = codes "pi-parent";
        created_at = 2003;
      }
      ∷ [];
  last_event = 1;
}

assigned : assign_run ready_db (env 2) assignment ≡ ok (new_worker, running_db)
unfolding assign_run assign_fresh assign_worker assignment_task finish_binding new_binding
    insert_binding fingerprint clean require_revision get_task by_run by_binding_key active_worker
    release_active_reviewers event is_allowed_transition allowed_transitions includes_state state_eq
    text_eq trim find any_where update_where count_where
assigned = refl

-- The first operation on an empty store.
abbrev creation : CreateTaskInput
creation = record {
  title = codes " Title ";
  description = none;
  type = none;
  state = none;
  priority = none;
  risk = none;
  actor = none;
  idempotency_key = none;
}

abbrev created_task : Task
created_task = record (task_in backlog) {
  id = 10;
  executor_actor = none;
  revision = 1;
  created_at = 1000;
  updated_at = 1000;
}

abbrev created_db : Db
created_db = record empty_db {
  tasks = created_task ∷ [];
  events =
      record {
        id = 1;
        task_id = 10;
        body = task_created (codes "Title") backlog task;
        actor = codes "user";
        created_at = 1001;
      }
      ∷ [];
  last_event = 1;
}

created : create_task empty_db (env 1) creation ≡ ok (created_task, created_db)
unfolding create_task insert_task new_task prior_task content_digest clean clean_type clamp_priority
    get_task event state_eq text_eq trim find count_where
created = refl

created-Reach : Reach created_db
created-Reach = step start (creates (env 1) creation created_task created)

-- A GO is requested for a task in READY.
abbrev go_request : CreateControlRequestInput
go_request = record {
  task_id = 1;
  expected_task_revision = 4;
  command = go;
  idempotency_key = codes "go-1";
  approved_agent = none;
  instructions = none;
  max_cycles = none;
  target_run_id = none;
  parent_session_id = none;
}

abbrev waiting : ControlRequest
waiting = record {
  id = 20;
  idempotency_key = codes "go-1";
  operation_fingerprint = codes "digest";
  task_id = 1;
  expected_task_revision = 4;
  command = go;
  state = requested;
  approved_agent = none;
  instructions = none;
  max_cycles = 1;
  target_run_id = none;
  parent_session_id = none;
  child_session_id = none;
  child_run_id = none;
  requested_at = 2000;
  delivered_at = none;
  claimed_at = none;
  completed_at = none;
  failed_at = none;
  recovered_at = none;
  recovery_reason = none;
  error = none;
}

abbrev waiting_db : Db
waiting_db = record ready_db { requests = waiting ∷ [] }

abbrev marked : ControlRequest
marked = record waiting { state = delivered; delivered_at = some 3000 }

abbrev marked_db : Db
marked_db = record waiting_db {
  requests = marked ∷ [];
  events =
      record {
        id = 1;
        task_id = 1;
        body = orchestration_delivered 20;
        actor = codes "bridge";
        created_at = 3001;
      }
      ∷ [];
  last_event = 1;
}

delivery : mark_delivered waiting_db (env 3) 20 ≡ ok (marked, marked_db)
unfolding mark_delivered update_request get_control_request event find update_where
delivery = refl

waiting_OneEach : OneEach waiting_db
unfolding request_count count_where
waiting_OneEach k = ground arith

ready_found : get_task ready_db 1 ≡ some (task_in ready)
unfolding get_task find
ready_found = refl

review_found : get_task reviewed_db 1 ≡ some (task_in review)
unfolding get_task find
review_found = refl

waiting_found : get_control_request waiting_db 20 ≡ some waiting
unfolding get_control_request find
waiting_found = refl

done_ends :
    (is_terminal done ≡ true)
    ⊎ (restarts review (content_differs (codes "Title") [] (task_in review)) ≡ true)
unfolding state_eq
done_ends = inl refl

-- The theorems at these runs.
Reach-Inv_example : Inv created_db
Reach-Inv_example = Reach-Inv created_db created-Reach

Reach-OneEach_example : OneEach created_db
Reach-OneEach_example = Reach-OneEach created_db created-Reach

step-task_example : TaskFollows running_db 1 (task_in ready)
step-task_example =
    step-task ready_db running_db 1 (task_in ready) (assigns (env 2) assignment new_worker assigned)
      ready_found

step-request_example : IsFollowedBy marked_db 20 waiting
step-request_example =
    step-request waiting_db marked_db 20 waiting waiting_OneEach
      (delivers (env 3) 20 marked delivery) waiting_found

update_task-IsReviewed_example : IsReviewed reviewed_db (task_in review)
update_task-IsReviewed_example =
    update_task-IsReviewed reviewed_db (env 2) 1 to_done done_task done_db finished (task_in review)
      review_found refl

update_task-releases_example : active_bindings done_db 1 ≡ 0
update_task-releases_example =
    update_task-releases reviewed_db (env 2) 1 to_done done_task done_db finished (task_in review)
      review_found done_ends

update_task-get_task_example : get_task done_db 1 ≡ some done_task
update_task-get_task_example =
    update_task-get_task reviewed_db (env 2) 1 to_done done_task done_db finished 1

update_task-IsNextRow_example :
    (old : Task) × (get_task reviewed_db 1 ≡ some old)
    × (some 4 ≡ some old.revision)
    × IsNextRow (env 2) old done_task
update_task-IsNextRow_example =
    update_task-IsNextRow reviewed_db (env 2) 1 to_done done_task done_db finished

-- A task with a blank key is stored, and another creation has a blank key.
abbrev blank_db : Db
blank_db = record empty_db { tasks = record created_task { create_idempotency_key = some [] } ∷ [] }

abbrev blank_creation : CreateTaskInput
blank_creation = record creation { idempotency_key = some (codes " ") }

blank_trimmed : trim? (some (codes " ")) ≡ some []
unfolding trim
blank_trimmed = refl

blank_stored : any_where has_blank_key blank_db.tasks ≡ true
unfolding any_where text_eq
blank_stored = refl

create_task-blank_key_example :
    create_task blank_db (env 2) blank_creation ≢ ok (created_task, created_db)
create_task-blank_key_example =
    create_task-blank_key blank_db (env 2) blank_creation created_task created_db blank_trimmed
      blank_stored

ready_from_backlog : ready ≢ backlog
ready_from_backlog h = cc

ready_is_open : ready ≢ done
ready_is_open h = cc

next_state-offered_example :
    (includes_state ready (ui_transitions backlog) ≡ true)
    ↔ (next_state backlog false (some ready) ≡ ok ready)
next_state-offered_example = next_state-offered backlog ready ready_from_backlog ready_is_open
