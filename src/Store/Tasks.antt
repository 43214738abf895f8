-- ===== src/Store/Tasks.antt =====
-- src/store.ts, `createTask` and `updateTask`. The steps of `updateTask` before the write are the
-- function `plan_update`; `tx` is the result type, since an error leaves the database as it was.
pub mod Update
pub mod Bindings
pub mod Laws
pub mod Offers
pub mod Keys
use mazzy_command_center.Prelude.{
  ℕ, suc, ◌+◌, Bool, false, [], ◌∷◌, ◌++◌, Option, none, some, ◌&&◌, ◌||◌, not, ltb, ◌==◌,
  if◌then◌else◌, Text, codes, text_eq, trim, is_empty, length, Result, ok, ◌>>=◌, ◌>>◌, guard,
  some_or, find, update_where, count_where, same_text?,
}
use mazzy_command_center.Prelude.Int.{ℤ}
use mazzy_command_center.Types.{
  TaskState, TaskType, TaskRisk, draft, backlog, ready, running, review, done, failed, cancelled,
  task, medium, state_eq, is_allowed_transition, RunBindingState, superseded,
}
use mazzy_command_center.Store.Rows.{
  Json, obj, end, field, str, Env, Task, EventBody, task_created, task_updated,
  run_superseded_for_acceptance_edit, run_released, Db, Error, title_required, initial_state,
  key_too_long, key_conflict, done_content, invalid_transition, running_needs_binding,
  review_needs_report, concurrent_update, constraint, missing_row,
}
use mazzy_command_center.Store.Queries.{
  is_current, clean, Priority, clamp_priority, clean_type, content_digest, require_revision,
  get_task, event, release_active_bindings, active_bindings, require_current_reviewer_pass,
}

pub record CreateTaskInput : Type 0 where
  pub title : Text
  pub description : Option Text
  pub type : Option Text
  pub state : Option TaskState
  pub priority : Option Priority
  pub risk : Option TaskRisk
  pub actor : Option Text
  pub idempotency_key : Option Text

pub record UpdateTaskInput : Type 0 where
  pub title : Option Text
  pub description : Option Text
  pub type : Option Text
  pub state : Option TaskState
  pub priority : Option Priority
  pub risk : Option TaskRisk
  pub expected_revision : Option ℕ
  pub actor : Option Text

-- `value ?? fallback`
abbrev pub default {ℓ} : {A : Type ℓ} → Option A → A → A
default none d = d
default (some a) d = a

abbrev pub max_key_length : ℕ
max_key_length = 200

-- The row that `createTask` inserts.
unfoldable pub new_task :
    Env → Text → Text → TaskType → TaskState → ℤ → TaskRisk → Option Text → Option Text → Task
unfolding content_digest
new_task env title description type state priority risk key fp = record {
  id = env.random_uuid 0;
  title = title;
  description = description;
  type = type;
  state = state;
  priority = priority;
  risk = risk;
  executor_actor = none;
  revision = 1;
  acceptance_revision = 1;
  acceptance_digest = content_digest env title description;
  create_idempotency_key = key;
  create_operation_fingerprint = fp;
  created_at = env.clock 0;
  updated_at = env.clock 0;
}

-- The row of a creation that is repeated under the same key, if the key is not empty.
unfoldable pub prior_task : Db → Option Text → Option Task
unfolding find
prior_task db none = none
prior_task db (some key) =
    if is_empty key
    then none
    else find (λ t. same_text? t.create_idempotency_key (some key)) db.tasks

abbrev pub create_fingerprint : Env → Text → Text → TaskType → TaskState → ℤ → TaskRisk → Text
create_fingerprint env title description t s p r = env.sha256 (
    obj (
      field "title" (str title) (
        field "description" (str description) (
          field "type" (Json.type t) (
            field "state" (Json.state s)
              (field "priority" (Json.int p) (field "risk" (Json.risk r) end)))))))

abbrev pub trim? : Option Text → Option Text
trim? none = none
trim? (some s) = some (trim s)

-- `key ? value : null`
abbrev pub when_key : Option Text → Text → Option Text
when_key none v = none
when_key (some k) v = if is_empty k then none else some v

-- `INSERT INTO tasks`: the id is new, and so is a key that is not null.
abbrev pub task_clashes : Task → Task → Bool
task_clashes t old = (old.id == t.id) || (elim t.create_idempotency_key [
  | none ↦ false
  | some k ↦ same_text? old.create_idempotency_key (some k)
])

unfoldable pub insert_task : Db → Task → Result Error Db
unfolding count_where
insert_task db t = do
  guard (count_where (task_clashes t) db.tasks == 0) constraint
  ok (record db { tasks = db.tasks ++ t ∷ [] })

unfoldable pub create_task : Db → Env → CreateTaskInput → Result Error (Task × Db)
create_task db env input = do
  title ← clean input.title title_required
  let description = default (trim? input.description) []
  type ← clean_type input.type task
  let state = default input.state backlog
  priority ← clamp_priority (default input.priority (Priority.int (ℤ.pos 0)))
  let risk = default input.risk medium
  let key = trim? input.idempotency_key
  guard (state_eq state draft || state_eq state backlog) initial_state
  guard (not (ltb max_key_length (length (default key [])))) key_too_long
  let fp = create_fingerprint env title description type state priority risk
  elim (prior_task db key) [
    | some prior ↦
        guard (same_text? prior.create_operation_fingerprint (some fp)) key_conflict
        >> ok (prior, db)
    | none ↦ do
      let t = new_task env title description type state priority risk key (when_key key fp)
      inserted ← insert_task db t
      let logged =
          event inserted t.id (task_created title state type) (default input.actor (codes "user"))
            (env.clock 1)
      row ← some_or (get_task logged t.id) missing_row
      ok (row, logged)
  ]

-- What `updateTask` has decided before it writes.
pub record UpdatePlan : Type 0 where
  pub title : Text
  pub description : Text
  pub content_changed : Bool
  pub acceptance_restart : Bool
  pub state : TaskState

abbrev pub clean? : Option Text → Text → Error → Result Error Text
clean? none old required = ok old
clean? (some s) old required = clean s required

-- An edit of the content while a worker runs or a reviewer reads takes the task back to READY.
abbrev pub restarts : TaskState → Bool → Bool
restarts current content_changed =
    content_changed && (state_eq current running || state_eq current review)

-- The state after the update, and the checks on it, in the order of the source.
unfoldable pub next_state : TaskState → Bool → Option TaskState → Result Error TaskState
next_state current content_changed wanted = do
  guard (not (content_changed && state_eq current done)) done_content
  let restart = restarts current content_changed
  let next = if restart then ready else default wanted current
  guard
      (state_eq next current
        || (restart && state_eq next ready)
        || is_allowed_transition current next)
      invalid_transition
  guard (not (state_eq next running && not (state_eq current running))) running_needs_binding
  guard (not (state_eq next review && not (state_eq current review))) review_needs_report
  ok next

unfoldable pub plan_update : Task → UpdateTaskInput → Result Error UpdatePlan
plan_update current input = do
  title ← clean? input.title current.title title_required
  let description = default (trim? input.description) current.description
  let content_changed =
      not (text_eq title current.title) || not (text_eq description current.description)
  state ← next_state current.state content_changed input.state
  ok (record {
    title = title;
    description = description;
    content_changed = content_changed;
    acceptance_restart = restarts current.state content_changed;
    state = state;
  })

-- The `SET` clause of the update.
abbrev pub updated_task : Env → Task → UpdatePlan → TaskType → ℤ → TaskRisk → Task → Task
updated_task env current p type priority risk r = record r {
  title = p.title;
  description = p.description;
  type = type;
  state = p.state;
  priority = priority;
  risk = risk;
  executor_actor = if p.acceptance_restart then none else current.executor_actor;
  revision = r.revision + 1;
  acceptance_revision = r.acceptance_revision + (if p.content_changed then 1 else 0);
  acceptance_digest =
      if p.content_changed
      then content_digest env p.title p.description
      else current.acceptance_digest;
  updated_at = env.clock 0;
}

abbrev pub is_terminal : TaskState → Bool
is_terminal s = state_eq s done || state_eq s failed || state_eq s cancelled

abbrev pub terminal_release : TaskState → RunBindingState
terminal_release s = if state_eq s failed then RunBindingState.failed else superseded

abbrev pub event_if : Bool → Db → ℕ → EventBody → Text → ℕ → Db
event_if b db id body actor at = if b then event db id body actor at else db

-- The release of the bindings of an acceptance that an edit has ended.
unfoldable pub release_restarted : Db → Env → Task → UpdatePlan → Db
release_restarted db env current p =
    if p.acceptance_restart
    then release_active_bindings db current.id superseded (env.clock 0)
    else db

-- The release of the bindings of a task that has ended.
unfoldable pub release_terminal : Db → Env → Task → UpdatePlan → Db
release_terminal db env current p =
    if is_terminal p.state
    then release_active_bindings db current.id (terminal_release p.state) (env.clock 0)
    else db

-- The releases of bindings that follow the write, and their events.
unfoldable pub settle_bindings : Db → Env → Task → UpdatePlan → Text → Db
settle_bindings db env current p actor =
    let restarted = release_restarted db env current p in
    let settled = release_terminal restarted env current p in
    let released = if p.acceptance_restart then active_bindings db current.id else 0 in
    let terminal_released =
      if is_terminal p.state then active_bindings restarted current.id else 0 in
    let first =
      event_if (ltb 0 released) settled current.id (run_superseded_for_acceptance_edit released)
        actor (env.clock 1) in
    let second =
      event_if (ltb 0 terminal_released) first current.id (run_released terminal_released) actor
        (env.clock 2) in
    event second current.id (task_updated current.state p.state current.revision p.content_changed)
      actor (env.clock 3)

-- The write of the row, guarded by the revision and the state that were read, and what follows.
unfoldable pub write_update :
    Db → Env → Task → UpdatePlan → TaskType → ℤ → UpdateTaskInput → Result Error (Task × Db)
write_update db env current p type priority input = do
  guard (count_where (is_current current) db.tasks == 1) concurrent_update
  let set : Task → Task = updated_task env current p type priority (default input.risk current.risk)
  let written = record db { tasks = update_where (is_current current) set db.tasks }
  let settled = settle_bindings written env current p (default input.actor (codes "user"))
  row ←
      some_or
        (find (λ t. (t.id == current.id) && (t.revision == suc current.revision)) settled.tasks)
        missing_row
  ok (row, settled)

unfoldable pub update_task : Db → Env → ℕ → UpdateTaskInput → Result Error (Task × Db)
update_task db env id input = do
  current ← require_revision db id input.expected_revision
  p ← plan_update current input
  if state_eq p.state done then require_current_reviewer_pass db current else ok tt
  type ← clean_type input.type current.type
  priority ← clamp_priority (default input.priority (Priority.int current.priority))
  write_update db env current p type priority input
