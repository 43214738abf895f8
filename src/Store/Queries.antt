-- ===== src/Store/Queries.antt =====
-- The private helpers of src/store.ts: validation of inputs, selections, and shared updates.
use mazzy_command_center.Prelude.{
  ℕ, suc, Bool, false, [], ◌∷◌, ◌++◌, Option, none, some, ◌&&◌, ◌||◌, not, ltb, leb, ◌==◌,
  if◌then◌else◌, Text, text_eq, trim, is_empty, Result, ok, err, ◌>>=◌, ◌>>◌, guard, some_or, find,
  filter_where, update_where, count_where, any_where, first_by, last_of,
}
use mazzy_command_center.Prelude.Int.{ℤ, pos, negsuc, max_ℤ, min_ℤ}
use mazzy_command_center.Types.{
  TaskState, TaskType, type_of_text, state_eq, RunRole, worker, reviewer, role_eq, RunBindingState,
  active, superseded, binding_state_eq, EvidenceVerdict, verdict_of_text, is_pass,
}
use mazzy_command_center.Store.Rows.{
  obj, end, field, str, Env, Task, RunBinding, Evidence, EventBody, Db, Error, bad_type,
  bad_priority, bad_verdict, revision_required, task_not_found, revision_conflict,
  concurrent_update, key_conflict, done_needs_worker, done_needs_pass, constraint,
}

-- `clean`: the trimmed text, which must not be empty.
unfoldable pub clean : Text → Error → Result Error Text
clean value required = if is_empty (trim value) then err required else ok (trim value)

-- A JavaScript number, as far as a priority goes.
pub data Priority : Type 0 where
  int : ℤ → Priority
  fractional not_finite : Priority

unfoldable pub clamp_priority : Priority → Result Error ℤ
clamp_priority not_finite = err bad_priority
clamp_priority fractional = err bad_priority
clamp_priority (int p) = ok (max_ℤ (negsuc 99) (min_ℤ (pos 100) p))

unfoldable pub clean_verdict : Text → Result Error EvidenceVerdict
clean_verdict value = some_or (verdict_of_text value) bad_verdict

unfoldable pub clean_type : Option Text → TaskType → Result Error TaskType
clean_type none fallback = ok fallback
clean_type (some value) fallback = some_or (type_of_text value) bad_type

unfoldable pub content_digest : Env → Text → Text → Text
content_digest env title description =
    env.sha256 (obj (field "title" (str title) (field "description" (str description) end)))

unfoldable pub get_task : Db → ℕ → Option Task
unfolding find
get_task db id = find (λ t. t.id == id) db.tasks

unfoldable pub require_revision : Db → ℕ → Option ℕ → Result Error Task
unfolding get_task
require_revision db id none = err revision_required
require_revision db id (some expected) = do
  t ← some_or (get_task db id) task_not_found
  guard (t.revision == expected) revision_conflict
  ok t

-- The events of a transaction stand in the order of their ids.
unfoldable pub event : Db → ℕ → EventBody → Text → ℕ → Db
event db task_id body actor at = record db {
  events =
      db.events
      ++ record {
        id = suc db.last_event;
        task_id = task_id;
        body = body;
        actor = actor;
        created_at = at;
      }
        ∷ [];
  last_event = suc db.last_event;
}

unfoldable pub by_run : Db → Text → Option RunBinding
unfolding find
by_run db run_id = find (λ b. text_eq b.run_id run_id) db.bindings

unfoldable pub by_binding_key : Db → Text → Option RunBinding
unfolding find
by_binding_key db key = find (λ b. text_eq b.idempotency_key key) db.bindings

unfoldable pub replay_binding : RunBinding → Text → Result Error RunBinding
replay_binding old fp = do guard (text_eq old.operation_fingerprint fp) key_conflict; ok old

-- `role=… AND state='active'` for a task.
abbrev pub is_active : RunRole → ℕ → RunBinding → Bool
is_active role task_id b =
    (b.task_id == task_id) && role_eq b.role role && binding_state_eq b.state active

unfoldable pub active_worker : Db → ℕ → Option RunBinding
unfolding find
active_worker db task_id = find (is_active worker task_id) db.bindings

abbrev pub is_completed_worker : Task → RunBinding → Bool
is_completed_worker t b =
    (b.task_id == t.id)
    && role_eq b.role worker
    && binding_state_eq b.state RunBindingState.completed
    && (b.acceptance_revision == t.acceptance_revision)
    && text_eq b.acceptance_digest t.acceptance_digest

-- `ORDER BY task_revision DESC,created_at DESC,id DESC`: whether `b` stands before `a`.
abbrev pub later_binding : RunBinding → RunBinding → Bool
later_binding b a =
    ltb a.task_revision b.task_revision
    || (a.task_revision == b.task_revision)
      && (ltb a.created_at b.created_at || (a.created_at == b.created_at) && ltb a.id b.id)

unfoldable pub latest_completed_worker : Db → Task → Option RunBinding
unfolding filter_where first_by
latest_completed_worker db t =
    first_by later_binding (filter_where (is_completed_worker t) db.bindings)

-- The constraints of `run_bindings`: unique ids, run ids and keys, and one active row for each
-- role of a task.
abbrev pub clashes : RunBinding → RunBinding → Bool
clashes b old =
    (old.id == b.id)
    || text_eq old.run_id b.run_id
    || text_eq old.idempotency_key b.idempotency_key
    || (is_active worker b.task_id old && is_active worker b.task_id b)
    || (is_active reviewer b.task_id old && is_active reviewer b.task_id b)

unfoldable pub insert_binding : Db → RunBinding → Result Error Db
unfolding any_where
insert_binding db b = do
  guard (not (any_where (clashes b) db.bindings)) constraint
  ok (record db { bindings = db.bindings ++ b ∷ [] })

-- `WHERE id=? AND revision=? AND state=?` at the row that was read.
abbrev pub is_current : Task → Task → Bool
is_current t r = (r.id == t.id) && (r.revision == t.revision) && state_eq r.state t.state

abbrev pub assigned_task : TaskState → Text → ℕ → ℕ → Task → Task
assigned_task state actor revision at r = record r {
  state = state;
  executor_actor = some actor;
  revision = revision;
  updated_at = at;
}

unfoldable pub assignment_task : Db → Task → TaskState → Text → ℕ → ℕ → Result Error Db
assignment_task db t state actor revision at = do
  guard (count_where (is_current t) db.tasks == 1) concurrent_update
  ok (record db {
    tasks = update_where (is_current t) (assigned_task state actor revision at) db.tasks;
  })

abbrev pub put_state : RunBindingState → ℕ → RunBinding → RunBinding
put_state state at b = record b { state = state; updated_at = at }

unfoldable pub release : Db → ℕ → RunBindingState → ℕ → Db
unfolding update_where
release db id state at = record db {
  bindings =
      update_where (λ b. (b.id == id) && binding_state_eq b.state active) (put_state state at)
        db.bindings;
}

unfoldable pub release_active_reviewers : Db → ℕ → ℕ → Db
unfolding update_where
release_active_reviewers db task_id at = record db {
  bindings = update_where (is_active reviewer task_id) (put_state superseded at) db.bindings;
}

abbrev pub is_active_binding : ℕ → RunBinding → Bool
is_active_binding task_id b = (b.task_id == task_id) && binding_state_eq b.state active

-- The new table, and how many bindings were released.
unfoldable pub release_active_bindings : Db → ℕ → RunBindingState → ℕ → Db
unfolding update_where
release_active_bindings db task_id state at = record db {
  bindings = update_where (is_active_binding task_id) (put_state state at) db.bindings;
}

unfoldable pub active_bindings : Db → ℕ → ℕ
unfolding count_where
active_bindings db task_id = count_where (is_active_binding task_id) db.bindings

-- The join of `requireCurrentReviewerPass`: the reviewer's row that the evidence names.
abbrev pub reviews : Task → RunBinding → Evidence → RunBinding → Bool
reviews t w e b =
    (elim e.binding_id [ none ↦ false | some id ↦ b.id == id ])
    && role_eq b.role reviewer
    && (b.acceptance_revision == t.acceptance_revision)
    && text_eq b.acceptance_digest t.acceptance_digest
    && not (text_eq b.run_id w.run_id)
    && not (text_eq b.agent w.agent)
    && leb w.task_revision b.task_revision

abbrev pub is_review_of : Db → Task → RunBinding → Evidence → Bool
is_review_of db t w e =
    (e.task_id == t.id)
    && (e.acceptance_revision == t.acceptance_revision)
    && any_where (reviews t w e) db.bindings

unfoldable pub latest_review : Db → Task → RunBinding → Option Evidence
unfolding filter_where any_where last_of
latest_review db t w = last_of (filter_where (is_review_of db t w) db.evidence)

unfoldable pub require_current_reviewer_pass : Db → Task → Result Error (Unit {0})
unfolding latest_completed_worker latest_review
require_current_reviewer_pass db t = do
  w ← some_or (latest_completed_worker db t) done_needs_worker
  e ← some_or (latest_review db t w) done_needs_pass
  guard (is_pass e.verdict) done_needs_pass
