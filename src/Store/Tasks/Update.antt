-- ===== src/Store/Tasks/Update.antt =====
-- What a successful `updateTask` of src/store.ts has done.
use mathlib.Core.Path.{subst}
use mazzy_command_center.Store.Lookup.{require_revision-eq-ok, get_task-id}
use mazzy_command_center.Types.Laws.{state_eq-eq, state_eq_refl}
use mazzy_command_center.Prelude.{
  ◌||◌, not, not, ◌∙◌, some_or-eq-ok, count_where, on_guard, on_ok, List, codes, some_or, ℕ, suc,
  Bool, true, Option, some, ◌≡◌, ◌≢◌, ◌⊎◌, sym, Result, ok, find-update_where, find, arith, ◌==◌,
  ◌&&◌, Text, update_where, text_eq, if◌then◌else◌,
}
use mazzy_command_center.Prelude.Int.{ℤ}
use mazzy_command_center.Types.{
  TaskState, TaskType, TaskRisk, running, review, done, ready, state_eq, is_allowed_transition,
}
use mazzy_command_center.Store.Rows.{
  title_required, Env, Task, Db, Error, concurrent_update, missing_row,
}
use mazzy_command_center.Store.Queries.{
  is_current, Priority, clean_type, clamp_priority, require_revision, get_task,
  require_current_reviewer_pass, release_active_bindings, event,
}
use mazzy_command_center.Store.Tasks.{
  release_terminal, release_restarted, trim?, clean?, restarts, default, UpdateTaskInput,
  UpdatePlan, next_state, plan_update, write_update, settle_bindings, update_task, updated_task,
  is_current,
}

-- How the state of a task may move in `updateTask`: it stays, it follows the state machine but
-- never into RUNNING or REVIEW, or an edit of the content takes it back to READY.
abbrev pub CanMove : TaskState → Bool → TaskState → Type 0
CanMove from content_changed to =
    (to ≡ from)
    ⊎ ((is_allowed_transition from to ≡ true) × (to ≢ running) × (to ≢ review))
    ⊎ ((content_changed ≡ true) × ((from ≡ running) ⊎ (from ≡ review)) × (to ≡ ready))

pub next_state-CanMove :
    (from : TaskState) (changed : Bool) (wanted : Option TaskState) (to : TaskState)
    → next_state from changed wanted ≡ ok to
    → CanMove from changed to
unfolding next_state
next_state-CanMove from changed wanted to h = ground (
  arith,
  state_eq-eq to from,
  state_eq-eq from running,
  state_eq-eq from review,
  state_eq_refl to,
)

-- The parts of a successful update.
pub record Updated (db : Db) (env : Env) (id : ℕ) (input : UpdateTaskInput) (t : Task) (db' : Db)
    : Type 0 where
  pub old : Task
  pub found : get_task db id ≡ some old
  pub expected : input.expected_revision ≡ some old.revision
  pub plan : UpdatePlan
  pub planned : plan_update old input ≡ ok plan
  pub gated : plan.state ≡ done → require_current_reviewer_pass db old ≡ ok tt
  pub type : TaskType
  pub priority : ℤ
  pub row : t ≡ updated_task env old plan type priority (default input.risk old.risk) old
  pub tables :
      db'
      ≡ settle_bindings
          (record db {
            tasks =
                update_where
                  (is_current old)
                  (updated_task env old plan type priority (default input.risk old.risk))
                  db.tasks;
          })
          env
          old
          plan
          (default input.actor (codes "user"))

pub settle_bindings-tasks :
    (db : Db) (env : Env) (current : Task) (p : UpdatePlan) (actor : Text)
    → (settle_bindings db env current p actor).tasks ≡ db.tasks
unfolding settle_bindings release_restarted release_terminal release_active_bindings event
settle_bindings-tasks db env current p actor = ground arith

same_pair :
    {a b : Task} {x y : Db}
    → ◌≡◌ {A = Result Error (Task × Db)} (ok (a, x)) (ok (b, y))
    → (a ≡ b) × (x ≡ y)
same_pair h = (cc, cc)

-- The row that is read back is the old one with the `SET` clause applied.
read_back :
    (tasks : List Task) (env : Env) (old t : Task) (p : UpdatePlan) (type : TaskType) (priority : ℤ)
    (risk : TaskRisk)
    → find (λ r. r.id == old.id) tasks ≡ some old
    → find
        (λ r. (r.id == old.id) && (r.revision == suc old.revision))
        (update_where (is_current old) (updated_task env old p type priority risk) tasks)
      ≡ some t
    → t ≡ updated_task env old p type priority risk old
read_back tasks env old t p type priority risk found back =
    let there =
      find-update_where (λ r. r.id == old.id)
        (λ r. (r.id == old.id) && (r.revision == suc old.revision)) (is_current old)
        (updated_task env old p type priority risk) tasks old (λ y miss. ground arith) found
        (ground (arith, state_eq_refl old.state)) (ground arith) in
    ground (arith, there)

module _ (db : Db) (env : Env) (input : UpdateTaskInput) (t : Task) (db' : Db) where
  write_update-eq-ok :
      (old : Task) (p : UpdatePlan) (type : TaskType) (priority : ℤ)
      → get_task db old.id ≡ some old
      → write_update db env old p type priority input ≡ ok (t, db')
      → (t ≡ updated_task env old p type priority (default input.risk old.risk) old)
        × (db'
            ≡ settle_bindings
                (record db {
                  tasks =
                      update_where
                        (is_current old)
                        (updated_task env old p type priority (default input.risk old.risk))
                        db.tasks;
                })
                env
                old
                p
                (default input.actor (codes "user")))
  unfolding write_update get_task
  write_update-eq-ok old p type priority found h =
      let set : Task → Task = updated_task env old p type priority (default input.risk old.risk) in
      let written : Db = record db { tasks = update_where (is_current old) set db.tasks } in
      let settled : Db = settle_bindings written env old p (default input.actor (codes "user")) in
      let here : Task → Bool = λ r. (r.id == old.id) && (r.revision == suc old.revision) in
      on_guard (count_where (is_current old) db.tasks == 1) concurrent_update h λ _ h1.
        on_ok (some_or (find here settled.tasks) missing_row) h1 λ row back h2.
          let same = settle_bindings-tasks written env old p (default input.actor (codes "user")) in
          let read = rw same at (some_or-eq-ok (find here settled.tasks) missing_row back) in
          let (mine, its) = same_pair h2 in
          (
            sym mine
                ∙ read_back db.tasks env old row p type priority (default input.risk old.risk) found
                    read,
            sym its,
          )

  pub update_task-Updated :
      (id : ℕ) → update_task db env id input ≡ ok (t, db') → Updated db env id input t db'
  unfolding update_task
  update_task-Updated id h =
      on_ok (require_revision db id input.expected_revision) h λ old required h1.
        on_ok (plan_update old input) h1 λ p planned h2.
          on_ok (if state_eq p.state done then require_current_reviewer_pass db old else ok tt) h2
            λ _ gated h3. on_ok (clean_type input.type old.type) h3 λ type typed h4.
              on_ok (clamp_priority (default input.priority (Priority.int old.priority))) h4
                λ priority clamped h5.
                  let (found, expected) =
                    require_revision-eq-ok db id input.expected_revision old required in
                  let same = get_task-id db id old found in
                  let (row, tables) =
                    write_update-eq-ok old p type priority
                      (subst (λ i. get_task db i ≡ some old) (sym same) found) h5 in
                  record {
                    old = old;
                    found = found;
                    expected = expected;
                    plan = p;
                    planned = planned;
                    gated = λ e. ground (arith, state_eq_refl done);
                    type = type;
                    priority = priority;
                    row = row;
                    tables = tables;
                  }

-- `title !== current.title || description !== current.description`
abbrev pub content_differs : Text → Text → Task → Bool
content_differs title description current =
    not (text_eq title current.title) || not (text_eq description current.description)

pub plan_update-eq-ok :
    (current : Task) (input : UpdateTaskInput) (p : UpdatePlan)
    → plan_update current input ≡ ok p
    → (p.content_changed ≡ content_differs p.title p.description current)
      × (p.acceptance_restart ≡ restarts current.state p.content_changed)
      × (next_state current.state p.content_changed input.state ≡ ok p.state)
unfolding plan_update
plan_update-eq-ok current input p h =
    on_ok (clean? input.title current.title title_required) h λ title cleaned h1.
      let description : Text = default (trim? input.description) current.description in
      on_ok (next_state current.state (content_differs title description current) input.state) h1
        λ state next h2. (ground arith, ground arith, ground arith)
