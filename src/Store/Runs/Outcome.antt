-- ===== src/Store/Runs/Outcome.antt =====
-- What a successful `assignRun` or `transferRun` of src/store.ts has written.
use mathlib.Core.Path.{sym, subst}
use mazzy_command_center.Types.Laws.{state_eq-eq}
use mazzy_command_center.Prelude.{◌>>=◌}
use mazzy_command_center.Prelude.{
  count_where, ◌==◌, &&-eq-true, ℕ, suc, ◌+◌, true, false, [], ◌∷◌, ◌++◌, Option, none, some, ◌≡◌,
  ◌⊎◌, inl, inr, refl, ap, ◌∙◌, ok, arith, on_ok, on_guard, any_where, some_or, update_where, Text,
  not, Result, ◌&&◌, is_some,
}
use mazzy_command_center.Types.{
  running, review, RunRole, worker, reviewer, state_eq, is_allowed_transition,
}
use mazzy_command_center.Store.Rows.{
  Env, Task, RunBinding, EventBody, Db, Error, constraint, missing_row, concurrent_update,
  cannot_assign, reviewer_needs_review, run_already_bound, key_required, run_id_required,
  agent_required, cannot_transfer, run_assigned,
}
use mazzy_command_center.Store.Queries.{
  release, insert_binding, clashes, by_run, event, assignment_task, assigned_task, is_current,
  get_task, active_worker, release_active_reviewers, latest_completed_worker, require_revision,
  clean, by_binding_key, replay_binding,
}
use mazzy_command_center.Store.Lookup.{require_revision-eq-ok}
use mazzy_command_center.Store.Runs.{
  assign_as, AssignRunInput, finish_binding, assign_worker, assign_reviewer, assign_fresh,
  assign_run, new_binding, transfer_fresh, transfer_run, release_worker, transfer_event, replay_or,
}

-- A binding was inserted, and the other tables of the gate are as they were.
pub record Inserted (db : Db) (b : RunBinding) (db' : Db) : Type 0 where
  pub fresh : any_where (clashes b) db.bindings ≡ false
  pub bindings : db'.bindings ≡ db.bindings ++ b ∷ []
  pub tasks : db'.tasks ≡ db.tasks
  pub evidence : db'.evidence ≡ db.evidence
  pub requests : db'.requests ≡ db.requests

insert_binding-eq-ok :
    (db : Db) (b : RunBinding) (db' : Db)
    → insert_binding db b ≡ ok db'
    → (any_where (clashes b) db.bindings ≡ false)
      × (record db { bindings = db.bindings ++ b ∷ [] } ≡ db')
unfolding insert_binding
insert_binding-eq-ok db b db' h =
    on_guard (not (any_where (clashes b) db.bindings)) constraint h λ fresh e. (ground arith, cc)

event-Inserted :
    (db : Db) (b : RunBinding) (id : ℕ) (body : EventBody) (actor : Text) (at : ℕ)
    → any_where (clashes b) db.bindings ≡ false
    → Inserted db b (event (record db { bindings = db.bindings ++ b ∷ [] }) id body actor at)
unfolding event
event-Inserted db b id body actor at fresh = record {
  fresh = fresh;
  bindings = refl;
  tasks = refl;
  evidence = refl;
  requests = refl;
}

pub finish_binding-Inserted :
    (db : Db) (env : Env) (n : ℕ) (t : Task) (b : RunBinding) (body : EventBody) (actor : Text)
    (row : RunBinding) (db' : Db)
    → finish_binding db env n t b body actor ≡ ok (row, db')
    → Inserted db b db'
unfolding finish_binding
finish_binding-Inserted db env n t b body actor row db' h =
    on_ok (insert_binding db b) h λ inserted done h1.
      on_ok (some_or (by_run inserted b.run_id) missing_row) h1 λ r found h2.
        let (fresh, e) = insert_binding-eq-ok db b inserted done in
        let whole : event inserted t.id body actor (env.clock (suc n)) ≡ db' = cc in
        subst (Inserted db b) (ap (λ d. event d t.id body actor (env.clock (suc n))) e ∙ whole)
          (event-Inserted db b t.id body actor (env.clock (suc n)) fresh)

-- A worker was assigned: the task runs at its next revision, and the binding was inserted into
-- the table `freed`, in which other bindings were released.
pub record Started (db freed : Db) (id : ℕ) (b : RunBinding) (db' : Db) : Type 0 where
  pub old : Task
  pub found : get_task db id ≡ some old
  pub for_task : b.task_id ≡ old.id
  pub as_worker : b.role ≡ worker
  pub fresh : any_where (clashes b) freed.bindings ≡ false
  pub bindings : db'.bindings ≡ freed.bindings ++ b ∷ []
  pub agent : Text
  pub at : ℕ
  pub tasks :
      db'.tasks
      ≡ update_where (is_current old) (assigned_task running agent (old.revision + 1) at) db.tasks
  pub evidence : db'.evidence ≡ db.evidence
  pub requests : db'.requests ≡ db.requests

assignment_task-eq-ok :
    (db : Db) (t : Task) (actor : Text) (revision at : ℕ) (db' : Db)
    → assignment_task db t running actor revision at ≡ ok db'
    → record db {
      tasks = update_where (is_current t) (assigned_task running actor revision at) db.tasks;
    }
      ≡ db'
unfolding assignment_task
assignment_task-eq-ok db t actor revision at db' h =
    on_guard (count_where (is_current t) db.tasks == 1) concurrent_update h λ one e. cc

-- The last steps of `assignRun` for a worker and of `transferRun`.
start-Started :
    (db freed : Db) (env : Env) (n id : ℕ) (t : Task) (agent : Text) (at : ℕ) (b : RunBinding)
    (body : EventBody) (actor : Text) (row : RunBinding) (db' : Db)
    → get_task db id ≡ some t
    → b.task_id ≡ t.id
    → b.role ≡ worker
    → freed.tasks ≡ db.tasks
    → freed.evidence ≡ db.evidence
    → freed.requests ≡ db.requests
    → (assignment_task freed t running agent (t.revision + 1) at >>= λ started.
        finish_binding started env n t b body actor)
      ≡ ok (row, db')
    → Started db freed id b db'
start-Started db freed env n id t agent at b body actor row db' found mine role same_tasks
      same_evidence same_requests h =
    on_ok (assignment_task freed t running agent (t.revision + 1) at) h λ started moved h1.
      let whole = assignment_task-eq-ok freed t agent (t.revision + 1) at started moved in
      let i = finish_binding-Inserted started env n t b body actor row db' h1 in
      let one = ap (λ d. d.bindings) whole in
      record {
        old = t;
        found = found;
        for_task = mine;
        as_worker = role;
        fresh = subst (λ l. any_where (clashes b) l ≡ false) (sym one) i.fresh;
        bindings = i.bindings ∙ ap (λ l. l ++ b ∷ []) (sym one);
        agent = agent;
        at = at;
        tasks =
            i.tasks
            ∙ sym (ap (λ d. d.tasks) whole)
            ∙ ap (update_where (is_current t) (assigned_task running agent (t.revision + 1) at))
                same_tasks;
        evidence = i.evidence ∙ sym (ap (λ d. d.evidence) whole) ∙ same_evidence;
        requests = i.requests ∙ sym (ap (λ d. d.requests) whole) ∙ same_requests;
      }

pub release_active_reviewers-tasks :
    (db : Db) (id at : ℕ)
    → ((release_active_reviewers db id at).tasks ≡ db.tasks)
      × ((release_active_reviewers db id at).evidence ≡ db.evidence)
      × ((release_active_reviewers db id at).requests ≡ db.requests)
unfolding release_active_reviewers
release_active_reviewers-tasks db id at = (refl, refl, refl)

release_worker-tasks :
    (db : Db) (env : Env) (old : Option RunBinding)
    → ((release_worker db env old).tasks ≡ db.tasks)
      × ((release_worker db env old).evidence ≡ db.evidence)
      × ((release_worker db env old).requests ≡ db.requests)
unfolding release_worker release
release_worker-tasks db env none = (refl, refl, refl)
release_worker-tasks db env (some old) = (refl, refl, refl)

-- A reviewer was assigned to a task in REVIEW: its binding was inserted after the reviewers
-- before it were released.
pub record Reviewing (db : Db) (id : ℕ) (b : RunBinding) (db' : Db) : Type 0 where
  pub old : Task
  pub at : ℕ
  pub found : get_task db id ≡ some old
  pub in_review : old.state ≡ review
  pub worked : is_some (latest_completed_worker db old) ≡ true
  pub for_task : b.task_id ≡ old.id
  pub as_reviewer : b.role ≡ reviewer
  pub inserted : Inserted (release_active_reviewers db old.id at) b db'

-- What `assignRun` has done when it succeeds.
pub data Assigned (db : Db) (id : ℕ) (db' : Db) : Type 0 where
  replayed : db ≡ db' → Assigned db id db'
  worker_started :
      (old : Task) (at : ℕ) (b : RunBinding)
      → get_task db id ≡ some old
      → is_allowed_transition old.state running ≡ true
      → active_worker db old.id ≡ none
      → Started db (release_active_reviewers db old.id at) id b db'
      → Assigned db id db'
  reviewer_started : (b : RunBinding) → Reviewing db id b db' → Assigned db id db'

not-is_some {ℓ} : {A : Type ℓ} (o : Option A) → not (is_some o) ≡ true → o ≡ none
not-is_some none h = refl
not-is_some (some a) h = cc

module _ (db : Db) (env : Env) (row : RunBinding) (db' : Db) (input : AssignRunInput) where
  assign_worker-Assigned :
      (t : Task) (run_id agent key fp : Text)
      → get_task db input.task_id ≡ some t
      → assign_worker db env t run_id agent key fp input ≡ ok (row, db')
      → Assigned db input.task_id db'
  unfolding assign_worker new_binding
  assign_worker-Assigned t run_id agent key fp found h =
      on_guard (is_allowed_transition t.state running && not (is_some (active_worker db t.id)))
        cannot_assign h
        λ may h1.
          let freed = release_active_reviewers db t.id (env.clock 0) in
          let (same_tasks, same_evidence, same_requests) =
            release_active_reviewers-tasks db t.id (env.clock 0) in
          let b = new_binding env 2 t (t.revision + 1) run_id agent worker key fp input in
          let (allowed, free) = &&-eq-true _ _ may in
          worker_started t (env.clock 0) b found allowed (not-is_some _ free) (
            start-Started db freed env 2 input.task_id t agent (env.clock 1) b
              (run_assigned run_id worker (t.revision + 1) t.acceptance_revision) input.actor row
              db' found refl refl same_tasks same_evidence same_requests h1)

  assign_reviewer-Assigned :
      (t : Task) (run_id agent key fp : Text)
      → get_task db input.task_id ≡ some t
      → assign_reviewer db env t run_id agent key fp input ≡ ok (row, db')
      → Assigned db input.task_id db'
  unfolding assign_reviewer new_binding
  assign_reviewer-Assigned t run_id agent key fp found h =
      on_guard (state_eq t.state review && is_some (latest_completed_worker db t))
        reviewer_needs_review h
        λ may h1.
          let (here, worked) = &&-eq-true _ _ may in
          let b = new_binding env 1 t t.revision run_id agent reviewer key fp input in
          reviewer_started b (record {
            old = t;
            at = env.clock 0;
            found = found;
            in_review = state_eq-eq t.state review here;
            worked = worked;
            for_task = refl;
            as_reviewer = refl;
            inserted =
                finish_binding-Inserted (release_active_reviewers db t.id (env.clock 0)) env 1 t b
                  (run_assigned run_id reviewer t.revision t.acceptance_revision) input.actor row
                  db' h1;
          })

  assign_as-Assigned :
      (role : RunRole) (t : Task) (run_id agent key fp : Text)
      → get_task db input.task_id ≡ some t
      → assign_as role db env t run_id agent key fp input ≡ ok (row, db')
      → Assigned db input.task_id db'
  assign_as-Assigned worker t run_id agent key fp found h =
      assign_worker-Assigned t run_id agent key fp found h
  assign_as-Assigned reviewer t run_id agent key fp found h =
      assign_reviewer-Assigned t run_id agent key fp found h

  assign_fresh-Assigned :
      (run_id agent key fp : Text)
      → assign_fresh db env run_id agent key fp input ≡ ok (row, db')
      → Assigned db input.task_id db'
  unfolding assign_fresh
  assign_fresh-Assigned run_id agent key fp h =
      on_ok (require_revision db input.task_id (some input.expected_task_revision)) h
        λ t required h1. on_guard (not (is_some (by_run db run_id))) run_already_bound h1 λ new h2.
          let (found, _) = require_revision-eq-ok db input.task_id _ t required in
          assign_as-Assigned input.role t run_id agent key fp found h2

  replay_or-cases :
      (prior : Option RunBinding) (fp : Text) (fresh : Result Error (RunBinding × Db))
      → replay_or db prior fp fresh ≡ ok (row, db')
      → (db ≡ db') ⊎ (fresh ≡ ok (row, db'))
  replay_or-cases none fp fresh h = inr h
  replay_or-cases (some old) fp fresh h = inl (on_ok (replay_binding old fp) h λ b same e. cc)

  pub assign_run-Assigned : assign_run db env input ≡ ok (row, db') → Assigned db input.task_id db'
  unfolding assign_run
  assign_run-Assigned h = on_ok (clean input.idempotency_key key_required) h λ key _ h1.
      on_ok (clean input.run_id run_id_required) h1 λ run_id _ h2.
        on_ok (clean input.agent agent_required) h2 λ agent _ h3.
          elim (replay_or-cases (by_binding_key db key) _ _ h3) [
            | inl same ↦ replayed same
            | inr fresh ↦ assign_fresh-Assigned run_id agent key _ fresh
          ]

-- The table into which a transfer inserts: the reviewers and the old worker are released.
abbrev pub transfer_freed : Db → Env → ℕ → Db
transfer_freed db env id =
    release_active_reviewers (release_worker db env (active_worker db id)) id (env.clock 1)

-- What `transferRun` has done when it succeeds.
pub data Transferred (db : Db) (env : Env) (id : ℕ) (db' : Db) : Type 0 where
  replayed : db ≡ db' → Transferred db env id db'
  started :
      (old : Task) (b : RunBinding)
      → get_task db id ≡ some old
      → old.state ≡ running
      → Started db (transfer_freed db env old.id) id b db'
      → Transferred db env id db'

module _ (db : Db) (env : Env) (row : RunBinding) (db' : Db) (input : AssignRunInput) where
  transfer_freed-tasks :
      (id : ℕ)
      → ((transfer_freed db env id).tasks ≡ db.tasks)
        × ((transfer_freed db env id).evidence ≡ db.evidence)
        × ((transfer_freed db env id).requests ≡ db.requests)
  transfer_freed-tasks id =
      let (ts, es, qs) = release_worker-tasks db env (active_worker db id) in
      let (ts', es', qs') =
        release_active_reviewers-tasks (release_worker db env (active_worker db id)) id
          (env.clock 1) in
      (ts' ∙ ts, es' ∙ es, qs' ∙ qs)

  transfer_fresh-Transferred :
      (run_id agent key fp : Text)
      → transfer_fresh db env run_id agent key fp input ≡ ok (row, db')
      → Transferred db env input.task_id db'
  unfolding transfer_fresh new_binding
  transfer_fresh-Transferred run_id agent key fp h =
      on_ok (require_revision db input.task_id (some input.expected_task_revision)) h
        λ t required h1. on_guard (state_eq t.state running) cannot_transfer h1 λ runs h2.
          on_guard (not (is_some (by_run db run_id))) run_already_bound h2 λ new h3.
            let (found, _) = require_revision-eq-ok db input.task_id _ t required in
            let (ts, es, qs) = transfer_freed-tasks t.id in
            let b = new_binding env 3 t (t.revision + 1) run_id agent worker key fp input in
            Transferred.started t b found (state_eq-eq t.state running runs) (
              start-Started db (transfer_freed db env t.id) env 3 input.task_id t agent
                (env.clock 2) b (transfer_event (active_worker db t.id) run_id (t.revision + 1))
                input.actor row db' found refl refl ts es qs h3)

  pub transfer_run-Transferred :
      transfer_run db env input ≡ ok (row, db') → Transferred db env input.task_id db'
  unfolding transfer_run
  transfer_run-Transferred h = on_ok (clean input.idempotency_key key_required) h λ key _ h1.
      on_ok (clean input.run_id run_id_required) h1 λ run_id _ h2.
        on_ok (clean input.agent agent_required) h2 λ agent _ h3.
          elim (replay_or-cases db env row db' input (by_binding_key db key) _ _ h3) [
            | inl same ↦ Transferred.replayed same
            | inr fresh ↦ transfer_fresh-Transferred run_id agent key _ fresh
          ]
