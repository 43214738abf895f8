-- ===== src/Store/Evidence.antt =====
-- src/store.ts, `recordReviewerEvidence` and `recordEvidence`.
use mazzy_command_center.Prelude.{
  ℕ, Bool, [], ◌∷◌, ◌++◌, Option, none, some, ◌&&◌, not, ◌==◌, if◌then◌else◌, Text, text_eq, Result,
  ok, ◌>>=◌, ◌>>◌, guard, some_or, update_where, count_where,
}
use mazzy_command_center.Types.{
  review, state_eq, reviewer, role_eq, RunBindingState, active, binding_state_eq, RunLifecycle,
  EvidenceVerdict,
}
use mazzy_command_center.Store.Rows.{
  Json, obj, end, Env, Task, RunBinding, Evidence, evidence_attested, evidence_recorded, Db, Error,
  kind_required, actor_required, needs_reviewer, same_reviewer, needs_review, concurrent_update,
  constraint,
}
use mazzy_command_center.Store.Queries.{
  clean, clean_verdict, require_revision, event, by_run, latest_completed_worker,
}

pub record ReviewerEvidenceInput : Type 0 where
  pub expected_task_revision : ℕ
  pub run_id : Text
  pub kind : Text
  pub verdict : Text
  pub payload : Option Json
  pub actor : Text

pub record RecordEvidenceInput : Type 0 where
  pub kind : Text
  pub verdict : Text
  pub actor : Text
  pub payload : Option Json
  pub expected_task_revision : ℕ

-- `payload ?? {}`
abbrev pub or_empty : Option Json → Json
or_empty none = obj end
or_empty (some p) = p

-- The binding of the reviewer's run, if it is active and of the task's current acceptance.
abbrev pub is_current_reviewer : Task → RunBinding → Bool
is_current_reviewer t b =
    (b.task_id == t.id)
    && role_eq b.role reviewer
    && binding_state_eq b.state active
    && (b.acceptance_revision == t.acceptance_revision)
    && text_eq b.acceptance_digest t.acceptance_digest

unfoldable pub current_reviewer : Db → Task → Text → Option RunBinding
current_reviewer db t run_id = elim (by_run db run_id) [
  | none ↦ none
  | some b ↦ if state_eq t.state review && is_current_reviewer t b then some b else none
]

-- The row that the guarded completion of the reviewer's binding changes.
abbrev pub is_reviewer_row : Task → RunBinding → RunBinding → Bool
is_reviewer_row t b r = (r.id == b.id) && is_current_reviewer t r

abbrev pub complete_reviewer : ℕ → RunBinding → RunBinding
complete_reviewer at r = record r {
  state = RunBindingState.completed;
  lifecycle = RunLifecycle.completed;
  last_activity_at = at;
  updated_at = at;
}

-- `INSERT INTO evidence`: its id is new. The row is read back by its id.
unfoldable pub insert_evidence : Db → Evidence → Result Error Db
insert_evidence db e = do
  guard (count_where (λ old. old.id == e.id) db.evidence == 0) constraint
  ok (record db { evidence = db.evidence ++ e ∷ [] })

abbrev pub reviewer_evidence :
    Env → Task → RunBinding → Text → EvidenceVerdict → Option Json → Evidence
reviewer_evidence env t b kind verdict payload = record {
  id = env.random_uuid 0;
  task_id = t.id;
  task_revision = t.revision;
  acceptance_revision = t.acceptance_revision;
  kind = kind;
  verdict = verdict;
  actor = b.agent;
  payload = or_empty payload;
  created_at = env.clock 0;
  run_id = some b.run_id;
  binding_id = some b.id;
}

-- The guarded completion of the reviewer's binding, the evidence and its event.
unfoldable pub attest_review :
    Db
    → Env
    → Task
    → RunBinding
    → Text
    → EvidenceVerdict
    → ReviewerEvidenceInput
    → Result Error (Evidence × Db)
attest_review db env t b kind verdict input = do
  guard (count_where (is_reviewer_row t b) db.bindings == 1) concurrent_update
  let completed = record db {
    bindings = update_where (is_reviewer_row t b) (complete_reviewer (env.clock 0)) db.bindings;
  }
  let e = reviewer_evidence env t b kind verdict input.payload
  inserted ← insert_evidence completed e
  ok (
    e,
    event inserted t.id (evidence_attested e.id verdict t.acceptance_revision) input.actor
        (env.clock 1),
  )

unfoldable pub record_reviewer_evidence :
    Db → Env → ℕ → ReviewerEvidenceInput → Result Error (Evidence × Db)
record_reviewer_evidence db env task_id input = do
  kind ← clean input.kind kind_required
  t ← require_revision db task_id (some input.expected_task_revision)
  b ← some_or (current_reviewer db t input.run_id) needs_reviewer
  verdict ← clean_verdict input.verdict
  w ← some_or (latest_completed_worker db t) same_reviewer
  guard (not (text_eq w.run_id b.run_id) && not (text_eq w.agent b.agent)) same_reviewer
  attest_review db env t b kind verdict input

unfoldable pub record_evidence : Db → Env → ℕ → RecordEvidenceInput → Result Error (Evidence × Db)
record_evidence db env task_id input = do
  actor ← clean input.actor actor_required
  kind ← clean input.kind kind_required
  verdict ← clean_verdict input.verdict
  t ← require_revision db task_id (some input.expected_task_revision)
  guard (state_eq t.state review) needs_review
  let e : Evidence = record {
    id = env.random_uuid 0;
    task_id = task_id;
    task_revision = t.revision;
    acceptance_revision = t.acceptance_revision;
    kind = kind;
    verdict = verdict;
    actor = actor;
    payload = or_empty input.payload;
    created_at = env.clock 0;
    run_id = none;
    binding_id = none;
  }
  inserted ← insert_evidence db e
  ok (e, event inserted task_id (evidence_recorded e.id) actor (env.clock 1))
