-- ===== src/Store/System/Requests.antt =====
-- How the operations of src/store.ts change a control request.
use mazzy_command_center.Store.Invariant.Others.{
  record_evidence-SameRows, record_reviewer_evidence-Reviewed, import_review_report-SameRows,
}
use mazzy_command_center.Store.Queries.{event, release_active_bindings}
use mazzy_command_center.Store.Tasks.Update.{update_task-Updated}
use mazzy_command_center.Store.Invariant.Attestations.{enter_review-tables, complete_run-Completed}
use mazzy_command_center.Store.Invariant.Creation.{create_task-cases}
use mazzy_command_center.Store.Control.Invariant.{
  Changed-OneEach, picks, Changed-follows, IsFollowedBy, OneEach, request_count,
}
use mazzy_command_center.Store.Control.Outcome.{
  reconcile_one_claimed_request-Changed, fail_control_request-Changed,
  complete_control_request-Changed, claim_control_request-Changed, mark_delivered-Changed,
  create_control_request-Changed, Changed,
}
use mazzy_command_center.Store.Reports.{CompletionAttestation, CompletionAttestationInput}
use mazzy_command_center.Store.Control.{get_control_request}
use mazzy_command_center.Store.Tasks.{
  UpdatePlan, release_terminal, release_restarted, update_task, UpdateTaskInput, settle_bindings,
}
use mazzy_command_center.Prelude.{find, ◌==◌, count_where}
use mathlib.Core.Path.{subst}
use mazzy_command_center.Prelude.{
  ℕ, Bool, some, ◌≡◌, ◌≤◌, ◌⊎◌, inl, inr, refl, sym, ap, ◌∙◌, ok, arith, Text,
}
use mazzy_command_center.Store.Rows.{Json, Env, Task, ControlRequest, Db}
use mazzy_command_center.Store.Runs.Outcome.{
  transfer_run-Transferred, assign_run-Assigned, release_active_reviewers-tasks, Assigned, replayed,
  worker_started, reviewer_started, Transferred,
}
use mazzy_command_center.Store.Invariant.Completions.{
  attest_completion-cases, Attested, unchanged, completing,
}
use mazzy_command_center.Store.System.{
  update_task, CompletionAttestationInput, UpdateTaskInput, Step, creates, updates, assigns,
  transfers, attests, imports, reviews, records, requests, delivers, completes, fails, recovers,
}

settle_bindings-requests :
    (db : Db) (env : Env) (current : Task) (p : UpdatePlan) (actor : Text)
    → (settle_bindings db env current p actor).requests ≡ db.requests
unfolding settle_bindings release_restarted release_terminal release_active_bindings event
settle_bindings-requests db env current p actor = ground arith

update_task-requests :
    (db : Db) (env : Env) (id : ℕ) (input : UpdateTaskInput) (t : Task) (db' : Db)
    → update_task db env id input ≡ ok (t, db')
    → db'.requests ≡ db.requests
update_task-requests db env id input t db' h =
    let u = update_task-Updated db env input t db' id h in
    ap (λ d. d.requests) u.tables ∙ settle_bindings-requests _ env u.old u.plan _

Assigned-requests : (db : Db) (id : ℕ) (db' : Db) → Assigned db id db' → db'.requests ≡ db.requests
Assigned-requests db id db' (replayed same) = ap (λ d. d.requests) (sym same)
Assigned-requests db id db' (worker_started old at b found allowed free s) = s.requests
Assigned-requests db id db' (reviewer_started b r) =
    r.inserted.requests ∙ (release_active_reviewers-tasks db r.old.id r.at).2

Transferred-requests :
    (db : Db) (env : Env) (id : ℕ) (db' : Db)
    → Transferred db env id db'
    → db'.requests ≡ db.requests
Transferred-requests db env id db' (Transferred.replayed same) = ap (λ d. d.requests) (sym same)
Transferred-requests db env id db' (Transferred.started old b found runs s) = s.requests

Attested-requests :
    (json_eq : Json → Json → Bool) (db : Db) (env : Env) (input : CompletionAttestationInput)
    (reply : CompletionAttestation) (db' : Db)
    → Attested json_eq db env input reply db'
    → db'.requests ≡ db.requests
Attested-requests json_eq db env input reply db' (unchanged same) = ap (λ d. d.requests) (sym same)
Attested-requests json_eq db env input reply db' (completing c) =
    let w = complete_run-Completed db env c.task c.binding c.report input reply db' c.written in
    let entered = (enter_review-tables db c.task w.at w.moved w.entered).1 in
    elim w.outcome [
      | inl (_, same) ↦ ap (λ d. d.requests) (sym same) ∙ entered
      | inr (_, _, qs) ↦ qs ∙ entered
    ]

-- A step is a control operation, or it leaves the requests alone.
pub step-requests : (db db' : Db) → Step db db' → (db'.requests ≡ db.requests) ⊎ Changed db db'
step-requests db db' (creates env input row h) = elim (create_task-cases db env input row db' h) [
  | inl same ↦ inl (ap (λ d. d.requests) (sym same))
  | inr c ↦ inl c.requests
]
step-requests db db' (updates env j input row h) =
    inl (update_task-requests db env j input row db' h)
step-requests db db' (assigns env input row h) =
    inl (Assigned-requests db input.task_id db' (assign_run-Assigned db env row db' input h))
step-requests db db' (transfers env input row h) = inl (
    Transferred-requests db env input.task_id db' (transfer_run-Transferred db env row db' input h))
step-requests db db' (attests json_eq env input reply h) = inl (
    Attested-requests json_eq db env input reply db'
      (attest_completion-cases json_eq db env input reply db' h))
step-requests db db' (imports env j run_id expected report actor row h) =
    inl (import_review_report-SameRows db env j run_id expected report actor row db' h).requests
step-requests db db' (reviews env j input e h) =
    inl (record_reviewer_evidence-Reviewed db env j input e db' h).requests
step-requests db db' (records env j input e h) =
    inl (record_evidence-SameRows db env j input e db' h).requests
step-requests db db' (requests env input reply h) =
    inr (create_control_request-Changed db env input reply db' h)
step-requests db db' (delivers env j row h) = inr (mark_delivered-Changed db env j row db' h)
step-requests db db' (Step.claims env j session row h) =
    inr (claim_control_request-Changed db env j session row db' h)
step-requests db db' (completes env input row h) =
    inr (complete_control_request-Changed db env input row db' h)
step-requests db db' (fails env j error row h) =
    inr (fail_control_request-Changed db env j error row db' h)
step-requests db db' (recovers env available same) =
    inr (subst (Changed db) same (reconcile_one_claimed_request-Changed available db env))

pub step-OneEach : (db db' : Db) → Step db db' → OneEach db → OneEach db'
unfolding request_count
step-OneEach db db' s one k = elim (step-requests db db' s) [
  | inl same ↦ subst (λ l. count_where (picks k) l ≤ 1) (sym same) (one k)
  | inr c ↦ Changed-OneEach db db' c one k
]

-- In a database whose requests have different ids and at most one GO outstanding for each
-- revision of a task, no operation loses a control request or changes its key, fingerprint,
-- task, revision, command, agent, instructions, cycles, target run or time of request. It is
-- afterwards as it was, or in a state to which REQUESTED, DELIVERED and CLAIMED lead; one that
-- is COMPLETED, FAILED or CANCELLED is as it was.
pub step-request :
    (db db' : Db) (id : ℕ) (r : ControlRequest)
    → OneEach db
    → Step db db'
    → get_control_request db id ≡ some r
    → IsFollowedBy db' id r
unfolding get_control_request
step-request db db' id r one s found = elim (step-requests db db' s) [
  | inl same ↦ (r, ap (find (λ x. x.id == id)) same ∙ found, inl refl)
  | inr c ↦ Changed-follows db db' id r c one found
]
