-- ===== src/Store/System/Tasks.antt =====
-- How the operations of src/store.ts change a task.
use mazzy_command_center.Store.Invariant.Others.{
  record_evidence-SameRows, record_reviewer_evidence-Reviewed, import_review_report-SameRows,
}
use mazzy_command_center.Types.Laws.{state_eq-eq}
use mazzy_command_center.Store.Invariant.Attestations.{complete_run-Completed, enter_review-tables}
use mazzy_command_center.Store.Reports.{
  is_running_row, CompletionAttestation, CompletionAttestationInput, enter_review,
}
use mazzy_command_center.Store.Lookup.{get_task_replaced}
use mazzy_command_center.Store.Tasks.Laws.{update_task-get_task, update_task-IsNextRow}
use mazzy_command_center.Store.Invariant.Creation.{create_task-cases, IsCreated}
use mazzy_command_center.Store.Tasks.{update_task, UpdateTaskInput}
use mazzy_command_center.Store.Runs.Outcome.{
  transfer_run-Transferred, assign_run-Assigned, release_active_reviewers-tasks, Assigned, Started,
}
use mazzy_command_center.Store.Tasks.Update.{CanMove}
use mathlib.Core.Path.{subst}
use mazzy_command_center.Prelude.{
  any_where, some-eq, ℕ, suc, ◌+◌, Bool, true, [], ◌∷◌, some, ◌≡◌, ◌⊎◌, inl, inr, refl, sym, ap,
  ◌∙◌, ok, arith, if◌then◌else◌, ◌==◌, ==_iff, Bool-cases, find, find-append_of_some,
  find-update_where_same,
}
use mazzy_command_center.Types.{TaskState, ready, running, review, state_eq, is_allowed_transition}
use mazzy_command_center.Store.Runs.Outcome.{
  replayed, worker_started, reviewer_started, Transferred,
}
use mazzy_command_center.Store.Control.Outcome.{
  reconcile_one_claimed_request-Changed, fail_control_request-Changed,
  complete_control_request-Changed, claim_control_request-Changed, mark_delivered-Changed,
  create_control_request-Changed, Changed, kept, added, moved, claims,
}
use mazzy_command_center.Store.Invariant.Completions.{
  attest_completion-cases, Attested, unchanged, completing,
}
use mazzy_command_center.Store.System.{
  CompletionAttestationInput, Step, creates, updates, assigns, transfers, attests, imports, reviews,
  records, requests, delivers, completes, fails, recovers,
}
use mazzy_command_center.Store.Rows.{Json, Env, Task, RunBinding, Db}
use mazzy_command_center.Store.Queries.{assigned_task, get_task}

-- A task took a step: its revision went up by one, and its state stayed, followed the state
-- machine, or went back to READY from a run or a review.
pub record IsNextTask (t t' : Task) : Type 0 where
  pub same_id : t'.id ≡ t.id
  pub next_revision : t'.revision ≡ suc t.revision
  pub moves :
      (t'.state ≡ t.state)
      ⊎ (is_allowed_transition t.state t'.state ≡ true)
      ⊎ (((t.state ≡ running) ⊎ (t.state ≡ review)) × (t'.state ≡ ready))

-- The task is there after an operation, as it was or a step further.
abbrev pub TaskFollows : Db → ℕ → Task → Type 0
TaskFollows db' id t = (t' : Task) × (get_task db' id ≡ some t') × ((t' ≡ t) ⊎ IsNextTask t t')

same_tasks-follows :
    (db db' : Db) (id : ℕ) (t : Task)
    → db'.tasks ≡ db.tasks
    → get_task db id ≡ some t
    → TaskFollows db' id t
unfolding get_task
same_tasks-follows db db' id t e found = (t, ap (find (λ r. r.id == id)) e ∙ found, inl refl)

same_db-follows :
    (db db' : Db) (id : ℕ) (t : Task) → db ≡ db' → get_task db id ≡ some t → TaskFollows db' id t
same_db-follows db db' id t e found = (t, subst (λ d. get_task d id ≡ some t) e found, inl refl)

-- Where one task was replaced, the others are as they were.
replaced-follows :
    (db db' : Db) (id j : ℕ) (old t' t : Task)
    → get_task db j ≡ some old
    → IsNextTask old t'
    → get_task db' id ≡ (if id == j then some t' else get_task db id)
    → get_task db id ≡ some t
    → TaskFollows db' id t
replaced-follows db db' id j old t' t there next read found = elim (Bool-cases (id == j)) [
  | inl same ↦
      let e : get_task db j ≡ some t =
        subst (λ k. get_task db k ≡ some t) ((==_iff id j).0 same) found in
      let one : old ≡ t = some-eq (sym there ∙ e) in
      (t', rw same at read, inr (subst (λ x. IsNextTask x t') one next))
  | inr other ↦ (t, rw other at read ∙ found, inl refl)
]

IsCreated-follows :
    (db db' : Db) (id : ℕ) (t : Task)
    → IsCreated db db'
    → get_task db id ≡ some t
    → TaskFollows db' id t
unfolding get_task
IsCreated-follows db db' id t c found = (
  t,
  ap (find (λ r. r.id == id)) c.tasks
      ∙ find-append_of_some (λ r. r.id == id) db.tasks (c.task ∷ []) t found,
  inl refl,
)

can_move :
    (from to : TaskState) (changed : Bool)
    → CanMove from changed to
    → (to ≡ from)
      ⊎ (is_allowed_transition from to ≡ true)
      ⊎ (((from ≡ running) ⊎ (from ≡ review)) × (to ≡ ready))
can_move from to changed (inl stays) = inl stays
can_move from to changed (inr (inl (allowed, _, _))) = inr (inl allowed)
can_move from to changed (inr (inr (_, busy, back))) = inr (inr (busy, back))

updated-follows :
    (db : Db) (env : Env) (j : ℕ) (input : UpdateTaskInput) (t' : Task) (db' : Db) (id : ℕ)
    (t : Task)
    → update_task db env j input ≡ ok (t', db')
    → get_task db id ≡ some t
    → TaskFollows db' id t
updated-follows db env j input t' db' id t h found =
    let (old, there, expected, next) = update_task-IsNextRow db env j input t' db' h in
    replaced-follows db db' id j old t' t there
      (record {
        same_id = next.same_id;
        next_revision = next.next_revision;
        moves = can_move old.state t'.state _ next.moved;
      })
      (update_task-get_task db env j input t' db' h id) found

Started-follows :
    (db freed db' : Db) (j : ℕ) (b : RunBinding) (id : ℕ) (t : Task) (s : Started db freed j b db')
    → (s.old.state ≡ running) ⊎ (is_allowed_transition s.old.state running ≡ true)
    → get_task db id ≡ some t
    → TaskFollows db' id t
Started-follows db freed db' j b id t s may found =
    let set : Task → Task = assigned_task running s.agent (s.old.revision + 1) s.at in
    replaced-follows db db' id j s.old (set s.old) t s.found
      (record {
        same_id = refl;
        next_revision = omega arith;
        moves = elim may [ inl runs ↦ inl (sym runs) | inr allowed ↦ inr (inl allowed) ];
      })
      (get_task_replaced db db' s.old (set s.old) set j (λ y. refl) s.found s.tasks refl id) found

Assigned-follows :
    (db : Db) (j : ℕ) (db' : Db) (id : ℕ) (t : Task)
    → Assigned db j db'
    → get_task db id ≡ some t
    → TaskFollows db' id t
Assigned-follows db j db' id t (replayed same) found = same_db-follows db db' id t same found
Assigned-follows db j db' id t (worker_started old at b there allowed free s) found =
    let one : old ≡ s.old = some-eq (sym there ∙ s.found) in
    Started-follows db _ db' j b id t s
      (inr (subst (λ x. is_allowed_transition x.state running ≡ true) one allowed)) found
Assigned-follows db j db' id t (reviewer_started b r) found =
    same_tasks-follows db db' id t
      (r.inserted.tasks ∙ (release_active_reviewers-tasks db r.old.id r.at).0) found

Transferred-follows :
    (db : Db) (env : Env) (j : ℕ) (db' : Db) (id : ℕ) (t : Task)
    → Transferred db env j db'
    → get_task db id ≡ some t
    → TaskFollows db' id t
Transferred-follows db env j db' id t (Transferred.replayed same) found =
    same_db-follows db db' id t same found
Transferred-follows db env j db' id t (Transferred.started old b there runs s) found =
    let one : old ≡ s.old = some-eq (sym there ∙ s.found) in
    Started-follows db _ db' j b id t s (inl (subst (λ x. x.state ≡ running) one runs)) found

entering : (s : TaskState) → s ≡ running → is_allowed_transition s review ≡ true
unfolding is_allowed_transition any_where state_eq
entering s e = rw e

entered-follows :
    (db mid : Db) (c : Task) (at : ℕ) (id : ℕ) (t : Task)
    → enter_review db c at ≡ ok mid
    → get_task db id ≡ some t
    → TaskFollows mid id t
unfolding get_task
entered-follows db mid c at id t h found = elim ((enter_review-tables db c at mid h).2) [
  | inl same ↦ same_tasks-follows db mid id t same found
  | inr (_, set) ↦
      let f : Task → Task =
        λ r. record r { state = review; revision = r.revision + 1; updated_at = at } in
      let there =
        ap (find (λ r. r.id == id)) set
        ∙ find-update_where_same (λ r. r.id == id) (is_running_row c) f db.tasks t (λ y k. refl)
            found in
      elim (Bool-cases (is_running_row c t)) [
        | inr miss ↦ (t, rw miss at there, inl refl)
        | inl hit ↦
            let runs : t.state ≡ running = state_eq-eq t.state running (ground arith) in
            (
              f t,
              rw hit at there,
              inr (record {
                same_id = refl;
                next_revision = omega arith;
                moves = inr (inl (entering t.state runs));
              }),
            )
      ]
]

Attested-follows :
    (json_eq : Json → Json → Bool) (db : Db) (env : Env) (input : CompletionAttestationInput)
    (reply : CompletionAttestation) (db' : Db) (id : ℕ) (t : Task)
    → Attested json_eq db env input reply db'
    → get_task db id ≡ some t
    → TaskFollows db' id t
unfolding get_task
Attested-follows json_eq db env input reply db' id t (unchanged same) found =
    (t, subst (λ d. find (λ r. r.id == id) d.tasks ≡ some t) same found, inl refl)
Attested-follows json_eq db env input reply db' id t (completing c) found =
    let w = complete_run-Completed db env c.task c.binding c.report input reply db' c.written in
    let (t', there, how) = entered-follows db w.moved c.task w.at id t w.entered found in
    elim w.outcome [
      | inl (_, same) ↦ (t', subst (λ d. find (λ r. r.id == id) d.tasks ≡ some t') same there, how)
      | inr (tasks, _, _) ↦ (t', ap (find (λ r. r.id == id)) tasks ∙ there, how)
    ]

Changed-tasks : (db db' : Db) → Changed db db' → db'.tasks ≡ db.tasks
Changed-tasks db db' (kept same) = ap (λ d. d.tasks) (sym same)
Changed-tasks db db' (added r fresh alone table others) = others.0
Changed-tasks db db' (moved test f next table others) = others.0
Changed-tasks db db' (claims r f found waits next table others) = others.0

pub Changed-follows :
    (db db' : Db) (id : ℕ) (t : Task)
    → Changed db db'
    → get_task db id ≡ some t
    → TaskFollows db' id t
Changed-follows db db' id t c found = same_tasks-follows db db' id t (Changed-tasks db db' c) found

-- No operation loses a task. It is afterwards the row that it was, or one whose revision is the
-- next and whose state stayed, followed `ALLOWED_TRANSITIONS`, or went from RUNNING or REVIEW
-- back to READY.
pub step-task :
    (db db' : Db) (id : ℕ) (t : Task) → Step db db' → get_task db id ≡ some t → TaskFollows db' id t
step-task db db' id t (creates env input row h) found =
    elim (create_task-cases db env input row db' h) [
      | inl same ↦ same_db-follows db db' id t same found
      | inr c ↦ IsCreated-follows db db' id t c found
    ]
step-task db db' id t (updates env j input row h) found =
    updated-follows db env j input row db' id t h found
step-task db db' id t (assigns env input row h) found =
    Assigned-follows db input.task_id db' id t (assign_run-Assigned db env row db' input h) found
step-task db db' id t (transfers env input row h) found =
    Transferred-follows db env input.task_id db' id t
      (transfer_run-Transferred db env row db' input h) found
step-task db db' id t (attests json_eq env input reply h) found =
    Attested-follows json_eq db env input reply db' id t
      (attest_completion-cases json_eq db env input reply db' h) found
step-task db db' id t (imports env j run_id expected report actor row h) found =
    same_tasks-follows db db' id t
      (import_review_report-SameRows db env j run_id expected report actor row db' h).tasks found
step-task db db' id t (reviews env j input e h) found =
    same_tasks-follows db db' id t (record_reviewer_evidence-Reviewed db env j input e db' h).tasks
      found
step-task db db' id t (records env j input e h) found =
    same_tasks-follows db db' id t (record_evidence-SameRows db env j input e db' h).tasks found
step-task db db' id t (requests env input reply h) found =
    Changed-follows db db' id t (create_control_request-Changed db env input reply db' h) found
step-task db db' id t (delivers env j row h) found =
    Changed-follows db db' id t (mark_delivered-Changed db env j row db' h) found
step-task db db' id t (Step.claims env j session row h) found =
    Changed-follows db db' id t (claim_control_request-Changed db env j session row db' h) found
step-task db db' id t (completes env input row h) found =
    Changed-follows db db' id t (complete_control_request-Changed db env input row db' h) found
step-task db db' id t (fails env j error row h) found =
    Changed-follows db db' id t (fail_control_request-Changed db env j error row db' h) found
step-task db db' id t (recovers env available same) found =
    Changed-follows db db' id t
      (subst (Changed db) same (reconcile_one_claimed_request-Changed available db env)) found
