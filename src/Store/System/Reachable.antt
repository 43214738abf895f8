-- ===== src/Store/System/Reachable.antt =====
-- The databases that the operations of src/store.ts reach.
use mazzy_command_center.Store.Invariant.Others.{
  Inv-of_same_tasks, record_evidence-SameRows, record_reviewer_evidence-Reviewed, Reviewed-Inv,
  import_review_report-SameRows, Inv-of_same,
}
use mazzy_command_center.Store.Invariant.Attestations.{attest_completion-Inv}
use mazzy_command_center.Store.Invariant.Runs.{transfer_run-Inv, assign_run-Inv}
use mazzy_command_center.Store.Invariant.Updates.{update_task-Inv}
use mazzy_command_center.Store.System.Requests.{step-OneEach}
use mazzy_command_center.Store.Queries.{get_task}
use mazzy_command_center.Store.Invariant.Creation.{IsCreated-Inv, create_task-cases}
use mazzy_command_center.Store.Control.Invariant.{request_count, OneEach}
use mazzy_command_center.Store.Invariant.{selects, key_count, Inv}
use mathlib.Core.Path.{subst}
use mazzy_command_center.Prelude.{◌≡◌, ◌≤◌, inl, inr, refl, sym, ap, arith, find, count_where}
use mazzy_command_center.Store.Rows.{Db}
use mazzy_command_center.Store.System.{
  Step, creates, updates, assigns, transfers, attests, imports, reviews, records, requests,
  delivers, completes, fails, recovers, empty_db, Reach, start, step,
}
use mazzy_command_center.Store.Control.Outcome.{
  reconcile_one_claimed_request-Changed, fail_control_request-Changed,
  complete_control_request-Changed, claim_control_request-Changed, mark_delivered-Changed,
  create_control_request-Changed, Changed, kept, added, moved, claims,
}

Changed-SameTables :
    (db db' : Db) → Changed db db' → (db'.tasks ≡ db.tasks) × (db'.bindings ≡ db.bindings)
Changed-SameTables db db' (kept same) =
    (ap (λ d. d.tasks) (sym same), ap (λ d. d.bindings) (sym same))
Changed-SameTables db db' (added r fresh alone table others) = others
Changed-SameTables db db' (moved test f next table others) = others
Changed-SameTables db db' (claims r f found waits next table others) = others

Changed-Inv : (db db' : Db) → Changed db db' → Inv db → Inv db'
unfolding key_count
Changed-Inv db db' c =
    let (ts, bs) = Changed-SameTables db db' c in
    Inv-of_same_tasks db db' ts λ k.
      subst (λ l. count_where (selects k) l ≤ count_where (selects k) db.bindings) (sym bs)
        (omega arith)

step-Inv : (db db' : Db) → Step db db' → Inv db → Inv db'
step-Inv db db' (creates env input t h) = elim (create_task-cases db env input t db' h) [
  | inl same ↦ λ inv. subst Inv same inv
  | inr c ↦ IsCreated-Inv db db' c
]
step-Inv db db' (updates env id input t h) = update_task-Inv db env id input t db' h
step-Inv db db' (assigns env input row h) = assign_run-Inv db env input row db' h
step-Inv db db' (transfers env input row h) = transfer_run-Inv db env input row db' h
step-Inv db db' (attests json_eq env input reply h) =
    attest_completion-Inv json_eq db env input reply db' h
step-Inv db db' (imports env id run_id expected report actor row h) =
    Inv-of_same db db'
      (import_review_report-SameRows db env id run_id expected report actor row db' h)
step-Inv db db' (reviews env id input e h) =
    Reviewed-Inv db db' (record_reviewer_evidence-Reviewed db env id input e db' h)
step-Inv db db' (records env id input e h) =
    Inv-of_same db db' (record_evidence-SameRows db env id input e db' h)
step-Inv db db' (requests env input reply h) =
    Changed-Inv db db' (create_control_request-Changed db env input reply db' h)
step-Inv db db' (delivers env id row h) =
    Changed-Inv db db' (mark_delivered-Changed db env id row db' h)
step-Inv db db' (Step.claims env id session row h) =
    Changed-Inv db db' (claim_control_request-Changed db env id session row db' h)
step-Inv db db' (completes env input row h) =
    Changed-Inv db db' (complete_control_request-Changed db env input row db' h)
step-Inv db db' (fails env id error row h) =
    Changed-Inv db db' (fail_control_request-Changed db env id error row db' h)
step-Inv db db' (recovers env available same) =
    Changed-Inv db db'
      (subst (Changed db) same (reconcile_one_claimed_request-Changed available db env))

empty_Inv : Inv empty_db
unfolding key_count get_task find count_where
empty_Inv = record { one_of_each = λ k. omega arith; settled = λ id t found s. refl }

empty_OneEach : OneEach empty_db
unfolding count_where request_count
empty_OneEach k = omega arith

-- In every database that the operations reach, a task has at most one active worker and one
-- active reviewer, no two bindings share an id, and a task in REVIEW, DONE, FAILED or CANCELLED
-- has no active worker.
pub Reach-Inv : (db : Db) → Reach db → Inv db
Reach-Inv db start = empty_Inv
Reach-Inv db (step {db = d} {db' = d'} r s) = step-Inv d d' s (Reach-Inv d r)

-- In every database that the operations reach, no two control requests share an id, and at most
-- one GO waits or is claimed for one revision of a task.
pub Reach-OneEach : (db : Db) → Reach db → OneEach db
Reach-OneEach db start = empty_OneEach
Reach-OneEach db (step {db = d} {db' = d'} r s) = step-OneEach d d' s (Reach-OneEach d r)
