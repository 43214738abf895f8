-- ===== src/Store/Invariant/Others.antt =====
-- The operations of src/store.ts that change no binding, or only complete a reviewer's, keep the
-- invariant.
use mazzy_command_center.Prelude.{Result}
use mazzy_command_center.Types.{EvidenceVerdict}
use mazzy_command_center.Prelude.{◌&&◌, not}
use mazzy_command_center.Store.Rows.{Error, RunBinding, evidence_attested, Task, concurrent_update}
use mazzy_command_center.Store.Invariant.Attestations.{upsert_report-SameRows}
use mazzy_command_center.Store.Rows.{
  report_imported, evidence_recorded, same_reviewer, needs_review, needs_completed_worker,
  needs_reviewer, actor_required, kind_required, ReviewReport, Evidence, Env, Db,
}
use mazzy_command_center.Store.Reports.{upsert_report, ReviewReportInput, import_review_report}
use mazzy_command_center.Store.Invariant.Counts.{update_where-le, Calms}
use mazzy_command_center.Store.Queries.{
  clean_verdict, latest_completed_worker, require_revision, clean, get_task,
}
use mazzy_command_center.Store.Evidence.{
  reviewer_evidence, is_reviewer_row, current_reviewer, ReviewerEvidenceInput, RecordEvidenceInput,
  attest_review, complete_reviewer, insert_evidence, record_reviewer_evidence, record_evidence,
}
use mathlib.Core.Path.{subst}
use mazzy_command_center.Prelude.{
  ◌&&◌, not, text_eq, some_or, on_ok, ℕ, Bool, some, ◌≡◌, ◌≤◌, inr, refl, sym, ap, ◌∙◌, ok, arith,
  ◌==◌, Text, find, update_where, count_where, on_guard,
}
use mazzy_command_center.Store.Invariant.{
  event-SameRows, SameRows-trans, SameRows, RunBinding, Task, review, get_task, Db, Inv,
  Inv-of_shrink, Key, selects, key_count,
}
use mazzy_command_center.Types.{state_eq}

-- With the tasks as they were, it is enough that no count grows.
pub Inv-of_same_tasks :
    (db db' : Db)
    → db'.tasks ≡ db.tasks
    → ((k : Key) → key_count db' k ≤ key_count db k)
    → Inv db
    → Inv db'
unfolding get_task
Inv-of_same_tasks db db' e le inv =
    Inv-of_shrink db db' le (λ j t found s. inr (t, ap (find (λ r. r.id == j)) (sym e) ∙ found, s))
      inv

pub Inv-of_same : (db db' : Db) → SameRows db db' → Inv db → Inv db'
unfolding key_count
Inv-of_same db db' same inv =
    Inv-of_same_tasks db db' same.tasks
      (λ k.
        subst (λ l. count_where (selects k) l ≤ count_where (selects k) db.bindings)
          (sym same.bindings) (omega arith))
      inv

pub same_result :
    {A : Type 0} {x y : A} {d e : Db}
    → ◌≡◌ {A = Result Error (A × Db)} (ok (x, d)) (ok (y, e))
    → d ≡ e
same_result h = cc

pub import_review_report-SameRows :
    (db : Db) (env : Env) (task_id : ℕ) (run_id : Text) (expected : ℕ) (report : ReviewReportInput)
    (actor : Text) (row : ReviewReport) (db' : Db)
    → import_review_report db env task_id run_id expected report actor ≡ ok (row, db')
    → SameRows db db'
unfolding import_review_report
import_review_report-SameRows db env task_id run_id expected report actor row db' h =
    on_ok (require_revision db task_id (some expected)) h λ t _ h1.
      on_ok (some_or (latest_completed_worker db t) needs_completed_worker) h1 λ b _ h2.
        on_guard (text_eq b.run_id run_id) needs_completed_worker h2 λ _ h3.
          on_ok (upsert_report db (env.random_uuid 0) t b report (env.clock 0)) h3 λ result done h4.
            SameRows-trans
              (upsert_report-SameRows db (env.random_uuid 0) t b report (env.clock 0) result.0
                result.1 done)
              (event-SameRows result.1 db' task_id (report_imported run_id t.acceptance_revision)
                actor (env.clock 1) (same_result h4))

insert_evidence-SameRows :
    (db : Db) (e : Evidence) (db' : Db) → insert_evidence db e ≡ ok db' → SameRows db db'
unfolding insert_evidence
insert_evidence-SameRows db e db' h = record {
  tasks = ground arith;
  bindings = ground arith;
  requests = ground arith;
}

pub record_evidence-SameRows :
    (db : Db) (env : Env) (task_id : ℕ) (input : RecordEvidenceInput) (e : Evidence) (db' : Db)
    → record_evidence db env task_id input ≡ ok (e, db')
    → SameRows db db'
unfolding record_evidence
record_evidence-SameRows db env task_id input e db' h =
    on_ok (clean input.actor actor_required) h λ actor _ h1.
      on_ok (clean input.kind kind_required) h1 λ kind _ h2.
        on_ok (clean_verdict input.verdict) h2 λ verdict _ h3.
          on_ok (require_revision db task_id (some input.expected_task_revision)) h3 λ t _ h4.
            on_guard (state_eq t.state review) needs_review h4 λ _ h5.
              on_ok (insert_evidence db _) h5 λ inserted done h6.
                SameRows-trans (insert_evidence-SameRows db _ inserted done) (
                  event-SameRows inserted db' task_id (evidence_recorded (env.random_uuid 0)) actor
                    (env.clock 1) (same_result h6))

complete_reviewer-Calms : (at : ℕ) → Calms (complete_reviewer at)
complete_reviewer-Calms at b = (refl, refl, refl, λ p. absurd (cc))

-- A verdict completes the reviewer's binding.
pub record Reviewed (db db' : Db) : Type 0 where
  pub tasks : db'.tasks ≡ db.tasks
  pub requests : db'.requests ≡ db.requests
  pub test : RunBinding → Bool
  pub at : ℕ
  pub bindings : db'.bindings ≡ update_where test (complete_reviewer at) db.bindings

attest_review-Reviewed :
    (db : Db) (env : Env) (t : Task) (b : RunBinding) (kind : Text) (verdict : EvidenceVerdict)
    (input : ReviewerEvidenceInput) (e : Evidence) (db' : Db)
    → attest_review db env t b kind verdict input ≡ ok (e, db')
    → Reviewed db db'
unfolding attest_review
attest_review-Reviewed db env t b kind verdict input e db' h =
    on_guard (count_where (is_reviewer_row t b) db.bindings == 1) concurrent_update h λ _ h1.
      let completed : Db = record db {
        bindings = update_where (is_reviewer_row t b) (complete_reviewer (env.clock 0)) db.bindings;
      } in
      let new = reviewer_evidence env t b kind verdict input.payload in
      on_ok (insert_evidence completed new) h1 λ inserted done h2.
        let same = SameRows-trans (insert_evidence-SameRows completed new inserted done) (
          event-SameRows inserted db' t.id (evidence_attested new.id verdict t.acceptance_revision)
            input.actor (env.clock 1) (same_result h2)) in
        record {
          tasks = same.tasks;
          requests = same.requests;
          test = is_reviewer_row t b;
          at = env.clock 0;
          bindings = same.bindings;
        }

pub record_reviewer_evidence-Reviewed :
    (db : Db) (env : Env) (task_id : ℕ) (input : ReviewerEvidenceInput) (e : Evidence) (db' : Db)
    → record_reviewer_evidence db env task_id input ≡ ok (e, db')
    → Reviewed db db'
unfolding record_reviewer_evidence
record_reviewer_evidence-Reviewed db env task_id input e db' h =
    on_ok (clean input.kind kind_required) h λ kind _ h1.
      on_ok (require_revision db task_id (some input.expected_task_revision)) h1 λ t _ h2.
        on_ok (some_or (current_reviewer db t input.run_id) needs_reviewer) h2 λ b _ h3.
          on_ok (clean_verdict input.verdict) h3 λ verdict _ h4.
            on_ok (some_or (latest_completed_worker db t) same_reviewer) h4 λ w _ h5.
              on_guard (not (text_eq w.run_id b.run_id) && not (text_eq w.agent b.agent))
                same_reviewer h5
                λ _ h6. attest_review-Reviewed db env t b kind verdict input e db' h6

pub Reviewed-Inv : (db db' : Db) → Reviewed db db' → Inv db → Inv db'
unfolding key_count
Reviewed-Inv db db' r = Inv-of_same_tasks db db' r.tasks λ k.
    subst (λ l. count_where (selects k) l ≤ count_where (selects k) db.bindings) (sym r.bindings)
      (update_where-le db r.test (complete_reviewer r.at) k (complete_reviewer-Calms r.at))
