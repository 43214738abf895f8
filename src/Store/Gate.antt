-- ===== src/Store/Gate.antt =====
-- `requireCurrentReviewerPass` of src/store.ts: what the gate of DONE has found when it lets through.
use mathlib.Core.List.{Memᴰ}
use mazzy_command_center.Prelude.{
  guard, ap, Text, text_eq-eq, any_where, Bool, true, false, some, ◌≡◌, ◌≢◌, ◌≤◌, refl, ok, arith,
  on_ok, some_or, some_or-eq-ok, text_eq, text_eq_refl, filter_where, filter_where-Memᴰ,
  any_where-Memᴰ, last_of-Memᴰ, first_by-Memᴰ,
}
use mazzy_command_center.Types.{worker, reviewer, RunBindingState, EvidenceVerdict, pass, is_pass}
use mazzy_command_center.Store.Rows.{
  Error, Task, RunBinding, Evidence, Db, done_needs_worker, done_needs_pass,
}
use mazzy_command_center.Store.Queries.{
  latest_completed_worker, latest_review, require_current_reviewer_pass, is_completed_worker,
  is_review_of, reviews, later_binding,
}

-- A completed worker of the current acceptance, and a passing verdict of another run and another
-- agent, who was assigned no earlier than that worker.
pub record IsReviewed (db : Db) (t : Task) : Type 0 where
  pub work : RunBinding
  pub work_listed : Memᴰ work db.bindings
  pub work_task : work.task_id ≡ t.id
  pub work_role : work.role ≡ worker
  pub work_completed : work.state ≡ RunBindingState.completed
  pub work_revision : work.acceptance_revision ≡ t.acceptance_revision
  pub work_digest : work.acceptance_digest ≡ t.acceptance_digest
  pub verdict : Evidence
  pub verdict_listed : Memᴰ verdict db.evidence
  pub verdict_task : verdict.task_id ≡ t.id
  pub verdict_revision : verdict.acceptance_revision ≡ t.acceptance_revision
  pub verdict_pass : verdict.verdict ≡ pass
  pub judge : RunBinding
  pub judge_listed : Memᴰ judge db.bindings
  pub judge_named : verdict.binding_id ≡ some judge.id
  pub judge_role : judge.role ≡ reviewer
  pub judge_revision : judge.acceptance_revision ≡ t.acceptance_revision
  pub judge_digest : judge.acceptance_digest ≡ t.acceptance_digest
  pub other_run : judge.run_id ≢ work.run_id
  pub other_agent : judge.agent ≢ work.agent
  pub assigned_after : work.task_revision ≤ judge.task_revision

-- What the test of the worker's row says.
record Works (t : Task) (w : RunBinding) : Type 0 where
  task : w.task_id ≡ t.id
  role : w.role ≡ worker
  state : w.state ≡ RunBindingState.completed
  revision : w.acceptance_revision ≡ t.acceptance_revision
  digest : w.acceptance_digest ≡ t.acceptance_digest

is_completed_worker-Works : (t : Task) (w : RunBinding) → is_completed_worker t w ≡ true → Works t w
is_completed_worker-Works t w h = ground (arith, text_eq-eq w.acceptance_digest t.acceptance_digest)

-- What the test of the reviewer's row says.
record Judges (t : Task) (w : RunBinding) (e : Evidence) (b : RunBinding) : Type 0 where
  named : e.binding_id ≡ some b.id
  role : b.role ≡ reviewer
  revision : b.acceptance_revision ≡ t.acceptance_revision
  digest : b.acceptance_digest ≡ t.acceptance_digest
  other_run : text_eq b.run_id w.run_id ≡ false
  other_agent : text_eq b.agent w.agent ≡ false
  after : w.task_revision ≤ b.task_revision

reviews-Judges :
    (t : Task) (w : RunBinding) (e : Evidence) (b : RunBinding)
    → reviews t w e b ≡ true
    → Judges t w e b
reviews-Judges t w e b h = ground (arith, text_eq-eq b.acceptance_digest t.acceptance_digest)

is_review_of-facts :
    (db : Db) (t : Task) (w : RunBinding) (e : Evidence)
    → is_review_of db t w e ≡ true
    → (e.task_id ≡ t.id)
      × (e.acceptance_revision ≡ t.acceptance_revision)
      × (any_where (reviews t w e) db.bindings ≡ true)
is_review_of-facts db t w e h = (ground arith, ground arith, ground arith)

text_ne : (a b : Text) → text_eq a b ≡ false → a ≢ b
text_ne a b h e = cc (h, text_eq_refl b, ap (λ x. text_eq x b) e)

is_pass-eq : (v : EvidenceVerdict) → is_pass v ≡ true → v ≡ pass
is_pass-eq v h = ground arith

guard-eq-ok : (test : Bool) (e : Error) → guard test e ≡ ok tt → test ≡ true
guard-eq-ok true e h = refl
guard-eq-ok false e h = cc

gate-IsReviewed :
    (db : Db) (t : Task) (w : RunBinding) (e : Evidence)
    → latest_completed_worker db t ≡ some w
    → latest_review db t w ≡ some e
    → e.verdict ≡ pass
    → IsReviewed db t
unfolding latest_completed_worker latest_review
gate-IsReviewed db t w e newest latest passed =
    let (w_listed, w_test) =
      filter_where-Memᴰ (is_completed_worker t) db.bindings w
        (first_by-Memᴰ later_binding (filter_where (is_completed_worker t) db.bindings) w newest) in
    let works = is_completed_worker-Works t w w_test in
    let (e_listed, e_test) =
      filter_where-Memᴰ (is_review_of db t w) db.evidence e
        (last_of-Memᴰ (filter_where (is_review_of db t w) db.evidence) e latest) in
    let (e_task, e_revision, e_any) = is_review_of-facts db t w e e_test in
    let (b, b_listed, b_test) = any_where-Memᴰ (reviews t w e) db.bindings e_any in
    let judges = reviews-Judges t w e b b_test in
    record {
      work = w;
      work_listed = w_listed;
      work_task = works.task;
      work_role = works.role;
      work_completed = works.state;
      work_revision = works.revision;
      work_digest = works.digest;
      verdict = e;
      verdict_listed = e_listed;
      verdict_task = e_task;
      verdict_revision = e_revision;
      verdict_pass = passed;
      judge = b;
      judge_listed = b_listed;
      judge_named = judges.named;
      judge_role = judges.role;
      judge_revision = judges.revision;
      judge_digest = judges.digest;
      other_run = text_ne _ _ judges.other_run;
      other_agent = text_ne _ _ judges.other_agent;
      assigned_after = judges.after;
    }

pub require_current_reviewer_pass-IsReviewed :
    (db : Db) (t : Task) → require_current_reviewer_pass db t ≡ ok tt → IsReviewed db t
unfolding require_current_reviewer_pass
require_current_reviewer_pass-IsReviewed db t h =
    on_ok (some_or (latest_completed_worker db t) done_needs_worker) h λ w newest h1.
      on_ok (some_or (latest_review db t w) done_needs_pass) h1 λ e latest h2.
        gate-IsReviewed db t w e (some_or-eq-ok _ done_needs_worker newest)
          (some_or-eq-ok _ done_needs_pass latest)
          (is_pass-eq e.verdict (guard-eq-ok (is_pass e.verdict) done_needs_pass h2))
