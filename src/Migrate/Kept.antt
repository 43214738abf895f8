-- ===== src/Migrate/Kept.antt =====
-- What src/control-migrate.ts leaves as it is while a cutover is in force.
use mazzy_command_center.Migrate.Cutover.Ends.{activate_cutover-IsActivation}
use mathlib.Core.Path.{sym, subst}
use mazzy_command_center.Migrate.Writes.{locked-holds}
use mazzy_command_center.Migrate.Cutover.Sealed.{
  durable_of_witness, completed, begun, not_begun, IsActivation,
}
use mazzy_command_center.Prelude.{arith, refl, ◌∙◌, ◌≡◌}
use mazzy_command_center.Migrate.Cutover.{activate_cutover, CutoverHost, CutoverResult}
use mazzy_command_center.Migrate.Apply.{
  unapplied, MigrateOptions, ApplyHost, apply_control_migration_unlocked, apply_control_migration,
  apply_guards,
}
use mazzy_command_center.Migrate.Rollback.{
  rollback_result, rollback_control_migration_unlocked, RollbackHost, rollback_guards,
  rollback_control_migration,
}
use mazzy_command_center.Endpoint.{read_journal, durable_cutover_observed, Checkout}
use mazzy_command_center.Migrate.{false, Bool, some, true, Reply, World, Checkout, Store}

-- The runs of the operations without a deactivation, each with a host and options of its own, in one
-- checkout. Other processes may write to the legacy store at any time.
pub data Runs (c : Checkout) : World → World → Type 0 where
  no_runs : (w : World) → Runs c w w
  then_apply :
      (v w : World) (host : ApplyHost) (options : MigrateOptions)
      → host.checkout ≡ c
      → Runs c v w
      → Runs c v (apply_control_migration host options w).0
  then_roll_back :
      (v w : World) (host : RollbackHost) (options : MigrateOptions)
      → host.checkout ≡ c
      → Runs c v w
      → Runs c v (rollback_control_migration host options w).0
  then_activate :
      (v w : World) (host : CutoverHost) (apply : Bool)
      → host.checkout ≡ c
      → Runs c v w
      → Runs c v (activate_cutover host apply w).0
  then_write : (v w : World) (source : Store) → Runs c v w → Runs c v (record w { source = source })

durable-stops :
    (host : ApplyHost) (options : MigrateOptions) (w : World)
    → durable_cutover_observed host.checkout w.evidence ≡ true
    → apply_guards host options w ≡ some (unapplied (read_journal w.evidence.journal) false)
unfolding apply_guards
durable-stops host options w h = ground arith

apply-kept :
    (host : ApplyHost) (options : MigrateOptions) (w : World)
    → durable_cutover_observed host.checkout w.evidence ≡ true
    → (apply_control_migration host options w).0 ≡ w
unfolding apply_control_migration apply_control_migration_unlocked
apply-kept host options w h =
    locked-holds (λ out. out.0 ≡ w) host.trusted host.lock options.apply _ _ w
      (rw (durable-stops host options w h) refl) refl refl refl

durable-refuses :
    (host : RollbackHost) (options : MigrateOptions) (w : World)
    → durable_cutover_observed host.checkout w.evidence ≡ true
    → rollback_guards host options w
      ≡ some (rollback_result false (read_journal w.evidence.journal) false)
unfolding rollback_guards
durable-refuses host options w h = ground arith

rollback-kept :
    (host : RollbackHost) (options : MigrateOptions) (w : World)
    → durable_cutover_observed host.checkout w.evidence ≡ true
    → (rollback_control_migration host options w).0 ≡ w
unfolding rollback_control_migration rollback_control_migration_unlocked
rollback-kept host options w h =
    locked-holds (λ out. out.0 ≡ w) host.trusted host.lock options.apply _ _ w
      (rw (durable-refuses host options w h) refl) refl refl refl

-- The target is the one of the start, and the cutover is in force.
pub record IsKept (c : Checkout) (v w : World) : Type 0 where
  pub in_force : durable_cutover_observed c w.evidence ≡ true
  pub same_target : w.target ≡ v.target

activation-IsKept :
    (c : Checkout) (v w : World) (out : World × Reply CutoverResult)
    → IsActivation c w.evidence w.target out
    → IsKept c v w
    → IsKept c v out.0
activation-IsKept c v w out (not_begun _ same target none_begun) kept = record {
  in_force = subst (λ e. durable_cutover_observed c e ≡ true) (sym same) kept.in_force;
  same_target = target ∙ kept.same_target;
}
activation-IsKept c v w _ (begun there durable target) kept = record {
  in_force = durable;
  same_target = target ∙ kept.same_target;
}
activation-IsKept c v w _ (completed done active target) kept = record {
  in_force = durable_of_witness c done.evidence active.by_witness;
  same_target = target ∙ kept.same_target;
}

-- From a world in which a durable cutover is observed, no sequence of promotions, rollbacks and
-- activations in the checkout, forced or failing at any call, and of writes to the legacy store
-- changes the canonical store, and the cutover stays observed.
pub Runs-IsKept :
    (c : Checkout) (v w : World)
    → durable_cutover_observed c v.evidence ≡ true
    → Runs c v w
    → IsKept c v w
Runs-IsKept c _ _ h (no_runs w) = record { in_force = h; same_target = refl }
Runs-IsKept c _ _ h (then_apply v w host options here runs) =
    subst (IsKept c v)
      (sym (
        apply-kept host options w (
          subst (λ d. durable_cutover_observed d w.evidence ≡ true) (sym here)
            (Runs-IsKept c v w h runs).in_force)))
      (Runs-IsKept c v w h runs)
Runs-IsKept c _ _ h (then_roll_back v w host options here runs) =
    subst (IsKept c v)
      (sym (
        rollback-kept host options w (
          subst (λ d. durable_cutover_observed d w.evidence ≡ true) (sym here)
            (Runs-IsKept c v w h runs).in_force)))
      (Runs-IsKept c v w h runs)
Runs-IsKept c _ _ h (then_activate v w host apply here runs) =
    activation-IsKept c v w _
      (subst (λ d. IsActivation d w.evidence w.target (activate_cutover host apply w)) here
        (activate_cutover-IsActivation host apply w))
      (Runs-IsKept c v w h runs)
Runs-IsKept c _ _ h (then_write v w source runs) =
    let kept = Runs-IsKept c v w h runs in
    record { in_force = kept.in_force; same_target = kept.same_target }
