-- ===== src/Migrate/Rollback.antt =====
-- `rollbackControlMigration` of src/control-migrate.ts.
use mazzy_command_center.Migrate.Drift.{verify_control_drift}
use mazzy_command_center.Prelude.{◌>>=◌}
use mazzy_command_center.Prelude.{◌&&◌, ◌∷◌, ◌||◌, if◌then◌else◌}
use mazzy_command_center.Migrate.Apply.{MigrateOptions}
use mazzy_command_center.Migrate.{
  after_guards, write_journal, unreadable_store, no_store, err, ok, under_lock, store,
  retain_backups, returned, some, with_paths, none, exists, false, not, LockAnswer, if◌then◌else◌,
  true, Result, Option, Reply, Bool, World, Store,
}
use mazzy_command_center.Endpoint.{
  rolled_back, cutover_damaged, durable_cutover_observed, witness_state, is_active, no_journal,
  is_cutover, Checkout, read_journal, JournalState,
}

pub record RollbackHost : Type 0 where
  pub trusted : Bool
  pub lock : LockAnswer
  pub checkout : Checkout
  pub structure_damaged : Bool
  pub break_glass : Bool
  pub backup_directory : Bool
  pub images : Bool
  pub retains : Bool
  pub restores : Bool
  -- What the copy of the backup shows, and what a copy that fails leaves.
  pub copied_target : Store → Store
  pub half_target : Store
  pub writes : JournalState → Bool

pub record RollbackResult : Type 0 where
  pub applied : Bool
  pub journal : JournalState
  pub restored : Bool

abbrev pub rollback_result : Bool → JournalState → Bool → RollbackResult
rollback_result applied journal restored = record {
  applied = applied;
  journal = journal;
  restored = restored;
}

-- Whether the canonical store has no row that is newer than its promotion, as far as that is known.
unfoldable pub is_drift_free : World → Bool
is_drift_free w = elim (verify_control_drift w.source w.target none) [
  | none ↦ false
  | some report ↦ not report.canonical_newer
]

unfoldable pub rollback_guards : RollbackHost → MigrateOptions → World → Option RollbackResult
rollback_guards host options w =
    let journal = read_journal w.evidence.journal in
    if host.break_glass
      || is_cutover journal
      || is_active (witness_state host.checkout w.evidence.marker)
      || durable_cutover_observed host.checkout w.evidence
      || cutover_damaged host.checkout w.evidence host.structure_damaged false
    then some (rollback_result false journal false)
    else if not options.apply
    then some (rollback_result false journal false)
    else if not (is_drift_free w || options.force)
    then some (rollback_result false journal false)
    else none

-- Whether the image of the target is made, where there is a target.
abbrev pub can_image : RollbackHost → Store → Bool
can_image host no_store = true
can_image host unreadable_store = false
can_image host (store d) = host.backup_directory && host.images

abbrev pub before_rollback : RollbackHost → World → World
before_rollback host w =
    if exists w.target
    then record w { rollback_images = retain_backups host.retains (w.target ∷ w.rollback_images) }
    else w

-- The target from the backup, or no target.
unfoldable pub restore_target : RollbackHost → World → Result World World
restore_target host w =
    if not (exists w.backup || exists w.target)
    then ok w
    else if host.restores
    then ok
        (record w { target = if exists w.backup then host.copied_target w.backup else no_store })
    else err (record w { target = host.half_target })

unfoldable pub undo : RollbackHost → World → Result World World
undo host w = do back ← restore_target host w; write_journal host.writes rolled_back back

unfoldable pub perform_rollback : RollbackHost → World → World × Reply RollbackResult
perform_rollback host w =
    let journal = read_journal w.evidence.journal in
    if not (can_image host w.target)
    then (w, returned (rollback_result false journal false))
    else elim (undo host (before_rollback host w)) [
      | err there ↦
          (there, returned (rollback_result true (read_journal there.evidence.journal) false))
      | ok done ↦
          (done, returned (rollback_result true no_journal (exists w.backup || exists w.target)))
    ]

unfoldable pub rollback_control_migration_unlocked :
    RollbackHost → MigrateOptions → World → World × Reply RollbackResult
rollback_control_migration_unlocked host options w =
    after_guards (rollback_guards host options w) (perform_rollback host w) w

unfoldable pub rollback_control_migration :
    RollbackHost → MigrateOptions → World → World × Reply RollbackResult
rollback_control_migration host options w =
    with_paths host.trusted
      (under_lock host.lock options.apply
        (rollback_result false (read_journal w.evidence.journal) false)
        (rollback_control_migration_unlocked host options))
      w
