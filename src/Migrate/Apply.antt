-- ===== src/Migrate/Apply.antt =====
-- `applyControlMigration` of src/control-migrate.ts. What the calls return is a record of the host;
-- the options `source` and `root`, which are for tests, are left out. A copy of a store is one of its
-- one file, so what it shows is a function of the host.
pub mod Restored
pub mod Ends
use mazzy_command_center.ControlResolve.{promoted}
use mazzy_command_center.Prelude.{◌&&◌, [], codes, ◌||◌, if◌then◌else◌, ◌∷◌}
use mazzy_command_center.Endpoint.{
  promoting, verified, cutover_damaged, durable_cutover_observed, prepared, promoted, Checkout,
  read_journal, invalid, JournalState, Stamp,
}
use mazzy_command_center.Migrate.{
  after_guards, [], unreadable_store, exists, Text, ok, under_lock, not, thrown, some, with_paths,
  returned, none, no_store, strict_control_parity, write_journal, err, retain_backups, Option,
  Reply, store, LockAnswer, ◌∷◌, Result, false, World, true, Bool, JournalState, Stamp, Store,
}
use mazzy_command_center.Endpoint.{is_promoted}
use mazzy_command_center.Prelude.{◌>>=◌}

-- What is observed of the environment and the paths, and which of the calls succeed.
pub record ApplyHost : Type 0 where
  pub trusted : Bool
  pub lock : LockAnswer
  pub checkout : Checkout
  pub structure_damaged : Bool
  pub override_active : Bool
  pub break_glass : Bool
  pub same_file : Bool
  pub makes_control : Bool
  pub backup_directory : Bool
  pub images : Bool
  pub copies_backup : Bool
  -- What the copy of the one file of a store shows, without the write-ahead log beside it, and what
  -- a copy that fails leaves.
  pub copied_backup : Store → Store
  pub half_backup : Store
  pub retains : Bool
  pub writes : JournalState → Bool
  pub snapshots : Bool
  -- What a failed VACUUM INTO leaves.
  pub left_over : Store
  pub stamps : Bool
  pub baseline : Text
  pub integrity : Bool
  -- The way back inside the `try`, and the one of its `catch`.
  pub restores : Bool
  pub restores_again : Bool
  pub writes_again : JournalState → Bool
  pub copied_target : Store → Store
  pub half_target : Store
  -- The legacy store when the promotion ends, since its session may go on.
  pub later_source : Store

pub record MigrateOptions : Type 0 where
  pub apply : Bool
  pub force : Bool

pub record MigrationResult : Type 0 where
  pub applied : Bool
  pub journal : JournalState
  pub ok : Bool
  pub cutover_ready : Option Bool

abbrev pub unapplied : JournalState → Bool → MigrationResult
unapplied journal well = record {
  applied = false;
  journal = journal;
  ok = well;
  cutover_ready = none;
}

abbrev pub refused : World → World × Reply MigrationResult
refused w = (w, returned (unapplied (read_journal w.evidence.journal) false))

-- The guards before anything is written, or that all of them pass.
unfoldable pub apply_guards : ApplyHost → MigrateOptions → World → Option MigrationResult
apply_guards host options w =
    let journal = read_journal w.evidence.journal in
    if host.override_active
      || not (exists w.source)
      || host.same_file
      || durable_cutover_observed host.checkout w.evidence
      || cutover_damaged host.checkout w.evidence host.structure_damaged false
      || host.break_glass
    then some (unapplied journal false)
    else if is_promoted journal && not options.force
    then some (unapplied promoted false)
    else if not options.apply
    then some (unapplied journal true)
    else none

-- Where the body of the `try` stops: at a failure that it notices and undoes itself, or at an
-- exception.
pub record Stop : Type 0 where
  pub noticed : Bool
  pub at_world : World

abbrev pub noticed_at : World → Result Stop World
noticed_at w = err (record { noticed = true; at_world = w })

abbrev pub raised : Result World World → Result Stop World
raised (ok w) = ok w
raised (err w) = err (record { noticed = false; at_world = w })

-- `snapshotInto(source, target)` after the removal of the old target.
unfoldable pub snapshot_from : ApplyHost → Store → World → Result Stop World
snapshot_from host no_store w = noticed_at (record w { target = host.left_over })
snapshot_from host unreadable_store w = noticed_at (record w { target = host.left_over })
snapshot_from host (store d) w =
    if host.snapshots
    then ok (record w { target = store d })
    else noticed_at (record w { target = host.left_over })

abbrev pub known_or : Text → Option Text → Text
known_or other none = other
known_or other (some t) = t

abbrev pub stamp_here : ApplyHost → Stamp
stamp_here host = record {
  project_id = known_or (codes "unknown") host.checkout.project_id;
  root_fs_digest = some (known_or [] host.checkout.root_digest);
  promoted_at = host.baseline;
}

abbrev pub stamped : Stamp → Store → Store
stamped stamp (store d) = store (record d { stamp = some stamp })
stamped stamp s = s

unfoldable pub stamp_target : ApplyHost → World → Result Stop World
stamp_target host w =
    raised
      (if host.stamps then ok (record w { target = stamped (stamp_here host) w.target }) else err w)

unfoldable pub check_integrity : ApplyHost → World → Result Stop World
check_integrity host w = if host.integrity then ok w else noticed_at w

-- The body of the `try`, up to the record of the promotion.
unfoldable pub promote : ApplyHost → World → Result Stop World
promote host w = do
  taken ← snapshot_from host w.source w
  marked ← stamp_target host taken
  checked ← check_integrity host marked
  first ← raised (write_journal host.writes verified checked)
  second ← raised (write_journal host.writes promoting first)
  raised (write_journal host.writes promoted second)

-- The target from the backup, or no target.
abbrev pub restored : ApplyHost → Store → Store
restored host backup = if exists backup then host.copied_target backup else no_store

unfoldable pub restore : ApplyHost → Bool → World → Result World World
restore host succeeds w =
    if succeeds
    then ok (record w { target = restored host w.backup })
    else err (record w { target = host.half_target })

abbrev pub invalid_result : MigrationResult
invalid_result = record { applied = true; journal = invalid; ok = false; cutover_ready = none }

abbrev pub answer_invalid : Result World World → World × Reply MigrationResult
answer_invalid (err there) = (there, thrown)
answer_invalid (ok done) = (done, returned invalid_result)

-- The `catch`.
unfoldable pub catch_all : ApplyHost → World → World × Reply MigrationResult
catch_all host w =
    answer_invalid (restore host host.restores_again w >>= write_journal host.writes_again invalid)

-- What a failure that is noticed does; where that fails as well, the `catch` starts anew.
abbrev pub or_catch : ApplyHost → Result World World → World × Reply MigrationResult
or_catch host (err there) = catch_all host there
or_catch host (ok done) = (done, returned invalid_result)

unfoldable pub roll_back : ApplyHost → Stop → World × Reply MigrationResult
roll_back host stop =
    if stop.noticed
    then or_catch host
        (restore host host.restores stop.at_world >>= write_journal host.writes invalid)
    else catch_all host stop.at_world

abbrev pub finished : ApplyHost → World → World × Reply MigrationResult
finished host w =
    let ready = strict_control_parity host.later_source w.target in
    (
      record w { source = host.later_source },
      returned
          (record { applied = true; journal = promoted; ok = ready; cutover_ready = some ready }),
    )

abbrev pub answer : ApplyHost → Result Stop World → World × Reply MigrationResult
answer host (err stop) = roll_back host stop
answer host (ok done) = finished host done

abbrev pub after_prepared : ApplyHost → Result World World → World × Reply MigrationResult
after_prepared host (err there) = (there, thrown)
after_prepared host (ok ready) = answer host (promote host ready)

unfoldable pub prepare : ApplyHost → World → World × Reply MigrationResult
prepare host w = after_prepared host (write_journal host.writes prepared w)

abbrev pub imaged : World → World
imaged w = record w { apply_images = w.target ∷ w.apply_images }

abbrev pub backed_up : ApplyHost → World → World
backed_up host w = record w {
  backup = host.copied_backup w.target;
  apply_images = retain_backups host.retains (w.target ∷ w.apply_images);
}

-- An old target is imaged and backed up first. A target that is no database has no image.
unfoldable pub over_target : ApplyHost → Store → World → World × Reply MigrationResult
over_target host no_store w = prepare host w
over_target host unreadable_store w = refused w
over_target host (store d) w =
    if not (host.backup_directory && host.images)
    then refused w
    else if not host.copies_backup
    then (record (imaged w) { backup = host.half_backup }, thrown)
    else prepare host (backed_up host w)

unfoldable pub perform : ApplyHost → World → World × Reply MigrationResult
perform host w = if not host.makes_control then (w, thrown) else over_target host w.target w

unfoldable pub apply_control_migration_unlocked :
    ApplyHost → MigrateOptions → World → World × Reply MigrationResult
apply_control_migration_unlocked host options w =
    after_guards (apply_guards host options w) (perform host w) w

unfoldable pub apply_control_migration :
    ApplyHost → MigrateOptions → World → World × Reply MigrationResult
apply_control_migration host options w =
    with_paths host.trusted
      (under_lock host.lock options.apply (unapplied (read_journal w.evidence.journal) false)
        (apply_control_migration_unlocked host options))
      w
