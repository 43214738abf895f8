-- ===== src/Migrate/Apply/Ends.antt =====
-- How `applyControlMigration` of src/control-migrate.ts ends: the steps put together.
use mazzy_command_center.ControlResolve.{promoted}
use mathlib.Core.Option.{none}
use mathlib.Core.Bool.{false, true}
use mazzy_command_center.Migrate.Writes.{
  locked-holds, read_journal-text, write_journal-ok, if-ok, write_journal-err,
}
use mathlib.Core.Path.{sym, subst}
use mazzy_command_center.Migrate.Apply.Restored.{
  at_stop, at_self, undone, migrated, promote-ok, interrupted, write_journal-rest, if-rest,
  not_begun, promote-rest, world_of, bind-rest, kept_backup, IsMigration, rest,
}
use mazzy_command_center.Endpoint.{
  is_promoted, cutover_damaged, promoted, durable_cutover_observed, JournalState, read_journal,
  prepared, invalid,
}
use mazzy_command_center.Prelude.{◌||◌, ◌&&◌, refl, on_ok, ◌∙◌, if◌then◌else◌, ap, ◌≡◌, ◌>>=◌}
use mazzy_command_center.Migrate.Apply.{
  restored, or_catch, invalid_result, Stop, catch_all, unapplied, MigrationResult,
  apply_control_migration_unlocked, MigrateOptions, apply_control_migration, backed_up, perform,
  apply_guards, answer, after_prepared, answer_invalid, prepared, invalid, prepare, promote, ◌>>=◌,
  restore, over_target, roll_back, ApplyHost,
}
use mazzy_command_center.Migrate.{
  returned, after_guards, some, Option, not, Bool, unreadable_store, no_store, ok, store, exists,
  err, write_journal, Result, World, Store,
}

unless-holds :
    {A : Type 0} (P : A → Type 0) (test : Bool) (x y : A)
    → P x
    → P y
    → P (if not test then x else y)
unless-holds P true x y at_x at_y = at_y
unless-holds P false x y at_x at_y = at_x

first_stop :
    (a b c : Bool) (j : JournalState) {r : MigrationResult}
    → (if a
        then some (unapplied j false)
        else if b
        then some (unapplied promoted false)
        else if c
        then some (unapplied j true)
        else none)
      ≡ some r
    → r.applied ≡ false
first_stop true b c j h = cc
first_stop false true c j h = cc
first_stop false false true j h = cc
first_stop false false false j h = absurd (cc)

guards-unapplied :
    (host : ApplyHost) (options : MigrateOptions) (w : World) (r : MigrationResult)
    → apply_guards host options w ≡ some r
    → r.applied ≡ false
unfolding apply_guards
guards-unapplied host options w r h =
    first_stop
      (host.override_active
        || not (exists w.source)
        || host.same_file
        || durable_cutover_observed host.checkout w.evidence
        || cutover_damaged host.checkout w.evidence host.structure_damaged false
        || host.break_glass)
      (is_promoted (read_journal w.evidence.journal) && not options.force) (not options.apply)
      (read_journal w.evidence.journal) h

module _ (host : ApplyHost) (w : World) where
  abbrev kept : Store × Store
  kept = (kept_backup host w, w.source)

  restore-rest :
      (again : Bool) (there : World)
      → rest there ≡ kept
      → rest (world_of at_self (restore host again there)) ≡ kept
  unfolding restore
  restore-rest again there e = if-rest at_self again _ _ kept e e

  -- The end of a way back: the world from which another one may start, or the undone one.
  undo-rest :
      (again : Bool) (writes : JournalState → Bool) (there : World)
      → rest there ≡ kept
      → rest (world_of at_self (restore host again there >>= write_journal writes invalid)) ≡ kept
  undo-rest again writes there e =
      bind-rest at_self (restore host again there) (write_journal writes invalid) kept
        (restore-rest again there e) λ a f. write_journal-rest writes invalid a kept f

  undo-undone :
      (again : Bool) (writes : JournalState → Bool) (there done : World)
      → (restore host again there >>= write_journal writes invalid) ≡ ok done
      → rest there ≡ kept
      → IsMigration host w (done, returned invalid_result)
  unfolding restore
  undo-undone again writes there done h e = on_ok (restore host again there) h λ a f h1.
      let back = if-ok again (record there { target = restored host there.backup }) _ f in
      let last = write_journal-ok writes invalid a h1 in
      undone done
        (ap (λ v. v.target) (sym last)
          ∙ ap (λ v. v.target) (sym back)
          ∙ ap (λ (p : Store × Store). restored host p.0) e)
        (ap (λ v. v.backup) (sym last) ∙ ap (λ v. v.backup) (sym back) ∙ ap (λ p. p.0) e)
        (ap (λ v. v.source) (sym last) ∙ ap (λ v. v.source) (sym back) ∙ ap (λ p. p.1) e)
        (subst (λ v. read_journal v.evidence.journal ≡ invalid) last (read_journal-text invalid))

  catch-IsMigration :
      (there : World) (r : Result World World)
      → (restore host host.restores_again there >>= write_journal host.writes_again invalid) ≡ r
      → rest there ≡ kept
      → IsMigration host w (answer_invalid r)
  catch-IsMigration there (err x) h e =
      let at_x =
        subst (λ m. rest (world_of at_self m) ≡ kept) h
          (undo-rest host.restores_again host.writes_again there e) in
      interrupted x (ap (λ p. p.0) at_x) (ap (λ p. p.1) at_x)
  catch-IsMigration there (ok x) h e = undo-undone host.restores_again host.writes_again there x h e

  or_catch-IsMigration :
      (there : World) (r : Result World World)
      → (restore host host.restores there >>= write_journal host.writes invalid) ≡ r
      → rest there ≡ kept
      → IsMigration host w (or_catch host r)
  unfolding catch_all
  or_catch-IsMigration there (err x) h e = catch-IsMigration x _ refl (
      subst (λ m. rest (world_of at_self m) ≡ kept) h (undo-rest host.restores host.writes there e))
  or_catch-IsMigration there (ok x) h e = undo-undone host.restores host.writes there x h e

  roll_back-IsMigration :
      (noticed : Bool) (there : World)
      → rest there ≡ kept
      → IsMigration host w (roll_back host (record { noticed = noticed; at_world = there }))
  unfolding roll_back catch_all
  roll_back-IsMigration true there e = or_catch-IsMigration there _ refl e
  roll_back-IsMigration false there e = catch-IsMigration there _ refl e

  answer-IsMigration :
      (v : World) (r : Result Stop World)
      → promote host v ≡ r
      → rest v ≡ kept
      → IsMigration host w (answer host r)
  answer-IsMigration v (err stop) h e =
      roll_back-IsMigration stop.noticed stop.at_world
        (subst (λ m. rest (world_of at_stop m) ≡ rest v) h (promote-rest host v) ∙ e)
  answer-IsMigration v (ok done) h e =
      let (d, source, target, journal) = promote-ok host v h in
      let same = subst (λ m. rest (world_of at_stop m) ≡ rest v) h (promote-rest host v) ∙ e in
      migrated (record done { source = host.later_source }) d _ (sym (ap (λ p. p.1) e) ∙ source)
        target journal (ap (λ p. p.0) same) refl refl

  prepared-IsMigration :
      (v : World) (r : Result World World)
      → write_journal host.writes prepared v ≡ r
      → rest v ≡ (kept_backup host w, w.source)
      → v.target ≡ w.target
      → v.evidence ≡ w.evidence
      → IsMigration host w (after_prepared host r)
  prepared-IsMigration v (err there) h e target evidence =
      let same = write_journal-err host.writes prepared v h in
      not_begun _ (ap (λ x. x.source) (sym same) ∙ ap (λ p. p.1) e)
        (ap (λ x. x.target) (sym same) ∙ target) (ap (λ x. x.evidence) (sym same) ∙ evidence) refl
  prepared-IsMigration v (ok ready) h e target evidence = answer-IsMigration ready _ refl (
      subst (λ m. rest (world_of at_self m) ≡ rest v) h
        (write_journal-rest host.writes prepared v _ refl)
      ∙ e)

  target-IsMigration : (s : Store) → w.target ≡ s → IsMigration host w (over_target host s w)
  unfolding over_target prepare
  target-IsMigration no_store h =
      prepared-IsMigration w _ refl
        (ap (λ b. (b, w.source))
          (subst (λ t. w.backup ≡ (if exists t then host.copied_backup t else w.backup)) (sym h)
            refl))
        refl refl
  target-IsMigration unreadable_store h = not_begun _ refl refl refl refl
  target-IsMigration (store d) h =
      unless-holds (IsMigration host w) (host.backup_directory && host.images) _ _
        (not_begun _ refl refl refl refl)
        (unless-holds (IsMigration host w) host.copies_backup _ _ (not_begun _ refl refl refl refl)
          (prepared-IsMigration (backed_up host w) _ refl
            (ap (λ b. (b, w.source))
              (subst
                (λ t. host.copied_backup t ≡ (if exists t then host.copied_backup t else w.backup))
                (sym h) refl))
            refl refl))

  guarded-IsMigration :
      (options : MigrateOptions) (o : Option MigrationResult)
      → apply_guards host options w ≡ o
      → IsMigration host w (after_guards o (perform host w) w)
  unfolding perform
  guarded-IsMigration options (some r) h =
      not_begun _ refl refl refl (guards-unapplied host options w r h)
  guarded-IsMigration options none h =
      unless-holds (IsMigration host w) host.makes_control _ _ (not_begun _ refl refl refl refl)
        (target-IsMigration w.target refl)

-- A promotion ends in one of four ways: it is not applied, and the stores and the evidence are
-- as they were; the canonical store has the tables of the legacy store and the stamp of the
-- checkout, the journal is promoted, and it is reported as ready exactly if the legacy store,
-- as it is by then, has the same rows; the canonical store is what a copy of the backup shows,
-- or removed where there is no backup, and the journal is invalid; or an exception is thrown.
-- From the second on, the backup is what a copy of the old canonical store's one file shows, or
-- the older backup where there was no such store, and but for writes of its own sessions the
-- legacy store is as it was.
pub apply_control_migration-IsMigration :
    (host : ApplyHost) (options : MigrateOptions) (w : World)
    → IsMigration host w (apply_control_migration host options w)
unfolding apply_control_migration apply_control_migration_unlocked
apply_control_migration-IsMigration host options w =
    locked-holds (IsMigration host w) host.trusted host.lock options.apply _ _ w
      (guarded-IsMigration host w options _ refl) (not_begun _ refl refl refl refl)
      (not_begun _ refl refl refl refl) (not_begun _ refl refl refl refl)
