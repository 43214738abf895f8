-- ===== src/Migrate/Tests.antt =====
-- The operations of src/control-migrate.ts on a small world.
use mazzy_command_center.Migrate.Drift.{
  stale_canonical, canonical_endpoint, verify_control_drift, stale_endpoint,
}
use mazzy_command_center.Migrate.Selected.{
  held_at, cutover-selects, IsLegacy, canonical_at, observe,
}
use mazzy_command_center.Prelude.{if◌then◌else◌, ap, [], ◌∷◌, refl, codes, ◌≡◌}
use mazzy_command_center.Migrate.Apply.Ends.{apply_control_migration-IsMigration}
use mazzy_command_center.ControlResolve.{resolve_control_db, promoted}
use mazzy_command_center.Migrate.Cutover.Sealed.{IsActivation}
use mazzy_command_center.Migrate.Rollback.{RollbackHost}
use mazzy_command_center.Migrate.Cutover.{cutover_result, CutoverHost}
use mazzy_command_center.Endpoint.{
  dangling_link, no_witness, missing_journal, witness_of, promoted, journal_with, WitnessFile,
  Checkout,
}
use mazzy_command_center.Migrate.Cutover.Ends.{
  activate_cutover-IsActivation, deactivate_cutover-IsDeactivation, IsDeactivation,
}
use mazzy_command_center.Migrate.Apply.{MigrateOptions, ApplyHost}
use mazzy_command_center.Migrate.Apply.Restored.{IsMigration}
use mazzy_command_center.Migrate.Kept.{no_runs, then_apply, Runs-IsKept, Runs, IsKept}
use mazzy_command_center.Migrate.{
  advance_journal, verify_integrity, stamp_identity, unreadable_store, [], acquired, copy_source,
  returned, false, no_store, none, Table, some, true, store, World, List, Option, WitnessFile,
  Checkout, Store,
}
use mazzy_command_center.Endpoint.{
  state_of_text, read_journal, witness_state, durable_cutover_observed,
  publication_evidence_damaged, cutover_damaged, verify_stamp,
}
use mazzy_command_center.Migrate.{
  same_table, same_tables, strict_control_parity, cutover_ready, plan_control_migration, under_lock,
  write_journal, with_paths,
}
use mazzy_command_center.Migrate.Apply.{
  apply_guards, snapshot_from, stamp_target, check_integrity, promote, prepare, over_target,
  perform, apply_control_migration_unlocked, apply_control_migration,
}
use mazzy_command_center.Migrate.Cutover.{
  verify_canonical_identity, activation_guards, own_witness, write_witness, write_marker,
  publish_witness, publish_own, publish_later, activate_cutover_unlocked, activate_cutover,
  remove_marker, remove_witness, withdraw_cutover, deactivate_cutover_unlocked, deactivate_cutover,
}
use mazzy_command_center.Migrate.Rollback.{
  is_drift_free, rollback_guards, restore_target, undo, perform_rollback,
  rollback_control_migration_unlocked, rollback_control_migration,
}
use mazzy_command_center.Storage.Policy.{same_texts, sort_texts, insert_text, text_leb}
use mazzy_command_center.Prelude.{text_eq, any_where}

abbrev here : Checkout
here = record { project_id = some (codes "project"); root_digest = some (codes "root") }

abbrev one_task : Option Table
one_task = some (record {
  timed = true;
  rows = (record { text = codes "task"; stamp = some (codes "2026") }) ∷ [];
})

abbrev tables_now : List (Option Table)
tables_now = one_task ∷ none ∷ none ∷ none ∷ none ∷ none ∷ none ∷ none ∷ []

abbrev legacy_now : Store
legacy_now = store (record { tables = tables_now; stamp = none })

abbrev canonical_now : Store
canonical_now = store (record {
  tables = tables_now;
  stamp = some (record {
    project_id = codes "project";
    root_fs_digest = some (codes "root");
    promoted_at = codes "2027";
  });
})

abbrev fresh : World
fresh = record {
  source = legacy_now;
  target = no_store;
  backup = no_store;
  evidence = record { journal = missing_journal; marker = no_witness; witness = no_witness };
  apply_images = [];
  rollback_images = [];
}

abbrev after_promotion : World
after_promotion = record fresh {
  target = canonical_now;
  evidence = record {
    journal = journal_with (some (codes "promoted"));
    marker = no_witness;
    witness = no_witness;
  };
}

abbrev our_witness : WitnessFile
our_witness = witness_of (codes "project") (codes "root")

abbrev after_cutover : World
after_cutover = record after_promotion {
  evidence = record {
    journal = journal_with (some (codes "cutover"));
    marker = our_witness;
    witness = our_witness;
  };
}

abbrev apply_host : ApplyHost
apply_host = record {
  trusted = true;
  lock = acquired;
  checkout = here;
  structure_damaged = false;
  override_active = false;
  break_glass = false;
  same_file = false;
  makes_control = true;
  backup_directory = true;
  images = true;
  copies_backup = true;
  copied_backup = λ s. s;
  half_backup = unreadable_store;
  retains = true;
  writes = λ s. true;
  snapshots = true;
  left_over = unreadable_store;
  stamps = true;
  baseline = codes "2027";
  integrity = true;
  restores = true;
  restores_again = true;
  writes_again = λ s. true;
  copied_target = λ s. s;
  half_target = unreadable_store;
  later_source = legacy_now;
}

abbrev cutover_host : CutoverHost
cutover_host = record {
  trusted = true;
  lock = acquired;
  checkout = here;
  structure_damaged = false;
  override_active = false;
  raced_source = legacy_now;
  writes_witness = true;
  writes_marker = true;
  writes = λ s. true;
  removes_marker = true;
  removes_witness = true;
}

abbrev rollback_host : RollbackHost
rollback_host = record {
  trusted = true;
  lock = acquired;
  checkout = here;
  structure_damaged = false;
  break_glass = false;
  backup_directory = true;
  images = true;
  retains = true;
  restores = true;
  copied_target = λ s. s;
  half_target = unreadable_store;
  writes = λ s. true;
}

abbrev forced : MigrateOptions
forced = record { apply = true; force = true }

promoted_then : (apply_control_migration apply_host forced fresh).0 ≡ after_promotion
unfolding read_journal witness_state durable_cutover_observed publication_evidence_damaged
    cutover_damaged under_lock write_journal with_paths apply_guards snapshot_from stamp_target
    check_integrity promote prepare over_target perform apply_control_migration_unlocked
    apply_control_migration
promoted_then = refl

cut_over_then :
    activate_cutover cutover_host true after_promotion
    ≡ (after_cutover, returned (cutover_result true true true))
unfolding state_of_text read_journal witness_state publication_evidence_damaged cutover_damaged
    verify_stamp same_table same_tables strict_control_parity under_lock write_journal with_paths
    text_eq same_texts sort_texts insert_text verify_canonical_identity activation_guards
    own_witness write_witness write_marker publish_witness publish_own publish_later
    activate_cutover_unlocked activate_cutover
cut_over_then = refl

-- A marker that cannot be written leaves a cutover that is begun.
half_cut_over :
    (activate_cutover (record cutover_host { writes_marker = false }) true after_promotion).1
    ≡ returned (cutover_result true true false)
unfolding state_of_text read_journal witness_state durable_cutover_observed
    publication_evidence_damaged cutover_damaged verify_stamp same_table same_tables
    strict_control_parity under_lock with_paths text_eq same_texts sort_texts insert_text
    verify_canonical_identity activation_guards own_witness write_witness write_marker
    publish_witness publish_own publish_later activate_cutover_unlocked activate_cutover
half_cut_over = refl

rolled_back_then :
    (rollback_control_migration rollback_host forced after_promotion).0.target ≡ no_store
unfolding state_of_text read_journal witness_state durable_cutover_observed
    publication_evidence_damaged cutover_damaged verify_control_drift under_lock write_journal
    with_paths text_eq any_where text_leb is_drift_free rollback_guards restore_target undo
    perform_rollback rollback_control_migration_unlocked rollback_control_migration
rolled_back_then = refl

not_rolled_back : (rollback_control_migration rollback_host forced after_cutover).0 ≡ after_cutover
unfolding state_of_text read_journal under_lock with_paths text_eq rollback_guards
    rollback_control_migration_unlocked rollback_control_migration
not_rolled_back = refl

-- A marker that is a link to nothing seals the legacy store, but a deactivation does not find it.
abbrev dangling : World
dangling = record after_promotion {
  evidence = record {
    journal = journal_with (some (codes "promoted"));
    marker = dangling_link;
    witness = no_witness;
  };
}

dangling_seals : cutover_damaged here dangling.evidence false false ≡ true
unfolding witness_state publication_evidence_damaged cutover_damaged
dangling_seals = refl

dangling_stays :
    deactivate_cutover cutover_host true dangling
    ≡ (dangling, returned (cutover_result false false true))
unfolding state_of_text read_journal under_lock with_paths text_eq deactivate_cutover_unlocked
    deactivate_cutover
dangling_stays = refl

selected_writes_are_no_drift :
    stale_endpoint (some canonical_endpoint) false true (some stale_canonical) ≡ none
unfolding stale_endpoint
selected_writes_are_no_drift = refl

planned :
    (plan_control_migration fresh).steps
    ≡ copy_source ∷ stamp_identity ∷ verify_integrity ∷ advance_journal ∷ []
unfolding plan_control_migration
planned = refl

ready_then : cutover_ready legacy_now canonical_now promoted ≡ true
unfolding same_table same_tables strict_control_parity cutover_ready text_eq same_texts sort_texts
    insert_text
ready_then = refl

activate_cutover-IsActivation_example :
    IsActivation here after_promotion.evidence canonical_now
      (activate_cutover cutover_host true after_promotion)
activate_cutover-IsActivation_example =
    activate_cutover-IsActivation cutover_host true after_promotion

deactivate_cutover-IsDeactivation_example :
    IsDeactivation after_cutover (deactivate_cutover cutover_host true after_cutover)
deactivate_cutover-IsDeactivation_example =
    deactivate_cutover-IsDeactivation cutover_host true after_cutover refl

abbrev some_runs :
    Runs here after_cutover (apply_control_migration apply_host forced after_cutover).0
some_runs = then_apply after_cutover after_cutover apply_host forced refl (no_runs after_cutover)

seen_cutover : durable_cutover_observed here after_cutover.evidence ≡ true
unfolding witness_state durable_cutover_observed text_eq
seen_cutover = refl

Runs-IsKept_example :
    IsKept here after_cutover (apply_control_migration apply_host forced after_cutover).0
Runs-IsKept_example = Runs-IsKept here after_cutover _ seen_cutover some_runs

apply_control_migration-IsMigration_example :
    IsMigration apply_host fresh (apply_control_migration apply_host forced fresh)
apply_control_migration-IsMigration_example =
    apply_control_migration-IsMigration apply_host forced fresh

activated_then :
    (activate_cutover cutover_host true after_promotion).1
    ≡ returned (cutover_result true true true)
activated_then = ap (λ p. p.1) cut_over_then

deactivated_then :
    (deactivate_cutover cutover_host true (activate_cutover cutover_host true after_promotion).0).1
    ≡ returned (cutover_result true false true)
unfolding state_of_text read_journal witness_state publication_evidence_damaged cutover_damaged
    verify_stamp same_table same_tables strict_control_parity under_lock write_journal with_paths
    text_eq same_texts sort_texts insert_text verify_canonical_identity activation_guards
    own_witness write_witness write_marker publish_witness publish_own publish_later
    activate_cutover_unlocked activate_cutover remove_marker remove_witness withdraw_cutover
    deactivate_cutover_unlocked deactivate_cutover
deactivated_then = refl

cutover-selects_example :
    (resolve_control_db (
        observe here
          (codes "legacy")
          (codes "state")
          true
          false
          (activate_cutover cutover_host true after_promotion).0)
      ≡ (if true then canonical_at (codes "state") else held_at (codes "legacy")))
    × IsLegacy (codes "legacy") (
        resolve_control_db (
          observe here
            (codes "legacy")
            (codes "state")
            true
            false
            (deactivate_cutover cutover_host true
              (activate_cutover cutover_host true after_promotion).0).0))
cutover-selects_example =
    cutover-selects cutover_host cutover_host (codes "legacy") (codes "state") true false
      after_promotion activated_then deactivated_then
