-- ===== src/Migrate/Cutover.antt =====
-- `activateCutover` and `deactivateCutover` of src/control-migrate.ts.
pub mod Guards
pub mod Sealed
pub mod Ends
use mazzy_command_center.ControlResolve.{promoted}
use mathlib.Core.Option.{none}
use mazzy_command_center.AntiTunnel.{unreadable}
use mazzy_command_center.Prelude.{[], ◌&&◌, ◌||◌, if◌then◌else◌}
use mazzy_command_center.Endpoint.{
  cutover, promoted, witness_of, is_match, rolled_back, durable_cutover_observed, cutover_damaged,
  verify_stamp, witness_exists, no_witness, read_journal, unreadable, JournalState, is_invalid,
  IdentityVerdict, is_cutover, Evidence, WitnessFile, Checkout,
}
use mazzy_command_center.Migrate.{
  after_guards, unreadable_store, no_store, [], is_empty, exists, write_journal, true, false,
  strict_control_parity, err, returned, under_lock, store, with_paths, ok, not, some, Option,
  LockAnswer, if◌then◌else◌, Reply, WitnessFile, Bool, Checkout, World, Result, Evidence, Store,
}
use mazzy_command_center.Endpoint.{is_promoted}
use mazzy_command_center.Prelude.{◌>>=◌}

pub record CutoverHost : Type 0 where
  pub trusted : Bool
  pub lock : LockAnswer
  pub checkout : Checkout
  pub structure_damaged : Bool
  pub override_active : Bool
  -- The legacy store at the second comparison, since its session may go on.
  pub raced_source : Store
  pub writes_witness : Bool
  pub writes_marker : Bool
  pub writes : JournalState → Bool
  pub removes_marker : Bool
  pub removes_witness : Bool

pub record CutoverResult : Type 0 where
  pub applied : Bool
  pub active : Bool
  pub ok : Bool

abbrev pub cutover_result : Bool → Bool → Bool → CutoverResult
cutover_result applied active well = record { applied = applied; active = active; ok = well }

-- `verifyCanonicalIdentity` with the digest of the root, or an empty one.
unfoldable pub verify_canonical_identity : Checkout → Store → IdentityVerdict
verify_canonical_identity c no_store = unreadable
verify_canonical_identity c unreadable_store = unreadable
verify_canonical_identity c (store d) =
    verify_stamp c (elim c.root_digest [ none ↦ [] | some root ↦ root ]) d.stamp

-- The guards before the first write, or that all of them pass.
unfoldable pub activation_guards : CutoverHost → Bool → World → Option CutoverResult
activation_guards host apply w =
    let state = read_journal w.evidence.journal in
    if host.override_active || cutover_damaged host.checkout w.evidence host.structure_damaged false
    then some (cutover_result false false false)
    else if not (
        is_promoted state
        && exists w.target
        && is_match (verify_canonical_identity host.checkout w.target)
        && strict_control_parity w.source w.target)
    then some (cutover_result false false false)
    else if not apply
    then some (cutover_result false (is_cutover state) true)
    else none

-- The witness that is written: it needs the project's id and the digest of the root.
unfoldable pub own_witness : Checkout → Option WitnessFile
own_witness c = elim c.project_id [
  | none ↦ none
  | some id ↦ elim c.root_digest [
    | none ↦ none
    | some root ↦ if is_empty root then none else some (witness_of id root)
  ]
]

unfoldable pub write_witness : CutoverHost → WitnessFile → World → Result World World
write_witness host file w =
    if host.writes_witness
    then ok (record w { evidence = record w.evidence { witness = file } })
    else err w

unfoldable pub write_marker : CutoverHost → WitnessFile → World → Result World World
write_marker host file w =
    if host.writes_marker
    then ok (record w { evidence = record w.evidence { marker = file } })
    else err w

-- The witness first, then the marker, then the journal.
unfoldable pub publish_witness : CutoverHost → WitnessFile → World → Result World World
publish_witness host file w = do
  first ← write_witness host file w
  second ← write_marker host file first
  write_journal host.writes cutover second

unfoldable pub publish_own : CutoverHost → Option WitnessFile → World → Result World World
publish_own host none w = err w
publish_own host (some file) w = publish_witness host file w

abbrev pub publication : CutoverHost → Result World World → World × Reply CutoverResult
publication host (err there) = (
  there,
  returned (cutover_result true (durable_cutover_observed host.checkout there.evidence) false),
)
publication host (ok done) = (done, returned (cutover_result true true true))

unfoldable pub publish_later : CutoverHost → World → World × Reply CutoverResult
publish_later host later =
    if not (strict_control_parity later.source later.target)
    then (later, returned (cutover_result false false false))
    else publication host (publish_own host (own_witness host.checkout) later)

unfoldable pub activate_cutover_unlocked : CutoverHost → Bool → World → World × Reply CutoverResult
activate_cutover_unlocked host apply w =
    after_guards (activation_guards host apply w)
      (publish_later host (record w { source = host.raced_source })) w

unfoldable pub activate_cutover : CutoverHost → Bool → World → World × Reply CutoverResult
activate_cutover host apply w =
    with_paths host.trusted
      (under_lock host.lock apply (cutover_result false false false)
        (activate_cutover_unlocked host apply))
      w

unfoldable pub remove_marker : CutoverHost → World → Result World World
remove_marker host w =
    if host.removes_marker
    then ok (record w { evidence = record w.evidence { marker = no_witness } })
    else err w

unfoldable pub remove_witness : CutoverHost → World → Result World World
remove_witness host w =
    if host.removes_witness
    then ok (record w { evidence = record w.evidence { witness = no_witness } })
    else err w

-- The journal first, then the marker, and the witness last.
unfoldable pub withdraw_cutover : CutoverHost → World → Result World World
withdraw_cutover host w = do
  first ← write_journal host.writes promoted w
  second ← remove_marker host first
  remove_witness host second

-- An invalid journal without a marker and a witness is an interrupted migration.
abbrev pub needs_repair : Evidence → Bool
needs_repair e =
    is_invalid (read_journal e.journal)
    && not (witness_exists e.marker)
    && not (witness_exists e.witness)

abbrev pub shows_cutover : Evidence → Bool
shows_cutover e =
    is_cutover (read_journal e.journal) || witness_exists e.marker || witness_exists e.witness

abbrev pub deactivation : Result World World → World × Reply CutoverResult
deactivation (ok done) = (done, returned (cutover_result true false true))
deactivation (err there) = (there, returned (cutover_result true true false))

unfoldable pub deactivate_cutover_unlocked :
    CutoverHost → Bool → World → World × Reply CutoverResult
deactivate_cutover_unlocked host apply w =
    if not (shows_cutover w.evidence) && not (needs_repair w.evidence)
    then (w, returned (cutover_result false false true))
    else if not apply
    then (w, returned (cutover_result false (not (needs_repair w.evidence)) true))
    else if needs_repair w.evidence
    then deactivation (write_journal host.writes rolled_back w)
    else deactivation (withdraw_cutover host w)

unfoldable pub deactivate_cutover : CutoverHost → Bool → World → World × Reply CutoverResult
deactivate_cutover host apply w =
    with_paths host.trusted
      (under_lock host.lock apply (cutover_result false true false)
        (deactivate_cutover_unlocked host apply))
      w
