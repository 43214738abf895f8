-- ===== src/Storage/Receipt.antt =====
-- `receiptCounters` and `writeCleanupReceipt` of src/storage-policy.ts. What the calls of the file
-- system return is a parameter; their effects are the log, in its order. The name of the file and
-- its text are not modelled beyond what they hold.
pub mod Published
use mazzy_command_center.Storage.{
  StorageError, receipt_version, receipt_counters_error, bad_timestamp, no_descriptor_paths,
  directory_changed, not_regular, io_error, not_real_directory, path_escapes, policy_version,
  max_scan_files, max_policy_value, max_safe_integer,
}
use mazzy_command_center.Storage.Scan.{PathKind, missing, not_directory, real_directory, inside}
use mazzy_command_center.Storage.Cleanup.{CleanupCategoryResult, CleanupResult}
use mazzy_command_center.AntiTunnel.{join_path}
use mazzy_command_center.Prelude.{
  ℕ, Bool, true, false, List, [], ◌∷◌, ◌++◌, Option, none, some, ◌&&◌, ◌||◌, not, ltb, leb,
  if◌then◌else◌, Text, codes, text_eq, Result, ok, err, ◌>>=◌, ◌>>◌, guard, some_or,
}

-- `isPositiveOrZeroSafeInteger(value, maximum)` of a number that is no fraction and not negative.
unfoldable pub is_counter : ℕ → ℕ → Bool
is_counter n maximum = leb n max_safe_integer && leb n maximum

pub record Counters : Type 0 where
  pub freed_files : ℕ
  pub freed_bytes : ℕ

unfoldable pub receipt_counters : CleanupResult → Result StorageError Counters
receipt_counters result = do
  guard
      (leb result.version max_safe_integer
        && not (ltb result.version 1 || ltb policy_version result.version))
      receipt_version
  guard
      (is_counter result.tmp.freed_files max_scan_files
        && is_counter result.tmp.freed_bytes max_policy_value)
      receipt_counters_error
  ok (record { freed_files = result.tmp.freed_files; freed_bytes = result.tmp.freed_bytes })

-- What the receipt holds.
pub record Receipt : Type 0 where
  pub version : ℕ
  pub timestamp : Text
  pub counters : Counters

pub data Effect : Type 0 where
  open_directory create_temporary : Effect
  write_temporary write_part : Receipt → Effect
  rename_temporary unlink_temporary close_directory : Effect

-- What the calls return. The kinds of the paths are those at each of the three checks. `whole` says
-- that `writeSync`, where it does not throw, has written the whole text; its count is not looked at.
pub record ReceiptHost : Type 0 where
  pub timestamp_valid : Text → Bool
  pub at_first : Text → PathKind
  pub before_write : Text → PathKind
  pub before_rename : Text → PathKind
  pub descriptor_paths : Bool
  pub opens : Bool
  pub creates : Bool
  pub writes : Bool
  pub whole : Bool
  pub temporary_regular : Bool
  pub renames : Bool
  pub target_regular : Bool
  pub unlinks : Bool

-- `realpathSync` after the checks of `lstatSync`. A directory that `mkdirSync` has made has no link
-- on its path.
abbrev pub checked_directory : Text → PathKind → Option Text → Result StorageError Text
checked_directory root missing none = err io_error
checked_directory root missing (some made) = ok made
checked_directory root not_directory made = err not_real_directory
checked_directory root (real_directory real) made =
    if inside root real then ok real else err path_escapes

unfoldable pub checked_receipt_directory :
    (Text → PathKind) → Text → Result StorageError (Text × Text)
checked_receipt_directory kind root = do
  mazzy ← checked_directory root (kind (join_path root (codes ".mazzy"))) none
  let path = join_path mazzy (codes "manifests")
  manifests ← checked_directory mazzy (kind path) (some path)
  ok (mazzy, manifests)

-- A later check must find the same directories.
unfoldable pub recheck : (Text → PathKind) → Text → Text × Text → Result StorageError (Unit {0})
recheck kind root checked = do
  again ← checked_receipt_directory kind root
  guard (text_eq again.0 checked.0 && text_eq again.1 checked.1) directory_changed

-- Where the body of the `try` ends: its error, its effects, and whether `temporary` is set.
pub record Attempt : Type 0 where
  pub error : Option StorageError
  pub log : List Effect
  pub temporary : Bool

abbrev pub stopped : StorageError → List Effect → Bool → Attempt
stopped e log temporary = record { error = some e; log = log; temporary = temporary }

abbrev pub written : Bool → Receipt → List Effect
written whole receipt =
    create_temporary ∷ (if whole then write_temporary receipt else write_part receipt) ∷ []

-- The second half, from the write on.
unfoldable pub publish : ReceiptHost → Text → Text × Text → Receipt → Attempt
publish host root checked receipt =
    if not host.temporary_regular
    then stopped not_regular (written host.whole receipt) true
    else elim (recheck host.before_rename root checked) [
      | err e ↦ stopped e (written host.whole receipt) true
      | ok _ ↦
          if not host.renames then stopped io_error (written host.whole receipt) true else record {
            error = if host.target_regular then none else some not_regular;
            log = written host.whole receipt ++ rename_temporary ∷ [];
            temporary = false;
          }
    ]

unfoldable pub attempt : ReceiptHost → Text → Text × Text → Receipt → Attempt
attempt host root checked receipt = elim (recheck host.before_write root checked) [
  | err e ↦ stopped e [] false
  | ok _ ↦
      if not host.creates
      then stopped io_error [] true
      else if not host.writes
      then stopped io_error (create_temporary ∷ []) true
      else publish host root checked receipt
]

-- The `finally`: the removal of a temporary file that is left may fail, which is ignored, and the
-- directory is closed.
abbrev pub cleared : Bool → Attempt → List Effect
cleared unlinks a =
    if a.temporary && unlinks then unlink_temporary ∷ close_directory ∷ [] else close_directory ∷ []

unfoldable pub finally_close : Bool → Attempt → Option StorageError × List Effect
finally_close unlinks a = (a.error, open_directory ∷ a.log ++ cleared unlinks a)

abbrev pub thrown : StorageError → Option StorageError × List Effect
thrown e = (some e, [])

-- The checks before the `try`.
unfoldable pub prepared :
    ReceiptHost → Text → CleanupResult → Text → Result StorageError ((Text × Text) × Receipt)
prepared host root result timestamp = do
  guard (host.timestamp_valid timestamp) bad_timestamp
  counters ← receipt_counters result
  checked ← checked_receipt_directory host.at_first root
  guard host.descriptor_paths no_descriptor_paths
  guard host.opens io_error
  ok (checked, record { version = result.version; timestamp = timestamp; counters = counters })

-- The error that is thrown, if any, and the effects.
unfoldable pub write_cleanup_receipt :
    ReceiptHost → Text → CleanupResult → Text → Option StorageError × List Effect
write_cleanup_receipt host root result timestamp =
    if result.dry_run then (none, []) else elim (prepared host root result timestamp) [
      | err e ↦ thrown e
      | ok ready ↦ finally_close host.unlinks (attempt host root ready.0 ready.1)
    ]
