-- ===== src/Storage/Cleanup.antt =====
-- `cleanupMazzyStorage` of src/storage-policy.ts: old scratch files are listed by a scan, and each
-- is examined again before it is unlinked. Times are exact nanoseconds where the code divides them
-- to floating milliseconds. An exception carries the paths that were unlinked before it.
pub mod Exact
use mazzy_command_center.Storage.{
  StorageError, bad_duration, bad_clock, directory_disappeared, candidate_changed, path_escapes,
  io_error, StoragePolicy, max_safe_integer, policy_version, work_tmp, directory_text,
}
use mazzy_command_center.Storage.Scan.{
  ScannedRegularFile, ScanState, Fault, FileSystem, PathKind, Found, new_scan_state,
  scan_regular_files, safe_directory, inside,
}
use mazzy_command_center.Prelude.{
  ℕ, suc, ◌+◌, ◌*◌, Bool, true, false, List, [], ◌∷◌, ◌++◌, Option, none, some, ◌&&◌, not, ltb, leb,
  ◌==◌, if◌then◌else◌, Text, Result, ok, err, ◌>>=◌, ◌>>◌, guard, some_or,
}

pub record CleanupCategoryResult : Type 0 where
  pub files : ℕ
  pub bytes : ℕ
  pub eligible_files : ℕ
  pub eligible_bytes : ℕ
  pub freed_files : ℕ
  pub freed_bytes : ℕ

-- `CLEANABLE_CATEGORIES` is `tmp` alone, so its result stands for the record of results.
pub record CleanupResult : Type 0 where
  pub dry_run : Bool
  pub version : ℕ
  pub tmp : CleanupCategoryResult

pub record CleanupOptions : Type 0 where
  pub apply : Bool
  pub now : ℕ
  pub max_duration_ms : ℕ

abbrev pub empty_cleanup_result : CleanupCategoryResult
empty_cleanup_result = record {
  files = 0;
  bytes = 0;
  eligible_files = 0;
  eligible_bytes = 0;
  freed_files = 0;
  freed_bytes = 0;
}

-- `now - detail.mtimeMs > policy.retention[category].maxAgeSeconds * 1000`, in nanoseconds.
unfoldable pub is_eligible : StoragePolicy → ℕ → Found → Bool
is_eligible policy now f =
    ltb (policy.tmp_max_age_seconds * 1_000_000_000 + f.1.mtime_ns) (now * 1_000_000)

-- The callback of the scan.
unfoldable pub note_file :
    StoragePolicy
    → ℕ
    → Found
    → CleanupCategoryResult × List Found
    → CleanupCategoryResult × List Found
note_file policy now f (r, candidates) =
    let seen = record r { files = suc r.files; bytes = r.bytes + f.1.size } in
    if is_eligible policy now f
    then (
      record seen {
        eligible_files = suc seen.eligible_files;
        eligible_bytes = seen.eligible_bytes + f.1.size;
      },
      candidates ++ f ∷ [],
    )
    else (seen, candidates)

unfoldable pub note_files :
    StoragePolicy
    → ℕ
    → List Found
    → CleanupCategoryResult × List Found
    → CleanupCategoryResult × List Found
note_files policy now [] r = r
note_files policy now (f ∷ fs) r = note_files policy now fs (note_file policy now f r)

-- The file system at the time of the deletions: the directory, the real parent of a path, and the
-- last `lstat` of a candidate, which may be no regular file.
pub record Later : Type 0 where
  pub kind : Text → PathKind
  pub parent : Text → Option Text
  pub stat : Text → Option ScannedRegularFile

abbrev pub same_file : ScannedRegularFile → ScannedRegularFile → Bool
same_file a b =
    (a.dev == b.dev) && (a.ino == b.ino) && (a.size == b.size) && (a.mtime_ns == b.mtime_ns)

unfoldable pub is_unchanged : Option ScannedRegularFile → ScannedRegularFile → Bool
is_unchanged none detail = false
is_unchanged (some later) detail = same_file later detail

-- The checks before one `unlinkSync`.
unfoldable pub check_candidate : Text → Later → Found → Result StorageError (Unit {0})
check_candidate root_real later candidate = do
  category ← safe_directory later.kind root_real (directory_text work_tmp)
  category_root ← some_or category directory_disappeared
  parent ← some_or (later.parent candidate.0) io_error
  guard (inside category_root parent) path_escapes
  guard (is_unchanged (later.stat candidate.0) candidate.1) candidate_changed

pub record Stopped : Type 0 where
  pub error : StorageError
  pub unlinked : List Found

unfoldable pub delete_candidates :
    Text
    → Later
    → List Found
    → CleanupCategoryResult
    → List Found
    → Result Stopped (CleanupCategoryResult × List Found)
delete_candidates root_real later [] r unlinked = ok (r, unlinked)
delete_candidates root_real later (f ∷ fs) r unlinked = elim (check_candidate root_real later f) [
  | err e ↦ err (record { error = e; unlinked = unlinked })
  | ok _ ↦
      delete_candidates root_real later fs
        (record r { freed_files = suc r.freed_files; freed_bytes = r.freed_bytes + f.1.size })
        (unlinked ++ f ∷ [])
]

abbrev pub stop {ℓ} : {A : Type ℓ} → StorageError → Result Stopped A
stop e = err (record { error = e; unlinked = [] })

-- The errors before the first deletion.
abbrev pub before_deletion {ℓ} : {A : Type ℓ} → Result StorageError A → Result Stopped A
before_deletion (ok a) = ok a
before_deletion (err e) = stop e

abbrev pub duration_guard : ℕ → Result StorageError (Unit {0})
duration_guard max_duration_ms =
    guard (leb max_duration_ms max_safe_integer && ltb 0 max_duration_ms) bad_duration

abbrev pub seen_of : Result Fault ScanState → Result StorageError (List Found)
seen_of (ok s) = ok s.seen
seen_of (err fault) = err fault.error

-- `if (options.apply) for (…)`
abbrev pub delete_if :
    Bool
    → Text
    → Later
    → CleanupCategoryResult × List Found
    → Result Stopped (CleanupCategoryResult × List Found)
delete_if true root_real later noted = delete_candidates root_real later noted.1 noted.0 []
delete_if false root_real later noted = ok (noted.0, [])

module _ (clock : ℕ → ℕ) (fs : FileSystem) (policy : StoragePolicy) where
  -- The files of the scratch directory; there are none when it is absent.
  unfoldable pub scan_tmp : Text → ℕ → Result StorageError (List Found)
  scan_tmp root_real max_duration_ms = do
    real ← safe_directory fs.kind root_real (directory_text work_tmp)
    elim real [
      | none ↦ ok []
      | some real ↦ seen_of (
          scan_regular_files clock real (fs.listing real) real
            (new_scan_state clock policy max_duration_ms 0))
    ]

  unfoldable pub cleanup_mazzy_storage :
      Later → Text → CleanupOptions → Result Stopped (CleanupResult × List Found)
  cleanup_mazzy_storage later root_real options = do
    before_deletion (duration_guard options.max_duration_ms)
    before_deletion (guard (leb options.now max_safe_integer) bad_clock)
    seen ← before_deletion (scan_tmp root_real options.max_duration_ms)
    let noted = note_files policy options.now seen (empty_cleanup_result, [])
    done ← delete_if options.apply root_real later noted
    ok (record { dry_run = not options.apply; version = policy_version; tmp = done.0 }, done.1)
