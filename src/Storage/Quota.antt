-- ===== src/Storage/Quota.antt =====
-- `workspaceQuotaStatus` and `workspaceQuotaSummary` of src/storage-policy.ts.
pub mod Exact
pub mod Errors
use mazzy_command_center.Storage.{
  CanonicalDirectory, canonical_workspace_directories, directory_text, StorageError, scan_bound,
  bad_duration, no_quota, StoragePolicy, max_safe_integer,
}
use mazzy_command_center.Storage.Policy.{quota_of}
use mazzy_command_center.Storage.Scan.{
  ScanState, Fault, FileSystem, Found, new_scan_state, scan_regular_files, safe_directory,
}
use mazzy_command_center.Prelude.{
  ℕ, suc, ◌+◌, Bool, true, false, List, [], ◌∷◌, Option, none, some, ◌&&◌, ltb, leb, ◌-◌, ◌==◌,
  Text, Result, ok, err, ◌>>=◌, ◌>>◌, guard, some_or, length, filter_where,
}

pub record QuotaStatus : Type 0 where
  pub directory : CanonicalDirectory
  pub files : ℕ
  pub bytes : ℕ
  pub max_bytes : ℕ
  pub within_quota : Bool
  pub scan_complete : Bool

pub record WorkspaceQuotaSummary : Type 0 where
  pub directories : List QuotaStatus
  pub files : ℕ
  pub bytes : ℕ
  pub scan_complete : Bool
  pub observed_directories : ℕ
  pub incomplete_directories : ℕ

-- What the callback counts of the files that a scan reports.
pub record Usage : Type 0 where
  pub files : ℕ
  pub bytes : ℕ

unfoldable pub usage_of : List Found → Usage → Usage
usage_of [] u = u
usage_of (f ∷ fs) u = usage_of fs (record { files = suc u.files; bytes = u.bytes + f.1.size })

-- The scan of one directory, its bound caught: the usage, whether it is complete, and the readings
-- of the clock.
abbrev pub is_bound_error : StorageError → Bool
is_bound_error scan_bound = true
is_bound_error _ = false

abbrev pub observed : ScanState → Bool → Usage × Bool × ℕ
observed s complete = (usage_of s.seen (record { files = 0; bytes = 0 }), complete, s.reads)

abbrev pub caught : Result Fault ScanState → Result StorageError (Usage × Bool × ℕ)
caught (ok s) = ok (observed s true)
caught (err fault) = elim (is_bound_error fault.error) [
  | true ↦ ok (observed fault.at false)
  | false ↦ err fault.error
]

module _ (clock : ℕ → ℕ) (fs : FileSystem) (policy : StoragePolicy) (max_duration_ms : ℕ) where
  unfoldable pub inspect : ℕ → Option Text → Result StorageError (Usage × Bool × ℕ)
  inspect reads none = ok (record { files = 0; bytes = 0 }, true, reads)
  inspect reads (some real) = caught (
      scan_regular_files clock real (fs.listing real) real
        (new_scan_state clock policy max_duration_ms reads))

  unfoldable pub directory_status :
      Text → CanonicalDirectory → ℕ → Result StorageError (QuotaStatus × ℕ)
  directory_status root_real directory reads = do
    real ← safe_directory fs.kind root_real (directory_text directory)
    seen ← inspect reads real
    max_bytes ← some_or (quota_of policy.quotas directory) no_quota
    ok (
      record {
        directory = directory;
        files = seen.0.files;
        bytes = seen.0.bytes;
        max_bytes = max_bytes;
        within_quota = seen.1 && leb seen.0.bytes max_bytes;
        scan_complete = seen.1;
      },
      seen.2,
    )

  unfoldable pub statuses :
      Text → List CanonicalDirectory → ℕ → Result StorageError (List QuotaStatus)
  statuses root_real [] reads = ok []
  statuses root_real (directory ∷ rest) reads = do
    here ← directory_status root_real directory reads
    others ← statuses root_real rest here.1
    ok (here.0 ∷ others)

  unfoldable pub workspace_quota_status : Text → Result StorageError (List QuotaStatus)
  workspace_quota_status root_real = do
    guard (leb max_duration_ms max_safe_integer && ltb 0 max_duration_ms) bad_duration
    statuses root_real canonical_workspace_directories 0

abbrev pub total_files : List QuotaStatus → ℕ
total_files [] = 0
total_files (q ∷ qs) = q.files + total_files qs

abbrev pub total_bytes : List QuotaStatus → ℕ
total_bytes [] = 0
total_bytes (q ∷ qs) = q.bytes + total_bytes qs

abbrev pub is_complete : QuotaStatus → Bool
is_complete q = q.scan_complete

unfoldable pub summary_of : List QuotaStatus → WorkspaceQuotaSummary
summary_of directories =
    let seen = filter_where is_complete directories in
    record {
      directories = directories;
      files = total_files seen;
      bytes = total_bytes seen;
      scan_complete = length seen == length directories;
      observed_directories = length seen;
      incomplete_directories = length directories - length seen;
    }

unfoldable pub workspace_quota_summary :
    (ℕ → ℕ) → FileSystem → StoragePolicy → ℕ → Text → Result StorageError WorkspaceQuotaSummary
workspace_quota_summary clock fs policy max_duration_ms root_real = do
  directories ← workspace_quota_status clock fs policy max_duration_ms root_real
  ok (summary_of directories)
