-- ===== src/Storage/Tests.antt =====
-- A policy, a workspace and a cleanup of src/storage-policy.ts, and the theorems applied to them.
use mazzy_command_center.Storage.Quota.Errors.{workspace_quota_status-error}
use mazzy_command_center.Storage.Scan.Exact.{fresh_scan-seen, regular_files}
use mazzy_command_center.Storage.Scan.Bounded.{fresh_scan-counted, total_size, fresh_scan, end_of}
use mazzy_command_center.Storage.Quota.Exact.{workspace_quota_status-Report, Report}
use mazzy_command_center.Storage.Receipt.{
  finally_close, publish, recheck, attempt, checked_receipt_directory, is_counter, receipt_counters,
  prepared, Counters, write_cleanup_receipt, ReceiptHost,
}
use mazzy_command_center.Storage.Cleanup.Exact.{
  cleanup_mazzy_storage-IsAccounted, IsAccounted, cleanup_mazzy_storage-removable, gone,
  is_removable,
}
use mazzy_command_center.Routing.{whole}
use mazzy_command_center.Prelude.Int.{pos}
use mazzy_command_center.Storage.Receipt.Published.{
  write_cleanup_receipt-IsLeft, IsLeft, receipt_counters-cleanup,
}
use mazzy_command_center.Storage.Quota.{
  usage_of, inspect, directory_status, statuses, workspace_quota_status, QuotaStatus,
  is_bound_error,
}
use mazzy_command_center.Storage.Policy.{
  quota_of, scan_bounds_of, positive_safe_integer, only_number, quotas_of, same_elements,
  same_texts, text_leb, insert_text, sort_texts, exact_keys, sections_of, validate_storage_policy,
}
use mazzy_command_center.Storage.Cleanup.{
  is_unchanged, check_candidate, delete_candidates, is_eligible, note_file, note_files, scan_tmp,
  CleanupResult, CleanupOptions, cleanup_mazzy_storage, Later,
}
use mazzy_command_center.Storage.Policy.Bounds.{validate_storage_policy-IsUsable, IsUsable}
use mazzy_command_center.Storage.Scan.{
  ScanState, count_file, assert_within, bounded, new_scan_state, scan_node, scan_children,
  scan_regular_files, no_child, starts_with, inside, directory, walk_parts, link, enter, regular,
  missing, safe_directory, child, folder, real_directory, FileSystem, ScannedRegularFile, Folder,
  Found, PathKind,
}
use mazzy_command_center.Storage.{
  policy_version, bad_duration, work_tmp, directory_text, canonical_workspace_directories,
  CanonicalDirectory, StoragePolicy,
}
use mazzy_command_center.Prelude.{
  ◌≤◌, length, all_where, any_where, ℕ, Bool, true, false, List, [], ◌∷◌, none, some, ◌≡◌, refl, ok,
  err, Text, codes, map, if◌then◌else◌, text_eq,
}
use mazzy_command_center.Routing.Policy.{
  Elements, Entries, Value, array, element, entry, no_element, no_entry, number, object, string,
}

abbrev quota_entries : List CanonicalDirectory → ℕ → Entries
quota_entries [] n = no_entry
quota_entries (d ∷ ds) n =
    entry (directory_text d) (object (entry (codes "maxBytes") (number (whole (pos n))) no_entry))
      (quota_entries ds n)

abbrev directory_elements : List CanonicalDirectory → Elements
directory_elements [] = no_element
directory_elements (d ∷ ds) = element (string (directory_text d)) (directory_elements ds)

abbrev policy_value : Value
policy_value = object (
    entry (codes "version") (number (whole (pos 1))) (
      entry (codes "schema") (string (codes "mazzy.storage-policy")) (
        entry (codes "directories") (array (directory_elements canonical_workspace_directories)) (
          entry (codes "quotas") (object (quota_entries canonical_workspace_directories 50)) (
            entry (codes "retention")
              (object (
                entry (codes "tmp")
                  (object (entry (codes "maxAgeSeconds") (number (whole (pos 60))) no_entry))
                  no_entry))
              (entry (codes "scan")
                (object (
                  entry (codes "maxFiles") (number (whole (pos 3)))
                    (entry (codes "maxBytes") (number (whole (pos 80))) no_entry)))
                no_entry))))))

abbrev with_quota : CanonicalDirectory → CanonicalDirectory × ℕ
with_quota d = (d, 50)

abbrev policy : StoragePolicy
policy = record {
  quotas = map with_quota canonical_workspace_directories;
  tmp_max_age_seconds = 60;
  scan_max_files = 3;
  scan_max_bytes = 80;
}

policy_is_valid : validate_storage_policy policy_value ≡ ok policy
unfolding validate_storage_policy sections_of exact_keys sort_texts insert_text text_leb same_texts
    text_eq same_elements quotas_of only_number positive_safe_integer scan_bounds_of any_where
policy_is_valid = refl

policy-IsUsable : IsUsable policy
policy-IsUsable = validate_storage_policy-IsUsable policy_value policy policy_is_valid

validate_storage_policy-IsUsable_example : IsUsable policy
validate_storage_policy-IsUsable_example =
    validate_storage_policy-IsUsable policy_value policy policy_is_valid

abbrev stat_of : ℕ → ℕ → ScannedRegularFile
stat_of size mtime = record { size = size; dev = 1; ino = 7; mtime_ns = mtime }

-- Two files, one of them old, in the scratch directory; the other directories are missing.
abbrev scratch : Folder
scratch = folder (
    child (regular (codes "old") (some (stat_of 10 0))) (
      child (link (codes "away")) (
        child
          (directory (codes "sub") (codes "/p/.mazzy/work/tmp/sub")
            (folder (child (regular (codes "new") (some (stat_of 20 99_000_000_000))) no_child)))
          no_child)))

abbrev kind : Text → PathKind
kind path =
    if text_eq path (codes "/p/.mazzy")
    then real_directory path
    else if text_eq path (codes "/p/.mazzy/work")
    then real_directory path
    else if text_eq path (codes "/p/.mazzy/work/tmp")
    then real_directory path
    else missing

abbrev file_system : FileSystem
file_system = record { kind = kind; listing = λ _. scratch }

abbrev clock : ℕ → ℕ
clock n = 1000

abbrev later : Later
later = record {
  kind = kind;
  parent = λ _. some (codes "/p/.mazzy/work/tmp");
  stat = λ _. some (stat_of 10 0);
}

abbrev options : Bool → CleanupOptions
options apply = record { apply = apply; now = 100_000; max_duration_ms = 5000 }

abbrev old_file : Found
old_file = (codes "/p/.mazzy/work/tmp/old", stat_of 10 0)

abbrev result : CleanupResult
result = record {
  dry_run = false;
  version = 1;
  tmp = record {
    files = 2;
    bytes = 30;
    eligible_files = 1;
    eligible_bytes = 10;
    freed_files = 1;
    freed_bytes = 10;
  };
}

cleanup_runs :
    cleanup_mazzy_storage clock file_system policy later (codes "/p") (options true)
    ≡ ok (result, old_file ∷ [])
unfolding cleanup_mazzy_storage scan_tmp safe_directory enter walk_parts inside starts_with text_eq
    scan_regular_files scan_children scan_node new_scan_state bounded assert_within count_file
    note_files note_file is_eligible delete_candidates check_candidate is_unchanged
cleanup_runs = refl

cleanup_mazzy_storage-removable_example :
    all_where
      (is_removable policy 100_000 later)
      (gone (cleanup_mazzy_storage clock file_system policy later (codes "/p") (options true)))
    ≡ true
cleanup_mazzy_storage-removable_example =
    cleanup_mazzy_storage-removable clock file_system policy later (codes "/p") (options true)

cleanup_mazzy_storage-IsAccounted_example :
    (result.dry_run ≡ false)
    × (result.version ≡ policy_version)
    × IsAccounted policy true result.tmp (old_file ∷ [])
cleanup_mazzy_storage-IsAccounted_example =
    cleanup_mazzy_storage-IsAccounted clock file_system policy later (codes "/p") (options true)
      result (old_file ∷ []) cleanup_runs

receipt_counters-cleanup_example : (c : Counters) × (receipt_counters result ≡ ok c)
receipt_counters-cleanup_example =
    receipt_counters-cleanup clock file_system policy later (codes "/p") (options true) result
      (old_file ∷ []) policy-IsUsable cleanup_runs

abbrev receipt_host : Bool → ReceiptHost
receipt_host target_regular = record {
  timestamp_valid = λ _. true;
  at_first = kind;
  before_write = kind;
  before_rename = kind;
  descriptor_paths = true;
  opens = true;
  creates = true;
  writes = true;
  whole = true;
  temporary_regular = true;
  renames = true;
  target_regular = target_regular;
  unlinks = true;
}

receipt_runs :
    (write_cleanup_receipt (receipt_host true) (codes "/p") result (codes "now")).0 ≡ none
unfolding write_cleanup_receipt prepared receipt_counters is_counter checked_receipt_directory
    inside starts_with text_eq attempt recheck publish finally_close
receipt_runs = refl

-- A short write is not noticed: the truncated receipt is published without an error.
short_write :
    (write_cleanup_receipt
      (record (receipt_host true) { whole = false })
      (codes "/p")
      result
      (codes "now")).0
    ≡ none
unfolding write_cleanup_receipt prepared receipt_counters is_counter checked_receipt_directory
    inside starts_with text_eq attempt recheck publish finally_close
short_write = refl

write_cleanup_receipt-IsLeft_example :
    IsLeft
      (receipt_host true)
      result
      (codes "now")
      (write_cleanup_receipt (receipt_host true) (codes "/p") result (codes "now"))
write_cleanup_receipt-IsLeft_example =
    write_cleanup_receipt-IsLeft (receipt_host true) (codes "/p") result (codes "now")

fresh_scan-counted_example :
    let s = end_of (fresh_scan clock policy 5000 0 scratch (codes "/p/.mazzy/work/tmp")) in
    (length s.seen ≤ 3)
    × (total_size s.seen ≤ 80)
    × (length s.seen ≡ s.files)
    × (total_size s.seen ≡ s.bytes)
fresh_scan-counted_example =
    fresh_scan-counted clock policy 5000 0 scratch (codes "/p/.mazzy/work/tmp")

abbrev start : ScanState
start = record {
  files = 0;
  bytes = 0;
  max_files = 3;
  max_bytes = 80;
  started = 1000;
  max_duration_ms = 5000;
  seen = [];
  reads = 1;
}

abbrev new_file : Found
new_file = (codes "/p/.mazzy/work/tmp/sub/new", stat_of 20 99_000_000_000)

abbrev ended : ScanState
ended = record start { files = 2; bytes = 30; seen = old_file ∷ new_file ∷ []; reads = 7 }

scan_runs : fresh_scan clock policy 5000 0 scratch (codes "/p/.mazzy/work/tmp") ≡ ok ended
unfolding new_scan_state scan_regular_files scan_children scan_node bounded assert_within count_file
    inside starts_with text_eq
scan_runs = refl

fresh_scan-seen_example :
    old_file ∷ new_file ∷ [] ≡ regular_files scratch (codes "/p/.mazzy/work/tmp")
fresh_scan-seen_example =
    fresh_scan-seen clock policy 5000 0 scratch (codes "/p/.mazzy/work/tmp") ended scan_runs

-- Each directory but the scratch one is missing, and the scan of that one is small.
abbrev status : CanonicalDirectory → QuotaStatus
status work_tmp = record {
  directory = work_tmp;
  files = 2;
  bytes = 30;
  max_bytes = 50;
  within_quota = true;
  scan_complete = true;
}
status d = record {
  directory = d;
  files = 0;
  bytes = 0;
  max_bytes = 50;
  within_quota = true;
  scan_complete = true;
}

abbrev all_statuses : List QuotaStatus
all_statuses = map status canonical_workspace_directories

quota_runs : workspace_quota_status clock file_system policy 5000 (codes "/p") ≡ ok all_statuses
unfolding workspace_quota_status statuses directory_status inspect safe_directory enter walk_parts
    inside starts_with text_eq scan_regular_files scan_children scan_node new_scan_state bounded
    assert_within count_file usage_of quota_of
quota_runs = refl

workspace_quota_status-Report_example :
    Report clock file_system policy 5000 (codes "/p") canonical_workspace_directories all_statuses
workspace_quota_status-Report_example =
    workspace_quota_status-Report clock file_system policy 5000 (codes "/p") all_statuses quota_runs

duration_fails : workspace_quota_status clock file_system policy 0 (codes "/p") ≡ err bad_duration
unfolding workspace_quota_status
duration_fails = refl

duration_is_no_bound : is_bound_error bad_duration ≡ false
duration_is_no_bound =
    workspace_quota_status-error clock file_system policy 0 (codes "/p") bad_duration duration_fails
