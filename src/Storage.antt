-- ===== src/Storage.antt =====
-- src/storage-policy.ts: the policy of the project's workspace, the scan of its directories, the
-- quotas, the cleanup of scratch files and the counters of a receipt. This file has the types and
-- the constants.
pub mod Policy
pub mod Scan
pub mod Quota
pub mod Cleanup
pub mod Receipt
mod Tests
use mazzy_command_center.Prelude.{ℕ, Bool, List, [], ◌∷◌, ◌*◌, Text, codes, ◌==◌}

pub data CanonicalDirectory : Type 0 where
  work_tmp work_prompts work_results work_sessions work_outputs : CanonicalDirectory
  work_worktrees work_missions memory_hot memory_warm memory_cold : CanonicalDirectory
  indexes_vector dag manifests : CanonicalDirectory

abbrev pub canonical_workspace_directories : List CanonicalDirectory
canonical_workspace_directories =
    work_tmp ∷ work_prompts ∷ work_results ∷ work_sessions ∷ work_outputs ∷ work_worktrees
    ∷ work_missions ∷ memory_hot ∷ memory_warm ∷ memory_cold ∷ indexes_vector ∷ dag ∷ manifests ∷ []

abbrev pub directory_text : CanonicalDirectory → Text
directory_text work_tmp = codes "work/tmp"
directory_text work_prompts = codes "work/prompts"
directory_text work_results = codes "work/results"
directory_text work_sessions = codes "work/sessions"
directory_text work_outputs = codes "work/outputs"
directory_text work_worktrees = codes "work/worktrees"
directory_text work_missions = codes "work/missions"
directory_text memory_hot = codes "memory/hot"
directory_text memory_warm = codes "memory/warm"
directory_text memory_cold = codes "memory/cold"
directory_text indexes_vector = codes "indexes/vector"
directory_text dag = codes "dag"
directory_text manifests = codes "manifests"

abbrev pub directory_index : CanonicalDirectory → ℕ
directory_index work_tmp = 0
directory_index work_prompts = 1
directory_index work_results = 2
directory_index work_sessions = 3
directory_index work_outputs = 4
directory_index work_worktrees = 5
directory_index work_missions = 6
directory_index memory_hot = 7
directory_index memory_warm = 8
directory_index memory_cold = 9
directory_index indexes_vector = 10
directory_index dag = 11
directory_index manifests = 12

abbrev pub same_directory : CanonicalDirectory → CanonicalDirectory → Bool
same_directory a b = directory_index a == directory_index b

-- The one category that a cleanup may touch is `tmp`, so its rule stands for the record of rules.
pub record StoragePolicy : Type 0 where
  pub quotas : List (CanonicalDirectory × ℕ)
  pub tmp_max_age_seconds : ℕ
  pub scan_max_files : ℕ
  pub scan_max_bytes : ℕ

pub data StorageError : Type 0 where
  bad_shape bad_directories quota_keys bad_quota retention_keys bad_rule bad_bounds : StorageError
  bad_duration bad_clock not_real_directory path_escapes time_bound scan_bound : StorageError
  no_quota io_error directory_disappeared candidate_changed receipt_version : StorageError
  receipt_counters_error bad_timestamp no_descriptor_paths directory_changed : StorageError
  not_regular policy_missing policy_not_small policy_json : StorageError

abbrev pub policy_version : ℕ
policy_version = 1

abbrev pub max_policy_bytes : ℕ
max_policy_bytes = 32 * 1024

abbrev pub max_policy_value : ℕ
max_policy_value = 1024 * 1024 * 1024 * 1024

abbrev pub max_age_bound : ℕ
max_age_bound = 366 * 24 * 60 * 60

abbrev pub max_scan_files : ℕ
max_scan_files = 100_000

-- `Number.MAX_SAFE_INTEGER`
abbrev pub max_safe_integer : ℕ
max_safe_integer = 9007199254740991
