-- ===== src/Storage/Policy/Bounds.antt =====
-- What `validateStoragePolicy` of src/storage-policy.ts guarantees of a policy that it returns.
use mazzy_command_center.Routing.{not_finite, between}
use mazzy_command_center.Prelude.Int.{negsuc}
use mathlib.Core.Path.{subst}
use mazzy_command_center.Routing.Policy.{
  null, object, array, string, boolean, entry_of, record_of, number, Entries, Value,
}
use mazzy_command_center.Storage.{
  manifests, dag, indexes_vector, memory_cold, memory_warm, memory_hot, work_missions, bad_rule,
  work_worktrees, retention_keys, work_outputs, quota_keys, work_sessions, bad_directories,
  work_results, work_prompts, work_tmp, bad_quota, bad_bounds, max_age_bound, directory_text,
  max_policy_value, max_scan_files, canonical_workspace_directories, same_directory, StoragePolicy,
  StorageError, CanonicalDirectory,
}
use mazzy_command_center.Storage.Policy.{
  canonical_texts, same_elements, sections_of, exceeds_scan, exact_keys, quota_of, scan_bounds_of,
  validate_storage_policy, pos, whole, Entries, Value, positive_safe_integer, only_number,
  quotas_of,
}
use mazzy_command_center.Prelude.{
  not, codes, ok-eq, some_or, Text, ℕ, true, false, List, [], ◌∷◌, Option, none, some, ◌≡◌, ◌≤◌,
  ◌<◌, inl, inr, refl, arith, ok, on_ok, on_guard, some_or-eq-ok, Bool-cases, any_where,
  not-eq-true,
}

positive_safe_integer-bounds :
    (value : Option Value) (maximum n : ℕ)
    → positive_safe_integer value maximum ≡ some n
    → (0 < n) × (n ≤ maximum)
unfolding positive_safe_integer
positive_safe_integer-bounds (some (number (whole (pos k)))) maximum n h = ground arith
positive_safe_integer-bounds (some (number (whole (negsuc k)))) maximum n h = cc
positive_safe_integer-bounds (some (number (between z))) maximum n h = cc
positive_safe_integer-bounds (some (number not_finite)) maximum n h = cc
positive_safe_integer-bounds (some null) maximum n h = cc
positive_safe_integer-bounds (some (boolean b)) maximum n h = cc
positive_safe_integer-bounds (some (string s)) maximum n h = cc
positive_safe_integer-bounds (some (array xs)) maximum n h = cc
positive_safe_integer-bounds (some (object fs)) maximum n h = cc
positive_safe_integer-bounds none maximum n h = cc

only_number-bounds :
    (section : Option Value) (key : Text) (maximum : ℕ) (e : StorageError) (n : ℕ)
    → only_number section key maximum e ≡ ok n
    → (0 < n) × (n ≤ maximum)
unfolding only_number
only_number-bounds section key maximum e n h =
    on_ok (some_or (record_of section) e) h λ fields _ h1.
      on_guard (exact_keys fields (key ∷ [])) e h1 λ _ h2.
        positive_safe_integer-bounds (entry_of fields key) maximum n
          (some_or-eq-ok (positive_safe_integer (entry_of fields key) maximum) e h2)

-- The list of quotas that the loop over some directories builds.
data Covers : List CanonicalDirectory → List (CanonicalDirectory × ℕ) → Type 0 where
  all_covered : Covers [] []
  covered :
      {d : CanonicalDirectory} {ds : List CanonicalDirectory} {n : ℕ}
      {qs : List (CanonicalDirectory × ℕ)}
      → 0 < n
      → Covers ds qs
      → Covers (d ∷ ds) ((d, n) ∷ qs)

quotas_of-Covers :
    (fields : Entries) (ds : List CanonicalDirectory) (qs : List (CanonicalDirectory × ℕ))
    → quotas_of fields ds ≡ ok qs
    → Covers ds qs
unfolding quotas_of
quotas_of-Covers fields [] qs h = subst (Covers []) (ok-eq h) all_covered
quotas_of-Covers fields (d ∷ ds) qs h =
    on_ok
      (only_number (entry_of fields (directory_text d)) (codes "maxBytes") max_policy_value
        bad_quota)
      h
      λ n first h1. on_ok (quotas_of fields ds) h1 λ others rest same.
        subst (Covers (d ∷ ds)) (ok-eq same)
          (covered (only_number-bounds _ _ _ _ n first).0 (quotas_of-Covers fields ds others rest))

Covers-quota_of :
    (ds : List CanonicalDirectory) (qs : List (CanonicalDirectory × ℕ)) (max_bytes : ℕ)
    (d : CanonicalDirectory)
    → Covers ds qs
    → any_where (exceeds_scan max_bytes) qs ≡ false
    → any_where (λ x. same_directory x d) ds ≡ true
    → (n : ℕ) × (quota_of qs d ≡ some n) × (0 < n) × (n ≤ max_bytes)
unfolding any_where quota_of
Covers-quota_of [] [] max_bytes d all_covered h m = cc
Covers-quota_of [] (_ ∷ qs) max_bytes d x7 h m = elim x7 [ ]
Covers-quota_of (x ∷ ds) [] max_bytes d x6 h m = elim x6 [ ]
Covers-quota_of (x ∷ ds) ((_, n) ∷ qs) max_bytes d (covered positive rest) h m =
    elim (Bool-cases (same_directory x d)) [
      | inl here ↦ (n, rw here, positive, ground arith)
      | inr other ↦
          let (k, found, positive_k, below) =
            Covers-quota_of ds qs max_bytes d rest (ground arith) (ground arith) in
          (k, rw other found, positive_k, below)
    ]

every_directory :
    (d : CanonicalDirectory)
    → any_where (λ x. same_directory x d) canonical_workspace_directories ≡ true
unfolding any_where
every_directory work_tmp = refl
every_directory work_prompts = refl
every_directory work_results = refl
every_directory work_sessions = refl
every_directory work_outputs = refl
every_directory work_worktrees = refl
every_directory work_missions = refl
every_directory memory_hot = refl
every_directory memory_warm = refl
every_directory memory_cold = refl
every_directory indexes_vector = refl
every_directory dag = refl
every_directory manifests = refl

scan_bounds_of-bounds :
    (fields : Entries) (qs : List (CanonicalDirectory × ℕ)) (files bytes : ℕ)
    → scan_bounds_of fields qs ≡ ok (files, bytes)
    → ((0 < files) × (files ≤ max_scan_files))
      × (bytes ≤ max_policy_value)
      × (any_where (exceeds_scan bytes) qs ≡ false)
unfolding scan_bounds_of
scan_bounds_of-bounds fields qs files bytes h =
    on_guard (exact_keys fields (codes "maxFiles" ∷ codes "maxBytes" ∷ [])) bad_bounds h λ _ h1.
      on_ok
        (some_or (positive_safe_integer (entry_of fields (codes "maxFiles")) max_scan_files)
          bad_bounds)
        h1
        λ n read_files h2.
          on_ok
            (some_or (positive_safe_integer (entry_of fields (codes "maxBytes")) max_policy_value)
              bad_bounds)
            h2
            λ b read_bytes h3.
              on_guard (not (any_where (exceeds_scan b) qs)) bad_bounds h3 λ within same.
                let n_bounds =
                  positive_safe_integer-bounds (entry_of fields (codes "maxFiles")) max_scan_files n
                    (some_or-eq-ok _ bad_bounds read_files) in
                let b_bounds =
                  positive_safe_integer-bounds (entry_of fields (codes "maxBytes")) max_policy_value
                    b (some_or-eq-ok _ bad_bounds read_bytes) in
                subst
                  (λ p.
                    ((0 < p.0) × (p.0 ≤ max_scan_files))
                    × (p.1 ≤ max_policy_value)
                    × (any_where (exceeds_scan p.1) qs ≡ false))
                  (ok-eq same) (n_bounds, b_bounds.1, not-eq-true _ within)

-- The bounds of a usable policy.
pub record IsUsable (p : StoragePolicy) : Type 0 where
  pub files : (0 < p.scan_max_files) × (p.scan_max_files ≤ max_scan_files)
  pub bytes : p.scan_max_bytes ≤ max_policy_value
  pub age : (0 < p.tmp_max_age_seconds) × (p.tmp_max_age_seconds ≤ max_age_bound)
  pub quota :
      (d : CanonicalDirectory)
      → (n : ℕ) × (quota_of p.quotas d ≡ some n) × (0 < n) × (n ≤ p.scan_max_bytes)

-- In a policy that passes the validation every canonical directory has a positive quota, no
-- quota is above the bytes that a scan may count, and the bounds of the scan and of the age are
-- positive and within their maxima.
pub validate_storage_policy-IsUsable :
    (value : Value) (p : StoragePolicy) → validate_storage_policy value ≡ ok p → IsUsable p
unfolding validate_storage_policy
validate_storage_policy-IsUsable value p h = on_ok (sections_of value) h λ s _ h1.
    on_guard (same_elements s.directories canonical_texts) bad_directories h1 λ _ h2.
      on_guard (exact_keys s.quota_fields canonical_texts) quota_keys h2 λ _ h3.
        on_ok (quotas_of s.quota_fields canonical_workspace_directories) h3 λ quotas read h4.
          on_guard (exact_keys s.retention_fields (codes "tmp" ∷ [])) retention_keys h4 λ _ h5.
            on_ok
              (only_number (entry_of s.retention_fields (codes "tmp")) (codes "maxAgeSeconds")
                max_age_bound bad_rule)
              h5
              λ max_age aged h6.
                on_ok (scan_bounds_of s.scan_fields quotas) h6 λ bounds checked same.
                  let (files, bytes, within) =
                    scan_bounds_of-bounds s.scan_fields quotas bounds.0 bounds.1 checked in
                  subst IsUsable (ok-eq same) (record {
                    files = files;
                    bytes = bytes;
                    age = only_number-bounds _ _ _ _ max_age aged;
                    quota = λ d.
                        Covers-quota_of canonical_workspace_directories quotas bounds.1 d
                          (quotas_of-Covers s.quota_fields _ quotas read) within
                          (every_directory d);
                  })
