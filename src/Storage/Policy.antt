-- ===== src/Storage/Policy.antt =====
-- `validateStoragePolicy` of src/storage-policy.ts: the checks of an untrusted value, in their
-- order. What it returns copies the constants, so they are not fields of the model's policy.
pub mod Bounds
use mazzy_command_center.Storage.{
  CanonicalDirectory, canonical_workspace_directories, directory_text, same_directory,
  StoragePolicy, StorageError, bad_shape, bad_directories, quota_keys, bad_quota, retention_keys,
  bad_rule, bad_bounds, policy_version, max_policy_value, max_age_bound, max_scan_files,
  max_safe_integer, max_policy_bytes, policy_missing, policy_not_small, policy_json,
}
use mazzy_command_center.Routing.{Number, whole}
use mazzy_command_center.Routing.Policy.{
  Value, number, string, array, object, Elements, no_element, element, Entries, no_entry, entry,
  entry_of, record_of,
}
use mazzy_command_center.Prelude.Int.{pos}
use mazzy_command_center.Prelude.{
  ℕ, Bool, true, false, List, [], ◌∷◌, Option, none, some, ◌&&◌, ◌||◌, not, ltb, leb, ◌==◌,
  if◌then◌else◌, Text, codes, text_eq, Result, ok, ◌>>=◌, ◌>>◌, guard, some_or, map, any_where,
}

-- The order of `sort()` on strings: by code units.
unfoldable pub text_leb : Text → Text → Bool
text_leb [] t = true
text_leb (a ∷ s) [] = false
text_leb (a ∷ s) (b ∷ t) = ltb a b || ((a == b) && text_leb s t)

unfoldable pub insert_text : Text → List Text → List Text
insert_text x [] = x ∷ []
insert_text x (y ∷ ys) =
    let rest = insert_text x ys in if text_leb x y then x ∷ y ∷ ys else y ∷ rest

unfoldable pub sort_texts : List Text → List Text
sort_texts [] = []
sort_texts (x ∷ xs) = insert_text x (sort_texts xs)

unfoldable pub same_texts : List Text → List Text → Bool
same_texts [] [] = true
same_texts [] (y ∷ ys) = false
same_texts (x ∷ xs) [] = false
same_texts (x ∷ xs) (y ∷ ys) = text_eq x y && same_texts xs ys

abbrev pub keys_of : Entries → List Text
keys_of no_entry = []
keys_of (entry key value rest) = key ∷ keys_of rest

unfoldable pub exact_keys : Entries → List Text → Bool
exact_keys fields keys = same_texts (sort_texts (keys_of fields)) (sort_texts keys)

-- `isPositiveSafeInteger(value, maximum)`, as the number.
unfoldable pub positive_safe_integer : Option Value → ℕ → Option ℕ
positive_safe_integer (some (number (whole (pos n)))) maximum =
    if leb n max_safe_integer && ltb 0 n && leb n maximum then some n else none
positive_safe_integer _ maximum = none

abbrev pub elements_of : Option Value → Option Elements
elements_of (some (array items)) = some items
elements_of _ = none

-- `value === text`
abbrev pub is_text : Option Value → Text → Bool
is_text (some (string s)) t = text_eq s t
is_text _ t = false

abbrev pub is_version : Option Value → ℕ → Bool
is_version (some (number (whole (pos n)))) v = n == v
is_version _ v = false

-- `value.directories` is the canonical list, item by item.
unfoldable pub same_elements : Elements → List Text → Bool
same_elements no_element [] = true
same_elements no_element (t ∷ ts) = false
same_elements (element value rest) [] = false
same_elements (element value rest) (t ∷ ts) = is_text (some value) t && same_elements rest ts

-- The one number of a section such as `{ "maxBytes": 1 }`.
unfoldable pub only_number : Option Value → Text → ℕ → StorageError → Result StorageError ℕ
only_number section key maximum e = do
  fields ← some_or (record_of section) e
  guard (exact_keys fields (key ∷ [])) e
  some_or (positive_safe_integer (entry_of fields key) maximum) e

-- The loop over the canonical directories.
unfoldable pub quotas_of :
    Entries → List CanonicalDirectory → Result StorageError (List (CanonicalDirectory × ℕ))
quotas_of fields [] = ok []
quotas_of fields (directory ∷ rest) = do
  max_bytes ←
      only_number (entry_of fields (directory_text directory)) (codes "maxBytes") max_policy_value
        bad_quota
  others ← quotas_of fields rest
  ok ((directory, max_bytes) ∷ others)

-- `quotas[directory].maxBytes`
unfoldable pub quota_of : List (CanonicalDirectory × ℕ) → CanonicalDirectory → Option ℕ
quota_of [] directory = none
quota_of (q ∷ qs) directory =
    if same_directory q.0 directory then some q.1 else quota_of qs directory

-- Some directory's quota is above what a scan may count.
abbrev pub exceeds_scan : ℕ → CanonicalDirectory × ℕ → Bool
exceeds_scan scan_max_bytes q = ltb scan_max_bytes q.1

unfoldable pub scan_bounds_of :
    Entries → List (CanonicalDirectory × ℕ) → Result StorageError (ℕ × ℕ)
scan_bounds_of fields quotas = do
  guard (exact_keys fields (codes "maxFiles" ∷ codes "maxBytes" ∷ [])) bad_bounds
  max_files ←
      some_or (positive_safe_integer (entry_of fields (codes "maxFiles")) max_scan_files) bad_bounds
  max_bytes ←
      some_or (positive_safe_integer (entry_of fields (codes "maxBytes")) max_policy_value)
        bad_bounds
  guard (not (any_where (exceeds_scan max_bytes) quotas)) bad_bounds
  ok (max_files, max_bytes)

abbrev pub policy_keys : List Text
policy_keys =
    codes "schema"
    ∷ codes "version"
    ∷ codes "directories"
    ∷ codes "quotas"
    ∷ codes "retention"
    ∷ codes "scan"
    ∷ []

-- The sections of a value of the right shape.
pub record Sections : Type 0 where
  pub directories : Elements
  pub quota_fields : Entries
  pub retention_fields : Entries
  pub scan_fields : Entries

unfoldable pub sections_of : Value → Result StorageError Sections
sections_of value = do
  fields ← some_or (record_of (some value)) bad_shape
  guard (exact_keys fields policy_keys) bad_shape
  guard (is_text (entry_of fields (codes "schema")) (codes "mazzy.storage-policy")) bad_shape
  guard (is_version (entry_of fields (codes "version")) policy_version) bad_shape
  directories ← some_or (elements_of (entry_of fields (codes "directories"))) bad_shape
  quota_fields ← some_or (record_of (entry_of fields (codes "quotas"))) bad_shape
  retention_fields ← some_or (record_of (entry_of fields (codes "retention"))) bad_shape
  scan_fields ← some_or (record_of (entry_of fields (codes "scan"))) bad_shape
  ok (record {
    directories = directories;
    quota_fields = quota_fields;
    retention_fields = retention_fields;
    scan_fields = scan_fields;
  })

abbrev pub canonical_texts : List Text
canonical_texts = map directory_text canonical_workspace_directories

unfoldable pub validate_storage_policy : Value → Result StorageError StoragePolicy
validate_storage_policy value = do
  sections ← sections_of value
  guard (same_elements sections.directories canonical_texts) bad_directories
  guard (exact_keys sections.quota_fields canonical_texts) quota_keys
  quotas ← quotas_of sections.quota_fields canonical_workspace_directories
  guard (exact_keys sections.retention_fields (codes "tmp" ∷ [])) retention_keys
  max_age ←
      only_number (entry_of sections.retention_fields (codes "tmp")) (codes "maxAgeSeconds")
        max_age_bound bad_rule
  bounds ← scan_bounds_of sections.scan_fields quotas
  ok (record {
    quotas = quotas;
    tmp_max_age_seconds = max_age;
    scan_max_files = bounds.0;
    scan_max_bytes = bounds.1;
  })

-- What `loadStoragePolicy` finds at the path of the policy: a file's `lstat`, and the value that
-- `JSON.parse` reads from it, unless it throws.
pub record PolicyFile : Type 0 where
  pub regular_file : Bool
  pub size : ℕ
  pub parsed : Option Value

unfoldable pub load_storage_policy : Option PolicyFile → Result StorageError StoragePolicy
load_storage_policy file = do
  found ← some_or file policy_missing
  guard (found.regular_file && leb found.size max_policy_bytes) policy_not_small
  value ← some_or found.parsed policy_json
  validate_storage_policy value
