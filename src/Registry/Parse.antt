-- ===== src/Registry/Parse.antt =====
-- `parseRegistry` and `parseKey` of src/project-registry.ts, of which every failure is the same
-- error. `JSON.parse`, the length in bytes and the test of a date are parameters.
pub mod Unique
pub mod Roundtrip
use mazzy_command_center.Prelude.Int.{pos}
use mazzy_command_center.Routing.{whole}
use mazzy_command_center.Registry.{
  ProjectId, text_id, coerced_id, Entry, Registry, Key, max_registry_bytes, max_entries, is_uuid,
  is_base64url_digest,
}
use mazzy_command_center.Routing.Policy.{
  no_entry, entry, Value, null, boolean, number, string, array, object, Elements, no_element,
  element, Entries, entry_of, record_of,
}
use mazzy_command_center.Storage.Policy.{sort_texts, keys_of, elements_of, is_text, is_version}
use mazzy_command_center.Prelude.{
  ℕ, suc, Bool, true, false, List, [], ◌∷◌, ◌++◌, Option, none, some, ◌&&◌, not, leb, if◌then◌else◌,
  Text, codes, text_eq, Result, ok, err, ◌>>=◌, ◌>>◌, guard, some_or, length, any_where,
}

pub record Json : Type 0 where
  pub byte_length : Text → ℕ
  pub parse : Text → Option Value
  pub is_iso : Text → Bool

-- `String(value)`, where it can be an identifier: of a number, a Boolean and an object it is not.
unfoldable mutual
  pub string_of : Value → Text
  string_of (string s) = s
  string_of (array items) = joined items
  string_of (object fields) = codes "[object Object]"
  string_of (number n) = codes "number"
  string_of (boolean b) = codes "boolean"
  string_of null = codes "null"

  pub joined : Elements → Text
  joined no_element = []
  joined (element value rest) = item_of value ++ more rest

  -- An element that is null is left out by `join`.
  pub item_of : Value → Text
  item_of (string s) = s
  item_of (array items) = joined items
  item_of (object fields) = codes "[object Object]"
  item_of (number n) = codes "number"
  item_of (boolean b) = codes "boolean"
  item_of null = []

  pub more : Elements → Text
  more no_element = []
  more (element value rest) = codes "," ++ item_of value ++ more rest

unfoldable pub join_commas : List Text → Text
join_commas [] = []
join_commas (x ∷ []) = x
join_commas (x ∷ y ∷ ys) = x ++ codes "," ++ join_commas (y ∷ ys)

unfoldable pub sorted_keys : Entries → Text
sorted_keys fields = join_commas (sort_texts (keys_of fields))

-- The error of the code, which has one text for all failures.
pub data RegistryError : Type 0 where
  domain_error other_error : RegistryError

abbrev pub project_id_of : Option Value → Option ProjectId
project_id_of none = none
project_id_of (some (string s)) = if is_uuid s then some (text_id s) else none
project_id_of (some v) = if is_uuid (string_of v) then some (coerced_id v) else none

abbrev pub plain_text : Option Value → Option Text
plain_text (some (string s)) = some s
plain_text _ = none

unfoldable pub digest_of : Option Value → Option Text
digest_of value = elim (plain_text value) [
  | none ↦ none
  | some s ↦ if is_base64url_digest s then some s else none
]

unfoldable pub iso_of : Json → Option Value → Option Text
iso_of json value = elim (plain_text value) [
  | none ↦ none
  | some s ↦ if json.is_iso s then some s else none
]

-- `new Set(…).size === projects.length`: values that are no strings are different objects.
abbrev pub same_id : ProjectId → ProjectId → Bool
same_id (text_id a) (text_id b) = text_eq a b
same_id _ _ = false

unfoldable pub distinct_by {ℓ} : {A : Type ℓ} → (A → A → Bool) → List A → Bool
distinct_by same [] = true
distinct_by same (x ∷ xs) = not (any_where (same x) xs) && distinct_by same xs

abbrev pub same_entry_id : Entry → Entry → Bool
same_entry_id e f = same_id e.project_id f.project_id

abbrev pub same_entry_root : Entry → Entry → Bool
same_entry_root e f = text_eq e.root_digest f.root_digest

abbrev pub count_elements : Elements → ℕ
count_elements no_element = 0
count_elements (element value rest) = suc (count_elements rest)

module _ (json : Json) where
  unfoldable pub entry_of_value : Value → Result RegistryError Entry
  entry_of_value value = do
    fields ← some_or (record_of (some value)) domain_error
    guard
        (text_eq (sorted_keys fields)
          (codes "firstSeenAt,fsIdDigest,lastSeenAt,projectId,repoDigest,rootDigest"))
        domain_error
    id ← some_or (project_id_of (entry_of fields (codes "projectId"))) domain_error
    root ← some_or (digest_of (entry_of fields (codes "rootDigest"))) domain_error
    fs_id ← some_or (digest_of (entry_of fields (codes "fsIdDigest"))) domain_error
    repo ← some_or (digest_of (entry_of fields (codes "repoDigest"))) domain_error
    first ← some_or (iso_of json (entry_of fields (codes "firstSeenAt"))) domain_error
    last ← some_or (iso_of json (entry_of fields (codes "lastSeenAt"))) domain_error
    ok (record {
      project_id = id;
      root_digest = root;
      fs_id_digest = fs_id;
      repo_digest = repo;
      first_seen_at = first;
      last_seen_at = last;
    })

  unfoldable pub entries_of : Elements → Result RegistryError (List Entry)
  entries_of no_element = ok []
  entries_of (element value rest) = do
    first ← entry_of_value value
    others ← entries_of rest
    ok (first ∷ others)

  unfoldable pub parse_registry : Text → Result RegistryError Registry
  parse_registry content = do
    guard (leb (json.byte_length content) max_registry_bytes) domain_error
    value ← some_or (json.parse content) domain_error
    fields ← some_or (record_of (some value)) domain_error
    guard (text_eq (sorted_keys fields) (codes "projects,schema,version")) domain_error
    guard (is_text (entry_of fields (codes "schema")) (codes "mazzy.project-registry")) domain_error
    guard (is_version (entry_of fields (codes "version")) 1) domain_error
    items ← some_or (elements_of (entry_of fields (codes "projects"))) domain_error
    guard (leb (count_elements items) max_entries) domain_error
    projects ← entries_of items
    guard (distinct_by same_entry_id projects && distinct_by same_entry_root projects) domain_error
    ok (record { projects = projects })

  unfoldable pub parse_key : Text → Result RegistryError Key
  parse_key content = do
    guard (leb (json.byte_length content) 4096) domain_error
    value ← some_or (json.parse content) domain_error
    fields ← some_or (record_of (some value)) domain_error
    guard (text_eq (sorted_keys fields) (codes "salt,schema,version")) domain_error
    guard (is_text (entry_of fields (codes "schema")) (codes "mazzy.project-registry-key"))
        domain_error
    guard (is_version (entry_of fields (codes "version")) 1) domain_error
    salt ← some_or (digest_of (entry_of fields (codes "salt"))) domain_error
    ok (record { salt = salt })

-- The values that `JSON.stringify` prints of an entry and of a registry.
abbrev pub id_value : ProjectId → Value
id_value (text_id s) = string s
id_value (coerced_id v) = v

abbrev pub entry_value : Entry → Value
entry_value e = object (
    entry (codes "projectId") (id_value e.project_id) (
      entry (codes "rootDigest") (string e.root_digest) (
        entry (codes "fsIdDigest") (string e.fs_id_digest) (
          entry (codes "repoDigest") (string e.repo_digest) (
            entry (codes "firstSeenAt") (string e.first_seen_at)
              (entry (codes "lastSeenAt") (string e.last_seen_at) no_entry))))))

abbrev pub entry_values : List Entry → Elements
entry_values [] = no_element
entry_values (e ∷ es) = element (entry_value e) (entry_values es)

abbrev pub registry_value : Registry → Value
registry_value r = object (
    entry (codes "schema") (string (codes "mazzy.project-registry")) (
      entry (codes "version") (number (whole (pos 1)))
        (entry (codes "projects") (array (entry_values r.projects)) no_entry)))
