-- ===== src/Registry/Enroll.antt =====
-- `assertProjectRegistration` and `enrollProjectRegistration` of src/project-registry.ts. The disk
-- has the registry's files as the calls show them, and what a call of the host returns is a field of
-- `Host`. An error carries the disk at which it was thrown.
pub mod Matched
pub mod Answered
pub mod Asserted
use mazzy_command_center.Registry.{
  coerced_id, Entry, text_id, Registry, Key, Checkout, Current, RegistryAssertionStatus, matched,
  unregistered, moved, duplicate_project_id, duplicate_canonical_root, registry_invalid,
  registry_key_missing, registry_busy, registry_unavailable, registry_capacity,
  ProjectRegistrationAssertion, only_status, max_registry_bytes, max_entries, has_id, has_root,
  current, classify,
}
use mazzy_command_center.Registry.Parse.{
  Json, RegistryError, domain_error, other_error, parse_registry, parse_key,
}
use mazzy_command_center.Registry.Files.{
  DirectoryState, opened, absent, invalid, unavailable, DirectorySeen, safe_directory, FileSeen,
  read_private, LockRound, LockState, locked, busy, lock_invalid, lock_unavailable, acquire,
}
use mazzy_command_center.Prelude.{
  ℕ, Bool, true, false, List, [], ◌∷◌, ◌++◌, Option, none, some, ◌&&◌, ◌||◌, not, leb,
  if◌then◌else◌, Text, text_eq, Result, ok, err, ◌>>=◌, ◌>>◌, guard, some_or, find, any_where,
  all_where, length, is_some,
}

pub record Disk : Type 0 where
  pub registry : FileSeen
  pub key : FileSeen
  pub backup : FileSeen

pub record Host : Type 0 where
  pub linux : Bool
  pub located : Bool
  pub checkout : Option Checkout
  pub getuid : Option ℕ
  pub directory : DirectorySeen
  pub until : ℕ
  pub rounds : List LockRound
  pub json : Json
  pub digest : Text → Text → Text
  pub serialise : Registry → Text
  pub serialise_key : Key → Text
  pub fresh_salt : Text
  pub now : Text
  pub created : Text → FileSeen
  pub writes_key : Bool
  pub writes_backup : Bool
  pub writes_registry : Bool

pub record Fault : Type 0 where
  pub error : RegistryError
  pub disk : Disk

abbrev pub at_disk {ℓ} : {A : Type ℓ} → Disk → Result RegistryError A → Result Fault A
at_disk d (ok a) = ok a
at_disk d (err e) = err (record { error = e; disk = d })

abbrev pub fail_at {ℓ} : {A : Type ℓ} → Disk → RegistryError → Result Fault A
fail_at d e = err (record { error = e; disk = d })

-- The answer to an error that was thrown.
abbrev pub status_of_error : RegistryError → RegistryAssertionStatus
status_of_error domain_error = registry_invalid
status_of_error other_error = registry_unavailable

abbrev pub parse_optional {ℓ} :
    {A : Type ℓ} → (Text → Result RegistryError A) → Option Text → Result RegistryError (Option A)
parse_optional parse none = ok none
parse_optional parse (some s) = parse s >>= λ a. ok (some a)

-- The two files of `readState`, parsed.
unfoldable pub read_state : Host → Disk → Result RegistryError (Option Registry × Option Key)
read_state host d = do
  raw ← read_private host.getuid d.registry
  raw_key ← read_private host.getuid d.key
  registry ← parse_optional (parse_registry host.json) raw
  key ← parse_optional (parse_key host.json) raw_key
  ok (registry, key)

abbrev pub directory_assertion : DirectoryState → RegistryAssertionStatus
directory_assertion invalid = registry_invalid
directory_assertion absent = unregistered
directory_assertion opened = registry_unavailable
directory_assertion unavailable = registry_unavailable

unfoldable pub assert_state : Host → Option Registry × Option Key → ProjectRegistrationAssertion
assert_state host (none, key) = only_status unregistered
assert_state host (some registry, none) = only_status registry_key_missing
assert_state host (some registry, some key) = elim host.checkout [
  | none ↦ only_status unregistered
  | some value ↦ classify registry (current host.digest value key.salt)
]

unfoldable pub assert_opened : Host → Disk → ProjectRegistrationAssertion
assert_opened host d = elim (read_state host d) [
  | err e ↦ only_status (status_of_error e)
  | ok state ↦ assert_state host state
]

unfoldable pub assert_project_registration : Host → Disk → ProjectRegistrationAssertion
assert_project_registration host d =
    if not host.linux || not host.located
    then only_status registry_unavailable
    else elim (safe_directory host.getuid false host.directory) [
      | opened ↦ assert_opened host d
      | invalid ↦ only_status (directory_assertion invalid)
      | absent ↦ only_status (directory_assertion absent)
      | unavailable ↦ only_status (directory_assertion unavailable)
    ]

unfoldable pub has_capacity : Host → Registry → Bool
has_capacity host registry =
    leb (length registry.projects) max_entries
    && leb (host.json.byte_length (host.serialise registry)) max_registry_bytes

-- `writePrivate`: the file is replaced whole, or an error leaves it.
abbrev pub write_file : Bool → Disk → Disk → Result Fault Disk
write_file writes before after = if writes then ok after else fail_at before other_error

-- The backup of the old text, if there is one, and then the registry.
unfoldable pub persist : Host → Disk → Option Text → Registry → Result Fault Disk
persist host d previous next = do
  kept ← elim previous [
    | none ↦ ok d
    | some raw ↦ write_file host.writes_backup d (record d { backup = host.created raw })
  ]
  write_file host.writes_registry kept
      (record kept { registry = host.created (host.serialise next) })

-- The first entry with the id is brought up to date.
unfoldable pub refresh : Current → Text → List Entry → List Entry
refresh value now [] = []
refresh value now (e ∷ es) =
    let rest = refresh value now es in
    if has_id value.id e
    then record e {
      root_digest = value.root_digest;
      fs_id_digest = value.fs_id_digest;
      repo_digest = value.repo_digest;
      last_seen_at = now;
    }
      ∷ es
    else e ∷ rest

abbrev pub new_entry : Current → Text → Entry
new_entry value now = record {
  project_id = text_id value.id;
  root_digest = value.root_digest;
  fs_id_digest = value.fs_id_digest;
  repo_digest = value.repo_digest;
  first_seen_at = now;
  last_seen_at = now;
}

unfoldable pub upsert : Current → Text → Registry → Registry
upsert value now registry = record {
  projects =
      if is_some (find (has_id value.id) registry.projects)
      then refresh value now registry.projects
      else registry.projects ++ new_entry value now ∷ [];
}

-- The entry has the id and the root.
abbrev pub is_bound : Text → Text → Entry → Bool
is_bound id root e = has_id id e && has_root root e

-- The other entry of the old registry is still bound to its root.
abbrev pub is_retained : List Entry → Entry → Bool
is_retained verified e = elim e.project_id [
  | text_id id ↦ any_where (is_bound id e.root_digest) verified
  | coerced_id v ↦ false
]

unfoldable pub is_verified : Current → List Entry → List Entry → Bool
is_verified value previous verified =
    any_where (is_bound value.id value.root_digest) verified
    && all_where (λ (e : Entry). has_id value.id e || is_retained verified e) previous

abbrev pub is_duplicate : RegistryAssertionStatus → Bool
is_duplicate duplicate_project_id = true
is_duplicate duplicate_canonical_root = true
is_duplicate _ = false

abbrev pub empty_registry : Registry
empty_registry = record { projects = [] }

abbrev pub or_empty : Option Registry → Registry
or_empty none = empty_registry
or_empty (some registry) = registry

-- The end: the registry is written, read back and compared.
unfoldable pub publish :
    Host
    → Disk
    → Option Text
    → Registry
    → Current
    → Result Fault (ProjectRegistrationAssertion × Disk)
publish host d raw registry value = do
  written ← persist host d raw (upsert value host.now registry)
  read ← at_disk written (read_private host.getuid written.registry)
  content ← at_disk written (some_or read other_error)
  verified ← at_disk written (parse_registry host.json content)
  at_disk written (guard (is_verified value registry.projects verified.projects) domain_error)
  ok (classify verified value, written)

unfoldable pub enroll_parsed :
    Host
    → Disk
    → Option Text
    → Registry
    → Current
    → Result Fault (ProjectRegistrationAssertion × Disk)
enroll_parsed host d raw registry value =
    if is_duplicate (classify registry value).status
    then ok (classify registry value, d)
    else if not (host.json.is_iso host.now)
    then fail_at d domain_error
    else if not (has_capacity host (upsert value host.now registry))
    then ok (only_status registry_capacity, d)
    else publish host d raw registry value

unfoldable pub enroll_with_key :
    Host → Disk → Option Text → Checkout → Key → Result Fault (ProjectRegistrationAssertion × Disk)
enroll_with_key host d raw value key = do
  previous ← at_disk d (parse_optional (parse_registry host.json) raw)
  enroll_parsed host d raw (or_empty previous) (current host.digest value key.salt)

-- The key of the registry: a new one is written where there is none.
unfoldable pub key_for : Host → Disk → Option Text → Result Fault (Key × Disk)
key_for host d none =
    let key : Key = record { salt = host.fresh_salt } in
    write_file host.writes_key d (record d { key = host.created (host.serialise_key key) })
    >>= λ written. ok (key, written)
key_for host d (some raw) = at_disk d (parse_key host.json raw) >>= λ key. ok (key, d)

-- A registry without its key.
abbrev pub lost_key : Option Text → Option Text → Option Text
lost_key (some raw) none = some raw
lost_key _ _ = none

unfoldable pub enroll_locked :
    Host → Disk → Checkout → Result Fault (ProjectRegistrationAssertion × Disk)
enroll_locked host d value = do
  raw ← at_disk d (read_private host.getuid d.registry)
  raw_key ← at_disk d (read_private host.getuid d.key)
  elim (lost_key raw raw_key) [
    | some text ↦
        at_disk d (parse_registry host.json text) >>= λ _. ok (only_status registry_key_missing, d)
    | none ↦ key_for host d raw_key >>= λ keyed. enroll_with_key host keyed.1 raw value keyed.0
  ]

-- The `catch`.
abbrev pub answered :
    Result Fault (ProjectRegistrationAssertion × Disk) → ProjectRegistrationAssertion × Disk
answered (ok r) = r
answered (err fault) = (only_status (status_of_error fault.error), fault.disk)

unfoldable pub enroll_opened : Host → Disk → Checkout → ProjectRegistrationAssertion × Disk
enroll_opened host d value = elim (acquire host.getuid host.until host.rounds) [
  | locked ↦ answered (enroll_locked host d value)
  | busy ↦ (only_status registry_busy, d)
  | lock_invalid ↦ (only_status registry_invalid, d)
  | lock_unavailable ↦ (only_status registry_unavailable, d)
]

abbrev pub located_checkout : Host → Option Checkout
located_checkout host = if host.linux && host.located then host.checkout else none

unfoldable pub enroll_located : Host → Disk → Option Checkout → ProjectRegistrationAssertion × Disk
enroll_located host d none = (only_status registry_unavailable, d)
enroll_located host d (some value) = elim (safe_directory host.getuid true host.directory) [
  | opened ↦ enroll_opened host d value
  | invalid ↦ (only_status registry_invalid, d)
  | absent ↦ (only_status registry_unavailable, d)
  | unavailable ↦ (only_status registry_unavailable, d)
]

unfoldable pub enroll_project_registration : Host → Disk → ProjectRegistrationAssertion × Disk
enroll_project_registration host d = enroll_located host d (located_checkout host)
