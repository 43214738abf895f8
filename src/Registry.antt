-- ===== src/Registry.antt =====
-- src/project-registry.ts: the registry that tells a project from its copies. This file has the
-- records, the patterns of their texts, and the classification of a checkout.
pub mod Parse
pub mod Files
pub mod Enroll
pub mod Forget
mod Tests
use mazzy_command_center.Routing.Policy.{Value}
use mazzy_command_center.Prelude.{
  ℕ, zero, suc, Bool, true, false, List, [], ◌∷◌, Option, none, some, ◌&&◌, ◌||◌, not, leb, ◌==◌,
  if◌then◌else◌, Text, codes, text_eq, find, any_where, all_where, length,
}

-- The project id of an entry. The code tests `String(entry.projectId)`, so a value that is no string
-- can pass, and such a value equals no other.
pub data ProjectId : Type 0 where
  text_id : Text → ProjectId
  coerced_id : Value → ProjectId

pub record Entry : Type 0 where
  pub project_id : ProjectId
  pub root_digest : Text
  pub fs_id_digest : Text
  pub repo_digest : Text
  pub first_seen_at : Text
  pub last_seen_at : Text

pub record Registry : Type 0 where
  pub projects : List Entry

pub record Key : Type 0 where
  pub salt : Text

pub record Checkout : Type 0 where
  pub id : Text
  pub root : Text
  pub fs_id : Text
  pub repo_id : Text
  pub ignored : Bool

pub record Current : Type 0 where
  pub id : Text
  pub root_digest : Text
  pub fs_id_digest : Text
  pub repo_digest : Text
  pub ignored : Bool

pub data RegistryAssertionStatus : Type 0 where
  matched unregistered moved duplicate_project_id duplicate_canonical_root : RegistryAssertionStatus
  registry_invalid registry_key_missing registry_busy registry_unavailable : RegistryAssertionStatus
  registry_capacity : RegistryAssertionStatus

pub record Advisory : Type 0 where
  pub same_repository : Bool
  pub identity_ignored : Bool

pub record ProjectRegistrationAssertion : Type 0 where
  pub status : RegistryAssertionStatus
  pub registered_at : Option Text
  pub advisory : Option Advisory

abbrev pub only_status : RegistryAssertionStatus → ProjectRegistrationAssertion
only_status status = record { status = status; registered_at = none; advisory = none }

abbrev pub max_registry_bytes : ℕ
max_registry_bytes = 1048576

abbrev pub max_entries : ℕ
max_entries = 10_000

-- A pattern of the form `^[…]…$`: one test for each code unit.
unfoldable pub fits : List (ℕ → Bool) → Text → Bool
fits [] [] = true
fits [] (c ∷ s) = false
fits (p ∷ ps) [] = false
fits (p ∷ ps) (c ∷ s) = p c && fits ps s

abbrev pub between : ℕ → ℕ → ℕ → Bool
between low high c = leb low c && leb c high

abbrev pub is_hex_unit : ℕ → Bool
is_hex_unit c = between 48 57 c || between 97 102 c || between 65 70 c

abbrev pub is_variant_unit : ℕ → Bool
is_variant_unit c = (c == 56) || (c == 57) || (c == 97) || (c == 98) || (c == 65) || (c == 66)

abbrev pub is_base64url_unit : ℕ → Bool
is_base64url_unit c =
    between 65 90 c || between 97 122 c || between 48 57 c || (c == 95) || (c == 45)

unfoldable pub times : ℕ → (ℕ → Bool) → List (ℕ → Bool) → List (ℕ → Bool)
times zero p rest = rest
times (suc n) p rest = p ∷ times n p rest

abbrev pub is_dash : ℕ → Bool
is_dash c = c == 45

abbrev pub is_four : ℕ → Bool
is_four c = c == 52

abbrev pub uuid_pattern : List (ℕ → Bool)
uuid_pattern = times 8 is_hex_unit (
    is_dash
    ∷ times 4 is_hex_unit (
        is_dash
        ∷ is_four
        ∷ times 3 is_hex_unit
            (is_dash ∷ is_variant_unit ∷ times 3 is_hex_unit (is_dash ∷ times 12 is_hex_unit []))))

unfoldable pub is_uuid : Text → Bool
is_uuid s = fits uuid_pattern s

unfoldable pub is_base64url_digest : Text → Bool
is_base64url_digest s = fits (times 43 is_base64url_unit []) s

-- `entry.projectId === id`
abbrev pub is_id : ProjectId → Text → Bool
is_id (text_id s) id = text_eq s id
is_id (coerced_id v) id = false

abbrev pub has_id : Text → Entry → Bool
has_id id e = is_id e.project_id id

abbrev pub has_root : Text → Entry → Bool
has_root digest e = text_eq e.root_digest digest

unfoldable pub shares_repository : Current → Entry → Bool
shares_repository value e = not (has_id value.id e) && text_eq e.repo_digest value.repo_digest

unfoldable pub current : (Text → Text → Text) → Checkout → Text → Current
current digest value salt = record {
  id = value.id;
  root_digest = digest salt value.root;
  fs_id_digest = digest salt value.fs_id;
  repo_digest = digest salt value.repo_id;
  ignored = value.ignored;
}

-- The answer for the entry that has the id, if there is one.
unfoldable pub classify_entry : Current → Advisory → Option Entry → ProjectRegistrationAssertion
classify_entry value advisory none = record {
  status = unregistered;
  registered_at = none;
  advisory = some advisory;
}
classify_entry value advisory (some e) = record {
  status =
      if text_eq e.root_digest value.root_digest
      then matched
      else if text_eq e.fs_id_digest value.fs_id_digest
      then moved
      else duplicate_project_id;
  registered_at = some e.first_seen_at;
  advisory = some advisory;
}

-- `byRoot && byRoot.projectId !== value.id`
abbrev pub belongs_to_other : Text → Option Entry → Bool
belongs_to_other id none = false
belongs_to_other id (some e) = not (has_id id e)

unfoldable pub classify : Registry → Current → ProjectRegistrationAssertion
classify registry value =
    let advisory : Advisory = record {
      same_repository = any_where (shares_repository value) registry.projects;
      identity_ignored = value.ignored;
    } in
    if belongs_to_other value.id (find (has_root value.root_digest) registry.projects)
    then record {
      status = duplicate_canonical_root;
      registered_at = none;
      advisory = some advisory;
    }
    else classify_entry value advisory (find (has_id value.id) registry.projects)
