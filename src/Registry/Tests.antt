-- ===== src/Registry/Tests.antt =====
-- A registry of src/project-registry.ts with one project, enrolled, read and forgotten, and the
-- theorems applied to it.
use mazzy_command_center.Storage.Policy.{text_leb, insert_text, sort_texts}
use mazzy_command_center.Registry.Files.Stale.{clear_stale_project_registry_lock-IsStale, IsStale}
use mazzy_command_center.Registry.Parse.Roundtrip.{parse_registry-again}
use mazzy_command_center.Registry.Enroll.Asserted.{IsReadBack, assert-enroll_project_registration}
use mazzy_command_center.Registry.Forget.{
  forget_parsed, forget_read, forget_locked, forget_opened, forget_project_registration,
}
use mazzy_command_center.Registry.Forget.Removed.{
  forget_project_registration-IsForgotten, IsForgotten,
}
use mazzy_command_center.Registry.Enroll.Answered.{
  enroll_project_registration-IsAnswered, Enrolled, is_refusal,
}
use mazzy_command_center.Prelude.Int.{pos}
use mazzy_command_center.Routing.{whole}
use mazzy_command_center.Graph.{number}
use mazzy_command_center.Routing.Policy.{no_entry, number, string, entry, object, Value}
use mazzy_command_center.Registry.{
  shares_repository, classify_entry, is_base64url_digest, times, current,
  ProjectRegistrationAssertion, fits, is_uuid, Checkout, classify, matched, registry_unavailable,
  text_id, Registry, Entry,
}
use mazzy_command_center.Registry.Files.{
  cleared, same_lock, second_look, first_look, clear_stale_project_registry_lock, StaleHost, opened,
  read_private, read_opened, lock_round, acquire, is_private, open_directory, visit_part, created,
  visit_parts, made, safe_directory, no_entry_there, found_at, Stats, FileSeen,
}
use mazzy_command_center.Registry.Enroll.{
  is_verified, publish, persist, upsert, has_capacity, assert_project_registration, enroll_parsed,
  enroll_with_key, key_for, enroll_locked, enroll_opened, enroll_located, Disk, Host,
  enroll_project_registration,
}
use mazzy_command_center.Registry.Parse.{
  distinct_by, iso_of, entry_of_value, digest_of, entries_of, join_commas, sorted_keys, parse_key,
  parse_registry, registry_value, Json,
}
use mazzy_command_center.Prelude.{
  all_where, find, filter_where, any_where, arith, ap, ◌≤◌, ℕ, Bool, true, false, [], ◌∷◌, none,
  some, ◌≡◌, ◌⊎◌, refl, ok, Text, codes, text_eq, if◌then◌else◌,
}

abbrev digest_text : ℕ → Text
digest_text c = c ∷ codes "AAAAAAAAAAAAAAAAAAAAAAAAAAAAAAAAAAAAAAAAAA"

abbrev id_text : Text
id_text = codes "11111111-1111-4111-8111-111111111111"

abbrev entry_of_now : Entry
entry_of_now = record {
  project_id = text_id id_text;
  root_digest = digest_text 65;
  fs_id_digest = digest_text 66;
  repo_digest = digest_text 67;
  first_seen_at = codes "now";
  last_seen_at = codes "now";
}

abbrev one_project : Registry
one_project = record { projects = entry_of_now ∷ [] }

abbrev salt_text : Text
salt_text = digest_text 83

abbrev key_value : Value
key_value = object (
    entry (codes "schema") (string (codes "mazzy.project-registry-key")) (
      entry (codes "version") (number (whole (pos 1)))
        (entry (codes "salt") (string salt_text) no_entry)))

abbrev json : Json
json = record {
  byte_length = λ _. 100;
  parse = λ s.
      if text_eq s (codes "R")
      then some (registry_value one_project)
      else if text_eq s (codes "K")
      then some key_value
      else none;
  is_iso = λ s. text_eq s (codes "now");
}

abbrev stats : Bool → Stats
stats file = record {
  is_file = file;
  is_directory = if file then false else true;
  is_link = false;
  nlink = 1;
  mode = 384;
  uid = 7;
  size = 10;
  ino = 1;
  mtime_ms = 1000;
}

abbrev no_file : FileSeen
no_file = record { lstat = no_entry_there; descriptor = no_entry_there; content = none }

abbrev file_of : Text → FileSeen
file_of s = record {
  lstat = found_at (stats true);
  descriptor = found_at (stats true);
  content = some s;
}

abbrev empty_disk : Disk
empty_disk = record { registry = no_file; key = no_file; backup = no_file }

abbrev host : Host
host = record {
  linux = true;
  located = true;
  checkout = some (record {
    id = id_text;
    root = codes "root";
    fs_id = codes "fs";
    repo_id = codes "repo";
    ignored = false;
  });
  getuid = some 7;
  directory = record {
    parts = record { lstat = found_at (stats false); stat = no_entry_there; mkdir = made } ∷ [];
    lstat = found_at (stats false);
    descriptor = some (stats false);
    chmod = true;
  };
  until = 100;
  rounds = record { now = 5; open_lock = created; lstat = no_entry_there } ∷ [];
  json = json;
  digest = λ salt s.
      if text_eq s (codes "root")
      then digest_text 65
      else if text_eq s (codes "fs")
      then digest_text 66
      else digest_text 67;
  serialise = λ r. codes "R";
  serialise_key = λ k. codes "K";
  fresh_salt = salt_text;
  now = codes "now";
  created = file_of;
  writes_key = true;
  writes_backup = true;
  writes_registry = true;
}

abbrev full_disk : Disk
full_disk = record { registry = file_of (codes "R"); key = file_of (codes "K"); backup = no_file }

enroll_runs : enroll_project_registration host empty_disk ≡ (
  record {
    status = matched;
    registered_at = some (codes "now");
    advisory = some (record { same_repository = false; identity_ignored = false });
  },
  full_disk,
)
unfolding enroll_project_registration enroll_located safe_directory visit_parts visit_part
    open_directory is_private enroll_opened acquire lock_round enroll_locked read_private
    read_opened key_for enroll_with_key enroll_parsed classify classify_entry current has_capacity
    upsert persist publish parse_registry is_verified find any_where all_where text_eq sorted_keys
    join_commas sort_texts insert_text text_leb entries_of entry_of_value is_uuid fits times
    digest_of is_base64url_digest iso_of distinct_by shares_repository
enroll_runs = refl

enroll_project_registration-IsAnswered_example :
    let r = enroll_project_registration host empty_disk in
    (is_refusal r.0.status ≡ true)
    ⊎ ((r.0.status ≡ matched)
        × ((value : Checkout) × (host.checkout ≡ some value) × Enrolled host empty_disk value r.1))
enroll_project_registration-IsAnswered_example =
    enroll_project_registration-IsAnswered host empty_disk

opens_again : safe_directory host.getuid false host.directory ≡ opened
unfolding safe_directory open_directory is_private
opens_again = refl

key-IsReadBack : IsReadBack host (record { salt = host.fresh_salt })
unfolding read_private read_opened is_private parse_key sorted_keys join_commas sort_texts
    insert_text text_leb text_eq digest_of is_base64url_digest fits times
key-IsReadBack = record { content = codes "K"; reads = refl; parses = refl }

enroll_matches : (enroll_project_registration host empty_disk).0.status ≡ matched
enroll_matches = ap (λ (r : ProjectRegistrationAssertion × Disk). r.0.status) enroll_runs

assert-enroll_project_registration_example :
    (assert_project_registration host (enroll_project_registration host empty_disk).1).status
    ≡ matched
assert-enroll_project_registration_example =
    assert-enroll_project_registration host empty_disk opens_again key-IsReadBack enroll_matches

registry_is_read : parse_registry json (codes "R") ≡ ok one_project
unfolding parse_registry sorted_keys join_commas sort_texts insert_text text_leb text_eq entries_of
    entry_of_value digest_of iso_of is_uuid is_base64url_digest fits times distinct_by any_where
registry_is_read = refl

prints_again : json.parse (codes "R") ≡ some (registry_value one_project)
unfolding text_eq
prints_again = refl

parse_registry-again_example : parse_registry json (codes "R") ≡ ok one_project
parse_registry-again_example =
    parse_registry-again json (codes "R") (codes "R") one_project registry_is_read prints_again
      (omega arith)

forget_runs :
    forget_project_registration host full_disk id_text
    ≡ ok (true, record full_disk { backup = file_of (codes "R") })
unfolding forget_project_registration is_uuid fits times safe_directory open_directory is_private
    forget_opened acquire lock_round forget_locked read_private read_opened forget_read parse_key
    parse_registry sorted_keys join_commas sort_texts insert_text text_leb text_eq entries_of
    entry_of_value digest_of iso_of is_base64url_digest distinct_by any_where forget_parsed
    has_capacity persist filter_where
forget_runs = refl

forget_project_registration-IsForgotten_example :
    IsForgotten host full_disk id_text (true, record full_disk { backup = file_of (codes "R") })
forget_project_registration-IsForgotten_example =
    forget_project_registration-IsForgotten host full_disk id_text
      (true, record full_disk { backup = file_of (codes "R") }) forget_runs

abbrev stale_host : StaleHost
stale_host = record {
  linux = true;
  getuid = some 7;
  directory = some host.directory;
  before = found_at (stats true);
  now = 200_000;
  after = found_at (stats true);
  unlinks = true;
}

stale_runs : clear_stale_project_registry_lock stale_host 120_000 ≡ cleared
unfolding clear_stale_project_registry_lock safe_directory open_directory is_private first_look
    second_look same_lock
stale_runs = refl

clear_stale_project_registry_lock-IsStale_example : (1 ≤ 120_000) × IsStale stale_host 120_000
clear_stale_project_registry_lock-IsStale_example =
    clear_stale_project_registry_lock-IsStale stale_host 120_000 stale_runs

refuses_no_linux :
    (enroll_project_registration (record host { linux = false }) empty_disk).0.status
    ≡ registry_unavailable
unfolding enroll_project_registration enroll_located
refuses_no_linux = refl
