-- ===== src/Registry/Enroll/Asserted.antt =====
-- A project that src/project-registry.ts has enrolled is then asserted to match.
use mazzy_command_center.Registry.Parse.Unique.{parse_registry-IsUnique}
use mathlib.Core.Path.{subst}
use mazzy_command_center.Registry.Parse.{parse_key, parse_registry}
use mazzy_command_center.Registry.Files.{opened, safe_directory, read_private}
use mazzy_command_center.Registry.Enroll.Answered.{
  enroll_project_registration-IsAnswered, is_refusal, Enrolled,
}
use mazzy_command_center.Registry.Enroll.Matched.{new_key, old_key, classify-matched, UsesKey}
use mazzy_command_center.Registry.{
  ProjectRegistrationAssertion, RegistryAssertionStatus, current, matched, Checkout, Registry, Key,
}
use mazzy_command_center.Registry.Enroll.{
  enroll_located, enroll_project_registration, opened, assert_project_registration, safe_directory,
  parse_registry, parse_key, read_private, assert_state, Disk, Key, read_state, Host, assert_opened,
}
use mazzy_command_center.Prelude.{
  Text, Bool, true, false, some, ◌≡◌, ◌∙◌, inl, inr, refl, sym, ap, arith, ◌&&◌, ◌||◌, not, ok,
  Bool-cases,
}

-- What the file of a new key holds is read and parsed as that key.
pub record IsReadBack (host : Host) (key : Key) : Type 0 where
  pub content : Text
  pub reads : read_private host.getuid (host.created (host.serialise_key key)) ≡ ok (some content)
  pub parses : parse_key host.json content ≡ ok key

-- The key on the disk.
UsesKey-holds :
    (host : Host) (before after : Disk) (key : Key)
    → IsReadBack host (record { salt = host.fresh_salt })
    → UsesKey host before after key
    → (content : Text) × (read_private host.getuid after.key ≡ ok (some content))
      × (parse_key host.json content ≡ ok key)
UsesKey-holds host before after key back (old_key {raw} reads parses stays) =
    (raw, ap (read_private host.getuid) stays ∙ reads, parses)
UsesKey-holds host before after key back (new_key reads fresh stored) =
    subst
      (λ k.
        after.key ≡ host.created (host.serialise_key k)
        → (content : Text) × (read_private host.getuid after.key ≡ ok (some content))
          × (parse_key host.json content ≡ ok k))
      (sym fresh) (λ e. (back.content, ap (read_private host.getuid) e ∙ back.reads, back.parses))
      stored

read_state-ok :
    (host : Host) (d : Disk) (registry : Registry) (key : Key) (content key_content : Text)
    → read_private host.getuid d.registry ≡ ok (some content)
    → parse_registry host.json content ≡ ok registry
    → read_private host.getuid d.key ≡ ok (some key_content)
    → parse_key host.json key_content ≡ ok key
    → read_state host d ≡ ok (some registry, some key)
unfolding read_state
read_state-ok host d registry key content key_content a b c e = rw (a, c, b, e) refl

assert_opened-matched :
    (host : Host) (before after : Disk) (value : Checkout)
    → host.checkout ≡ some value
    → IsReadBack host (record { salt = host.fresh_salt })
    → Enrolled host before value after
    → (assert_opened host after).status ≡ matched
unfolding assert_opened assert_state
assert_opened-matched host before after value there back e =
    let (key_content, reads_key, parses_key) =
      UsesKey-holds host before after e.key back e.uses_key in
    let (content, reads, parses) = e.enrolled.holds in
    let state =
      read_state-ok host after e.enrolled.registry e.key content key_content reads parses reads_key
        parses_key in
    rw (assert_opened, state, assert_state, there)
      (classify-matched e.enrolled.registry (current host.digest value e.key.salt)
        (parse_registry-IsUnique host.json content e.enrolled.registry parses) e.enrolled.bound)

both_true : (a b : Bool) → (a && b) ≡ true → (not a || not b) ≡ false
both_true a b h = ground arith

assert_project_registration-opened :
    (host : Host) (d : Disk)
    → (host.linux && host.located) ≡ true
    → safe_directory host.getuid false host.directory ≡ opened
    → assert_project_registration host d ≡ assert_opened host d
unfolding assert_project_registration
assert_project_registration-opened host d here open_again =
    rw (both_true host.linux host.located here, open_again) refl

not_both : {s : RegistryAssertionStatus} → s ≡ matched → is_refusal s ≡ true → ⊥
not_both e h = false_not_true (ap is_refusal (sym e) ∙ h)
  where
    false_not_true : false ≡ true → ⊥
    false_not_true c = cc

enroll_project_registration-elsewhere :
    (host : Host) (before : Disk)
    → (host.linux && host.located) ≡ false
    → is_refusal (enroll_project_registration host before).0.status ≡ true
unfolding enroll_project_registration enroll_located
enroll_project_registration-elsewhere host before h = rw h refl

-- When the registry's directory is still private and the file of a new key is read back as that
-- key, a project whose enrolment answers that it matches is then asserted to match.
pub assert-enroll_project_registration :
    (host : Host) (before : Disk)
    → safe_directory host.getuid false host.directory ≡ opened
    → IsReadBack host (record { salt = host.fresh_salt })
    → (enroll_project_registration host before).0.status ≡ matched
    → (assert_project_registration host (enroll_project_registration host before).1).status
      ≡ matched
assert-enroll_project_registration host before open_again back same =
    elim (enroll_project_registration-IsAnswered host before) [
      | inl refused ↦ absurd (not_both same refused)
      | inr (_, (value, there, enrolled)) ↦ elim (Bool-cases (host.linux && host.located)) [
        | inr elsewhere ↦
            absurd (not_both same (enroll_project_registration-elsewhere host before elsewhere))
        | inl here ↦
            ap (λ (a : ProjectRegistrationAssertion). a.status)
              (assert_project_registration-opened host _ here open_again)
            ∙ assert_opened-matched host before _ value there back enrolled
      ]
    ]
