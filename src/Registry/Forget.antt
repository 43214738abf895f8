-- ===== src/Registry/Forget.antt =====
-- `forgetProjectRegistration` of src/project-registry.ts, on the disk and the host of an enrolment.
pub mod Removed
use mazzy_command_center.Registry.{Registry, has_id, is_uuid}
use mazzy_command_center.Registry.Parse.{domain_error, parse_registry, parse_key}
use mazzy_command_center.Registry.Files.{
  opened, absent, invalid, unavailable, safe_directory, read_private, locked, busy, lock_invalid,
  lock_unavailable, acquire,
}
use mazzy_command_center.Registry.Enroll.{
  Disk, Host, Fault, at_disk, fail_at, has_capacity, persist,
}
use mazzy_command_center.Prelude.{
  Bool, true, false, Option, none, some, not, ◌==◌, if◌then◌else◌, Text, is_empty, Result, ok, err,
  ◌>>=◌, ◌>>◌, guard, filter_where, length,
}

-- `!raw || !rawKey`
abbrev pub both_texts : Option Text → Option Text → Option (Text × Text)
both_texts (some raw) (some key) =
    if is_empty raw then none else if is_empty key then none else some (raw, key)
both_texts _ _ = none

abbrev pub without : Text → Registry → Registry
without id registry = record { projects = filter_where (λ e. not (has_id id e)) registry.projects }

-- Whether an entry was removed, and the disk.
unfoldable pub forget_parsed : Host → Disk → Text → Text → Registry → Result Fault (Bool × Disk)
forget_parsed host d raw id registry =
    if length (without id registry).projects == length registry.projects
    then ok (false, d)
    else if not (has_capacity host (without id registry))
    then fail_at d domain_error
    else (persist host d (some raw) (without id registry) >>= λ written. ok (true, written))

unfoldable pub forget_read : Host → Disk → Text → Option (Text × Text) → Result Fault (Bool × Disk)
forget_read host d id none = ok (false, d)
forget_read host d id (some (raw, raw_key)) = do
  at_disk d (parse_key host.json raw_key >>= λ _. ok tt)
  registry ← at_disk d (parse_registry host.json raw)
  forget_parsed host d raw id registry

unfoldable pub forget_locked : Host → Disk → Text → Result Fault (Bool × Disk)
forget_locked host d id = do
  raw ← at_disk d (read_private host.getuid d.registry)
  raw_key ← at_disk d (read_private host.getuid d.key)
  forget_read host d id (both_texts raw raw_key)

-- Every error in the `try` is the same one.
abbrev pub same_error : Result Fault (Bool × Disk) → Result Fault (Bool × Disk)
same_error (ok r) = ok r
same_error (err fault) = fail_at fault.disk domain_error

unfoldable pub forget_opened : Host → Disk → Text → Result Fault (Bool × Disk)
forget_opened host d id = elim (acquire host.getuid host.until host.rounds) [
  | locked ↦ same_error (forget_locked host d id)
  | busy ↦ ok (false, d)
  | lock_invalid ↦ fail_at d domain_error
  | lock_unavailable ↦ fail_at d domain_error
]

unfoldable pub forget_project_registration : Host → Disk → Text → Result Fault (Bool × Disk)
forget_project_registration host d id =
    if not (is_uuid id)
    then fail_at d domain_error
    else if not host.linux
    then ok (false, d)
    else if not host.located
    then ok (false, d)
    else elim (safe_directory host.getuid false host.directory) [
      | opened ↦ forget_opened host d id
      | absent ↦ ok (false, d)
      | unavailable ↦ ok (false, d)
      | invalid ↦ fail_at d domain_error
    ]

-- `forgetCurrentProjectRegistration`: the id of the checkout's identity, and no error.
unfoldable pub forget_current_project_registration : Host → Disk → Option Text → Bool × Disk
forget_current_project_registration host d none = (false, d)
forget_current_project_registration host d (some id) =
    elim (forget_project_registration host d id) [ ok r ↦ r | err fault ↦ (false, fault.disk) ]
