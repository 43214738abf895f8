-- ===== src/Registry/Enroll/Answered.antt =====
-- An enrolment of src/project-registry.ts answers that the project matches, or refuses.
use mathlib.Core.Option.{none}
use mazzy_command_center.Registry.Files.{
  unavailable, lock_unavailable, absent, lock_invalid, busy, invalid, safe_directory, acquire,
  locked, opened, DirectoryState, read_private, LockState,
}
use mazzy_command_center.Registry.Enroll.Matched.{
  at_disk-ok, key_for-UsesKey, UsesKey-after, publish-IsEnrolled, IsEnrolled, UsesKey,
}
use mazzy_command_center.Registry.Parse.{other_error, parse_registry, domain_error, RegistryError}
use mazzy_command_center.Registry.{
  classify, registry_capacity, registry_unavailable, registry_busy, current, registry_key_missing,
  only_status, registry_invalid, Current, Registry, duplicate_canonical_root, moved,
  duplicate_project_id, ProjectRegistrationAssertion, Key, unregistered, Entry, matched, Checkout,
  RegistryAssertionStatus,
}
use mazzy_command_center.Registry.Enroll.{
  upsert, has_capacity, lost_key, acquire, safe_directory, key_for, or_empty, publish,
  parse_registry, parse_optional, at_disk, answered, DirectoryState, read_private, LockState,
  enroll_opened, located_checkout, enroll_locked, Fault, enroll_with_key, status_of_error,
  is_duplicate, enroll_parsed, enroll_located, Disk, enroll_project_registration, Host,
}
use mazzy_command_center.Prelude.{
  ◌&&◌, if◌then◌else◌, refl, Bool-cases, err, ◌>>=◌, inr, inl, Option-cases, ok, some, ◌⊎◌, Text,
  Result, ◌≡◌, List, Option, Bool, true, false,
}

-- The answers by which nothing is enrolled.
abbrev pub is_refusal : RegistryAssertionStatus → Bool
is_refusal matched = false
is_refusal unregistered = false
is_refusal moved = false
is_refusal duplicate_project_id = true
is_refusal duplicate_canonical_root = true
is_refusal registry_invalid = true
is_refusal registry_key_missing = true
is_refusal registry_busy = true
is_refusal registry_unavailable = true
is_refusal registry_capacity = true

-- The projects of the registry that was on the disk.
abbrev pub WasThere : Host → Disk → List Entry → Type 0
WasThere host d old =
    (raw : Option Text) × (previous : Option Registry) × (read_private host.getuid d.registry
      ≡ ok raw)
    × (parse_optional (parse_registry host.json) raw ≡ ok previous)
    × ((or_empty previous).projects ≡ old)

-- The project is enrolled, under the registry's key, beside the projects that were there.
pub record Enrolled (host : Host) (before : Disk) (value : Checkout) (after : Disk) : Type 0 where
  pub key : Key
  pub old : List Entry
  pub uses_key : UsesKey host before after key
  pub was_there : WasThere host before old
  pub enrolled : IsEnrolled host after (current host.digest value key.salt) old

-- The answer is a refusal, or the project is enrolled.
abbrev pub IsAnswered : Host → Disk → Checkout → ProjectRegistrationAssertion × Disk → Type 0
IsAnswered host before value r =
    (is_refusal r.0.status ≡ true) ⊎ ((r.0.status ≡ matched) × Enrolled host before value r.1)

duplicate-refused : (s : RegistryAssertionStatus) → is_duplicate s ≡ true → is_refusal s ≡ true
duplicate-refused duplicate_project_id h = refl
duplicate-refused duplicate_canonical_root h = refl
duplicate-refused matched h = cc
duplicate-refused unregistered h = cc
duplicate-refused moved h = cc
duplicate-refused registry_invalid h = cc
duplicate-refused registry_key_missing h = cc
duplicate-refused registry_busy h = cc
duplicate-refused registry_unavailable h = cc
duplicate-refused registry_capacity h = cc

error-refused : (e : RegistryError) → is_refusal (status_of_error e) ≡ true
error-refused domain_error = refl
error-refused other_error = refl

-- What a chain of the enrolment returns: a refusal, or an enrolment.
record IsStep (P : Disk → Type 0) (r : Result Fault (ProjectRegistrationAssertion × Disk))
    : Type 0 where
  answer :
      (is_refusal (answered r).0.status ≡ true)
      ⊎ (((answered r).0.status ≡ matched) × P (answered r).1)

IsStep-then {ℓ} :
    {A : Type ℓ} (P : Disk → Type 0) (m : Result Fault A)
    {f : A → Result Fault (ProjectRegistrationAssertion × Disk)}
    → ((a : A) → m ≡ ok a → IsStep P (f a))
    → IsStep P (m >>= f)
IsStep-then P (ok a) rest = rest a refl
IsStep-then P (err fault) rest = record { answer = inl (error-refused fault.error) }

enroll_parsed-IsStep :
    (host : Host) (d : Disk) (raw : Option Text) (registry : Registry) (value : Current)
    → IsStep
        (λ after. IsEnrolled host after value registry.projects × (after.key ≡ d.key))
        (enroll_parsed host d raw registry value)
unfolding enroll_parsed
enroll_parsed-IsStep host d raw registry value =
    elim (Bool-cases (is_duplicate (classify registry value).status)) [
      | inl duplicate ↦ rw duplicate (record { answer = inl (duplicate-refused _ duplicate) })
      | inr own ↦ elim (Bool-cases (host.json.is_iso host.now)) [
        | inr odd ↦ rw (own, odd) (record { answer = inl refl })
        | inl dated ↦ elim (Bool-cases (has_capacity host (upsert value host.now registry))) [
          | inr full ↦ rw (own, dated, full) (record { answer = inl refl })
          | inl room ↦ rw (own, dated, room) (published (publish host d raw registry value) refl)
        ]
      ]
    ]
  where
    published :
        (r : Result Fault (ProjectRegistrationAssertion × Disk))
        → publish host d raw registry value ≡ r
        → IsStep (λ after. IsEnrolled host after value registry.projects × (after.key ≡ d.key)) r
    published (ok (a, after)) h = record {
      answer = inr (publish-IsEnrolled host d raw registry value a after h);
    }
    published (err fault) h = record { answer = inl (error-refused fault.error) }

IsStep-map :
    (P Q : Disk → Type 0) (r : Result Fault (ProjectRegistrationAssertion × Disk))
    → ((after : Disk) → P after → Q after)
    → IsStep P r
    → IsStep Q r
IsStep-map P Q r f s = record {
  answer = elim s.answer [
    | inl refused ↦ inl refused
    | inr (status, p) ↦ inr (status, f (answered r).1 p)
  ];
}

module _ (host : Host) (before : Disk) (value : Checkout) where
  enroll_with_key-IsStep :
      (d : Disk) (raw : Option Text) (key : Key)
      → read_private host.getuid before.registry ≡ ok raw
      → UsesKey host before d key
      → IsStep (Enrolled host before value) (enroll_with_key host d raw value key)
  unfolding enroll_with_key
  enroll_with_key-IsStep d raw key reads uses =
      IsStep-then (Enrolled host before value)
        (at_disk d (parse_optional (parse_registry host.json) raw))
        λ previous parsed.
          IsStep-map
            (λ after.
              IsEnrolled host after (current host.digest value key.salt)
                (or_empty previous).projects
              × (after.key ≡ d.key))
            (Enrolled host before value) _
            (λ after p. record {
              key = key;
              old = (or_empty previous).projects;
              uses_key = UsesKey-after host before d after key p.1 uses;
              was_there = (raw, previous, reads, at_disk-ok d _ parsed, refl);
              enrolled = p.0;
            })
            (enroll_parsed-IsStep host d raw (or_empty previous)
              (current host.digest value key.salt))

  enroll_locked-IsStep : IsStep (Enrolled host before value) (enroll_locked host before value)
  unfolding enroll_locked
  enroll_locked-IsStep =
      let P = Enrolled host before value in
      IsStep-then P (at_disk before (read_private host.getuid before.registry)) λ raw reads.
        IsStep-then P (at_disk before (read_private host.getuid before.key)) λ raw_key reads_key.
          keyed raw raw_key (lost_key raw raw_key) (at_disk-ok before _ reads)
            (at_disk-ok before _ reads_key)
    where
      keyed :
          (raw raw_key lost : Option Text)
          → read_private host.getuid before.registry ≡ ok raw
          → read_private host.getuid before.key ≡ ok raw_key
          → IsStep (Enrolled host before value) (elim lost [
            | some text ↦ at_disk before (parse_registry host.json text) >>= λ _.
                ok (only_status registry_key_missing, before)
            | none ↦ key_for host before raw_key >>= λ keyed.
                enroll_with_key host keyed.1 raw value keyed.0
          ])
      keyed raw raw_key (some text) reads reads_key =
          IsStep-then (Enrolled host before value) (at_disk before (parse_registry host.json text))
            λ _ _. record { answer = inl refl }
      keyed raw raw_key none reads reads_key =
          IsStep-then (Enrolled host before value) (key_for host before raw_key) λ keyed stored.
            enroll_with_key-IsStep keyed.1 raw keyed.0 reads
              (key_for-UsesKey host before raw_key keyed reads_key stored)

  enroll_opened-IsAnswered : IsAnswered host before value (enroll_opened host before value)
  unfolding enroll_opened
  enroll_opened-IsAnswered = after_lock (acquire host.getuid host.until host.rounds)
    where
      after_lock :
          (lock : LockState)
          → IsAnswered host before value (elim lock [
            | locked ↦ answered (enroll_locked host before value)
            | busy ↦ (only_status registry_busy, before)
            | lock_invalid ↦ (only_status registry_invalid, before)
            | lock_unavailable ↦ (only_status registry_unavailable, before)
          ])
      after_lock locked = enroll_locked-IsStep.answer
      after_lock busy = inl refl
      after_lock lock_invalid = inl refl
      after_lock lock_unavailable = inl refl

enroll_located-IsAnswered :
    (host : Host) (before : Disk) (value : Checkout)
    → IsAnswered host before value (enroll_located host before (some value))
unfolding enroll_located
enroll_located-IsAnswered host before value =
    in_directory (safe_directory host.getuid true host.directory)
  where
    in_directory :
        (state : DirectoryState)
        → IsAnswered host before value (elim state [
          | opened ↦ enroll_opened host before value
          | invalid ↦ (only_status registry_invalid, before)
          | absent ↦ (only_status registry_unavailable, before)
          | unavailable ↦ (only_status registry_unavailable, before)
        ])
    in_directory opened = enroll_opened-IsAnswered host before value
    in_directory invalid = inl refl
    in_directory absent = inl refl
    in_directory unavailable = inl refl

located_checkout-eq :
    (host : Host) (value : Checkout)
    → located_checkout host ≡ some value
    → host.checkout ≡ some value
located_checkout-eq host value h = go (host.linux && host.located) h
  where
    go :
        (b : Bool)
        → ◌≡◌ {A = Option Checkout} (if b then host.checkout else none) (some value)
        → host.checkout ≡ some value
    go true k = k
    go false k = cc

-- An enrolment answers with a refusal, or that the project matches; and then the registry on
-- the disk, as it is read and parsed, binds the project's id to the digest of its root and
-- every other project of the old registry to the root that it had.
pub enroll_project_registration-IsAnswered :
    (host : Host) (before : Disk)
    → let r = enroll_project_registration host before in
      (is_refusal r.0.status ≡ true)
      ⊎ ((r.0.status ≡ matched)
          × ((value : Checkout) × (host.checkout ≡ some value) × Enrolled host before value r.1))
unfolding enroll_project_registration enroll_located
enroll_project_registration-IsAnswered host before = elim (Option-cases (located_checkout host)) [
  | inl nowhere ↦ rw nowhere (inl refl)
  | inr (value, there) ↦ rw there (elim (enroll_located-IsAnswered host before value) [
    | inl refused ↦ inl refused
    | inr (status, enrolled) ↦ inr (status, (value, located_checkout-eq host value there, enrolled))
  ])
]
