-- ===== src/Registry/Forget/Removed.antt =====
-- What src/project-registry.ts leaves when it forgets a project.
use mazzy_command_center.Registry.Enroll.Matched.{at_disk-ok, write_file-eq}
use mathlib.Core.Path.{subst}
use mazzy_command_center.Registry.Forget.{
  domain_error, same_error, forget_opened, forget_locked, forget_project_registration, parse_key,
  both_texts, forget_parsed, forget_read, without,
}
use mazzy_command_center.Registry.Parse.{domain_error, parse_key, parse_registry}
use mazzy_command_center.Registry.Files.{
  safe_directory, lock_unavailable, invalid, lock_invalid, unavailable, busy, acquire, absent,
  locked, opened, LockState, DirectoryState, read_private,
}
use mazzy_command_center.Registry.{Entry, is_uuid, has_id, Registry}
use mazzy_command_center.Registry.Enroll.{
  fail_at, Fault, at_disk, has_capacity, write_file, persist, Disk, Host,
}
use mazzy_command_center.Prelude.{
  ◌&&◌, count_where, ◌>>=◌, is_empty, Bool, true, false, List, [], ◌∷◌, Option, none, some, ◌≡◌,
  ◌≤◌, ◌<◌, ◌∙◌, inl, inr, refl, sym, ap, arith, Text, Result, ok, err, on_ok, ok-eq, ok_of_err,
  Bool-cases, filter_where, not, length, ◌==◌,
}

length-filter_where {ℓ} :
    {A : Type ℓ} (p : A → Bool) (xs : List A) → length (filter_where p xs) ≤ length xs
unfolding filter_where
length-filter_where p [] = omega arith
length-filter_where p (x ∷ xs) = ground (arith, length-filter_where p xs)

count_where-filter_where {ℓ} :
    {A : Type ℓ} (p q : A → Bool) (xs : List A)
    → count_where p (filter_where q xs) ≡ count_where (λ x. q x && p x) xs
unfolding count_where filter_where
count_where-filter_where p q [] = refl
count_where-filter_where p q (x ∷ xs) = ground (arith, count_where-filter_where p q xs)

-- The registry after a removal: it has fewer entries, and of every kind as many as the old one has
-- without the id.
pub record IsRemoved (host : Host) (before : Disk) (id : Text) (after : Disk) : Type 0 where
  pub raw : Text
  pub old : Registry
  pub reads : read_private host.getuid before.registry ≡ ok (some raw)
  pub parses : parse_registry host.json raw ≡ ok old
  pub new : Registry
  pub fewer : length new.projects < length old.projects
  pub others :
      (kind : Entry → Bool)
      → count_where kind new.projects ≡ count_where (λ e. not (has_id id e) && kind e) old.projects
  pub written : after.registry ≡ host.created (host.serialise new)
  pub kept : after.backup ≡ host.created raw
  pub same_key : after.key ≡ before.key

-- What a call returns: that nothing was removed, with the disk as it was, or a removal.
pub data IsForgotten (host : Host) (before : Disk) (id : Text) : Bool × Disk → Type 0 where
  nothing : IsForgotten host before id (false, before)
  removal :
      {after : Disk} → IsRemoved host before id after → IsForgotten host before id (true, after)

persist-both :
    (host : Host) (d : Disk) (raw : Text) (next : Registry) (written : Disk)
    → persist host d (some raw) next ≡ ok written
    → (written.registry ≡ host.created (host.serialise next))
      × (written.backup ≡ host.created raw)
      × (written.key ≡ d.key)
unfolding persist
persist-both host d raw next written h =
    on_ok (write_file host.writes_backup d (record d { backup = host.created raw })) h λ kept k h1.
      let e = write_file-eq host.writes_backup d _ kept k in
      let f = write_file-eq host.writes_registry kept _ written h1 in
      (
        ap (λ (x : Disk). x.registry) (sym f),
        ap (λ (x : Disk). x.backup) (sym f) ∙ ap (λ (x : Disk). x.backup) (sym e),
        ap (λ (x : Disk). x.key) (sym f) ∙ ap (λ (x : Disk). x.key) (sym e),
      )

module _ (host : Host) (before : Disk) (id : Text) where
  forget_parsed-IsForgotten :
      (raw : Text) (old : Registry) (r : Bool × Disk)
      → read_private host.getuid before.registry ≡ ok (some raw)
      → parse_registry host.json raw ≡ ok old
      → forget_parsed host before raw id old ≡ ok r
      → IsForgotten host before id r
  unfolding forget_parsed
  forget_parsed-IsForgotten raw old r reads parses h =
      elim (Bool-cases (length (without id old).projects == length old.projects)) [
        | inl same ↦
            subst (IsForgotten host before id) (ok-eq (rw (forget_parsed, same) at h)) nothing
        | inr other ↦ elim (Bool-cases (has_capacity host (without id old))) [
          | inr full ↦ absurd (ok_of_err (rw (forget_parsed, other, full) at h))
          | inl room ↦
              on_ok (persist host before (some raw) (without id old))
                (rw (forget_parsed, other, room) at h)
                λ written persisted end.
                  let (registry, backup, key) =
                    persist-both host before raw (without id old) written persisted in
                  subst (IsForgotten host before id) (ok-eq end) (
                    removal (record {
                      raw = raw;
                      old = old;
                      reads = reads;
                      parses = parses;
                      fewer =
                          ground (arith, length-filter_where (λ e. not (has_id id e)) old.projects);
                      new = without id old;
                      others = λ kind.
                          count_where-filter_where kind (λ e. not (has_id id e)) old.projects;
                      written = registry;
                      kept = backup;
                      same_key = key;
                    }))
        ]
      ]

  forget_read-IsForgotten :
      (raw raw_key : Option Text) (r : Bool × Disk)
      → read_private host.getuid before.registry ≡ ok raw
      → forget_read host before id (both_texts raw raw_key) ≡ ok r
      → IsForgotten host before id r
  unfolding forget_read
  forget_read-IsForgotten none raw_key r reads h =
      subst (IsForgotten host before id) (ok-eq h) nothing
  forget_read-IsForgotten (some raw) none r reads h =
      subst (IsForgotten host before id) (ok-eq h) nothing
  forget_read-IsForgotten (some raw) (some raw_key) r reads h = elim (Bool-cases (is_empty raw)) [
    | inl blank ↦ subst (IsForgotten host before id) (ok-eq (rw (both_texts, blank) at h)) nothing
    | inr text ↦ elim (Bool-cases (is_empty raw_key)) [
      | inl blank ↦
          subst (IsForgotten host before id) (ok-eq (rw (both_texts, text, blank) at h)) nothing
      | inr key_text ↦
          on_ok (at_disk before (parse_key host.json raw_key >>= λ _. ok tt))
            (rw (both_texts, text, key_text, forget_read) at h)
            λ _ _ h1. on_ok (at_disk before (parse_registry host.json raw)) h1 λ old parsed h2.
              forget_parsed-IsForgotten raw old r reads
                (at_disk-ok before (parse_registry host.json raw) parsed) h2
    ]
  ]

  forget_locked-IsForgotten :
      (r : Bool × Disk)
      → same_error (forget_locked host before id) ≡ ok r
      → IsForgotten host before id r
  unfolding forget_locked
  forget_locked-IsForgotten r h =
      on_ok (at_disk before (read_private host.getuid before.registry))
        (no_error (forget_locked host before id) h)
        λ raw reads h1.
          on_ok (at_disk before (read_private host.getuid before.key)) h1
            λ raw_key _ h2. forget_read-IsForgotten raw raw_key r (at_disk-ok before _ reads) h2
    where
      no_error : (m : Result Fault (Bool × Disk)) → same_error m ≡ ok r → m ≡ ok r
      no_error (ok a) k = k
      no_error (err fault) k = absurd (ok_of_err k)

  forget_opened-IsForgotten :
      (r : Bool × Disk) → forget_opened host before id ≡ ok r → IsForgotten host before id r
  unfolding forget_opened
  forget_opened-IsForgotten r h = after_lock (acquire host.getuid host.until host.rounds) h
    where
      after_lock :
          (lock : LockState)
          → ◌≡◌ {A = Result Fault (Bool × Disk)}
              (elim lock [
                | locked ↦ same_error (forget_locked host before id)
                | busy ↦ ok (false, before)
                | lock_invalid ↦ fail_at before domain_error
                | lock_unavailable ↦ fail_at before domain_error
              ])
              (ok r)
          → IsForgotten host before id r
      after_lock locked k = forget_locked-IsForgotten r k
      after_lock busy k = subst (IsForgotten host before id) (ok-eq k) nothing
      after_lock lock_invalid k = absurd (ok_of_err k)
      after_lock lock_unavailable k = absurd (ok_of_err k)

  forget_directory-IsForgotten :
      (r : Bool × Disk) (state : DirectoryState)
      → ◌≡◌ {A = Result Fault (Bool × Disk)}
          (elim state [
            | opened ↦ forget_opened host before id
            | absent ↦ ok (false, before)
            | unavailable ↦ ok (false, before)
            | invalid ↦ fail_at before domain_error
          ])
          (ok r)
      → IsForgotten host before id r
  forget_directory-IsForgotten r opened k = forget_opened-IsForgotten r k
  forget_directory-IsForgotten r absent k = subst (IsForgotten host before id) (ok-eq k) nothing
  forget_directory-IsForgotten r unavailable k =
      subst (IsForgotten host before id) (ok-eq k) nothing
  forget_directory-IsForgotten r invalid k = absurd (ok_of_err k)

  -- A call to forget a project that returns has removed nothing and left the disk as it was, or
  -- has written a registry with fewer entries, which of every kind has as many as the old one
  -- has of that kind without the id, with the old text as the backup and the key as it was.
  pub forget_project_registration-IsForgotten :
      (r : Bool × Disk)
      → forget_project_registration host before id ≡ ok r
      → IsForgotten host before id r
  unfolding forget_project_registration
  forget_project_registration-IsForgotten r h = elim (Bool-cases (is_uuid id)) [
    | inr odd ↦ absurd (ok_of_err (rw (forget_project_registration, odd) at h))
    | inl uuid ↦ elim (Bool-cases host.linux) [
      | inr elsewhere ↦
          subst (IsForgotten host before id)
            (ok-eq (simp (forget_project_registration, uuid, elsewhere) at h)) nothing
      | inl linux ↦ elim (Bool-cases host.located) [
        | inr lost ↦
            subst (IsForgotten host before id)
              (ok-eq (simp (forget_project_registration, uuid, linux, lost) at h)) nothing
        | inl located ↦
            forget_directory-IsForgotten r (safe_directory host.getuid false host.directory)
              (simp (forget_project_registration, uuid, linux, located) at h)
      ]
    ]
  ]
