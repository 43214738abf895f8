-- ===== src/Registry/Enroll/Matched.antt =====
-- What an enrolment of src/project-registry.ts answers, and what it leaves on the disk.
use mathlib.Core.Path.{
  subst, subst, subst, subst, subst, subst, subst, subst, subst, subst, subst, subst, subst, subst,
}
use mazzy_command_center.Registry.Parse.{
  parse_key, domain_error, RegistryError, other_error, parse_registry,
}
use mazzy_command_center.Registry.Parse.Unique.{parse_registry-IsUnique, IsUnique-find, IsUnique}
use mazzy_command_center.Registry.Files.{read_private}
use mazzy_command_center.Registry.{
  Key, has_id, matched, ProjectRegistrationAssertion, Entry, Current, Registry, classify_entry,
  classify,
}
use mazzy_command_center.Registry.Enroll.{
  write_file, parse_key, key_for, domain_error, is_verified, RegistryError, other_error,
  is_retained, at_disk, upsert, persist, is_bound, parse_registry, read_private, Disk, publish,
  Host,
}
use mazzy_command_center.Prelude.{
  ok_of_err, ok_again, ◌>>=◌, guard, some_or, text_eq, ◌||◌, Bool, true, false, List, Option, none,
  some, ◌≡◌, ◌∙◌, refl, sym, ap, arith, Text, Result, ok, err, on_ok, ok-eq, some_or-eq-ok,
  any_where, all_where, not, &&-eq-true, guard-ok,
}

-- A registry in which the id and the root have one entry, bound to each other, answers that they
-- match.
pub classify-matched :
    (r : Registry) (value : Current)
    → IsUnique r.projects
    → any_where (is_bound value.id value.root_digest) r.projects ≡ true
    → (classify r value).status ≡ matched
unfolding classify classify_entry
classify-matched r value unique bound =
    let ((e, by_id, e_bound), (f, by_root, f_bound)) =
      IsUnique-find r.projects value.id value.root_digest unique bound in
    let own : not (has_id value.id f) ≡ false = ground (arith, f_bound) in
    let here : text_eq e.root_digest value.root_digest ≡ true = (&&-eq-true _ _ e_bound).1 in
    simp (classify, by_root, own, by_id, classify_entry, here)

-- The registry on the disk, as it is read and parsed.
abbrev pub Holds : Host → Disk → Registry → Type 0
Holds host d r =
    (content : Text) × (read_private host.getuid d.registry ≡ ok (some content))
    × (parse_registry host.json content ≡ ok r)

pub at_disk-ok {ℓ} :
    {A : Type ℓ} (d : Disk) (r : Result RegistryError A) {a : A} → at_disk d r ≡ ok a → r ≡ ok a
at_disk-ok d (ok b) h = ok_again h
at_disk-ok d (err e) h = absurd (ok_of_err h)

-- The key that an enrolment uses: the one that was there, which stays, or a new one.
pub data UsesKey (host : Host) (before after : Disk) (key : Key) : Type 0 where
  old_key :
      {raw : Text}
      → read_private host.getuid before.key ≡ ok (some raw)
      → parse_key host.json raw ≡ ok key
      → after.key ≡ before.key
      → UsesKey host before after key
  new_key :
      read_private host.getuid before.key ≡ ok none
      → key ≡ record { salt = host.fresh_salt }
      → after.key ≡ host.created (host.serialise_key key)
      → UsesKey host before after key

pub UsesKey-after :
    (host : Host) (before middle after : Disk) (key : Key)
    → after.key ≡ middle.key
    → UsesKey host before middle key
    → UsesKey host before after key
UsesKey-after host before middle after key e (old_key reads parses stays) =
    old_key reads parses (e ∙ stays)
UsesKey-after host before middle after key e (new_key reads fresh stored) =
    new_key reads fresh (e ∙ stored)

pub write_file-eq :
    (writes : Bool) (before after written : Disk)
    → write_file writes before after ≡ ok written
    → after ≡ written
write_file-eq true before after written h = ok-eq h
write_file-eq false before after written h = absurd (ok_of_err h)

write_file-key :
    (writes : Bool) (before after written : Disk)
    → after.key ≡ before.key
    → write_file writes before after ≡ ok written
    → written.key ≡ before.key
write_file-key true before after written e h = ap (λ (d : Disk). d.key) (sym (ok-eq h)) ∙ e
write_file-key false before after written e h = absurd (ok_of_err h)

persist-key :
    (host : Host) (d : Disk) (raw : Option Text) (next : Registry) (written : Disk)
    → persist host d raw next ≡ ok written
    → written.key ≡ d.key
unfolding persist
persist-key host d none next written h = write_file-key host.writes_registry d _ written refl h
persist-key host d (some raw) next written h =
    on_ok (write_file host.writes_backup d (record d { backup = host.created raw })) h λ kept k h1.
      write_file-key host.writes_registry kept _ written refl h1
      ∙ write_file-key host.writes_backup d _ kept refl k

pub key_for-UsesKey :
    (host : Host) (before : Disk) (raw : Option Text) (keyed : Key × Disk)
    → read_private host.getuid before.key ≡ ok raw
    → key_for host before raw ≡ ok keyed
    → UsesKey host before keyed.1 keyed.0
unfolding key_for
key_for-UsesKey host before none keyed reads h = go host.writes_key h
  where
    key : Key
    key = record { salt = host.fresh_salt }

    go :
        (writes : Bool)
        → (write_file writes before (record before {
          key = host.created (host.serialise_key (record { salt = host.fresh_salt }));
        })
            >>= λ written. ok ((record { salt = host.fresh_salt }), written))
          ≡ ok keyed
        → UsesKey host before keyed.1 keyed.0
    go true k =
        subst (λ (x : Key × Disk). UsesKey host before x.1 x.0) (ok-eq k) (new_key reads refl refl)
    go false k = absurd (ok_of_err k)
key_for-UsesKey host before (some raw) keyed reads h =
    on_ok (at_disk before (parse_key host.json raw)) h λ key parsed same.
      subst (λ (x : Key × Disk). UsesKey host before x.1 x.0) (ok-eq same)
        (old_key reads (at_disk-ok before (parse_key host.json raw) parsed) refl)

-- The project is bound to its root, and every other project of the old registry to its own.
pub record IsEnrolled (host : Host) (d : Disk) (value : Current) (old : List Entry) : Type 0 where
  pub registry : Registry
  pub holds : Holds host d registry
  pub bound : any_where (is_bound value.id value.root_digest) registry.projects ≡ true
  pub retained :
      all_where (λ (e : Entry). has_id value.id e || is_retained registry.projects e) old ≡ true

pub publish-IsEnrolled :
    (host : Host) (d : Disk) (raw : Option Text) (registry : Registry) (value : Current)
    (a : ProjectRegistrationAssertion) (after : Disk)
    → publish host d raw registry value ≡ ok (a, after)
    → (a.status ≡ matched) × (IsEnrolled host after value registry.projects × (after.key ≡ d.key))
unfolding publish is_verified
publish-IsEnrolled host d raw registry value a after h =
    on_ok (persist host d raw (upsert value host.now registry)) h λ written persisted h1.
      on_ok (at_disk written (read_private host.getuid written.registry)) h1 λ read seen h2.
        on_ok (at_disk written (some_or read other_error)) h2 λ content some_content h3.
          on_ok (at_disk written (parse_registry host.json content)) h3 λ verified parsed h4.
            on_ok
              (at_disk written
                (guard (is_verified value registry.projects verified.projects) domain_error))
              h4
              λ _ checked same.
                let (bound, retained) = &&-eq-true _ _ (
                  guard-ok (is_verified value registry.projects verified.projects) domain_error
                    (at_disk-ok written _ checked)) in
                let parses = at_disk-ok written (parse_registry host.json content) parsed in
                let there : read ≡ some content =
                  some_or-eq-ok read other_error
                    (at_disk-ok written (some_or read other_error) some_content) in
                let reads : read_private host.getuid written.registry ≡ ok (some content) =
                  at_disk-ok written (read_private host.getuid written.registry) seen
                  ∙ ap ok there in
                subst
                  (λ (r : ProjectRegistrationAssertion × Disk).
                    (r.0.status ≡ matched)
                    × (IsEnrolled host r.1 value registry.projects × (r.1.key ≡ d.key)))
                  (ok-eq same)
                  (
                    classify-matched verified value
                        (parse_registry-IsUnique host.json content verified parses) bound,
                    (
                      record {
                        registry = verified;
                        holds = (content, reads, parses);
                        bound = bound;
                        retained = retained;
                      },
                      persist-key host d raw (upsert value host.now registry) written persisted,
                    ),
                  )
