-- ===== src/Migrate/Apply/Restored.antt =====
-- How `applyControlMigration` of src/control-migrate.ts ends, every failure included.
use mathlib.Core.Option.{none}
use mathlib.Core.Path.{subst}
use mazzy_command_center.ControlResolve.{promoted}
use mathlib.Core.Bool.{true}
use mazzy_command_center.Migrate.Writes.{read_journal-text, write_journal-ok, if-ok, journaled}
use mazzy_command_center.Endpoint.{
  invalid, read_journal, promoted, promoting, verified, JournalState,
}
use mazzy_command_center.Prelude.{
  [], ok_again, ◌∙◌, on_ok, refl, ap, sym, ◌>>=◌, ◌≡◌, if◌then◌else◌,
}
use mazzy_command_center.Migrate.Apply.{
  known_or, codes, Stop, raised, stamp_here, stamped, check_integrity, stamp_target,
  MigrationResult, snapshot_from, ApplyHost, promote,
}
use mazzy_command_center.Migrate.{
  strict_control_parity, [], some, Database, thrown, unreadable_store, no_store, store, returned,
  ok, false, exists, JournalState, err, Bool, Result, Reply, World, write_journal, Store,
}

-- What the backup holds while the target is replaced: a copy of the one file of the target, or what
-- it held before where there is no target.
abbrev pub kept_backup : ApplyHost → World → Store
kept_backup host w = if exists w.target then host.copied_backup w.target else w.backup

abbrev pub was_applied : Reply MigrationResult → Bool
was_applied (returned r) = r.applied
was_applied _ = false

pub data IsMigration (host : ApplyHost) (w : World) : World × Reply MigrationResult → Type 0 where
  -- Neither the stores in use nor the evidence have changed.
  not_begun :
      (out : World × Reply MigrationResult)
      → out.0.source ≡ w.source
      → out.0.target ≡ w.target
      → out.0.evidence ≡ w.evidence
      → was_applied out.1 ≡ false
      → IsMigration host w out
  -- The target has the rows of the source and the stamp of the checkout.
  migrated :
      (done : World) (d : Database) (ready : Bool)
      → w.source ≡ store d
      → done.target
        ≡ store (record {
          tables = d.tables;
          stamp = some (record {
            project_id = known_or (codes "unknown") host.checkout.project_id;
            root_fs_digest = some (known_or [] host.checkout.root_digest);
            promoted_at = host.baseline;
          });
        })
      → read_journal done.evidence.journal ≡ promoted
      → done.backup ≡ kept_backup host w
      → done.source ≡ host.later_source
      → ready ≡ strict_control_parity host.later_source done.target
      → IsMigration host w (
        done,
        returned
            (record { applied = true; journal = promoted; ok = ready; cutover_ready = some ready }),
      )
  undone :
      (done : World)
      → done.target ≡ (
          if exists (kept_backup host w) then host.copied_target (kept_backup host w) else no_store)
      → done.backup ≡ kept_backup host w
      → done.source ≡ w.source
      → read_journal done.evidence.journal ≡ invalid
      → IsMigration host w (
        done,
        returned (record { applied = true; journal = invalid; ok = false; cutover_ready = none }),
      )
  -- The way back has failed as well.
  interrupted :
      (there : World)
      → there.backup ≡ kept_backup host w
      → there.source ≡ w.source
      → IsMigration host w (there, thrown)

abbrev pub at_stop : Stop → World
at_stop stop = stop.at_world

abbrev pub at_self : World → World
at_self w = w

abbrev pub world_of : {E : Type 0} → (E → World) → Result E World → World
world_of place (err e) = place e
world_of place (ok w) = w

-- What no step of the promotion changes.
abbrev pub rest : World → Store × Store
rest w = (w.backup, w.source)

pub bind-rest :
    {E : Type 0} (place : E → World) (m : Result E World) (f : World → Result E World)
    (r : Store × Store)
    → rest (world_of place m) ≡ r
    → ((a : World) → rest a ≡ r → rest (world_of place (f a)) ≡ r)
    → rest (world_of place (m >>= f)) ≡ r
bind-rest place (err e) f r h k = h
bind-rest place (ok w) f r h k = k w h

pub if-rest :
    {E : Type 0} (place : E → World) (test : Bool) (a : World) (e : E) (r : Store × Store)
    → rest a ≡ r
    → rest (place e) ≡ r
    → rest (world_of place (if test then ok a else err e)) ≡ r
if-rest place true a e r h k = h
if-rest place false a e r h k = k

raised-rest :
    (m : Result World World) (r : Store × Store)
    → rest (world_of at_self m) ≡ r
    → rest (world_of at_stop (raised m)) ≡ r
raised-rest (err w) r h = h
raised-rest (ok w) r h = h

raised-ok : (m : Result World World) {w : World} → raised m ≡ ok w → m ≡ ok w
raised-ok (err w) h = absurd (cc)
raised-ok (ok w) h = ok_again h

pub write_journal-rest :
    (writes : JournalState → Bool) (state : JournalState) (w : World) (r : Store × Store)
    → rest w ≡ r
    → rest (world_of at_self (write_journal writes state w)) ≡ r
unfolding write_journal
write_journal-rest writes state w r h = if-rest at_self (writes state) (journaled state w) w r h h

snapshot_from-rest :
    (host : ApplyHost) (s : Store) (w : World)
    → rest (world_of at_stop (snapshot_from host s w)) ≡ rest w
unfolding snapshot_from
snapshot_from-rest host no_store w = refl
snapshot_from-rest host unreadable_store w = refl
snapshot_from-rest host (store d) w = if-rest at_stop host.snapshots _ _ (rest w) refl refl

stamp_target-rest :
    (host : ApplyHost) (w : World) (r : Store × Store)
    → rest w ≡ r
    → rest (world_of at_stop (stamp_target host w)) ≡ r
unfolding stamp_target
stamp_target-rest host w r h =
    let there : World = record w { target = stamped (stamp_here host) w.target } in
    raised-rest (if host.stamps then ok there else err w) r
      (if-rest at_self host.stamps there w r h h)

check_integrity-rest :
    (host : ApplyHost) (w : World) (r : Store × Store)
    → rest w ≡ r
    → rest (world_of at_stop (check_integrity host w)) ≡ r
unfolding check_integrity
check_integrity-rest host w r h = if-rest at_stop host.integrity w _ r h h

recorded-rest :
    (host : ApplyHost) (state : JournalState) (w : World) (r : Store × Store)
    → rest w ≡ r
    → rest (world_of at_stop (raised (write_journal host.writes state w))) ≡ r
recorded-rest host state w r h =
    raised-rest (write_journal host.writes state w) r (write_journal-rest host.writes state w r h)

pub promote-rest :
    (host : ApplyHost) (w : World) → rest (world_of at_stop (promote host w)) ≡ rest w
unfolding promote
promote-rest host w =
    bind-rest at_stop (snapshot_from host w.source w) _ _ (snapshot_from-rest host w.source w)
      λ a e. bind-rest at_stop (stamp_target host a) _ _ (stamp_target-rest host a _ e) λ b f.
        bind-rest at_stop (check_integrity host b) _ _ (check_integrity-rest host b _ f) λ c g.
          bind-rest at_stop (raised (write_journal host.writes verified c)) _ _
            (recorded-rest host verified c _ g)
            λ d i.
              bind-rest at_stop (raised (write_journal host.writes promoting d)) _ _
                (recorded-rest host promoting d _ i) λ k j. recorded-rest host promoted k _ j

snapshot_from-store :
    (host : ApplyHost) (s : Store) (w : World) {done : World}
    → snapshot_from host s w ≡ ok done
    → (d : Database) × (s ≡ store d) × (done.target ≡ store d)
unfolding snapshot_from
snapshot_from-store host no_store w h = absurd (cc)
snapshot_from-store host unreadable_store w h = absurd (cc)
snapshot_from-store host (store d) w h =
    (d, refl, sym (ap (λ x. x.target) (if-ok host.snapshots _ _ h)))

stamp_target-ok :
    (host : ApplyHost) (w : World) {done : World}
    → stamp_target host w ≡ ok done
    → done.target ≡ stamped (stamp_here host) w.target
unfolding stamp_target
stamp_target-ok host w h = sym (ap (λ x. x.target) (if-ok host.stamps _ w (raised-ok _ h)))

check_integrity-ok :
    (host : ApplyHost) (w : World) {done : World} → check_integrity host w ≡ ok done → w ≡ done
unfolding check_integrity
check_integrity-ok host w h = if-ok host.integrity w _ h

recorded-ok :
    (host : ApplyHost) (state : JournalState) (w : World) {done : World}
    → raised (write_journal host.writes state w) ≡ ok done
    → journaled state w ≡ done
recorded-ok host state w h = write_journal-ok host.writes state w (raised-ok _ h)

pub promote-ok :
    (host : ApplyHost) (w : World) {done : World}
    → promote host w ≡ ok done
    → (d : Database) × (w.source ≡ store d)
      × (done.target ≡ stamped (stamp_here host) (store d))
      × (read_journal done.evidence.journal ≡ promoted)
unfolding promote
promote-ok host w h = on_ok (snapshot_from host w.source w) h λ a e h1.
    on_ok (stamp_target host a) h1 λ b f h2. on_ok (check_integrity host b) h2 λ c g h3.
      on_ok (raised (write_journal host.writes verified c)) h3 λ d i h4.
        on_ok (raised (write_journal host.writes promoting d)) h4 λ k j h5.
          let (data_of, source, taken) = snapshot_from-store host w.source w e in
          let last = recorded-ok host promoted k h5 in
          (
            data_of,
            source,
            sym (ap (λ x. x.target) last)
                ∙ sym (ap (λ x. x.target) (recorded-ok host promoting d j))
                ∙ sym (ap (λ x. x.target) (recorded-ok host verified c i))
                ∙ sym (ap (λ x. x.target) (check_integrity-ok host b g))
                ∙ stamp_target-ok host a f
                ∙ ap (stamped (stamp_here host)) taken,
            subst (λ x. read_journal x.evidence.journal ≡ promoted) last
                (read_journal-text promoted),
          )
