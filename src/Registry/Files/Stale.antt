-- ===== src/Registry/Files/Stale.antt =====
-- When src/project-registry.ts removes a lock, and what the waiting for one gives.
use mazzy_command_center.Storage.{max_safe_integer}
use mazzy_command_center.Registry.Files.{
  unavailable, invalid, opened, max_safe_integer, safe_directory, DirectorySeen, absent,
  failed_look, lock_absent, DirectoryState, no_entry_there, clear_stale_project_registry_lock,
  first_look, lock_unreachable, fresh, StaleReason, Look, is_private, cleared, found_at, Stats,
  second_look, same_lock, StaleHost,
}
use mazzy_command_center.Prelude.{
  if◌then◌else◌, ℕ, ◌+◌, true, false, Option, none, some, ◌≡◌, ◌≤◌, inl, inr, refl, arith,
  Bool-cases, ◌||◌, not, ltb, leb,
}

-- A lock that may be removed: private, older than the least age, and the same at a second look.
pub record IsStale (host : StaleHost) (minimum_age_ms : ℕ) : Type 0 where
  pub before : Stats
  pub after : Stats
  pub seen : host.before ≡ found_at before
  pub seen_again : host.after ≡ found_at after
  pub owned : is_private host.getuid true before ≡ true
  pub old : before.mtime_ms + minimum_age_ms ≤ host.now
  pub same :
      (before.ino ≡ after.ino) × (before.mtime_ms ≡ after.mtime_ms) × (before.size ≡ after.size)

fresh_not_cleared : fresh ≡ cleared → ⊥
fresh_not_cleared h = cc

unreachable_not_cleared : lock_unreachable ≡ cleared → ⊥
unreachable_not_cleared h = cc

same_lock-eq :
    (getuid : Option ℕ) (a b : Stats)
    → same_lock getuid a b ≡ true
    → (a.ino ≡ b.ino) × (a.mtime_ms ≡ b.mtime_ms) × (a.size ≡ b.size)
unfolding same_lock
same_lock-eq getuid a b h = ground arith

second_look-cleared :
    (host : StaleHost) (before : Stats)
    → second_look host before ≡ cleared
    → (after : Stats) × (host.after ≡ found_at after) × (same_lock host.getuid before after ≡ true)
unfolding second_look
second_look-cleared host before h = go host.after refl h
  where
    go :
        (look : Look)
        → host.after ≡ look
        → ◌≡◌ {A = StaleReason}
            (elim look [
              | found_at after ↦
                  if not (same_lock host.getuid before after)
                  then fresh
                  else if host.unlinks
                  then cleared
                  else lock_unreachable
              | no_entry_there ↦ lock_unreachable
              | failed_look ↦ lock_unreachable
            ])
            cleared
        → (after : Stats) × (host.after ≡ found_at after)
          × (same_lock host.getuid before after ≡ true)
    go (found_at after) e k = elim (Bool-cases (same_lock host.getuid before after)) [
      | inl same ↦ (after, e, same)
      | inr other ↦ absurd (fresh_not_cleared (rw other at k))
    ]
    go no_entry_there e k = absurd (cc)
    go failed_look e k = absurd (cc)

first_look-IsStale :
    (host : StaleHost) (minimum : ℕ) → first_look host minimum ≡ cleared → IsStale host minimum
unfolding first_look
first_look-IsStale host minimum h = go host.before refl h
  where
    go :
        (look : Look)
        → host.before ≡ look
        → ◌≡◌ {A = StaleReason}
            (elim look [
              | no_entry_there ↦ lock_absent
              | failed_look ↦ lock_unreachable
              | found_at before ↦
                  if not (is_private host.getuid true before)
                  then lock_unreachable
                  else if ltb host.now (before.mtime_ms + minimum)
                  then fresh
                  else second_look host before
            ])
            cleared
        → IsStale host minimum
    go no_entry_there e k = absurd (cc)
    go failed_look e k = absurd (cc)
    go (found_at before) e k = elim (Bool-cases (is_private host.getuid true before)) [
      | inr open_to_others ↦ absurd (unreachable_not_cleared (rw open_to_others at k))
      | inl owned ↦ elim (Bool-cases (ltb host.now (before.mtime_ms + minimum))) [
        | inl young ↦ absurd (fresh_not_cleared (rw (owned, young) at k))
        | inr old ↦
            let (after, again, same) = second_look-cleared host before (rw (owned, old) at k) in
            record {
              before = before;
              after = after;
              seen = e;
              seen_again = again;
              owned = owned;
              old = ground arith;
              same = same_lock-eq host.getuid before after same;
            }
      ]
    ]

-- A lock is cleared only if the least age is positive and the lock was private, at least as
-- old, and the same in inode, time and size at a second look.
pub clear_stale_project_registry_lock-IsStale :
    (host : StaleHost) (minimum_age_ms : ℕ)
    → clear_stale_project_registry_lock host minimum_age_ms ≡ cleared
    → (1 ≤ minimum_age_ms) × IsStale host minimum_age_ms
unfolding clear_stale_project_registry_lock
clear_stale_project_registry_lock-IsStale host minimum h =
    elim (Bool-cases (not host.linux || not (leb minimum max_safe_integer) || ltb minimum 1)) [
      | inl refused ↦
          absurd (unreachable_not_cleared (rw (clear_stale_project_registry_lock, refused) at h))
      | inr fine ↦ (
        ground arith,
        in_place host.directory (rw (clear_stale_project_registry_lock, fine) at h),
      )
    ]
  where
    in_state :
        (state : DirectoryState)
        → ◌≡◌ {A = StaleReason}
            (elim state [
              | absent ↦ lock_absent
              | opened ↦ first_look host minimum
              | invalid ↦ lock_unreachable
              | unavailable ↦ lock_unreachable
            ])
            cleared
        → IsStale host minimum
    in_state absent k = absurd (cc)
    in_state opened k = first_look-IsStale host minimum k
    in_state invalid k = absurd (cc)
    in_state unavailable k = absurd (cc)

    in_place :
        (place : Option DirectorySeen)
        → ◌≡◌ {A = StaleReason}
            (elim place [
              | none ↦ lock_unreachable
              | some d ↦ elim (safe_directory host.getuid false d) [
                | absent ↦ lock_absent
                | opened ↦ first_look host minimum
                | invalid ↦ lock_unreachable
                | unavailable ↦ lock_unreachable
              ]
            ])
            cleared
        → IsStale host minimum
    in_place none k = absurd (cc)
    in_place (some d) k = in_state (safe_directory host.getuid false d) k
