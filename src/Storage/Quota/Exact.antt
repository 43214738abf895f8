-- ===== src/Storage/Quota/Exact.antt =====
-- What the quota report of src/storage-policy.ts says.
use mathlib.Core.Path.{ap, subst}
use mazzy_command_center.Storage.Policy.{quota_of}
use mazzy_command_center.Storage.Scan.Bounded.{fresh_scan-counted, end_of, total_size}
use mazzy_command_center.Storage.Scan.{
  new_scan_state, scan_regular_files, ScanState, safe_directory, Found, Fault, FileSystem,
}
use mazzy_command_center.Storage.Quota.{
  new_scan_state, scan_regular_files, observed, is_bound_error, caught, ScanState, quota_of,
  safe_directory, workspace_quota_status, inspect, directory_status, Found, QuotaStatus, Usage,
  Fault, statuses, usage_of,
}
use mazzy_command_center.Storage.{
  scan_bound, StorageError, bad_duration, no_quota, max_safe_integer, directory_text,
  canonical_workspace_directories, CanonicalDirectory, StoragePolicy,
}
use mazzy_command_center.Prelude.{
  ◌⊎◌, true, ℕ, suc, ◌+◌, Bool, false, List, [], ◌∷◌, Option, none, some, ◌≡◌, ◌≤◌, inl, inr, refl,
  sym, arith, Text, Result, ok, err, on_ok, on_guard, ok-eq, ok_of_err, some_or-eq-ok, Bool-cases,
  ◌&&◌, ltb, leb, some_or, length,
}

usage_of-total :
    (fs : List Found) (u : Usage)
    → ((usage_of fs u).files ≡ u.files + length fs)
      × ((usage_of fs u).bytes ≡ u.bytes + total_size fs)
unfolding usage_of
usage_of-total [] u = (omega arith, omega arith)
usage_of-total (f ∷ fs) u =
    let (files, bytes) =
      usage_of-total fs (record { files = suc u.files; bytes = u.bytes + f.1.size }) in
    (omega (arith, files), omega (arith, bytes))

-- The usage of a directory is within the bounds of a scan.
record IsSmall (policy : StoragePolicy) (u : Usage) : Type 0 where
  few : u.files ≤ policy.scan_max_files
  small : u.bytes ≤ policy.scan_max_bytes

IsSmall-seen :
    (policy : StoragePolicy) (seen : List Found)
    → length seen ≤ policy.scan_max_files
    → total_size seen ≤ policy.scan_max_bytes
    → IsSmall policy (usage_of seen (record { files = 0; bytes = 0 }))
IsSmall-seen policy seen few small =
    let (files, bytes) = usage_of-total seen (record { files = 0; bytes = 0 }) in
    record { few = omega (arith, files); small = omega (arith, bytes) }

caught-IsSmall :
    (policy : StoragePolicy) (r : Result Fault ScanState) (u : Usage × Bool × ℕ)
    → length (end_of r).seen ≤ policy.scan_max_files
    → total_size (end_of r).seen ≤ policy.scan_max_bytes
    → caught r ≡ ok u
    → IsSmall policy u.0
caught-IsSmall policy (ok s) u few small h =
    subst (λ (v : Usage × Bool × ℕ). IsSmall policy v.0) (ok-eq h)
      (IsSmall-seen policy s.seen few small)
caught-IsSmall policy (err fault) u few small h = elim (Bool-cases (is_bound_error fault.error)) [
  | inl bound ↦
      subst (λ (v : Usage × Bool × ℕ). IsSmall policy v.0) (ok-eq (rw (caught, bound) at h))
        (IsSmall-seen policy fault.at.seen few small)
  | inr other ↦ absurd (ok_of_err (rw (caught, other) at h))
]

module _ (clock : ℕ → ℕ) (fs : FileSystem) (policy : StoragePolicy) (max_duration_ms : ℕ) where
  inspect-IsSmall :
      (reads : ℕ) (real : Option Text) (u : Usage × Bool × ℕ)
      → inspect clock fs policy max_duration_ms reads real ≡ ok u
      → IsSmall policy u.0
  unfolding inspect
  inspect-IsSmall reads none u h =
      subst (λ (v : Usage × Bool × ℕ). IsSmall policy v.0) (ok-eq h)
        (record { few = omega arith; small = omega arith })
  inspect-IsSmall reads (some real) u h =
      let (few, small, _, _) =
        fresh_scan-counted clock policy max_duration_ms reads (fs.listing real) real in
      caught-IsSmall policy _ u few small h

-- The outcomes of the scan of a directory that a line may stand for.
pub data IsObserved (clock : ℕ → ℕ) (fs : FileSystem) (policy : StoragePolicy) (max_duration_ms : ℕ)
    (root : Text) (q : QuotaStatus) : Type 0 where
  no_directory :
      safe_directory fs.kind root (directory_text q.directory) ≡ ok none
      → q.files ≡ 0
      → q.bytes ≡ 0
      → q.scan_complete ≡ true
      → IsObserved clock fs policy max_duration_ms root q
  scanned :
      (real : Text) (reads : ℕ) (s : ScanState)
      → safe_directory fs.kind root (directory_text q.directory) ≡ ok (some real)
      → scan_regular_files clock real
          (fs.listing real)
          real
          (new_scan_state clock policy max_duration_ms reads)
        ≡ ok s
      → q.files ≡ length s.seen
      → q.bytes ≡ total_size s.seen
      → q.scan_complete ≡ true
      → IsObserved clock fs policy max_duration_ms root q
  cut_short :
      (real : Text) (reads : ℕ) (fault : Fault)
      → safe_directory fs.kind root (directory_text q.directory) ≡ ok (some real)
      → scan_regular_files clock real
          (fs.listing real)
          real
          (new_scan_state clock policy max_duration_ms reads)
        ≡ err fault
      → fault.error ≡ scan_bound
      → q.files ≡ length fault.at.seen
      → q.bytes ≡ total_size fault.at.seen
      → q.scan_complete ≡ false
      → IsObserved clock fs policy max_duration_ms root q

bound-eq : (e : StorageError) → is_bound_error e ≡ true → e ≡ scan_bound
bound-eq e h = ground arith

caught-cases :
    (r : Result Fault ScanState) (u : Usage × Bool × ℕ)
    → caught r ≡ ok u
    → ((s : ScanState) × (r ≡ ok s) × (u ≡ observed s true))
      ⊎ ((fault : Fault) × (r ≡ err fault)
          × (fault.error ≡ scan_bound)
          × (u ≡ observed fault.at false))
caught-cases (ok s) u h = inl (s, refl, sym (ok-eq h))
caught-cases (err fault) u h = elim (Bool-cases (is_bound_error fault.error)) [
  | inl bound ↦ inr (fault, refl, bound-eq fault.error bound, sym (ok-eq (rw (caught, bound) at h)))
  | inr other ↦ absurd (ok_of_err (rw (caught, other) at h))
]

-- What a line of the report says.
pub record IsRight (clock : ℕ → ℕ) (fs : FileSystem) (policy : StoragePolicy) (max_duration_ms : ℕ)
    (root : Text) (q : QuotaStatus) : Type 0 where
  pub seen : IsObserved clock fs policy max_duration_ms root q
  pub few : q.files ≤ policy.scan_max_files
  pub small : q.bytes ≤ policy.scan_max_bytes
  pub quota : quota_of policy.quotas q.directory ≡ some q.max_bytes
  pub within : q.within_quota ≡ (q.scan_complete && leb q.bytes q.max_bytes)

-- The lines for some directories, in their order.
pub data Report (clock : ℕ → ℕ) (fs : FileSystem) (policy : StoragePolicy) (max_duration_ms : ℕ)
    (root : Text) : List CanonicalDirectory → List QuotaStatus → Type 0 where
  no_line : Report clock fs policy max_duration_ms root [] []
  line :
      {d : CanonicalDirectory} {ds : List CanonicalDirectory} {q : QuotaStatus}
      {qs : List QuotaStatus}
      → q.directory ≡ d
      → IsRight clock fs policy max_duration_ms root q
      → Report clock fs policy max_duration_ms root ds qs
      → Report clock fs policy max_duration_ms root (d ∷ ds) (q ∷ qs)

module _ (clock : ℕ → ℕ) (fs : FileSystem) (policy : StoragePolicy) (max_duration_ms : ℕ) where
  abbrev line_of : CanonicalDirectory → ℕ → Usage × Bool × ℕ → QuotaStatus
  line_of d max_bytes seen = record {
    directory = d;
    files = seen.0.files;
    bytes = seen.0.bytes;
    max_bytes = max_bytes;
    within_quota = seen.1 && leb seen.0.bytes max_bytes;
    scan_complete = seen.1;
  }

  line_seen :
      (root : Text) (d : CanonicalDirectory) (reads : ℕ) (real : Option Text)
      (seen : Usage × Bool × ℕ) (max_bytes : ℕ)
      → safe_directory fs.kind root (directory_text d) ≡ ok real
      → inspect clock fs policy max_duration_ms reads real ≡ ok seen
      → IsObserved clock fs policy max_duration_ms root (line_of d max_bytes seen)
  unfolding inspect
  line_seen root d reads none seen max_bytes opened h =
      let same = sym (ok-eq h) in
      no_directory opened (ap (λ v. v.0.files) same) (ap (λ v. v.0.bytes) same) (ap (λ v. v.1) same)
  line_seen root d reads (some real) seen max_bytes opened h = elim (caught-cases _ seen h) [
    | inl (s, whole, same) ↦
        let (files, bytes) = usage_of-total s.seen (record { files = 0; bytes = 0 }) in
        scanned real reads s opened whole
          (omega (arith, ap (λ (v : Usage × Bool × ℕ). v.0.files) same, files))
          (omega (arith, ap (λ (v : Usage × Bool × ℕ). v.0.bytes) same, bytes)) (ap (λ v. v.1) same)
    | inr (fault, cut, bound, same) ↦
        let (files, bytes) = usage_of-total fault.at.seen (record { files = 0; bytes = 0 }) in
        cut_short real reads fault opened cut bound
          (omega (arith, ap (λ (v : Usage × Bool × ℕ). v.0.files) same, files))
          (omega (arith, ap (λ (v : Usage × Bool × ℕ). v.0.bytes) same, bytes)) (ap (λ v. v.1) same)
  ]

  directory_status-IsRight :
      (root : Text) (d : CanonicalDirectory) (reads : ℕ) (q : QuotaStatus × ℕ)
      → directory_status clock fs policy max_duration_ms root d reads ≡ ok q
      → (q.0.directory ≡ d) × IsRight clock fs policy max_duration_ms root q.0
  unfolding directory_status
  directory_status-IsRight root d reads q h =
      on_ok (safe_directory fs.kind root (directory_text d)) h λ real opened h1.
        on_ok (inspect clock fs policy max_duration_ms reads real) h1 λ seen inspected h2.
          on_ok (some_or (quota_of policy.quotas d) no_quota) h2 λ max_bytes found same.
            let small = inspect-IsSmall clock fs policy max_duration_ms reads real seen inspected in
            subst
              (λ (v : QuotaStatus × ℕ).
                (v.0.directory ≡ d) × IsRight clock fs policy max_duration_ms root v.0)
              (ok-eq same)
              (
                refl,
                record {
                  seen = line_seen root d reads real seen max_bytes opened inspected;
                  few = small.few;
                  small = small.small;
                  quota = some_or-eq-ok (quota_of policy.quotas d) no_quota found;
                  within = refl;
                },
              )

  statuses-Report :
      (root : Text) (ds : List CanonicalDirectory) (reads : ℕ) (qs : List QuotaStatus)
      → statuses clock fs policy max_duration_ms root ds reads ≡ ok qs
      → Report clock fs policy max_duration_ms root ds qs
  unfolding statuses
  statuses-Report root [] reads qs h =
      subst (Report clock fs policy max_duration_ms root []) (ok-eq h) no_line
  statuses-Report root (d ∷ ds) reads qs h =
      on_ok (directory_status clock fs policy max_duration_ms root d reads) h λ here first h1.
        on_ok (statuses clock fs policy max_duration_ms root ds here.1) h1 λ others rest same.
          let (named, right) = directory_status-IsRight root d reads here first in
          subst (Report clock fs policy max_duration_ms root (d ∷ ds)) (ok-eq same)
            (line named right (statuses-Report root ds here.1 others rest))

  -- A quota report that returns has one line for each canonical directory in their order, each
  -- with the directory's quota, with a usage within the bounds of the scan, and within quota
  -- exactly when it is complete and its bytes are at most the quota. A line is complete exactly
  -- when there is no such directory, and then it counts nothing, or when the scan of it
  -- returned; it is incomplete when the scan exceeded a bound; and it counts the files that the
  -- scan has seen.
  pub workspace_quota_status-Report :
      (root : Text) (qs : List QuotaStatus)
      → workspace_quota_status clock fs policy max_duration_ms root ≡ ok qs
      → Report clock fs policy max_duration_ms root canonical_workspace_directories qs
  unfolding workspace_quota_status
  workspace_quota_status-Report root qs h =
      on_guard (leb max_duration_ms max_safe_integer && ltb 0 max_duration_ms) bad_duration h
        λ _ h1. statuses-Report root canonical_workspace_directories 0 qs h1
