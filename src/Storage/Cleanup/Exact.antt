-- ===== src/Storage/Cleanup/Exact.antt =====
-- Which files a cleanup of src/storage-policy.ts unlinks, and what it counts of them.
use mazzy_command_center.Prelude.{if◌then◌else◌}
use mathlib.Core.List.{append-nil, append_assoc}
use mathlib.Core.Path.{subst}
use mazzy_command_center.Storage.Scan.Bounded.{
  fresh_scan-counted, fresh_scan, end_of, total_size_last, length_last, total_size,
}
use mazzy_command_center.Storage.Scan.{ScanState, Fault, FileSystem, inside, safe_directory, Found}
use mazzy_command_center.Storage.{
  policy_version, bad_clock, bad_duration, max_safe_integer, StorageError, candidate_changed,
  path_escapes, io_error, directory_disappeared, work_tmp, directory_text, StoragePolicy,
}
use mazzy_command_center.Storage.Cleanup.{
  duration_guard, stop, ScanState, before_deletion, seen_of, scan_tmp, CleanupResult, Fault,
  CleanupOptions, cleanup_mazzy_storage, empty_cleanup_result, delete_if, FileSystem, inside,
  Stopped, delete_candidates, safe_directory, is_eligible, is_unchanged, Later, Found,
  CleanupCategoryResult, check_candidate, note_file, note_files,
}
use mazzy_command_center.Prelude.{
  ltb, leb, guard, ◌>>=◌, ◌>>◌, not, ◌∙◌, guard-ok, on_guard, some_or, Result-cases, ℕ, suc, ◌+◌,
  Bool, true, false, List, [], ◌∷◌, ◌++◌, Option, none, some, ◌≡◌, ◌≤◌, inl, inr, refl, sym, arith,
  Text, Result, ok, err, on_ok, ok-eq, ok_of_err, Bool-cases, all_where, ◌&&◌, length,
}

-- A file that may be unlinked: old enough, and the same when it was examined again.
abbrev pub is_removable : StoragePolicy → ℕ → Later → Found → Bool
is_removable policy now later f = is_eligible policy now f && is_unchanged (later.stat f.0) f.1

all_where_last {ℓ} :
    {A : Type ℓ} (p : A → Bool) (xs : List A) (x : A)
    → all_where p xs ≡ true
    → p x ≡ true
    → all_where p (xs ++ x ∷ []) ≡ true
unfolding all_where
all_where_last p [] x h k = ground arith
all_where_last p (y ∷ xs) x h k = ground (arith, all_where_last p xs x)

-- The candidates are eligible, and the counters are theirs.
record IsNoted (policy : StoragePolicy) (now : ℕ) (r : CleanupCategoryResult × List Found)
    : Type 0 where
  old : all_where (is_eligible policy now) r.1 ≡ true
  count : r.0.eligible_files ≡ length r.1
  size : r.0.eligible_bytes ≡ total_size r.1
  none_freed : (r.0.freed_files ≡ 0) × (r.0.freed_bytes ≡ 0)
  some_of : (length r.1 ≤ r.0.files) × (total_size r.1 ≤ r.0.bytes)

note_file-IsNoted :
    (policy : StoragePolicy) (now : ℕ) (f : Found) (r : CleanupCategoryResult × List Found)
    → IsNoted policy now r
    → IsNoted policy now (note_file policy now f r)
unfolding note_file
note_file-IsNoted policy now f (r, candidates) n = elim (Bool-cases (is_eligible policy now f)) [
  | inl old ↦ rw old (record {
    old = all_where_last (is_eligible policy now) candidates f n.old old;
    count = omega (arith, n.count, length_last candidates f);
    size = omega (arith, n.size, total_size_last candidates f);
    none_freed = n.none_freed;
    some_of = (
      omega (arith, n.some_of.0, length_last candidates f),
      omega (arith, n.some_of.1, total_size_last candidates f),
    );
  })
  | inr recent ↦ rw recent (record {
    old = n.old;
    count = n.count;
    size = n.size;
    none_freed = n.none_freed;
    some_of = (omega (arith, n.some_of.0), omega (arith, n.some_of.1));
  })
]

note_files-IsNoted :
    (policy : StoragePolicy) (now : ℕ) (fs : List Found) (r : CleanupCategoryResult × List Found)
    → IsNoted policy now r
    → IsNoted policy now (note_files policy now fs r)
unfolding note_files
note_files-IsNoted policy now [] r n = n
note_files-IsNoted policy now (f ∷ fs) r n =
    note_files-IsNoted policy now fs (note_file policy now f r) (note_file-IsNoted policy now f r n)

check_candidate-unchanged :
    (root : Text) (later : Later) (f : Found) (u : Unit {0})
    → check_candidate root later f ≡ ok u
    → is_unchanged (later.stat f.0) f.1 ≡ true
unfolding check_candidate
check_candidate-unchanged root later f u h =
    on_ok (safe_directory later.kind root (directory_text work_tmp)) h λ category _ h1.
      on_ok (some_or category directory_disappeared) h1 λ category_root _ h2.
        on_ok (some_or (later.parent f.0) io_error) h2 λ parent _ h3.
          on_guard (inside category_root parent) path_escapes h3
            λ _ h4. guard-ok (is_unchanged (later.stat f.0) f.1) candidate_changed h4

-- The files that are unlinked when a cleanup ends, whether it returned or threw.
abbrev pub gone {ℓ} : {A : Type ℓ} → Result Stopped (A × List Found) → List Found
gone (ok r) = r.1
gone (err s) = s.unlinked

delete_candidates_stopped :
    (root : Text) (later : Later) (f : Found) (fs : List Found) (r : CleanupCategoryResult)
    (unlinked : List Found) (e : StorageError)
    → check_candidate root later f ≡ err e
    → delete_candidates root later (f ∷ fs) r unlinked
      ≡ err (record { error = e; unlinked = unlinked })
unfolding delete_candidates
delete_candidates_stopped root later f fs r unlinked e h = rw (delete_candidates, h)

delete_candidates_next :
    (root : Text) (later : Later) (f : Found) (fs : List Found) (r : CleanupCategoryResult)
    (unlinked : List Found) (u : Unit {0})
    → check_candidate root later f ≡ ok u
    → delete_candidates root later (f ∷ fs) r unlinked
      ≡ delete_candidates root later fs
          (record r { freed_files = suc r.freed_files; freed_bytes = r.freed_bytes + f.1.size })
          (unlinked ++ f ∷ [])
unfolding delete_candidates
delete_candidates_next root later f fs r unlinked u h = rw (delete_candidates, h)

delete_candidates-removable :
    (policy : StoragePolicy) (now : ℕ) (root : Text) (later : Later) (fs : List Found)
    (r : CleanupCategoryResult) (unlinked : List Found)
    → all_where (is_eligible policy now) fs ≡ true
    → all_where (is_removable policy now later) unlinked ≡ true
    → all_where (is_removable policy now later) (gone (delete_candidates root later fs r unlinked))
      ≡ true
unfolding delete_candidates all_where
delete_candidates-removable policy now root later [] r unlinked old done = done
delete_candidates-removable policy now root later (f ∷ fs) r unlinked old done =
    elim (Result-cases (check_candidate root later f)) [
      | inl (e, changed) ↦
          subst (λ end. all_where (is_removable policy now later) (gone end) ≡ true)
            (sym (delete_candidates_stopped root later f fs r unlinked e changed)) done
      | inr (u, checked) ↦
          subst (λ end. all_where (is_removable policy now later) (gone end) ≡ true)
            (sym (delete_candidates_next root later f fs r unlinked u checked))
            (delete_candidates-removable policy now root later fs _ (unlinked ++ f ∷ [])
              (ground arith)
              (all_where_last (is_removable policy now later) unlinked f done
                (ground (arith, check_candidate-unchanged root later f u checked))))
    ]

-- The counters after the deletion of some files, and the files.
record Freed (r : CleanupCategoryResult) (unlinked fs : List Found)
    (end : CleanupCategoryResult × List Found) : Type 0 where
  files : end.0.freed_files ≡ r.freed_files + length fs
  bytes : end.0.freed_bytes ≡ r.freed_bytes + total_size fs
  same_files : end.0.files ≡ r.files
  same_bytes : end.0.bytes ≡ r.bytes
  same_eligible :
      (end.0.eligible_files ≡ r.eligible_files) × (end.0.eligible_bytes ≡ r.eligible_bytes)
  listed : end.1 ≡ unlinked ++ fs

delete_candidates-Freed :
    (root : Text) (later : Later) (fs : List Found) (r : CleanupCategoryResult)
    (unlinked : List Found) (end : CleanupCategoryResult × List Found)
    → delete_candidates root later fs r unlinked ≡ ok end
    → Freed r unlinked fs end
unfolding delete_candidates
delete_candidates-Freed root later [] r unlinked end h =
    subst (Freed r unlinked []) (ok-eq h) (record {
      files = omega arith;
      bytes = omega arith;
      same_files = refl;
      same_bytes = refl;
      same_eligible = (refl, refl);
      listed = rw append-nil;
    })
delete_candidates-Freed root later (f ∷ fs) r unlinked end h =
    elim (Result-cases (check_candidate root later f)) [
      | inl (e, changed) ↦ absurd (ok_of_err (rw (delete_candidates, changed) at h))
      | inr (u, checked) ↦
          let k =
            delete_candidates-Freed root later fs _ (unlinked ++ f ∷ []) end
              (rw (delete_candidates, checked) at h) in
          record {
            files = omega (arith, k.files);
            bytes = omega (arith, k.bytes);
            same_files = k.same_files;
            same_bytes = k.same_bytes;
            same_eligible = k.same_eligible;
            listed = k.listed ∙ append_assoc unlinked (f ∷ []) fs;
          }
    ]

no_candidate : (policy : StoragePolicy) (now : ℕ) → IsNoted policy now (empty_cleanup_result, [])
unfolding all_where
no_candidate policy now = record {
  old = refl;
  count = refl;
  size = refl;
  none_freed = (refl, refl);
  some_of = (omega arith, omega arith);
}

delete_if-removable :
    (policy : StoragePolicy) (now : ℕ) (apply : Bool) (root : Text) (later : Later)
    (noted : CleanupCategoryResult × List Found)
    → all_where (is_eligible policy now) noted.1 ≡ true
    → all_where (is_removable policy now later) (gone (delete_if apply root later noted)) ≡ true
unfolding all_where
delete_if-removable policy now true root later noted old =
    delete_candidates-removable policy now root later noted.1 noted.0 [] old refl
delete_if-removable policy now false root later noted old = refl

-- Everything that is unlinked passes a test.
record Unlinks {ℓ} {A : Type ℓ} (p : Found → Bool) (m : Result Stopped (A × List Found))
    : Type 0 where
  only : all_where p (gone m) ≡ true

Unlinks-none {ℓ} : {A : Type ℓ} (p : Found → Bool) (e : StorageError) → Unlinks {A = A} p (stop e)
unfolding all_where
Unlinks-none p e = record { only = refl }

-- A chain whose first part unlinks nothing unlinks what its rest does.
Unlinks-after {ℓ κ} :
    {A : Type ℓ} {B : Type κ} (p : Found → Bool) (m : Result StorageError A)
    {f : A → Result Stopped (B × List Found)}
    → ((a : A) → Unlinks p (f a))
    → Unlinks p (before_deletion m >>= f)
Unlinks-after p (ok a) rest = rest a
Unlinks-after p (err e) rest = Unlinks-none p e

Unlinks-then {κ} :
    {B : Type κ} (p : Found → Bool) (m : Result StorageError (Unit {0}))
    {k : Result Stopped (B × List Found)}
    → Unlinks p k
    → Unlinks p (before_deletion m >> k)
Unlinks-then p (ok a) rest = rest
Unlinks-then p (err e) rest = Unlinks-none p e

Unlinks-last {κ μ} :
    {A : Type κ} {B : Type μ} (p : Found → Bool) (m : Result Stopped (A × List Found)) (f : A → B)
    → all_where p (gone m) ≡ true
    → Unlinks p (m >>= λ done. ok (f done.0, done.1))
Unlinks-last p (ok a) f done = record { only = done }
Unlinks-last p (err s) f done = record { only = done }

module _ (clock : ℕ → ℕ) (fs : FileSystem) (policy : StoragePolicy) (later : Later) where
  cleanup_mazzy_storage-Unlinks :
      (root : Text) (options : CleanupOptions)
      → Unlinks
          (is_removable policy options.now later)
          (cleanup_mazzy_storage clock fs policy later root options)
  unfolding cleanup_mazzy_storage
  cleanup_mazzy_storage-Unlinks root options =
      let removable = is_removable policy options.now later in
      Unlinks-then removable
        (guard (leb options.max_duration_ms max_safe_integer && ltb 0 options.max_duration_ms)
          bad_duration)
        (Unlinks-then removable (guard (leb options.now max_safe_integer) bad_clock) (
          Unlinks-after removable (scan_tmp clock fs policy root options.max_duration_ms) λ seen.
            let noted = note_files policy options.now seen (empty_cleanup_result, []) in
            let old =
              note_files-IsNoted policy options.now seen (empty_cleanup_result, [])
                (no_candidate policy options.now) in
            Unlinks-last removable (delete_if options.apply root later noted)
              (λ tmp. record { dry_run = not options.apply; version = policy_version; tmp = tmp })
              (delete_if-removable policy options.now options.apply root later noted old.old)))

  -- Whether a cleanup returns or throws, every file that it unlinked was older than the
  -- policy's age and was found unchanged, by device, inode, size and time, when it was examined
  -- again.
  pub cleanup_mazzy_storage-removable :
      (root : Text) (options : CleanupOptions)
      → all_where
          (is_removable policy options.now later)
          (gone (cleanup_mazzy_storage clock fs policy later root options))
        ≡ true
  cleanup_mazzy_storage-removable root options = (cleanup_mazzy_storage-Unlinks root options).only

-- What a cleanup counts.
pub record IsAccounted (policy : StoragePolicy) (apply : Bool) (tmp : CleanupCategoryResult)
    (unlinked : List Found) : Type 0 where
  pub freed : tmp.freed_files ≡ length unlinked
  pub freed_size : tmp.freed_bytes ≡ total_size unlinked
  pub files : tmp.freed_files ≡ (if apply then tmp.eligible_files else 0)
  pub bytes : tmp.freed_bytes ≡ (if apply then tmp.eligible_bytes else 0)
  pub few : (tmp.freed_files ≤ tmp.eligible_files) × (tmp.eligible_files ≤ policy.scan_max_files)
  pub small : (tmp.freed_bytes ≤ tmp.eligible_bytes) × (tmp.eligible_bytes ≤ policy.scan_max_bytes)

note_file-files :
    (policy : StoragePolicy) (now : ℕ) (f : Found) (r : CleanupCategoryResult × List Found)
    → ((note_file policy now f r).0.files ≡ suc r.0.files)
      × ((note_file policy now f r).0.bytes ≡ r.0.bytes + f.1.size)
unfolding note_file
note_file-files policy now f (r, candidates) = elim (Bool-cases (is_eligible policy now f)) [
  | inl old ↦ rw old (refl, refl)
  | inr recent ↦ rw recent (refl, refl)
]

note_files-files :
    (policy : StoragePolicy) (now : ℕ) (fs : List Found) (r : CleanupCategoryResult × List Found)
    → ((note_files policy now fs r).0.files ≡ r.0.files + length fs)
      × ((note_files policy now fs r).0.bytes ≡ r.0.bytes + total_size fs)
unfolding note_files
note_files-files policy now [] r = (omega arith, omega arith)
note_files-files policy now (f ∷ fs) r =
    let (files, bytes) = note_files-files policy now fs (note_file policy now f r) in
    let (one, size) = note_file-files policy now f r in
    (omega (arith, files, one), omega (arith, bytes, size))

seen_of-end :
    (r : Result Fault ScanState) (seen : List Found) → seen_of r ≡ ok seen → (end_of r).seen ≡ seen
seen_of-end (ok s) seen h = ok-eq h
seen_of-end (err fault) seen h = absurd (ok_of_err h)

scan_tmp-bounds :
    (clock : ℕ → ℕ) (fs : FileSystem) (policy : StoragePolicy) (root : Text) (max_duration_ms : ℕ)
    (seen : List Found)
    → scan_tmp clock fs policy root max_duration_ms ≡ ok seen
    → (length seen ≤ policy.scan_max_files) × (total_size seen ≤ policy.scan_max_bytes)
unfolding scan_tmp
scan_tmp-bounds clock fs policy root max_duration_ms seen h =
    on_ok (safe_directory fs.kind root (directory_text work_tmp)) h λ real _ h1. go real h1
  where
    go :
        (real : Option Text)
        → ◌≡◌ {A = Result StorageError (List Found)}
            (elim real [
              | none ↦ ok []
              | some real ↦
                  seen_of (fresh_scan clock policy max_duration_ms 0 (fs.listing real) real)
            ])
            (ok seen)
        → (length seen ≤ policy.scan_max_files) × (total_size seen ≤ policy.scan_max_bytes)
    go none k = rw (← ok-eq k) (omega arith, omega arith)
    go (some real) k =
        let (few, small, _, _) =
          fresh_scan-counted clock policy max_duration_ms 0 (fs.listing real) real in
        rw (← seen_of-end _ seen k) (few, small)

after {ℓ κ μ} :
    {A : Type ℓ} {B : Type κ} {C : Type μ} (m : Result StorageError A) {f : A → Result Stopped B}
    {b : B}
    → (before_deletion m >>= f) ≡ ok b
    → ((a : A) → m ≡ ok a → f a ≡ ok b → C)
    → C
after (ok a) h k = k a refl h
after (err e) h k = absurd (ok_of_err h)

after_guard {κ μ} :
    {B : Type κ} {C : Type μ} (m : Result StorageError (Unit {0})) {k : Result Stopped B} {b : B}
    → (before_deletion m >> k) ≡ ok b
    → (k ≡ ok b → C)
    → C
after_guard (ok a) h k = k h
after_guard (err e) h k = absurd (ok_of_err h)

delete_if-IsAccounted :
    (policy : StoragePolicy) (now : ℕ) (apply : Bool) (root : Text) (later : Later)
    (noted done : CleanupCategoryResult × List Found)
    → IsNoted policy now noted
    → (noted.0.files ≤ policy.scan_max_files) × (noted.0.bytes ≤ policy.scan_max_bytes)
    → delete_if apply root later noted ≡ ok done
    → IsAccounted policy apply done.0 done.1
delete_if-IsAccounted policy now true root later noted done n within h =
    let k = delete_candidates-Freed root later noted.1 noted.0 [] done h in
    record {
      freed = rw k.listed (omega (arith, k.files, n.none_freed.0));
      freed_size = rw k.listed (omega (arith, k.bytes, n.none_freed.1));
      files = omega (arith, k.files, n.none_freed.0, n.count, k.same_eligible.0);
      bytes = omega (arith, k.bytes, n.none_freed.1, n.size, k.same_eligible.1);
      few = ground (arith, k.files, n.none_freed, n.count, k.same_eligible, n.some_of, within);
      small = ground (arith, k.bytes, n.none_freed, n.size, k.same_eligible, n.some_of, within);
    }
delete_if-IsAccounted policy now false root later noted done n within h =
    subst (λ (d : CleanupCategoryResult × List Found). IsAccounted policy false d.0 d.1) (ok-eq h)
      (record {
        freed = n.none_freed.0;
        freed_size = n.none_freed.1;
        files = n.none_freed.0;
        bytes = n.none_freed.1;
        few = ground (arith, n.none_freed, n.count, n.some_of, within);
        small = ground (arith, n.none_freed, n.size, n.some_of, within);
      })

module _ (clock : ℕ → ℕ) (fs : FileSystem) (policy : StoragePolicy) (later : Later) where
  -- A cleanup that returns is dry unless it was applied; its freed counters are the number and
  -- the bytes of the unlinked files, equal to those of the eligible files if it was applied and
  -- 0 otherwise, and the eligible files are within the bounds of the scan.
  pub cleanup_mazzy_storage-IsAccounted :
      (root : Text) (options : CleanupOptions) (result : CleanupResult) (unlinked : List Found)
      → cleanup_mazzy_storage clock fs policy later root options ≡ ok (result, unlinked)
      → (result.dry_run ≡ not options.apply)
        × (result.version ≡ policy_version)
        × IsAccounted policy options.apply result.tmp unlinked
  unfolding cleanup_mazzy_storage
  cleanup_mazzy_storage-IsAccounted root options result unlinked h =
      after_guard (duration_guard options.max_duration_ms) h λ h1.
        after_guard (guard (leb options.now max_safe_integer) bad_clock) h1 λ h2.
          after (scan_tmp clock fs policy root options.max_duration_ms) h2 λ seen scanned h3.
            let noted = note_files policy options.now seen (empty_cleanup_result, []) in
            on_ok (delete_if options.apply root later noted) h3 λ done deleted same.
              let (few, small) =
                scan_tmp-bounds clock fs policy root options.max_duration_ms seen scanned in
              let (files, bytes) =
                note_files-files policy options.now seen (empty_cleanup_result, []) in
              let accounted =
                delete_if-IsAccounted policy options.now options.apply root later noted done
                  (note_files-IsNoted policy options.now seen (empty_cleanup_result, [])
                    (no_candidate policy options.now))
                  (omega (arith, few, files), omega (arith, small, bytes)) deleted in
              subst
                (λ (r : CleanupResult × List Found).
                  (r.0.dry_run ≡ not options.apply)
                  × (r.0.version ≡ policy_version)
                  × IsAccounted policy options.apply r.0.tmp r.1)
                (ok-eq same) (refl, refl, accounted)
