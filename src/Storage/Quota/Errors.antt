-- ===== src/Storage/Quota/Errors.antt =====
-- Which errors the quota report of src/storage-policy.ts lets through.
use mazzy_command_center.Prelude.{[], ◌∷◌}
use mazzy_command_center.Storage.Policy.{quota_of}
use mazzy_command_center.AntiTunnel.{join_path}
use mathlib.Core.Path.{sym, subst}
use mazzy_command_center.Prelude.{
  if◌then◌else◌, ltb, ◌&&◌, refl, some, codes, ◌∷◌, inr, none, err-eq, inl, leb, on_err, ok,
  Bool-cases, ok_of_err, false, err, ◌≡◌,
}
use mazzy_command_center.Storage.Quota.{
  quota_of, caught, is_bound_error, ScanState, some_or, Fault, Option, Result,
  workspace_quota_status, statuses, directory_status, inspect,
}
use mazzy_command_center.Storage.Scan.{
  not_directory, inside, split_parts, real_directory, missing, ScanState, Fault, PathKind,
  FileSystem, walk_parts, enter, safe_directory,
}
use mazzy_command_center.Storage.{
  path_escapes, canonical_workspace_directories, max_safe_integer, not_real_directory,
  directory_text, no_quota, List, StorageError, CanonicalDirectory, Text, ℕ, StoragePolicy,
}

-- The error of a scan's bound ends no report: the directory's line says that it is incomplete.
caught-error :
    (r : Result Fault ScanState) (e : StorageError) → caught r ≡ err e → is_bound_error e ≡ false
caught-error (ok s) e h = cc
caught-error (err fault) e h = elim (Bool-cases (is_bound_error fault.error)) [
  | inl bound ↦ absurd (ok_of_err (sym (rw (caught, bound) at h)))
  | inr other ↦ subst (λ d. is_bound_error d ≡ false) (err-eq (rw (caught, other) at h)) other
]

some_or-error :
    (o : Option ℕ) (e : StorageError) → some_or o no_quota ≡ err e → is_bound_error e ≡ false
some_or-error none e h = subst (λ d. is_bound_error d ≡ false) (err-eq h) refl
some_or-error (some n) e h = absurd (ok_of_err (sym h))

enter-error :
    (kind : Text → PathKind) (root path : Text) (e : StorageError)
    → enter kind root path ≡ err e
    → is_bound_error e ≡ false
unfolding enter
enter-error kind root path e h = go (kind path) h
  where
    go :
        (k : PathKind)
        → ◌≡◌ {A = Result StorageError (Option Text)}
            (elim k [
              | missing ↦ ok none
              | not_directory ↦ err not_real_directory
              | real_directory real ↦ if inside root real then ok (some real) else err path_escapes
            ])
            (err e)
        → is_bound_error e ≡ false
    go missing h = absurd (ok_of_err (sym h))
    go not_directory h = subst (λ d. is_bound_error d ≡ false) (err-eq h) refl
    go (real_directory real) h = elim (Bool-cases (inside root real)) [
      | inl within ↦ absurd (ok_of_err (sym (rw within at h)))
      | inr outside ↦ subst (λ d. is_bound_error d ≡ false) (err-eq (rw outside at h)) refl
    ]

entered-error :
    (entered : Option Text) (next : Text → Result StorageError (Option Text)) (e : StorageError)
    → ((real : Text) → next real ≡ err e → is_bound_error e ≡ false)
    → ◌≡◌ {A = Result StorageError (Option Text)}
        (elim entered [ none ↦ ok none | some real ↦ next real ])
        (err e)
    → is_bound_error e ≡ false
entered-error none next e k h = absurd (ok_of_err (sym h))
entered-error (some real) next e k h = k real h

walk_parts-error :
    (kind : Text → PathKind) (root current : Text) (parts : List Text) (e : StorageError)
    → walk_parts kind root current parts ≡ err e
    → is_bound_error e ≡ false
unfolding walk_parts
walk_parts-error kind root current [] e h = absurd (ok_of_err (sym h))
walk_parts-error kind root current (part ∷ parts) e h =
    on_err (enter kind root (join_path current part)) h
      (λ thrown. enter-error kind root (join_path current part) e thrown)
      λ entered _ h1.
        entered-error entered (λ real. walk_parts kind root real parts) e
          (λ real. walk_parts-error kind root real parts e) h1

safe_directory-error :
    (kind : Text → PathKind) (root name : Text) (e : StorageError)
    → safe_directory kind root name ≡ err e
    → is_bound_error e ≡ false
unfolding safe_directory
safe_directory-error kind root name e h =
    on_err (enter kind root (join_path root (codes ".mazzy"))) h
      (λ thrown. enter-error kind root (join_path root (codes ".mazzy")) e thrown)
      λ entered _ h1.
        entered-error entered
          (λ real. walk_parts kind real real ((split_parts name).0 ∷ (split_parts name).1)) e
          (λ real. walk_parts-error kind real real _ e) h1

module _ (clock : ℕ → ℕ) (fs : FileSystem) (policy : StoragePolicy) (max_duration_ms : ℕ) where
  inspect-error :
      (reads : ℕ) (real : Option Text) (e : StorageError)
      → inspect clock fs policy max_duration_ms reads real ≡ err e
      → is_bound_error e ≡ false
  unfolding inspect
  inspect-error reads none e h = absurd (ok_of_err (sym h))
  inspect-error reads (some real) e h = caught-error _ e h

  directory_status-error :
      (root : Text) (d : CanonicalDirectory) (reads : ℕ) (e : StorageError)
      → directory_status clock fs policy max_duration_ms root d reads ≡ err e
      → is_bound_error e ≡ false
  unfolding directory_status
  directory_status-error root d reads e h =
      on_err (safe_directory fs.kind root (directory_text d)) h
        (λ thrown. safe_directory-error fs.kind root (directory_text d) e thrown)
        λ real _ h1.
          on_err (inspect clock fs policy max_duration_ms reads real) h1
            (λ thrown. inspect-error reads real e thrown)
            λ seen _ h2.
              on_err (some_or (quota_of policy.quotas d) no_quota) h2
                (λ thrown. some_or-error (quota_of policy.quotas d) e thrown)
                λ n _ h3. absurd (ok_of_err (sym h3))

  statuses-error :
      (root : Text) (ds : List CanonicalDirectory) (reads : ℕ) (e : StorageError)
      → statuses clock fs policy max_duration_ms root ds reads ≡ err e
      → is_bound_error e ≡ false
  unfolding statuses
  statuses-error root [] reads e h = absurd (ok_of_err (sym h))
  statuses-error root (d ∷ ds) reads e h =
      on_err (directory_status clock fs policy max_duration_ms root d reads) h
        (λ thrown. directory_status-error root d reads e thrown)
        λ here _ h1.
          on_err (statuses clock fs policy max_duration_ms root ds here.1) h1
            (λ thrown. statuses-error root ds here.1 e thrown)
            λ others _ h2. absurd (ok_of_err (sym h2))

  -- The error of a scan whose bounds are exceeded never ends a quota report.
  pub workspace_quota_status-error :
      (root : Text) (e : StorageError)
      → workspace_quota_status clock fs policy max_duration_ms root ≡ err e
      → is_bound_error e ≡ false
  unfolding workspace_quota_status
  workspace_quota_status-error root e h =
      elim (Bool-cases (leb max_duration_ms max_safe_integer && ltb 0 max_duration_ms)) [
        | inl good ↦
            statuses-error root canonical_workspace_directories 0 e
              (rw (workspace_quota_status, good) at h)
        | inr bad ↦
            subst (λ d. is_bound_error d ≡ false) (err-eq (rw (workspace_quota_status, bad) at h))
              refl
      ]
