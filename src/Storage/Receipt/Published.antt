-- ===== src/Storage/Receipt/Published.antt =====
-- What a receipt of src/storage-policy.ts leaves behind, and which result it accepts.
use mazzy_command_center.Storage.Cleanup.Exact.{cleanup_mazzy_storage-IsAccounted}
use mathlib.Core.Path.{subst}
use mazzy_command_center.Storage.Policy.Bounds.{IsUsable}
use mazzy_command_center.Storage.Scan.{Found, FileSystem}
use mazzy_command_center.Storage.Cleanup.{
  cleanup_mazzy_storage, CleanupOptions, Later, CleanupResult,
}
use mazzy_command_center.Storage.{
  receipt_counters_error, max_policy_value, max_scan_files, receipt_version, policy_version,
  no_descriptor_paths, max_safe_integer, StoragePolicy, bad_timestamp, io_error, not_regular,
  StorageError,
}
use mazzy_command_center.Storage.Receipt.{
  write_part, written, Attempt, is_counter, checked_receipt_directory, recheck, Counters,
  receipt_counters, prepared, write_cleanup_receipt, stopped, CleanupResult, attempt,
  close_directory, unlink_temporary, rename_temporary, create_temporary, ReceiptHost,
  open_directory, StorageError, write_temporary, publish, finally_close, Effect, Receipt,
}
use mazzy_command_center.Prelude.{if◌then◌else◌}
use mazzy_command_center.Prelude.{
  is_ok-cases, ok-eq, ◌||◌, ltb, not, ◌&&◌, on_ok, leb, on_guard, ◌⊎◌, ℕ, Bool, true, false, List,
  [], ◌∷◌, ◌++◌, Option, none, some, ◌≡◌, ◌≤◌, inl, inr, refl, sym, arith, Text, ok, err,
  Result-cases, Bool-cases,
}

-- The state of the manifest directory's descriptor and of the files, after some effects. A file
-- that does not hold the whole text of a receipt is `some none`.
pub record Disk : Type 0 where
  pub opened : Bool
  pub temporary : Option (Option Receipt)
  pub published : Option (Option Receipt)

abbrev pub replay_one : Effect → Disk → Disk
replay_one open_directory d = record d { opened = true }
replay_one create_temporary d = record d { temporary = some none }
replay_one (write_temporary r) d = record d { temporary = some (some r) }
replay_one (write_part r) d = record d { temporary = some none }
replay_one rename_temporary d = record d { published = d.temporary; temporary = none }
replay_one unlink_temporary d = record d { temporary = none }
replay_one close_directory d = record d { opened = false }

abbrev pub replay : List Effect → Disk → Disk
replay [] d = d
replay (e ∷ es) d = replay es (replay_one e d)

abbrev pub clean_disk : Disk
clean_disk = record { opened = false; temporary = none; published = none }

-- The end of an attempt: the directory is closed, no temporary file is left unless its removal
-- failed, and what is published is the receipt, whole unless the write was short.
record IsTidy (whole unlinks : Bool) (receipt : Receipt) (r : Option StorageError × List Effect)
    : Type 0 where
  closed : (replay r.1 clean_disk).opened ≡ false
  no_temporary : ((replay r.1 clean_disk).temporary ≡ none) ⊎ (unlinks ≡ false)
  outcome :
      (((replay r.1 clean_disk).published ≡ none) × ((e : StorageError) × (r.0 ≡ some e)))
      ⊎ ((replay r.1 clean_disk).published ≡ some (if whole then some receipt else none))

-- The attempts that stop before the rename.
module _ (receipt : Receipt) (e : StorageError) where
  unwritten-IsTidy :
      (whole unlinks temporary : Bool)
      → IsTidy whole unlinks receipt (finally_close unlinks (stopped e [] temporary))
  unfolding finally_close
  unwritten-IsTidy whole true true = record {
    closed = refl;
    no_temporary = inl refl;
    outcome = inl (refl, (e, refl));
  }
  unwritten-IsTidy whole false true = record {
    closed = refl;
    no_temporary = inl refl;
    outcome = inl (refl, (e, refl));
  }
  unwritten-IsTidy whole unlinks false = record {
    closed = refl;
    no_temporary = inl refl;
    outcome = inl (refl, (e, refl));
  }

  created-IsTidy :
      (whole unlinks : Bool)
      → IsTidy whole unlinks receipt
          (finally_close unlinks (stopped e (create_temporary ∷ []) true))
  unfolding finally_close
  created-IsTidy whole true = record {
    closed = refl;
    no_temporary = inl refl;
    outcome = inl (refl, (e, refl));
  }
  created-IsTidy whole false = record {
    closed = refl;
    no_temporary = inr refl;
    outcome = inl (refl, (e, refl));
  }

  written-IsTidy :
      (whole unlinks : Bool)
      → IsTidy whole unlinks receipt
          (finally_close unlinks (stopped e (written whole receipt) true))
  unfolding finally_close
  written-IsTidy true true = record {
    closed = refl;
    no_temporary = inl refl;
    outcome = inl (refl, (e, refl));
  }
  written-IsTidy false true = record {
    closed = refl;
    no_temporary = inl refl;
    outcome = inl (refl, (e, refl));
  }
  written-IsTidy true false = record {
    closed = refl;
    no_temporary = inr refl;
    outcome = inl (refl, (e, refl));
  }
  written-IsTidy false false = record {
    closed = refl;
    no_temporary = inr refl;
    outcome = inl (refl, (e, refl));
  }

abbrev renamed : Bool → Receipt → Option StorageError → Attempt
renamed whole receipt error = record {
  error = error;
  log = written whole receipt ++ rename_temporary ∷ [];
  temporary = false;
}

renamed-IsTidy :
    (whole unlinks : Bool) (receipt : Receipt) (error : Option StorageError)
    → IsTidy whole unlinks receipt (finally_close unlinks (renamed whole receipt error))
unfolding finally_close
renamed-IsTidy true unlinks receipt error = record {
  closed = refl;
  no_temporary = inl refl;
  outcome = inr refl;
}
renamed-IsTidy false unlinks receipt error = record {
  closed = refl;
  no_temporary = inl refl;
  outcome = inr refl;
}

module _ (host : ReceiptHost) (root : Text) (checked : Text × Text) (receipt : Receipt) where
  abbrev Tidy : Attempt → Type 0
  Tidy a = IsTidy host.whole host.unlinks receipt (finally_close host.unlinks a)

  publish-IsTidy : Tidy (publish host root checked receipt)
  unfolding publish
  publish-IsTidy = elim (Bool-cases host.temporary_regular) [
    | inr odd ↦
        subst Tidy (sym (simp (publish, odd)))
          (written-IsTidy receipt not_regular host.whole host.unlinks)
    | inl regular ↦ elim (Result-cases (recheck host.before_rename root checked)) [
      | inl (e, changed) ↦
          subst Tidy (sym (simp (publish, regular, changed)))
            (written-IsTidy receipt e host.whole host.unlinks)
      | inr (u, same) ↦ elim (Bool-cases host.renames) [
        | inr failed ↦
            subst Tidy (sym (simp (publish, regular, same, failed)))
              (written-IsTidy receipt io_error host.whole host.unlinks)
        | inl done ↦ subst Tidy (sym (simp (publish, regular, same, done))) (
            renamed-IsTidy host.whole host.unlinks receipt
              (if host.target_regular then none else some not_regular))
      ]
    ]
  ]

  attempt-IsTidy : Tidy (attempt host root checked receipt)
  unfolding attempt
  attempt-IsTidy = elim (Result-cases (recheck host.before_write root checked)) [
    | inl (e, changed) ↦
        subst Tidy (sym (simp (attempt, changed)))
          (unwritten-IsTidy receipt e host.whole host.unlinks false)
    | inr (u, same) ↦ elim (Bool-cases host.creates) [
      | inr failed ↦
          subst Tidy (sym (simp (attempt, same, failed)))
            (unwritten-IsTidy receipt io_error host.whole host.unlinks true)
      | inl made ↦ elim (Bool-cases host.writes) [
        | inr failed ↦
            subst Tidy (sym (simp (attempt, same, made, failed)))
              (created-IsTidy receipt io_error host.whole host.unlinks)
        | inl wrote ↦ subst Tidy (sym (simp (attempt, same, made, wrote))) publish-IsTidy
      ]
    ]
  ]

-- A receipt that is written whole, and holds the counters of the result.
abbrev pub Holds : CleanupResult → Text → Receipt → Type 0
Holds result timestamp r =
    (r.version ≡ result.version)
    × (r.timestamp ≡ timestamp)
    × (r.counters.freed_files ≡ result.tmp.freed_files)
    × (r.counters.freed_bytes ≡ result.tmp.freed_bytes)

receipt_counters-eq :
    (result : CleanupResult) (c : Counters)
    → receipt_counters result ≡ ok c
    → (c.freed_files ≡ result.tmp.freed_files) × (c.freed_bytes ≡ result.tmp.freed_bytes)
unfolding receipt_counters
receipt_counters-eq result c h =
    on_guard
      (leb result.version max_safe_integer
        && not (ltb result.version 1 || ltb policy_version result.version))
      receipt_version h
      λ _ h1.
        on_guard
          (is_counter result.tmp.freed_files max_scan_files
            && is_counter result.tmp.freed_bytes max_policy_value)
          receipt_counters_error h1 λ _ same. rw (← ok-eq same) (refl, refl)

prepared-Holds :
    (host : ReceiptHost) (root : Text) (result : CleanupResult) (timestamp : Text)
    (ready : (Text × Text) × Receipt)
    → prepared host root result timestamp ≡ ok ready
    → Holds result timestamp ready.1
unfolding prepared
prepared-Holds host root result timestamp ready h =
    on_guard (host.timestamp_valid timestamp) bad_timestamp h λ _ h1.
      on_ok (receipt_counters result) h1 λ counters counted h2.
        on_ok (checked_receipt_directory host.at_first root) h2 λ checked _ h3.
          on_guard host.descriptor_paths no_descriptor_paths h3 λ _ h4.
            on_guard host.opens io_error h4 λ _ same.
              let (files, bytes) = receipt_counters-eq result counters counted in
              subst (λ (p : (Text × Text) × Receipt). Holds result timestamp p.1) (ok-eq same)
                (refl, refl, files, bytes)

-- What is left when the writer of a receipt ends: a dry result changes nothing, and else there is an
-- error or a receipt, whole unless the write was short.
pub record IsLeft (host : ReceiptHost) (result : CleanupResult) (timestamp : Text)
    (r : Option StorageError × List Effect) : Type 0 where
  pub closed : (replay r.1 clean_disk).opened ≡ false
  pub no_temporary : ((replay r.1 clean_disk).temporary ≡ none) ⊎ (host.unlinks ≡ false)
  pub published :
      (((replay r.1 clean_disk).published ≡ none)
        × (((result.dry_run ≡ true) × (r ≡ (none, []))) ⊎ ((e : StorageError) × (r.0 ≡ some e))))
      ⊎ ((w : Receipt) × ((replay r.1 clean_disk).published
            ≡ some (if host.whole then some w else none))
          × Holds result timestamp w)

module _ (host : ReceiptHost) (root : Text) (result : CleanupResult) (timestamp : Text) where
  write_cleanup_receipt_dry :
      result.dry_run ≡ true → write_cleanup_receipt host root result timestamp ≡ (none, [])
  unfolding write_cleanup_receipt
  write_cleanup_receipt_dry dry = simp (write_cleanup_receipt, dry)

  write_cleanup_receipt_early :
      (e : StorageError)
      → result.dry_run ≡ false
      → prepared host root result timestamp ≡ err e
      → write_cleanup_receipt host root result timestamp ≡ (some e, [])
  unfolding write_cleanup_receipt
  write_cleanup_receipt_early e wet h = simp (write_cleanup_receipt, wet, h)

  write_cleanup_receipt_ready :
      (ready : (Text × Text) × Receipt)
      → result.dry_run ≡ false
      → prepared host root result timestamp ≡ ok ready
      → write_cleanup_receipt host root result timestamp
        ≡ finally_close host.unlinks (attempt host root ready.0 ready.1)
  unfolding write_cleanup_receipt
  write_cleanup_receipt_ready ready wet h = simp (write_cleanup_receipt, wet, h)

-- However the writing of a receipt ends, the directory is closed, and no temporary file is left
-- unless its removal fails; and either no receipt is published, because the result is dry and
-- nothing was done or because an error is thrown, or the receipt with the counters of the
-- result is published, whole unless the write was short.
pub write_cleanup_receipt-IsLeft :
    (host : ReceiptHost) (root : Text) (result : CleanupResult) (timestamp : Text)
    → IsLeft host result timestamp (write_cleanup_receipt host root result timestamp)
unfolding write_cleanup_receipt
write_cleanup_receipt-IsLeft host root result timestamp = elim (Bool-cases result.dry_run) [
  | inl dry ↦
      subst (IsLeft host result timestamp)
        (sym (write_cleanup_receipt_dry host root result timestamp dry))
        (record { closed = refl; no_temporary = inl refl; published = inl (refl, inl (dry, refl)) })
  | inr wet ↦ elim (Result-cases (prepared host root result timestamp)) [
    | inl (e, early) ↦
        subst (IsLeft host result timestamp)
          (sym (write_cleanup_receipt_early host root result timestamp e wet early))
          (record { closed = refl; no_temporary = inl refl; published = inl (refl, inr (e, refl)) })
    | inr (ready, go_on) ↦
        let tidy = attempt-IsTidy host root ready.0 ready.1 in
        let right = prepared-Holds host root result timestamp ready go_on in
        subst (IsLeft host result timestamp)
          (sym (write_cleanup_receipt_ready host root result timestamp ready wet go_on))
          (record {
            closed = tidy.closed;
            no_temporary = tidy.no_temporary;
            published = elim tidy.outcome [
              | inl (nothing, failed) ↦ inl (nothing, inr failed)
              | inr published ↦ inr (ready.1, published, right)
            ];
          })
  ]
]

is_counter_small :
    (n maximum : ℕ) → n ≤ maximum → maximum ≤ max_safe_integer → is_counter n maximum ≡ true
unfolding is_counter
is_counter_small n maximum h k = ground arith

-- With a policy that is usable, as validation makes it, the receipt accepts the counters of
-- every result that a cleanup returns.
pub receipt_counters-cleanup :
    (clock : ℕ → ℕ) (fs : FileSystem) (policy : StoragePolicy) (later : Later) (root : Text)
    (options : CleanupOptions) (result : CleanupResult) (unlinked : List Found)
    → IsUsable policy
    → cleanup_mazzy_storage clock fs policy later root options ≡ ok (result, unlinked)
    → (c : Counters) × (receipt_counters result ≡ ok c)
unfolding receipt_counters
receipt_counters-cleanup clock fs policy later root options result unlinked usable h =
    let (_, version, a) =
      cleanup_mazzy_storage-IsAccounted clock fs policy later root options result unlinked h in
    let files : is_counter result.tmp.freed_files max_scan_files ≡ true =
      is_counter_small result.tmp.freed_files max_scan_files (omega (arith, a.few, usable.files))
        (omega arith) in
    let bytes : is_counter result.tmp.freed_bytes max_policy_value ≡ true =
      is_counter_small result.tmp.freed_bytes max_policy_value
        (omega (arith, a.small, usable.bytes)) (omega arith) in
    is_ok-cases (receipt_counters result) (simp (receipt_counters, version, files, bytes))
