-- ===== src/Migrate.antt =====
-- src/control-migrate.ts: the promotion of the legacy store to the canonical one, the cutover, its
-- way back, and the rollback. This file has the stores and the comparisons of them. A database is
-- what is read of it; paths and the texts of the results are left out.
pub mod Drift
pub mod Apply
pub mod Cutover
pub mod Rollback
pub mod Writes
pub mod Kept
pub mod Selected
mod Tests
use Prim.Native.Nat.{zero}
use mazzy_command_center.Endpoint.{
  journal_text, journal_with, Checkout, Evidence, JournalState, JournalFile, WitnessFile, Stamp,
  is_promoted, read_journal,
}
use mazzy_command_center.Storage.Policy.{sort_texts, same_texts, text_leb}
use mazzy_command_center.Prelude.{
  err, ok, is_empty, suc, Result, ◌++◌, ℕ, Bool, true, false, List, [], ◌∷◌, Option, none, some,
  ◌&&◌, ◌||◌, not, ltb, ◌==◌, if◌then◌else◌, Text, map, length, count_where, any_where, find,
}

-- A row as `JSON.stringify` prints it, with its time where the table has such a column.
pub record Row : Type 0 where
  pub text : Text
  pub stamp : Option Text

pub record Table : Type 0 where
  pub timed : Bool
  pub rows : List Row

-- The tables of `CONTROL_TABLES` in their order, each of which a database may lack.
pub record Database : Type 0 where
  pub tables : List (Option Table)
  pub stamp : Option Stamp

pub data Store : Type 0 where
  no_store unreadable_store : Store
  store : Database → Store

abbrev pub exists : Store → Bool
exists no_store = false
exists unreadable_store = true
exists (store d) = true

abbrev pub count_of : Option Table → ℕ
count_of none = 0
count_of (some t) = length t.rows

-- `TABLES` with a count of 0 each.
abbrev pub no_rows : List ℕ
no_rows = 0 ∷ 0 ∷ 0 ∷ 0 ∷ 0 ∷ 0 ∷ 0 ∷ 0 ∷ []

unfoldable pub row_counts : Store → List ℕ
row_counts no_store = no_rows
row_counts unreadable_store = no_rows
row_counts (store d) = map count_of d.tables

abbrev pub row_texts : Table → List Text
row_texts t = map (λ (r : Row). r.text) t.rows

-- Both tables, or neither, and the same rows as often.
unfoldable pub same_table : Option Table → Option Table → Bool
same_table none none = true
same_table none (some b) = false
same_table (some a) none = false
same_table (some a) (some b) = same_texts (sort_texts (row_texts a)) (sort_texts (row_texts b))

unfoldable pub same_tables : List (Option Table) → List (Option Table) → Bool
same_tables [] [] = true
same_tables [] (b ∷ more) = false
same_tables (a ∷ rest) [] = false
same_tables (a ∷ rest) (b ∷ more) = same_table a b && same_tables rest more

unfoldable pub strict_control_parity : Store → Store → Bool
strict_control_parity (store a) (store b) = same_tables a.tables b.tables
strict_control_parity _ _ = false

unfoldable pub cutover_ready : Store → Store → JournalState → Bool
cutover_ready source target journal =
    exists source && exists target && is_promoted journal && strict_control_parity source target

-- The files that the operations change. The recovery images of a kind are in the order of their
-- names, which hold the time, the newest first.
pub record World : Type 0 where
  pub source : Store
  pub target : Store
  pub backup : Store
  pub evidence : Evidence
  pub apply_images : List Store
  pub rollback_images : List Store

pub data PlanStep : Type 0 where
  nothing_to_migrate copy_source back_up_target stamp_identity verify_integrity advance_journal :
      PlanStep

pub record MigrationPlan : Type 0 where
  pub source_present : Bool
  pub target_present : Bool
  pub journal : JournalState
  pub source_rows : List ℕ
  pub steps : List PlanStep

abbrev plan_steps : Bool → Bool → List PlanStep
plan_steps false target_present = nothing_to_migrate ∷ []
plan_steps true target_present =
    copy_source ∷ (if target_present then back_up_target ∷ [] else [])
    ++ stamp_identity ∷ verify_integrity ∷ advance_journal ∷ []

unfoldable pub plan_control_migration : World → MigrationPlan
plan_control_migration w = record {
  source_present = exists w.source;
  target_present = exists w.target;
  journal = read_journal w.evidence.journal;
  source_rows = row_counts w.source;
  steps = plan_steps (exists w.source) (exists w.target);
}

abbrev pub backup_retention : ℕ
backup_retention = 5

abbrev newest {ℓ} : {A : Type ℓ} → ℕ → List A → List A
newest zero images = []
newest (suc n) [] = []
newest (suc n) (image ∷ images) = image ∷ newest n images

-- `retainBackups`; a failure in it is not reported.
unfoldable pub retain_backups : Bool → List Store → List Store
retain_backups retains images = if retains then newest backup_retention images else images

-- What an operation gives back: `undefined`, an exception, or its result.
pub data Reply {ℓ} (A : Type ℓ) : Type ℓ where
  undefined thrown : Reply A
  returned : A → Reply A

pub data LockAnswer : Type 0 where
  acquired busy cannot_make_directory : LockAnswer

-- The wrappers: an operation that writes needs the paths and the lock, which it releases.
unfoldable pub under_lock {ℓ} :
    {A : Type ℓ} → LockAnswer → Bool → A → (World → World × Reply A) → World → World × Reply A
under_lock lock false refusal operation w = operation w
under_lock acquired true refusal operation w = operation w
under_lock busy true refusal operation w = (w, returned refusal)
under_lock cannot_make_directory true refusal operation w = (w, thrown)

-- `writeJournal`; where it throws, the old journal is kept.
unfoldable pub write_journal : (JournalState → Bool) → JournalState → World → Result World World
write_journal writes state w =
    if writes state
    then ok (record w {
      evidence = record w.evidence { journal = journal_with (some (journal_text state)) };
    })
    else err w

-- `resolvePaths`, as far as it depends on the world: a mutation of an untrusted tree is `undefined`.
unfoldable pub with_paths {ℓ} :
    {A : Type ℓ} → Bool → (World → World × Reply A) → World → World × Reply A
with_paths trusted operation w = if trusted then operation w else (w, undefined)

-- The guards of an operation return early, or the rest of it runs.
abbrev pub after_guards {ℓ} : {A : Type ℓ} → Option A → World × Reply A → World → World × Reply A
after_guards none rest w = rest
after_guards (some result) rest w = (w, returned result)
