-- ===== src/Migrate/Writes.antt =====
-- How a write of src/control-migrate.ts ends.
use mathlib.Core.Bool.{false, true}
use mazzy_command_center.Prelude.{refl, err-eq, ok-eq, text_eq, ◌≡◌, if◌then◌else◌}
use mazzy_command_center.Endpoint.{
  invalid, rolled_back, cutover, promoted, promoting, verified, prepared, no_journal, journal_text,
  journal_with, state_of_text, read_journal, JournalState,
}
use mazzy_command_center.Migrate.{
  cannot_make_directory, busy, acquired, undefined, thrown, returned, LockAnswer, Reply, under_lock,
  with_paths, some, err, ok, if◌then◌else◌, World, read_journal, Bool, JournalState, write_journal,
}

abbrev pub journaled : JournalState → World → World
journaled state w = record w {
  evidence = record w.evidence { journal = journal_with (some (journal_text state)) };
}

pub read_journal-text : (s : JournalState) → read_journal (journal_with (some (journal_text s))) ≡ s
unfolding read_journal state_of_text text_eq
read_journal-text no_journal = refl
read_journal-text prepared = refl
read_journal-text verified = refl
read_journal-text promoting = refl
read_journal-text promoted = refl
read_journal-text cutover = refl
read_journal-text rolled_back = refl
read_journal-text invalid = refl

pub if-ok :
    {E : Type 0} (test : Bool) (a : World) (e : E) {c : World}
    → (if test then ok a else err e) ≡ ok c
    → a ≡ c
if-ok true a e h = ok-eq h
if-ok false a e h = absurd (cc)

pub if-err :
    (test : Bool) (a b : World) {c : World} → (if test then ok a else err b) ≡ err c → b ≡ c
if-err true a b h = absurd (cc)
if-err false a b h = err-eq h

pub write_journal-ok :
    (writes : JournalState → Bool) (state : JournalState) (w : World) {done : World}
    → write_journal writes state w ≡ ok done
    → journaled state w ≡ done
unfolding write_journal
write_journal-ok writes state w h = if-ok (writes state) (journaled state w) w h

pub write_journal-err :
    (writes : JournalState → Bool) (state : JournalState) (w : World) {there : World}
    → write_journal writes state w ≡ err there
    → w ≡ there
unfolding write_journal
write_journal-err writes state w h = if-err (writes state) (journaled state w) w h

-- What holds of the operation itself, of a refusal and of no answer holds under the lock.
pub locked-holds {ℓ} :
    {A : Type ℓ} (P : World × Reply A → Type 0) (trusted : Bool) (lock : LockAnswer) (apply : Bool)
    (refusal : A) (operation : World → World × Reply A) (w : World)
    → P (operation w)
    → P (w, returned refusal)
    → P (w, thrown)
    → P (w, undefined)
    → P (with_paths trusted (under_lock lock apply refusal operation) w)
unfolding with_paths under_lock
locked-holds P false lock apply refusal operation w runs refuses throws nothing = nothing
locked-holds P true lock false refusal operation w runs refuses throws nothing = runs
locked-holds P true acquired true refusal operation w runs refuses throws nothing = runs
locked-holds P true busy true refusal operation w runs refuses throws nothing = refuses
locked-holds P true cannot_make_directory true refusal operation w runs refuses throws nothing =
    throws
