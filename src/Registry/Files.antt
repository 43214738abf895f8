-- ===== src/Registry/Files.antt =====
-- The files of the registry in src/project-registry.ts: the private directory, the reading of a
-- private file, the lock and the removal of a stale one. What the calls return is data; an error by
-- which a call says that there is no entry is apart from the others.
pub mod Stale
use Prim.Native.Nat.{◌%◌}
use mazzy_command_center.Registry.{max_registry_bytes}
use mazzy_command_center.Registry.Parse.{RegistryError, domain_error, other_error}
use mazzy_command_center.Storage.{max_safe_integer}
use mazzy_command_center.Prelude.{
  is_empty, codes, is_some, ◌++◌, trim_or_none, ℕ, ◌+◌, Bool, true, false, List, [], ◌∷◌, Option,
  none, some, ◌&&◌, ◌||◌, not, ltb, leb, ◌==◌, if◌then◌else◌, Text, Result, ok, err, ◌>>=◌, ◌>>◌,
  guard, some_or,
}

pub record Stats : Type 0 where
  pub is_file : Bool
  pub is_directory : Bool
  pub is_link : Bool
  pub nlink : ℕ
  pub mode : ℕ
  pub uid : ℕ
  pub size : ℕ
  pub ino : ℕ
  pub mtime_ms : ℕ

pub data Look : Type 0 where
  found_at : Stats → Look
  no_entry_there failed_look : Look

-- `process.getuid()`, where the platform has it.
unfoldable pub is_private : Option ℕ → Bool → Stats → Bool
is_private getuid file s =
    (if file then s.is_file else s.is_directory)
    && not s.is_link
    && (not file || (s.nlink == 1))
    && (s.mode % 64 == 0)
    && elim getuid [ none ↦ true | some uid ↦ s.uid == uid ]

pub data DirectoryState : Type 0 where
  opened absent invalid unavailable : DirectoryState

pub data Mkdir : Type 0 where
  made already_there refused : Mkdir

-- What the calls say of one part of the path.
pub record PartSeen : Type 0 where
  pub lstat : Look
  pub stat : Look
  pub mkdir : Mkdir

-- What the calls say of the directory itself; the descriptor has a `stat` of its own.
pub record DirectorySeen : Type 0 where
  pub parts : List PartSeen
  pub lstat : Look
  pub descriptor : Option Stats
  pub chmod : Bool

unfoldable pub make_part : Mkdir → Option DirectoryState
make_part refused = some unavailable
make_part made = none
make_part already_there = none

unfoldable pub inner_part : PartSeen → Option DirectoryState
inner_part p = elim p.stat [
  | found_at s ↦ if s.is_directory then none else some invalid
  | no_entry_there ↦ make_part p.mkdir
  | failed_look ↦ some unavailable
]

-- One round of the loop over the parts: the state that it returns, if it returns.
unfoldable pub visit_part : Bool → PartSeen → Option DirectoryState
visit_part final p = elim p.lstat [
  | found_at s ↦
      if final
      then (if not s.is_directory || s.is_link then some invalid else none)
      else inner_part p
  | no_entry_there ↦ make_part p.mkdir
  | failed_look ↦ some unavailable
]

unfoldable pub visit_parts : List PartSeen → Option DirectoryState
visit_parts [] = none
visit_parts (p ∷ []) = visit_part true p
visit_parts (p ∷ q ∷ ps) = elim (visit_part false p) [
  | some state ↦ some state
  | none ↦ visit_parts (q ∷ ps)
]

unfoldable pub open_directory : Option ℕ → Bool → DirectorySeen → DirectoryState
open_directory getuid create d = elim d.lstat [
  | no_entry_there ↦ absent
  | failed_look ↦ unavailable
  | found_at s ↦ if not (is_private getuid false s) then invalid else elim d.descriptor [
    | none ↦ unavailable
    | some t ↦
        if not (is_private getuid false t)
        then invalid
        else if create && not d.chmod
        then unavailable
        else opened
  ]
]

unfoldable pub safe_directory : Option ℕ → Bool → DirectorySeen → DirectoryState
safe_directory getuid create d = elim (if create then visit_parts d.parts else none) [
  | some state ↦ state
  | none ↦ open_directory getuid create d
]

-- What the calls say of a file, with the content that is read from the descriptor.
pub record FileSeen : Type 0 where
  pub lstat : Look
  pub descriptor : Look
  pub content : Option Text

-- After the file was opened: it may have gone since.
unfoldable pub read_opened : Option ℕ → Look → Option Text → Result RegistryError (Option Text)
read_opened getuid no_entry_there content = ok none
read_opened getuid failed_look content = err other_error
read_opened getuid (found_at t) content = do
  guard (is_private getuid true t) domain_error
  read ← some_or content other_error
  ok (some read)

unfoldable pub read_private : Option ℕ → FileSeen → Result RegistryError (Option Text)
read_private getuid f = elim f.lstat [
  | no_entry_there ↦ ok none
  | failed_look ↦ err other_error
  | found_at s ↦
      guard (is_private getuid true s && leb s.size max_registry_bytes) domain_error
      >> read_opened getuid f.descriptor f.content
]

pub data LockState : Type 0 where
  locked busy lock_invalid lock_unavailable : LockState

pub data LockOpen : Type 0 where
  created exists loops fails : LockOpen

-- One round of the loop: the clock at its test, and what the calls say.
pub record LockRound : Type 0 where
  pub now : ℕ
  pub open_lock : LockOpen
  pub lstat : Look

-- How a round ends, unless it goes on.
unfoldable pub lock_round : Option ℕ → LockRound → Option LockState
lock_round getuid r = elim r.open_lock [
  | created ↦ some locked
  | loops ↦ some lock_invalid
  | fails ↦ some lock_unavailable
  | exists ↦ elim r.lstat [
    | found_at s ↦ if is_private getuid true s then none else some lock_invalid
    | no_entry_there ↦ none
    | failed_look ↦ some lock_unavailable
  ]
]

-- The rounds before the clock reaches `until`.
unfoldable pub acquire : Option ℕ → ℕ → List LockRound → LockState
acquire getuid until [] = busy
acquire getuid until (r ∷ rs) =
    let rest = acquire getuid until rs in
    if ltb r.now until
    then elim (lock_round getuid r) [ some state ↦ state | none ↦ rest ]
    else busy

pub data StaleReason : Type 0 where
  cleared lock_absent fresh lock_unreachable : StaleReason

pub record StaleHost : Type 0 where
  pub linux : Bool
  pub getuid : Option ℕ
  pub directory : Option DirectorySeen
  pub before : Look
  pub now : ℕ
  pub after : Look
  pub unlinks : Bool

-- Nothing but its access changed between the two looks.
unfoldable pub same_lock : Option ℕ → Stats → Stats → Bool
same_lock getuid a b =
    (a.ino == b.ino) && (a.mtime_ms == b.mtime_ms) && (a.size == b.size) && is_private getuid true b

unfoldable pub second_look : StaleHost → Stats → StaleReason
second_look host before = elim host.after [
  | found_at after ↦
      if not (same_lock host.getuid before after)
      then fresh
      else if host.unlinks
      then cleared
      else lock_unreachable
  | no_entry_there ↦ lock_unreachable
  | failed_look ↦ lock_unreachable
]

unfoldable pub first_look : StaleHost → ℕ → StaleReason
first_look host minimum_age_ms = elim host.before [
  | no_entry_there ↦ lock_absent
  | failed_look ↦ lock_unreachable
  | found_at before ↦
      if not (is_private host.getuid true before)
      then lock_unreachable
      else if ltb host.now (before.mtime_ms + minimum_age_ms)
      then fresh
      else second_look host before
]

unfoldable pub clear_stale_project_registry_lock : StaleHost → ℕ → StaleReason
clear_stale_project_registry_lock host minimum_age_ms =
    if not host.linux || not (leb minimum_age_ms max_safe_integer) || ltb minimum_age_ms 1
    then lock_unreachable
    else elim host.directory [
      | none ↦ lock_unreachable
      | some d ↦ elim (safe_directory host.getuid false d) [
        | absent ↦ lock_absent
        | opened ↦ first_look host minimum_age_ms
        | invalid ↦ lock_unreachable
        | unavailable ↦ lock_unreachable
      ]
    ]

pub data RegistryLocationSource : Type 0 where
  default_state_home explicit_override : RegistryLocationSource

-- What the location depends on; `resolve` is that of the paths.
pub record Settings : Type 0 where
  pub registry_directory : Option Text
  pub registry_variable : Option Text
  pub home : Text
  pub state_home : Option Text
  pub resolve : Text → Text

-- `options.registryDirectory ?? process.env.MAZZY_REGISTRY_DIR`
abbrev pub chosen_override : Settings → Option Text
chosen_override s = elim s.registry_directory [ some d ↦ some d | none ↦ s.registry_variable ]

-- `process.env.XDG_STATE_HOME || join(home, ".local", "state")`
abbrev pub state_directory : Settings → Text
state_directory s = elim s.state_home [
  | none ↦ s.home ++ codes "/.local/state"
  | some d ↦ if is_empty d then s.home ++ codes "/.local/state" else d
]

unfoldable pub location : Settings → Result RegistryError (Text × RegistryLocationSource)
location s = elim (trim_or_none (chosen_override s)) [
  | some d ↦ ok (s.resolve d, explicit_override)
  | none ↦
      if is_empty s.home
      then err domain_error
      else ok (state_directory s ++ codes "/mazzy", default_state_home)
]

unfoldable pub resolve_registry_location_diagnostic : Settings → RegistryLocationSource
resolve_registry_location_diagnostic s = elim (location s) [
  | ok place ↦ place.1
  | err e ↦
      if is_some (trim_or_none s.registry_directory) || is_some (trim_or_none s.registry_variable)
      then explicit_override
      else default_state_home
]
