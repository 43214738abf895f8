-- ===== src/Storage/Scan.antt =====
-- `scanRegularFiles` and `safeDirectory` of src/storage-policy.ts. The file system is what its calls
-- return: a folder is the tree that `readdirSync` and `lstatSync` show, and the clock is a function
-- of the number of times that it was read. An exception carries the state at which it was thrown.
pub mod Exact
pub mod Bounded
use mazzy_command_center.Storage.{
  StorageError, not_real_directory, path_escapes, time_bound, scan_bound, io_error, StoragePolicy,
}
use mazzy_command_center.AntiTunnel.{join_path}
use mazzy_command_center.Prelude.{
  ℕ, suc, ◌+◌, Bool, true, false, List, [], ◌∷◌, ◌++◌, Option, none, some, ◌&&◌, ◌||◌, ltb, leb,
  ◌==◌, if◌then◌else◌, Text, codes, text_eq, Result, ok, err, ◌>>=◌, ◌>>◌, guard,
}

pub record ScannedRegularFile : Type 0 where
  pub size : ℕ
  pub dev : ℕ
  pub ino : ℕ
  pub mtime_ns : ℕ

-- An entry by its first `lstat`; a regular file has its second one too, which may find that it is
-- regular no longer; a directory has its real path.
mutual
  pub data Node : Type 0 where
    link special vanished : Text → Node
    regular : Text → Option ScannedRegularFile → Node
    directory : Text → Text → Folder → Node

  pub data Folder : Type 0 where
    unreadable : Folder
    folder : Children → Folder

  pub data Children : Type 0 where
    no_child : Children
    child : Node → Children → Children

abbrev pub Found : Type 0
Found = Text × ScannedRegularFile

-- The state of a scan, with the calls of `onFile` so far and the number of readings of the clock.
pub record ScanState : Type 0 where
  pub files : ℕ
  pub bytes : ℕ
  pub max_files : ℕ
  pub max_bytes : ℕ
  pub started : ℕ
  pub max_duration_ms : ℕ
  pub seen : List Found
  pub reads : ℕ

pub record Fault : Type 0 where
  pub error : StorageError
  pub at : ScanState

unfoldable pub new_scan_state : (ℕ → ℕ) → StoragePolicy → ℕ → ℕ → ScanState
new_scan_state clock policy max_duration_ms reads = record {
  files = 0;
  bytes = 0;
  max_files = policy.scan_max_files;
  max_bytes = policy.scan_max_bytes;
  started = clock reads;
  max_duration_ms = max_duration_ms;
  seen = [];
  reads = suc reads;
}

-- `candidate.startsWith(prefix)`
unfoldable pub starts_with : Text → Text → Bool
starts_with candidate [] = true
starts_with [] (b ∷ t) = false
starts_with (a ∷ s) (b ∷ t) = (a == b) && starts_with s t

unfoldable pub inside : Text → Text → Bool
inside root candidate = text_eq candidate root || starts_with candidate (root ++ codes "/")

unfoldable pub bounded : (ℕ → ℕ) → ScanState → Result Fault ScanState
bounded clock s =
    let t = record s { reads = suc s.reads } in
    if ltb (s.started + s.max_duration_ms) (clock s.reads)
    then err (record { error = time_bound; at = t })
    else ok t

unfoldable pub assert_within : Text → Text → ScanState → Result Fault ScanState
assert_within root candidate s =
    if inside root candidate then ok s else err (record { error = path_escapes; at = s })

-- The counters and the call of `onFile` for one regular file.
unfoldable pub count_file : Text → ScannedRegularFile → ScanState → Result Fault ScanState
count_file path detail s =
    if leb s.max_files s.files || ltb s.max_bytes (s.bytes + detail.size)
    then err (record { error = scan_bound; at = s })
    else ok (record s {
      files = suc s.files;
      bytes = s.bytes + detail.size;
      seen = s.seen ++ (path, detail) ∷ [];
    })

module _ (clock : ℕ → ℕ) (root : Text) where
  unfoldable mutual
    pub scan_regular_files : Folder → Text → ScanState → Result Fault ScanState
    scan_regular_files unreadable path s = do
      t ← bounded clock s
      u ← assert_within root path t
      err (record { error = io_error; at = u })
    scan_regular_files (folder children) path s = do
      t ← bounded clock s
      u ← assert_within root path t
      scan_children children path u

    pub scan_children : Children → Text → ScanState → Result Fault ScanState
    scan_children no_child path s = ok s
    scan_children (child node rest) path s = do
      t ← bounded clock s
      u ← scan_node node path t
      scan_children rest path u

    pub scan_node : Node → Text → ScanState → Result Fault ScanState
    scan_node (link name) path s = ok s
    scan_node (special name) path s = ok s
    scan_node (vanished name) path s = err (record { error = io_error; at = s })
    scan_node (regular name none) path s = ok s
    scan_node (regular name (some detail)) path s = count_file (join_path path name) detail s
    scan_node (directory name real inner) path s = do
      t ← assert_within root real s
      scan_regular_files inner real t

-- What a path is by `existsSync` and `lstatSync`; a directory has its real path.
pub data PathKind : Type 0 where
  missing not_directory : PathKind
  real_directory : Text → PathKind

-- The file system, as a scan of the project finds it.
pub record FileSystem : Type 0 where
  pub kind : Text → PathKind
  pub listing : Text → Folder

-- `directory.split("/")`: the first part, and the others.
abbrev pub split_parts : Text → Text × List Text
split_parts [] = ([], [])
split_parts (c ∷ s) =
    let rest = split_parts s in if c == 47 then ([], rest.0 ∷ rest.1) else (c ∷ rest.0, rest.1)

unfoldable pub enter : (Text → PathKind) → Text → Text → Result StorageError (Option Text)
enter kind root path = elim (kind path) [
  | missing ↦ ok none
  | not_directory ↦ err not_real_directory
  | real_directory real ↦ if inside root real then ok (some real) else err path_escapes
]

unfoldable pub walk_parts :
    (Text → PathKind) → Text → Text → List Text → Result StorageError (Option Text)
walk_parts kind root current [] = ok (some current)
walk_parts kind root current (part ∷ parts) = do
  entered ← enter kind root (join_path current part)
  elim entered [ none ↦ ok none | some real ↦ walk_parts kind root real parts ]

unfoldable pub safe_directory : (Text → PathKind) → Text → Text → Result StorageError (Option Text)
safe_directory kind root name = do
  mazzy ← enter kind root (join_path root (codes ".mazzy"))
  let parts = split_parts name
  elim mazzy [ none ↦ ok none | some real ↦ walk_parts kind real real (parts.0 ∷ parts.1) ]
