-- ===== src/Storage/Scan/Bounded.antt =====
-- The counters of a scan of src/storage-policy.ts.
use mazzy_command_center.AntiTunnel.{join_path}
use mazzy_command_center.Storage.{StoragePolicy}
use mazzy_command_center.Storage.Scan.{
  no_child, unreadable, directory, regular, vanished, special, link, Node, child, Children, folder,
  scan_node, Folder, scan_children, ScanState, new_scan_state, scan_regular_files, inside,
  ScannedRegularFile, Found, assert_within, count_file, bounded, Fault,
}
use mazzy_command_center.Prelude.{
  ap, ◌∙◌, ℕ, suc, ◌+◌, List, [], ◌∷◌, ◌++◌, none, some, ◌≡◌, ◌≤◌, inl, inr, refl, arith, Text,
  Result, ok, err, Bool-cases, ◌>>=◌, length, ◌||◌, leb, ltb,
}

abbrev pub total_size : List Found → ℕ
total_size [] = 0
total_size (f ∷ fs) = f.1.size + total_size fs

-- What a scan counted is what it reported, and within its bounds.
pub record IsCounted (s : ScanState) : Type 0 where
  pub few : s.files ≤ s.max_files
  pub small : s.bytes ≤ s.max_bytes
  pub files_seen : length s.seen ≡ s.files
  pub bytes_seen : total_size s.seen ≡ s.bytes

-- The state at the end of a scan, whether it returned or threw.
abbrev pub end_of : Result Fault ScanState → ScanState
end_of (ok s) = s
end_of (err e) = e.at

-- What holds of a scan's end: the counters are right, and the bounds are the ones of its start.
pub record Kept (s t : ScanState) : Type 0 where
  pub counted : IsCounted t
  pub same_files : t.max_files ≡ s.max_files
  pub same_bytes : t.max_bytes ≡ s.max_bytes

kept : (s : ScanState) → IsCounted s → Kept s s
kept s c = record { counted = c; same_files = refl; same_bytes = refl }

-- The rule of a chain: each part keeps the counters.
then-Kept :
    (m : Result Fault ScanState) (f : ScanState → Result Fault ScanState) (s : ScanState)
    → Kept s (end_of m)
    → ((t : ScanState) → Kept s t → Kept s (end_of (f t)))
    → Kept s (end_of (m >>= f))
then-Kept (ok t) f s k rest = rest t k
then-Kept (err e) f s k rest = k

onto : (s t u : ScanState) → Kept s t → Kept t u → Kept s u
onto s t u k l = record {
  counted = l.counted;
  same_files = l.same_files ∙ k.same_files;
  same_bytes = l.same_bytes ∙ k.same_bytes;
}

bounded-Kept : (clock : ℕ → ℕ) (s : ScanState) → IsCounted s → Kept s (end_of (bounded clock s))
unfolding bounded
bounded-Kept clock s c = elim (Bool-cases (ltb (s.started + s.max_duration_ms) (clock s.reads))) [
  | inl late ↦ rw late (record { counted = again; same_files = refl; same_bytes = refl })
  | inr early ↦ rw early (record { counted = again; same_files = refl; same_bytes = refl })
]
  where
    again : IsCounted (record s { reads = suc s.reads })
    again = record {
      few = c.few;
      small = c.small;
      files_seen = c.files_seen;
      bytes_seen = c.bytes_seen;
    }

assert_within-Kept :
    (root candidate : Text) (s : ScanState)
    → IsCounted s
    → Kept s (end_of (assert_within root candidate s))
unfolding assert_within
assert_within-Kept root candidate s c = elim (Bool-cases (inside root candidate)) [
  | inl within ↦ rw within (kept s c)
  | inr outside ↦ rw outside (kept s c)
]

pub length_last : (fs : List Found) (f : Found) → length (fs ++ f ∷ []) ≡ suc (length fs)
length_last [] f = refl
length_last (g ∷ fs) f = omega (arith, length_last fs f)

pub total_size_last :
    (fs : List Found) (f : Found) → total_size (fs ++ f ∷ []) ≡ total_size fs + f.1.size
total_size_last [] f = omega arith
total_size_last (g ∷ fs) f = omega (arith, total_size_last fs f)

count_file-Kept :
    (path : Text) (detail : ScannedRegularFile) (s : ScanState)
    → IsCounted s
    → Kept s (end_of (count_file path detail s))
unfolding count_file
count_file-Kept path detail s c =
    elim (Bool-cases (leb s.max_files s.files || ltb s.max_bytes (s.bytes + detail.size))) [
      | inl full ↦ rw full (kept s c)
      | inr room ↦ rw room (record {
        counted = record {
          few = ground arith;
          small = ground arith;
          files_seen = length_last s.seen (path, detail) ∙ ap suc c.files_seen;
          bytes_seen = omega (arith, total_size_last s.seen (path, detail), c.bytes_seen);
        };
        same_files = refl;
        same_bytes = refl;
      })
    ]

module _ (clock : ℕ → ℕ) (root : Text) where
  mutual
    unfolding scan_regular_files scan_children scan_node

    scan_regular_files-Kept :
        (inner : Folder) (path : Text) (s : ScanState)
        → IsCounted s
        → Kept s (end_of (scan_regular_files clock root inner path s))
    scan_regular_files-Kept unreadable path s c =
        then-Kept (bounded clock s) _ s (bounded-Kept clock s c) λ t k.
          then-Kept (assert_within root path t) _ s
            (onto s t _ k (assert_within-Kept root path t k.counted)) λ u l. l
    scan_regular_files-Kept (folder children) path s c =
        then-Kept (bounded clock s) _ s (bounded-Kept clock s c) λ t k.
          then-Kept (assert_within root path t) _ s
            (onto s t _ k (assert_within-Kept root path t k.counted))
            λ u l. onto s u _ l (scan_children-Kept children path u l.counted)

    scan_children-Kept :
        (children : Children) (path : Text) (s : ScanState)
        → IsCounted s
        → Kept s (end_of (scan_children clock root children path s))
    scan_children-Kept no_child path s c = kept s c
    scan_children-Kept (child node rest) path s c =
        then-Kept (bounded clock s) _ s (bounded-Kept clock s c) λ t k.
          then-Kept (scan_node clock root node path t) _ s
            (onto s t _ k (scan_node-Kept node path t k.counted))
            λ u l. onto s u _ l (scan_children-Kept rest path u l.counted)

    scan_node-Kept :
        (node : Node) (path : Text) (s : ScanState)
        → IsCounted s
        → Kept s (end_of (scan_node clock root node path s))
    scan_node-Kept (link name) path s c = kept s c
    scan_node-Kept (special name) path s c = kept s c
    scan_node-Kept (vanished name) path s c = kept s c
    scan_node-Kept (regular name none) path s c = kept s c
    scan_node-Kept (regular name (some detail)) path s c =
        count_file-Kept (join_path path name) detail s c
    scan_node-Kept (directory name real inner) path s c =
        then-Kept (assert_within root real s) _ s (assert_within-Kept root real s c)
          λ t k. onto s t _ k (scan_regular_files-Kept inner real t k.counted)

-- A scan that starts from a fresh state.
abbrev pub fresh_scan : (ℕ → ℕ) → StoragePolicy → ℕ → ℕ → Folder → Text → Result Fault ScanState
fresh_scan clock policy max_duration_ms reads inner path =
    scan_regular_files clock path inner path (new_scan_state clock policy max_duration_ms reads)

-- A scan from a fresh state, whether it returns or throws, has reported no more files and no
-- more bytes than the policy allows, and its counters are those of the files that it reported.
pub fresh_scan-counted :
    (clock : ℕ → ℕ) (policy : StoragePolicy) (max_duration_ms reads : ℕ) (inner : Folder)
    (path : Text)
    → let s = end_of (fresh_scan clock policy max_duration_ms reads inner path) in
      (length s.seen ≤ policy.scan_max_files)
      × (total_size s.seen ≤ policy.scan_max_bytes)
      × (length s.seen ≡ s.files)
      × (total_size s.seen ≡ s.bytes)
unfolding new_scan_state
fresh_scan-counted clock policy max_duration_ms reads inner path =
    let k =
      scan_regular_files-Kept clock path inner path
        (new_scan_state clock policy max_duration_ms reads)
        (record { few = omega arith; small = omega arith; files_seen = refl; bytes_seen = refl }) in
    (
      omega (arith, k.counted.few, k.counted.files_seen, k.same_files),
      omega (arith, k.counted.small, k.counted.bytes_seen, k.same_bytes),
      k.counted.files_seen,
      k.counted.bytes_seen,
    )
