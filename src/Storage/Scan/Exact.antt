-- ===== src/Storage/Scan/Exact.antt =====
-- A scan of src/storage-policy.ts that returns has reported every regular file of the tree.
use mazzy_command_center.Storage.Scan.Bounded.{fresh_scan}
use mazzy_command_center.Storage.{StoragePolicy}
use mazzy_command_center.Storage.Scan.{
  StoragePolicy, new_scan_state, Node, link, special, vanished, regular, directory, Folder,
  unreadable, folder, Children, no_child, child, Found, ScannedRegularFile, ScanState, Fault,
  bounded, assert_within, count_file, inside, scan_regular_files, scan_children, scan_node,
}
use mathlib.Core.List.{append-nil, append_assoc}
use mazzy_command_center.AntiTunnel.{join_path}
use mazzy_command_center.Prelude.{
  ok_of_err, ℕ, ◌+◌, List, [], ◌∷◌, ◌++◌, none, some, ◌≡◌, ◌∙◌, inl, inr, sym, ap, Text, Result, ok,
  on_ok, ok-eq, Bool-cases, ◌||◌, leb, ltb,
}

-- The files that are regular by both of their `lstat`s, each with its path.
abbrev mutual
  pub regular_files : Folder → Text → List Found
  regular_files unreadable path = []
  regular_files (folder children) path = regular_children children path

  pub regular_children : Children → Text → List Found
  regular_children no_child path = []
  regular_children (child node rest) path = regular_node node path ++ regular_children rest path

  pub regular_node : Node → Text → List Found
  regular_node (regular name (some detail)) path = (join_path path name, detail) ∷ []
  regular_node (directory name real inner) path = regular_files inner real
  regular_node (regular name none) path = []
  regular_node (link name) path = []
  regular_node (special name) path = []
  regular_node (vanished name) path = []

bounded-seen : (clock : ℕ → ℕ) (s t : ScanState) → bounded clock s ≡ ok t → t.seen ≡ s.seen
unfolding bounded
bounded-seen clock s t h = elim (Bool-cases (ltb (s.started + s.max_duration_ms) (clock s.reads))) [
  | inl late ↦ absurd (ok_of_err (rw late at h))
  | inr early ↦ ap (λ (u : ScanState). u.seen) (sym (ok-eq (rw early at h)))
]

assert_within-same :
    (root candidate : Text) (s t : ScanState) → assert_within root candidate s ≡ ok t → s ≡ t
unfolding assert_within
assert_within-same root candidate s t h = elim (Bool-cases (inside root candidate)) [
  | inl within ↦ ok-eq (rw within at h)
  | inr outside ↦ absurd (ok_of_err (rw outside at h))
]

count_file-seen :
    (path : Text) (detail : ScannedRegularFile) (s t : ScanState)
    → count_file path detail s ≡ ok t
    → t.seen ≡ s.seen ++ (path, detail) ∷ []
unfolding count_file
count_file-seen path detail s t h =
    elim (Bool-cases (leb s.max_files s.files || ltb s.max_bytes (s.bytes + detail.size))) [
      | inl full ↦ absurd (ok_of_err (rw full at h))
      | inr room ↦ ap (λ (u : ScanState). u.seen) (sym (ok-eq (rw room at h)))
    ]

unchanged :
    (s t : ScanState) → ◌≡◌ {A = Result Fault ScanState} (ok s) (ok t) → t.seen ≡ s.seen ++ []
unchanged s t h = rw append-nil (ap (λ (u : ScanState). u.seen) (sym (ok-eq h)))

module _ (clock : ℕ → ℕ) (root : Text) where
  mutual
    unfolding scan_regular_files scan_children scan_node

    -- A scan that returns has reported, in their order and after what it had reported before,
    -- exactly the regular files of the tree.
    scan_regular_files-seen :
        (inner : Folder) (path : Text) (s t : ScanState)
        → scan_regular_files clock root inner path s ≡ ok t
        → t.seen ≡ s.seen ++ regular_files inner path
    scan_regular_files-seen unreadable path s t h =
        on_ok (bounded clock s) h
          λ u _ h1. on_ok (assert_within root path u) h1 λ v _ h2. absurd (ok_of_err h2)
    scan_regular_files-seen (folder children) path s t h = on_ok (bounded clock s) h λ u timed h1.
        on_ok (assert_within root path u) h1 λ v within h2.
          let start : v.seen ≡ s.seen =
            ap (λ (u : ScanState). u.seen) (sym (assert_within-same root path u v within))
            ∙ bounded-seen clock s u timed in
          rw (scan_children-seen children path v t h2, start)

    scan_children-seen :
        (children : Children) (path : Text) (s t : ScanState)
        → scan_children clock root children path s ≡ ok t
        → t.seen ≡ s.seen ++ regular_children children path
    scan_children-seen no_child path s t h = unchanged s t h
    scan_children-seen (child node rest) path s t h = on_ok (bounded clock s) h λ u timed h1.
        on_ok (scan_node clock root node path u) h1 λ v visited h2. rw (
          scan_children-seen rest path v t h2,
          scan_node-seen node path u v visited,
          bounded-seen clock s u timed,
          append_assoc,
        )

    scan_node-seen :
        (node : Node) (path : Text) (s t : ScanState)
        → scan_node clock root node path s ≡ ok t
        → t.seen ≡ s.seen ++ regular_node node path
    scan_node-seen (link name) path s t h = unchanged s t h
    scan_node-seen (special name) path s t h = unchanged s t h
    scan_node-seen (vanished name) path s t h = absurd (ok_of_err h)
    scan_node-seen (regular name none) path s t h = unchanged s t h
    scan_node-seen (regular name (some detail)) path s t h =
        count_file-seen (join_path path name) detail s t h
    scan_node-seen (directory name real inner) path s t h =
        on_ok (assert_within root real s) h λ u within h1.
          rw (scan_regular_files-seen inner real u t h1, assert_within-same root real s u within)

-- A scan from a fresh state that returns has reported, in their order, exactly the regular
-- files of the tree.
pub fresh_scan-seen :
    (clock : ℕ → ℕ) (policy : StoragePolicy) (max_duration_ms reads : ℕ) (inner : Folder)
    (path : Text) (s : ScanState)
    → fresh_scan clock policy max_duration_ms reads inner path ≡ ok s
    → s.seen ≡ regular_files inner path
unfolding new_scan_state
fresh_scan-seen clock policy max_duration_ms reads inner path s h =
    scan_regular_files-seen clock path inner path
      (new_scan_state clock policy max_duration_ms reads) s h
