-- ===== src/AntiTunnel/Scan.antt =====
-- The scan of src/anti-tunnel.ts is bounded.
use mathlib.Core.Path.{subst}
use mazzy_command_center.AntiTunnel.{
  unreadable, folder, no_child, child, link, other, file, directory,
}
use mazzy_command_center.AntiTunnel.{
  join_path, is_skipped, directory, file, other, link, Node, child, Children, folder, visit_child,
  Folder, visit_children, is_full, scan_stores, visit, family_of, max_depth, max_candidates,
  ScanState, FoundStore, see_file,
}
use Prim.Native.Nat.{◌≤◌}
use mazzy_command_center.Prelude.{
  ◌+◌, ℕ, suc, Bool, true, false, List, [], ◌∷◌, ◌++◌, ◌≡◌, inl, inr, refl, arith, Text, codes,
  length, Bool-cases, Option-cases, ltb, ◌||◌, ◌&&◌, text_eq,
}

length_snoc {ℓ} : {A : Type ℓ} (xs : List A) (x : A) → length (xs ++ x ∷ []) ≡ suc (length xs)
length_snoc [] x = refl
length_snoc (y ∷ xs) x = omega (arith, length_snoc xs x)

-- A store that lies a number of directories below the children of a directory.
pub data IsStore : Children → Text → ℕ → Text → Type 0 where
  here :
      (name dir : Text) (rest : Children)
      → text_eq name (codes "state.db") ≡ true
      → IsStore (child (file name) rest) dir 0 (join_path dir name)
  below :
      (name dir path : Text) (real : Bool) (inner rest : Children) (n : ℕ)
      → IsStore inner (join_path dir name) n path
      → IsStore (child (directory name (folder real inner)) rest) dir (suc n) path
  later :
      (node : Node) (rest : Children) (dir path : Text) (n : ℕ)
      → IsStore rest dir n path
      → IsStore (child node rest) dir n path

abbrev pub LiesIn : Folder → Text → ℕ → Text → Type 0
LiesIn unreadable dir n path = ⊥
LiesIn (folder real children) dir n path = IsStore children dir n path

pub data Every {ℓ κ} {A : Type ℓ} (P : A → Type κ) : List A → Type (ℓ ⊔ κ) where
  none_left : Every P []
  one_more : (x : A) (xs : List A) → P x → Every P xs → Every P (x ∷ xs)

Every-snoc :
    (P : FoundStore → Type 0) (xs : List FoundStore) (x : FoundStore)
    → Every P xs
    → P x
    → Every P (xs ++ x ∷ [])
Every-snoc P [] x none_left last = one_more x [] last none_left
Every-snoc P (y ∷ xs) x (one_more _ _ first rest) last =
    one_more y (xs ++ x ∷ []) first (Every-snoc P xs x rest last)

-- A store that is found lies as deep as it is reported to, and no deeper than the limit.
abbrev pub IsNear : Folder → Text → FoundStore → Type 0
IsNear tree root f = LiesIn tree root f.depth f.path × (f.depth ≤ max_depth)

record IsBounded (P : FoundStore → Type 0) (s : ScanState) : Type 0 where
  few : length s.found ≤ max_candidates
  near : Every P s.found

not_full-room : (s : ScanState) → is_full s ≡ false → suc (length s.found) ≤ max_candidates
not_full-room s h = ground arith

-- What is to hold of each store that is found holds of those that lie below.
abbrev Covers : (FoundStore → Type 0) → Children → Text → ℕ → Type 0
Covers P children dir depth =
    (f : FoundStore) (n : ℕ)
    → IsStore children dir n f.path
    → f.depth ≡ depth + n
    → f.depth ≤ max_depth
    → P f

abbrev pub CoversIn : (FoundStore → Type 0) → Folder → Text → ℕ → Type 0
CoversIn P inside dir depth =
    (f : FoundStore) (n : ℕ)
    → LiesIn inside dir n f.path
    → f.depth ≡ depth + n
    → f.depth ≤ max_depth
    → P f

below_in :
    (inside : Folder) (name dir path : Text) (rest : Children) (n : ℕ)
    → LiesIn inside (join_path dir name) n path
    → IsStore (child (directory name inside) rest) dir (suc n) path
below_in unreadable name dir path rest n lies = absurd lies
below_in (folder real inner) name dir path rest n lies = below name dir path real inner rest n lies

module _ (P : FoundStore → Type 0) where
  IsBounded-seen :
      (s : ScanState) → IsBounded P s → IsBounded P (record s { entries = suc s.entries })
  IsBounded-seen s b = record { few = b.few; near = b.near }

  see_file-IsBounded :
      (real : Bool) (dir : Text) (depth : ℕ) (name : Text) (rest : Children) (s : ScanState)
      → suc (length s.found) ≤ max_candidates
      → depth ≤ max_depth
      → Covers P (child (file name) rest) dir depth
      → IsBounded P s
      → IsBounded P (see_file real dir depth name s)
  unfolding see_file
  see_file-IsBounded real dir depth name rest s room shallow covers b =
      elim (Bool-cases (text_eq name (codes "state.db") && real)) [
        | inr no_state ↦ rw no_state b
        | inl state ↦ elim (Option-cases (family_of dir)) [
          | inl no_family ↦ rw (state, no_family) b
          | inr (family, known) ↦
              rw (state, known)
                (record {
                  few = omega (arith, length_snoc s.found _);
                  near =
                      Every-snoc P s.found _ b.near
                        (covers _ 0 (here name dir rest (ground arith)) (omega arith) shallow);
                })
        ]
      ]

  mutual
    unfolding visit visit_children visit_child

    visit-IsBounded :
        (inside : Folder) (dir : Text) (depth : ℕ) (s : ScanState)
        → CoversIn P inside dir depth
        → IsBounded P s
        → IsBounded P (visit inside dir depth s)
    visit-IsBounded unreadable dir depth s covers b = b
    visit-IsBounded (folder real children) dir depth s covers b =
        elim (Bool-cases (ltb max_depth depth || is_full s)) [
          | inl stop ↦ rw stop b
          | inr go_on ↦
              rw go_on (visit_children-IsBounded children real dir depth s (ground arith) covers b)
        ]

    visit_children-IsBounded :
        (children : Children) (real : Bool) (dir : Text) (depth : ℕ) (s : ScanState)
        → depth ≤ max_depth
        → Covers P children dir depth
        → IsBounded P s
        → IsBounded P (visit_children children real dir depth s)
    visit_children-IsBounded no_child real dir depth s shallow covers b = b
    visit_children-IsBounded (child node rest) real dir depth s shallow covers b =
        elim (Bool-cases (is_full s)) [
          | inl full ↦ rw full (IsBounded-seen s b)
          | inr room ↦ rw room (
              visit_children-IsBounded rest real dir depth _ shallow
                (λ f n lies. covers f n (later node rest dir f.path n lies))
                (visit_child-IsBounded node rest real dir depth
                  (record s { entries = suc s.entries }) (not_full-room s room) shallow covers
                  (IsBounded-seen s b)))
        ]

    visit_child-IsBounded :
        (node : Node) (rest : Children) (real : Bool) (dir : Text) (depth : ℕ) (s : ScanState)
        → suc (length s.found) ≤ max_candidates
        → depth ≤ max_depth
        → Covers P (child node rest) dir depth
        → IsBounded P s
        → IsBounded P (visit_child node real dir depth s)
    visit_child-IsBounded (link name) rest real dir depth s room shallow covers b = b
    visit_child-IsBounded (other name) rest real dir depth s room shallow covers b = b
    visit_child-IsBounded (file name) rest real dir depth s room shallow covers b =
        see_file-IsBounded real dir depth name rest s room shallow covers b
    visit_child-IsBounded (directory name inside) rest real dir depth s room shallow covers b =
        elim (Bool-cases (is_skipped name)) [
          | inl skipped ↦ rw skipped b
          | inr entered ↦ rw entered (
              visit-IsBounded inside (join_path dir name) (suc depth) s
                (λ f n lies deep.
                  covers f (suc n) (below_in inside name dir f.path rest n lies)
                    (omega (arith, deep)))
                b)
        ]

IsNear-visit :
    (tree : Folder) (root : Text)
    → IsBounded (IsNear tree root) (visit tree root 0 (record { entries = 0; found = [] }))
IsNear-visit tree root =
    visit-IsBounded (IsNear tree root) tree root 0 (record { entries = 0; found = [] })
      (λ f n lies deep limit.
        let same : n ≡ f.depth = omega (arith, deep) in
        (subst (λ m. LiesIn tree root m f.path) same lies, limit))
      (record { few = omega arith; near = none_left })

-- Whatever the tree, a scan finds at most 128 stores, and each of them is a file of the name
-- state.db in the tree, as many directories below the root as it is reported to be, at most
-- ten.
pub scan_stores-bounded :
    (tree : Folder) (root : Text)
    → (length (scan_stores tree root) ≤ 128) × Every (IsNear tree root) (scan_stores tree root)
unfolding scan_stores
scan_stores-bounded tree root = let b = IsNear-visit tree root in (b.few, b.near)
