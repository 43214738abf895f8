-- ===== src/Endpoint/Trust.antt =====
-- The tests of real files and directories in src/control-endpoint.ts, and of the directory of the
-- recovery images in src/control-migrate.ts. What `lstat`, `stat` and `realpath` return is data.
use mazzy_command_center.Prelude.{
  refl, ◌≡◌, ℕ, Bool, true, false, Option, none, some, ◌&&◌, ◌||◌, not, ◌==◌, Text, codes, text_eq,
  any_where,
}

-- What `lstatSync` shows: that it throws, or the kind of what is there.
pub data Seen : Type 0 where
  cannot_see regular_file directory link other_kind : Seen

unfoldable pub real_file : Seen → Bool
real_file regular_file = true
real_file _ = false

unfoldable pub real_directory : Seen → Bool
real_directory directory = true
real_directory _ = false

-- The device and the inode that `statSync` returns, where it does not throw.
pub record FileId : Type 0 where
  pub device : ℕ
  pub inode : ℕ

unfoldable pub same_file : Option FileId → Option FileId → Bool
same_file (some x) (some y) = x.device == y.device && x.inode == y.inode
same_file _ _ = false

abbrev pub is_path : Text → Option Text → Bool
is_path path none = false
is_path path (some real) = text_eq real path

-- The control directory is real, and no part of its path is a link.
unfoldable pub trusted_control_dir : Text → Seen → Option Text → Bool
trusted_control_dir path seen real = real_directory seen && is_path path real

-- What is seen of `.mazzy` and of its child `backups`, which `mkdirSync` may have to make.
pub record BackupsSeen : Type 0 where
  pub mazzy_path : Text
  pub mazzy : Seen
  pub mazzy_real : Option Text
  pub backups_exist : Bool
  pub makes_backups : Bool
  pub backups : Seen
  -- The real path of `backups`, relative to that of `.mazzy`.
  pub contained : Option Text

unfoldable pub trusted_backups_root : BackupsSeen → Bool → Bool
trusted_backups_root seen create =
    real_directory seen.mazzy
    && is_path seen.mazzy_path seen.mazzy_real
    && (seen.backups_exist || create && seen.makes_backups)
    && real_directory seen.backups
    && is_path (codes "backups") seen.contained

-- A child of `backups`, with its real path relative to that of its parent.
pub record ChildSeen : Type 0 where
  pub child : Seen
  pub relative : Option Text

abbrev pub is_separator : ℕ → Bool
is_separator unit = unit == 47 || unit == 92

unfoldable pub trusted_backup_child : Text → ChildSeen → Bool
trusted_backup_child name seen =
    not (any_where is_separator name || text_eq name (codes ".") || text_eq name (codes ".."))
    && real_directory seen.child
    && is_path name seen.relative

-- Whether the directory of an image is there; `makes` says that `mkdirSync` has made it.
unfoldable pub create_backup_directory : BackupsSeen → Bool → Text → ChildSeen → Bool
create_backup_directory seen makes name child =
    trusted_backups_root seen true && makes && trusted_backup_child name child

-- A linked directory is not trusted, nor is a real one behind a link.
linked_child :
    trusted_backup_child
      (codes "pre-apply-1")
      (record { child = link; relative = some (codes "pre-apply-1") })
    ≡ false
unfolding trusted_backup_child real_directory any_where text_eq
linked_child = refl

moved_child :
    trusted_backup_child
      (codes "pre-apply-1")
      (record { child = directory; relative = some (codes "../pre-apply-1") })
    ≡ false
unfolding trusted_backup_child real_directory any_where text_eq
moved_child = refl
